-- ===== src/Runtime/Scheduler/Shortest.antt =====
-- `spawn` by the queues themselves, and not by the sizes that the workers keep of them.
use aithon.Prelude.{
  ℕ, zero, suc, subst, ◌≤◌, ◌<◌, ◌≡◌, some, List, [], ◌∷◌, arith, All, length, get_elem?,
}
use aithon.Runtime.Actor.{Behavior}
use aithon.Runtime.Heap.{word}
use aithon.Runtime.Scheduler.{Worker, Scheduler, init, choose_worker, spawn, push_back}
use aithon.Runtime.Scheduler.Choice.{AtLeast, spawn-IsSmallest}
use aithon.Runtime.Scheduler.Counted.{AllCounted, reach-AllCounted}
use aithon.Runtime.Scheduler.Steps.{Reach}

-- Each queue is shorter than 2 ^ 64.
abbrev pub AllFit : List Worker → Type 0
AllFit ws = All (λ (w : Worker). length w.run_queue < word) ws

-- No queue is shorter than `n`.
abbrev pub NoneShorter : ℕ → List Worker → Type 0
NoneShorter n ws = All (λ (w : Worker). n ≤ length w.run_queue) ws

AtLeast-NoneShorter :
    (n : ℕ) (ws : List Worker) → AtLeast n ws → AllCounted ws → AllFit ws → NoneShorter n ws
AtLeast-NoneShorter n [] a c f = tt
AtLeast-NoneShorter n (w ∷ ws) a c f =
    (omega (arith, a.0, c.0, f.0), AtLeast-NoneShorter n ws a.1 c.1 f.1)

counted_at :
    (ws : List Worker) (i : ℕ) (w : Worker)
    → get_elem? ws i ≡ some w
    → AllCounted ws
    → AllFit ws
    → w.queue_size ≡ length w.run_queue
counted_at [] i w e c f = absurd (cc)
counted_at (v ∷ ws) zero w e c f =
    let v_is_w : v ≡ w = cc in
    subst (λ u. u.queue_size ≡ length u.run_queue) v_is_w (omega (arith, c.0, f.0))
counted_at (v ∷ ws) (suc i) w e c f = counted_at ws i w e c.1 f.1

-- In any state that a scheduler comes to while each queue is shorter than 2 ^ 64, a call of `spawn` with no
-- step of another thread between its start and its end puts the new actor at the end of the queue of one
-- worker, and no worker's queue was shorter than that one.
pub spawn_shortest :
    (call : ℕ → Behavior) (num_threads hardware : ℕ) (s : Scheduler) (v : Worker) (vs : List Worker)
    (behavior args heap_size : ℕ)
    → Reach call (init num_threads hardware) s
    → s.workers ≡ v ∷ vs
    → AllFit s.workers
    → (w : Worker) × (get_elem? s.workers (choose_worker s) ≡ some w)
      × NoneShorter (length w.run_queue) s.workers
      × (get_elem? (spawn s behavior args heap_size).0.workers (choose_worker s)
          ≡ some (push_back w s.next_pid))
spawn_shortest call num_threads hardware s v vs behavior args heap_size past e fit =
    let counted = reach-AllCounted call num_threads hardware s past in
    let small : v.queue_size < word = omega (arith, (subst AllCounted e counted).0) in
    let (w, least, placed) = spawn-IsSmallest s v vs behavior args heap_size e small in
    let size = counted_at s.workers (choose_worker s) w least.0 counted fit in
    (
      w,
      least.0,
      AtLeast-NoneShorter (length w.run_queue) s.workers
          (subst (λ n. AtLeast n s.workers) size least.1) counted fit,
      placed,
    )
