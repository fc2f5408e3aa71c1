-- ===== src/Runtime/Scheduler/Choice.antt =====
-- `choose_worker` and `spawn`: where a new actor goes.
use aithon.Prelude.{
  ℕ, zero, suc, ◌+◌, ◌≤◌, ◌<◌, ◌≡◌, ◌≢◌, inl, inr, refl, none, some, List, [], ◌∷◌, ◌++◌, arith,
  Bool-cases, Option-cases, All, get_elem?, ltb, ltb→lt, ◌==◌,
}
use aithon.Runtime.Heap.{word}
use aithon.Runtime.Actor.{ActorProcess, init as new_actor}
use aithon.Runtime.Scheduler.{
  Worker, Scheduler, find_actor, size_max, choose_from, choose_worker, schedule_actor, spawn,
  spawn_on, spawned, update, push_back,
}

-- No worker's queue size is below `n`.
abbrev pub AtLeast : ℕ → List Worker → Type 0
AtLeast n ws = All (λ (w : Worker). n ≤ w.queue_size) ws

-- What the loop ends with: the worker it came with, or one of the list that is smaller.
data Chosen (ws : List Worker) (i min_size chosen r : ℕ) : Type 0 where
  kept : r ≡ chosen → AtLeast min_size ws → Chosen ws i min_size chosen r
  found :
      (k : ℕ) (w : Worker)
      → r ≡ i + k
      → get_elem? ws k ≡ some w
      → w.queue_size < min_size
      → AtLeast w.queue_size ws
      → Chosen ws i min_size chosen r

later_smaller :
    (v : Worker) (vs : List Worker) (i min_size chosen r : ℕ)
    → v.queue_size < min_size
    → Chosen vs (i + 1) v.queue_size i r
    → Chosen (v ∷ vs) i min_size chosen r
later_smaller v vs i min_size chosen r lt (kept e all) =
    found 0 v (omega (arith, e)) refl lt (omega arith, all)
later_smaller v vs i min_size chosen r lt (found k w e g l all) =
    found (suc k) w (omega (arith, e)) g (omega (arith, l, lt)) (omega (arith, l), all)

later_kept :
    (v : Worker) (vs : List Worker) (i min_size chosen r : ℕ)
    → min_size ≤ v.queue_size
    → Chosen vs (i + 1) min_size chosen r
    → Chosen (v ∷ vs) i min_size chosen r
later_kept v vs i min_size chosen r le (kept e all) = kept e (le, all)
later_kept v vs i min_size chosen r le (found k w e g l all) =
    found (suc k) w (omega (arith, e)) g l (omega (arith, l, le), all)

choose_from-Chosen :
    (ws : List Worker) (i min_size chosen : ℕ)
    → Chosen ws i min_size chosen (choose_from ws i min_size chosen)
unfolding choose_from
choose_from-Chosen [] i min_size chosen = kept refl tt
choose_from-Chosen (v ∷ vs) i min_size chosen = elim (Bool-cases (ltb v.queue_size min_size)) [
  | inl lt ↦ rw lt (
      later_smaller v vs i min_size chosen _ (ltb→lt v.queue_size min_size lt)
        (choose_from-Chosen vs (i + 1) v.queue_size i))
  | inr ge ↦ rw ge (
      later_kept v vs i min_size chosen _ (ground arith)
        (choose_from-Chosen vs (i + 1) min_size chosen))
]

-- The worker at a place of the list, with no smaller queue size anywhere.
abbrev pub IsSmallest : List Worker → ℕ → Worker → Type 0
IsSmallest ws k w = (get_elem? ws k ≡ some w) × AtLeast w.queue_size ws

AtLeast-smaller : (m n : ℕ) (ws : List Worker) → m ≤ n → AtLeast n ws → AtLeast m ws
AtLeast-smaller m n [] le all = tt
AtLeast-smaller m n (w ∷ ws) le all = (omega (arith, le, all.0), AtLeast-smaller m n ws le all.1)

Chosen-IsSmallest :
    (v : Worker) (vs : List Worker) (r : ℕ)
    → v.queue_size ≤ size_max
    → Chosen (v ∷ vs) 0 size_max 0 r
    → (w : Worker) × IsSmallest (v ∷ vs) r w
Chosen-IsSmallest v vs r le (kept e all) =
    (v, (rw e refl, AtLeast-smaller v.queue_size size_max (v ∷ vs) le all))
Chosen-IsSmallest v vs r le (found k w e g l all) =
    let place : r ≡ k = omega (arith, e) in (w, (rw place g, all))

-- With at least one worker, and queue sizes in the range of `size_t`, `choose_worker` gives the
-- number of a worker, and no worker has a smaller queue size.
pub choose_worker-IsSmallest :
    (s : Scheduler) (v : Worker) (vs : List Worker)
    → s.workers ≡ v ∷ vs
    → v.queue_size < word
    → (w : Worker) × IsSmallest s.workers (choose_worker s) w
unfolding choose_worker
choose_worker-IsSmallest s v vs e lt =
    rw e (Chosen-IsSmallest v vs _ (omega arith) (choose_from-Chosen (v ∷ vs) 0 size_max 0))

pub find_actor-append :
    (pid : ℕ) (actors : List ActorProcess) (a : ActorProcess)
    → a.pid ≡ pid
    → find_actor pid (actors ++ a ∷ []) ≢ none
unfolding find_actor
find_actor-append pid [] a e = ground arith
find_actor-append pid (b ∷ actors) a e = elim (Bool-cases (b.pid == pid)) [
  | inl same ↦ rw same (λ k. cc)
  | inr other ↦ rw other (find_actor-append pid actors a e)
]

pub get_elem?-update :
    (ws : List Worker) (i : ℕ) (f : Worker → Worker) (w : Worker)
    → get_elem? ws i ≡ some w
    → get_elem? (update ws i f) i ≡ some (f w)
unfolding update
get_elem?-update [] i f w e = absurd (cc)
get_elem?-update (v ∷ ws) zero f w e = cc
get_elem?-update (v ∷ ws) (suc i) f w e = get_elem?-update ws i f w e

pub schedule_known :
    (s : Scheduler) (pid worker_id : ℕ)
    → find_actor pid s.actors ≢ none
    → (schedule_actor s pid worker_id).workers ≡ update s.workers worker_id (λ w. push_back w pid)
unfolding schedule_actor
schedule_known s pid worker_id known = elim (Option-cases (find_actor pid s.actors)) [
  | inl none_found ↦ absurd (known none_found)
  | inr (a, e) ↦ rw (e, schedule_actor) refl
]

schedule_places :
    (s : Scheduler) (pid worker_id : ℕ) (w : Worker)
    → find_actor pid s.actors ≢ none
    → get_elem? s.workers worker_id ≡ some w
    → get_elem? (schedule_actor s pid worker_id).workers worker_id ≡ some (push_back w pid)
schedule_places s pid worker_id w known e =
    rw (schedule_known s pid worker_id known)
      (get_elem?-update s.workers worker_id (λ w. push_back w pid) w e)

-- A new actor goes to the end of a queue that is as short as any, by the workers' queue sizes, and
-- that worker's queue size goes up by one.
pub spawn-IsSmallest :
    (s : Scheduler) (v : Worker) (vs : List Worker) (behavior args heap_size : ℕ)
    → s.workers ≡ v ∷ vs
    → v.queue_size < word
    → (w : Worker) × IsSmallest s.workers (choose_worker s) w
      × (get_elem? (spawn s behavior args heap_size).0.workers (choose_worker s)
          ≡ some (push_back w s.next_pid))
unfolding spawn spawn_on
spawn-IsSmallest s v vs behavior args heap_size e lt =
    let (w, least) = choose_worker-IsSmallest s v vs e lt in
    (
      w,
      least,
      schedule_places _ s.next_pid (choose_worker s) w
          (find_actor-append s.next_pid s.actors (spawned s.next_pid behavior args heap_size)
            spawned_pid)
          least.0,
    )
  where
    spawned_pid : (spawned s.next_pid behavior args heap_size).pid ≡ s.next_pid
    spawned_pid = unfold new_actor in refl
