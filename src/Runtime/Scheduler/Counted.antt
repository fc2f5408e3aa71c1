-- ===== src/Runtime/Scheduler/Counted.antt =====
-- The workers' queue sizes, which are read without a lock, and the lengths of their queues.
use aithon.Prelude.{
  ℕ, zero, suc, ◌%◌, ◌≡◌, refl, ap, Bool, true, false, List, [], ◌∷◌, arith, inl, inr, Bool-cases,
  Option-cases, All, length, length-append, get_elem?, ◌==◌, if◌then◌else◌,
}
use aithon.Runtime.Actor.{ActorProcess, Behavior, Message, execute_quantum, send, is_alive}
use aithon.Runtime.Heap.{word}
use aithon.Runtime.Scheduler.{
  Phase, idle, took, ran, seeks, Worker, Scheduler, init, new_workers, update, push_back,
  schedule_actor, find_actor, get_next_actor, get_next, pop_front, stop, stop_all, spawn_on,
  send_message, count_sent, kill_actor,
}
use aithon.Runtime.Scheduler.Queues.{reverse, robbed-Robbery}
use aithon.Runtime.Scheduler.Rounds.{
  set_phase, run, run_taken, reschedule, finish_round, put_down, goes_back, seek, steal_work,
  should_steal_work, is_seeking, phase_of, robbed, enriched,
}
use aithon.Runtime.Scheduler.Steps.{
  Step, Reach, here, after, spawns, sends, kills, shuts_down, takes, runs, reschedules, steals,
}

-- The queue size is the length of the queue, as a `size_t`.
abbrev pub Counted : Worker → Type 0
Counted w = w.queue_size ≡ length w.run_queue % word

abbrev pub AllCounted : List Worker → Type 0
AllCounted ws = All Counted ws

Counted-update :
    (ws : List Worker) (i : ℕ) (f : Worker → Worker)
    → ((w : Worker) → Counted w → Counted (f w))
    → AllCounted ws
    → AllCounted (update ws i f)
unfolding update
Counted-update [] i f h c = c
Counted-update (w ∷ ws) zero f h c = (h w c.0, c.1)
Counted-update (w ∷ ws) (suc i) f h c = (c.0, Counted-update ws i f h c.1)

Counted-push_back : (pid : ℕ) (w : Worker) → Counted w → Counted (push_back w pid)
Counted-push_back pid w c = omega (arith, c, length-append w.run_queue (pid ∷ []))

Counted-pop_front :
    (w : Worker) (q : List ℕ) → w.run_queue ≡ q → Counted w → Counted (pop_front w q)
Counted-pop_front w [] e c = c
Counted-pop_front w (x ∷ q) e c = omega (arith, c, ap length e)

Counted-get_next : (w : Worker) (p : Phase) → Counted w → Counted (get_next p w)
Counted-get_next w idle c = pop_if w.running
  where
    pop_if : (on : Bool) → Counted (if on then pop_front w w.run_queue else w)
    pop_if true = Counted-pop_front w w.run_queue refl c
    pop_if false = c
Counted-get_next w _ c = c

length-reverse : (xs : List ℕ) → length (reverse xs) ≡ length xs
length-reverse [] = refl
length-reverse (x ∷ xs) = omega (arith, length-append (reverse xs) (x ∷ []), length-reverse xs)

Counted-robbed : (w : Worker) → Counted w → Counted (robbed w)
unfolding robbed
Counted-robbed w c =
    let r = robbed-Robbery w w in
    omega (
      arith,
      c,
      ap length r.whole,
      r.half,
      ap length r.victim_queue,
      length-append r.keep (reverse r.moved),
      length-reverse r.moved,
    )

Counted-enriched : (victim w : Worker) → Counted w → Counted (enriched victim w)
unfolding enriched
Counted-enriched victim w c =
    let r = robbed-Robbery w victim in
    omega (arith, c, r.half, ap length r.thief_queue, length-append w.run_queue r.moved)

Counted-schedule_actor :
    (s : Scheduler) (pid worker_id : ℕ)
    → AllCounted s.workers
    → AllCounted (schedule_actor s pid worker_id).workers
unfolding schedule_actor
Counted-schedule_actor s pid worker_id c = elim (Option-cases (find_actor pid s.actors)) [
  | inl e ↦ rw (e, schedule_actor) c
  | inr (a, e) ↦
      rw (e, schedule_actor)
        (Counted-update s.workers worker_id (λ w. push_back w pid) (Counted-push_back pid) c)
]

Counted-count_sent :
    (s : Scheduler) (pid : ℕ) (r : ActorProcess × Bool)
    → AllCounted s.workers
    → AllCounted (count_sent s pid r).0.workers
Counted-count_sent s pid (a, true) c = c
Counted-count_sent s pid (a, false) c = c

Counted-send_message :
    (s : Scheduler) (pid : ℕ) (msg : Message) (now : ℕ)
    → AllCounted s.workers
    → AllCounted (send_message s pid msg now).0.workers
unfolding send_message
Counted-send_message s pid msg now c = elim (Option-cases (find_actor pid s.actors)) [
  | inl e ↦ rw (e, send_message) c
  | inr (a, e) ↦ elim (Bool-cases (is_alive a)) [
    | inl on ↦ rw (e, send_message) (rw on (Counted-count_sent s pid (send a msg now) c))
    | inr off ↦ rw (e, send_message) (rw off c)
  ]
]

Counted-kill_actor :
    (s : Scheduler) (pid now : ℕ) → AllCounted s.workers → AllCounted (kill_actor s pid now).workers
unfolding kill_actor
Counted-kill_actor s pid now c = elim (Option-cases (find_actor pid s.actors)) [
  | inl e ↦ rw (e, kill_actor) c
  | inr (a, e) ↦ rw (e, kill_actor) c
]

Counted-stop_all : (ws : List Worker) → AllCounted ws → AllCounted (stop_all ws)
unfolding stop
Counted-stop_all [] c = c
Counted-stop_all (w ∷ ws) c = (c.0, Counted-stop_all ws c.1)

Counted-finish_round :
    (s : Scheduler) (worker_id : ℕ) (p : Phase)
    → AllCounted s.workers
    → AllCounted (finish_round s worker_id p).workers
Counted-finish_round s worker_id (ran pid again) c =
    elim (Bool-cases (goes_back again (find_actor pid s.actors))) [
      | inl back ↦ rw back (Counted-schedule_actor (put_down s worker_id) pid worker_id down)
      | inr stays ↦ rw stays down
    ]
  where
    down : AllCounted (put_down s worker_id).workers
    down = Counted-update s.workers worker_id (set_phase seeks) (λ w k. k) c
Counted-finish_round s worker_id _ c = c

Counted-steal_work :
    (s : Scheduler) (thief_id victim_id : ℕ)
    → AllCounted s.workers
    → AllCounted (steal_work s thief_id victim_id).workers
unfolding steal_work
Counted-steal_work s thief_id victim_id c = elim (Bool-cases (thief_id == victim_id)) [
  | inl e ↦ rw (e, steal_work) c
  | inr ne ↦ elim (Option-cases (get_elem? s.workers victim_id)) [
    | inl e ↦ rw (ne, steal_work) (rw e c)
    | inr (victim, e) ↦
        rw (ne, steal_work)
          (rw e (
            Counted-update (update s.workers victim_id robbed) thief_id (enriched victim)
              (Counted-enriched victim)
              (Counted-update s.workers victim_id robbed Counted-robbed c)))
  ]
]

Counted-seek :
    (s : Scheduler) (worker_id victim_id : ℕ)
    → AllCounted s.workers
    → AllCounted (seek s worker_id victim_id).workers
unfolding seek
Counted-seek s worker_id victim_id c =
    elim (Bool-cases (is_seeking (phase_of (get_elem? s.workers worker_id)))) [
      | inl at_end ↦ rw at_end (elim (Bool-cases (should_steal_work s worker_id)) [
        | inl some_work ↦ rw some_work (to_idle _ (Counted-steal_work s worker_id victim_id c))
        | inr no_work ↦ rw no_work (to_idle _ c)
      ])
      | inr elsewhere ↦ rw elsewhere c
    ]
  where
    to_idle : (ws : List Worker) → AllCounted ws → AllCounted (update ws worker_id (set_phase idle))
    to_idle ws k = Counted-update ws worker_id (set_phase idle) (λ w d. d) k

module _ (call : ℕ → Behavior) where
  Counted-run_taken :
      (s : Scheduler) (worker_id now : ℕ) (p : Phase)
      → AllCounted s.workers
      → AllCounted (run_taken call s worker_id now p).workers
  Counted-run_taken s worker_id now (took pid) c = elim (Option-cases (find_actor pid s.actors)) [
    | inl missing ↦ rw (missing, run_taken) c
    | inr (a, known) ↦
        rw (known, run_taken)
          (Counted-update s.workers worker_id (set_phase (ran pid (execute_quantum call a now).1))
            (λ w k. k) c)
  ]
  Counted-run_taken s worker_id now _ c = c

  Step-AllCounted : (s t : Scheduler) → Step call s t → AllCounted s.workers → AllCounted t.workers
  unfolding run reschedule spawn_on get_next_actor
  Step-AllCounted s _ (spawns behavior args heap_size chosen) c =
      Counted-schedule_actor _ s.next_pid chosen c
  Step-AllCounted s _ (sends to_pid msg now) c = Counted-send_message s to_pid msg now c
  Step-AllCounted s _ (kills pid now) c = Counted-kill_actor s pid now c
  Step-AllCounted s _ shuts_down c = Counted-stop_all s.workers c
  Step-AllCounted s _ (takes worker_id) c =
      Counted-update s.workers worker_id get_next_actor (λ w. Counted-get_next w w.phase) c
  Step-AllCounted s _ (runs worker_id now) c = Counted-run_taken s worker_id now _ c
  Step-AllCounted s _ (reschedules worker_id) c = Counted-finish_round s worker_id _ c
  Step-AllCounted s _ (steals worker_id victim_id) c = Counted-seek s worker_id victim_id c

new_workers-AllCounted : (n : ℕ) → AllCounted (new_workers n)
unfolding new_workers
new_workers-AllCounted zero = tt
new_workers-AllCounted (suc n) = (refl, new_workers-AllCounted n)

-- From a scheduler as it is built, whatever steps follow, each worker's queue size is the length of
-- its run queue, as a `size_t`.
pub reach-AllCounted :
    (call : ℕ → Behavior) (num_threads hardware : ℕ) (s : Scheduler)
    → Reach call (init num_threads hardware) s
    → AllCounted s.workers
unfolding init
reach-AllCounted call num_threads hardware s here = new_workers-AllCounted _
reach-AllCounted call num_threads hardware s (after {t} past step) =
    Step-AllCounted call t s step (reach-AllCounted call num_threads hardware t past)
