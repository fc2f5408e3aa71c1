-- ===== src/Runtime/Scheduler/Rounds.antt =====
-- src/runtime/scheduler.cpp, `worker_loop`, `should_steal_work` and `steal_work`: what a worker does
-- with the actor that it took, up to the end of the round of its loop.
use aithon.Prelude.{
  ℕ, zero, suc, ◌+◌, ◌-◌, ◌/◌, ◌%◌, Bool, true, false, ◌&&◌, ◌||◌, not, Option, none, some, List,
  [], ◌∷◌, ◌++◌, length, get_elem?, ltb, ◌==◌, if◌then◌else◌,
}
use aithon.Runtime.Heap.{word}
use aithon.Runtime.Actor.{
  ActorProcess, ActorState, runnable, Behavior, execute_quantum, is_alive, reductions_per_slice,
}
use aithon.Runtime.Scheduler.{
  Phase, idle, took, ran, seeks, Worker, Scheduler, steal_threshold, find_actor, store_actor,
  update, schedule_actor,
}

-- The phase of a worker, `idle` for one that there is not.
abbrev pub phase_of : Option Worker → Phase
phase_of none = idle
phase_of (some w) = w.phase

abbrev pub set_phase : Phase → Worker → Worker
set_phase p w = record w { phase = p }

-- `execute_quantum` of the actor that the worker took.
module _ (call : ℕ → Behavior) where
  abbrev pub run_taken : Scheduler → ℕ → ℕ → Phase → Scheduler
  run_taken s worker_id now (took pid) = elim (find_actor pid s.actors) [
    | none ↦ s
    | some a ↦
        let (b, again) = execute_quantum call a now in
        record s {
          actors = store_actor pid b s.actors;
          workers = update s.workers worker_id (set_phase (ran pid again));
        }
  ]
  run_taken s worker_id now _ = s

  unfoldable pub run : Scheduler → ℕ → ℕ → Scheduler
  run s worker_id now = run_taken s worker_id now (phase_of (get_elem? s.workers worker_id))

abbrev pub is_runnable : ActorState → Bool
is_runnable runnable = true
is_runnable _ = false

-- Whether an actor that has run goes back into the queue.
abbrev pub goes_back : Bool → Option ActorProcess → Bool
goes_back again none = false
goes_back again (some a) = again && is_alive a && is_runnable a.state

-- The worker has put the actor down, and the quantum is counted.
abbrev pub put_down : Scheduler → ℕ → Scheduler
put_down s worker_id = record s {
  workers = update s.workers worker_id (set_phase seeks);
  total_reductions = s.total_reductions + reductions_per_slice;
}

abbrev pub finish_round : Scheduler → ℕ → Phase → Scheduler
finish_round s worker_id (ran pid again) =
    let done = put_down s worker_id in
    if goes_back again (find_actor pid s.actors) then schedule_actor done pid worker_id else done
finish_round s worker_id _ = s

unfoldable pub reschedule : Scheduler → ℕ → Scheduler
reschedule s worker_id = finish_round s worker_id (phase_of (get_elem? s.workers worker_id))

-- A worker from number `i` on, other than `worker_id`, has more than `steal_threshold` actors.
unfoldable pub others_busy : List Worker → ℕ → ℕ → Bool
others_busy [] i worker_id = false
others_busy (w ∷ ws) i worker_id =
    not (i == worker_id) && ltb steal_threshold w.queue_size || others_busy ws (i + 1) worker_id

abbrev pub size_of : Option Worker → ℕ
size_of none = 0
size_of (some w) = w.queue_size

unfoldable pub should_steal_work : Scheduler → ℕ → Bool
should_steal_work s worker_id =
    ltb (size_of (get_elem? s.workers worker_id)) 2 && others_busy s.workers 0 worker_id

-- `back` and `pop_back`: the last one, and those before it.
unfoldable pub pop_back : List ℕ → Option (List ℕ × ℕ)
pop_back [] = none
pop_back (x ∷ xs) = elim (pop_back xs) [
  | none ↦ some ([], x)
  | some (rest, last) ↦ some (x ∷ rest, last)
]

-- The loop of `steal_work`, `n` times: the queues of the thief and of the victim.
unfoldable pub move_back : ℕ → List ℕ → List ℕ → List ℕ × List ℕ
unfolding pop_back
move_back zero thief victim = (thief, victim)
move_back (suc n) thief victim = elim (pop_back victim) [
  | none ↦ (thief, victim)
  | some (rest, last) ↦ move_back n (thief ++ last ∷ []) rest
]

abbrev pub steal_count : Worker → ℕ
steal_count victim = length victim.run_queue / 2

unfoldable pub robbed : Worker → Worker
unfolding move_back
robbed victim = record victim {
  run_queue = (move_back (steal_count victim) [] victim.run_queue).1;
  queue_size = (victim.queue_size + (word - steal_count victim % word)) % word;
}

unfoldable pub enriched : Worker → Worker → Worker
unfolding move_back
enriched victim thief = record thief {
  run_queue = (move_back (steal_count victim) thief.run_queue victim.run_queue).0;
  queue_size = (thief.queue_size + steal_count victim) % word;
}

-- `victim_id` is the number that `dist(thief.rng)` draws.
unfoldable pub steal_work : Scheduler → ℕ → ℕ → Scheduler
unfolding robbed enriched
steal_work s thief_id victim_id =
    if thief_id == victim_id then s else elim (get_elem? s.workers victim_id) [
      | none ↦ s
      | some victim ↦ record s {
        workers = update (update s.workers victim_id robbed) thief_id (enriched victim);
      }
    ]

abbrev pub is_seeking : Phase → Bool
is_seeking seeks = true
is_seeking _ = false

-- The end of a round.
unfoldable pub seek : Scheduler → ℕ → ℕ → Scheduler
unfolding should_steal_work steal_work
seek s worker_id victim_id =
    if is_seeking (phase_of (get_elem? s.workers worker_id))
    then (let stolen =
          (if should_steal_work s worker_id then steal_work s worker_id victim_id else s) in
        record stolen { workers = update stolen.workers worker_id (set_phase idle) })
    else s
