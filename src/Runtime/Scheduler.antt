-- ===== src/Runtime/Scheduler.antt =====
-- src/runtime/scheduler.cpp and include/runtime/scheduler.h: the registry of actors and the workers
-- with their run queues. An operation is one step: what it does under a lock, or on one atomic. A
-- worker's local variables between the steps of `worker_loop` are its phase. Threads, the condition
-- variables, the clock and the random victim of a theft are arguments or left to the schedule.
pub mod Rounds
pub mod Queues
pub mod Choice
pub mod Steps
pub mod Ownership
pub mod Exclusive
pub mod Stranded
pub mod Counted
pub mod Shortest
mod Tests
use aithon.Prelude.{
  ℕ, zero, suc, ◌+◌, ◌-◌, ◌*◌, ◌/◌, ◌%◌, ◌^◌, Bool, true, false, ◌&&◌, ◌||◌, not, Option, none,
  some, List, [], ◌∷◌, ◌++◌, Bytes, codes, length, get_elem?, set, ltb, ◌==◌, if◌then◌else◌,
}
use aithon.Runtime.Heap.{word}
use aithon.Runtime.Actor.{
  ActorProcess, ActorState, runnable, Message, Behavior, init as new_actor, send, handle_crash,
  is_alive, execute_quantum, reductions_per_slice,
}

-- Where a worker is in its loop: with no actor, with one that it took from its queue, with one that
-- has run (and whether `execute_quantum` returned true), or about to look for work to steal.
pub data Phase : Type 0 where
  idle : Phase
  took : ℕ → Phase
  ran : ℕ → Bool → Phase
  seeks : Phase

pub record Worker : Type 0 where
  pub run_queue : List ℕ
  pub queue_size : ℕ
  pub running : Bool
  pub phase : Phase

-- The registry is the list of the actors, which hold their pids.
pub record Scheduler : Type 0 where
  pub workers : List Worker
  pub actors : List ActorProcess
  pub next_pid : ℕ
  pub system_running : Bool
  pub total_messages_sent : ℕ
  pub total_reductions : ℕ
  pub total_actors_spawned : ℕ

abbrev pub steal_threshold : ℕ
steal_threshold = 10

unfoldable pub new_workers : ℕ → List Worker
new_workers zero = []
new_workers (suc n) =
    record { run_queue = []; queue_size = 0; running = true; phase = idle } ∷ new_workers n

-- `hardware` is `std::thread::hardware_concurrency()`.
unfoldable pub init : ℕ → ℕ → Scheduler
unfolding new_workers
init num_threads hardware = record {
  workers =
      new_workers
        (if num_threads == 0 then (if hardware == 0 then 4 else hardware) else num_threads);
  actors = [];
  next_pid = 0;
  system_running = true;
  total_messages_sent = 0;
  total_reductions = 0;
  total_actors_spawned = 0;
}

unfoldable pub find_actor : ℕ → List ActorProcess → Option ActorProcess
find_actor pid [] = none
find_actor pid (a ∷ actors) = if a.pid == pid then some a else find_actor pid actors

unfoldable pub store_actor : ℕ → ActorProcess → List ActorProcess → List ActorProcess
store_actor pid b [] = []
store_actor pid b (a ∷ actors) = if a.pid == pid then b ∷ actors else a ∷ store_actor pid b actors

abbrev pub push_back : Worker → ℕ → Worker
push_back w pid = record w {
  run_queue = w.run_queue ++ pid ∷ [];
  queue_size = (w.queue_size + 1) % word;
}

-- `update ws i f` is `f(*workers_[i])`.
unfoldable pub update : List Worker → ℕ → (Worker → Worker) → List Worker
update [] i f = []
update (w ∷ ws) zero f = f w ∷ ws
update (w ∷ ws) (suc i) f = w ∷ update ws i f

-- A pid that is not in the registry is not scheduled.
unfoldable pub schedule_actor : Scheduler → ℕ → ℕ → Scheduler
unfolding update
schedule_actor s pid worker_id = elim (find_actor pid s.actors) [
  | none ↦ s
  | some a ↦ record s { workers = update s.workers worker_id (λ w. push_back w pid) }
]

abbrev pub size_max : ℕ
size_max = word - 1

-- The loop of `choose_worker` from worker `i` on.
unfoldable pub choose_from : List Worker → ℕ → ℕ → ℕ → ℕ
choose_from [] i min_size chosen = chosen
choose_from (w ∷ ws) i min_size chosen =
    choose_from ws (i + 1) (if ltb w.queue_size min_size then w.queue_size else min_size)
      (if ltb w.queue_size min_size then i else chosen)

unfoldable pub choose_worker : Scheduler → ℕ
unfolding choose_from
choose_worker s = choose_from s.workers 0 size_max 0

abbrev pub spawned : ℕ → ℕ → ℕ → ℕ → ActorProcess
spawned pid behavior args heap_size = record (new_actor pid heap_size) {
  behavior = some behavior;
  initial_args = args;
}

-- All of `spawn` but for the choice of the worker: the pid, and the scheduler with the new actor registered
-- and at the end of a queue. `next_pid_` is an `int`, of which no run comes near the end.
unfoldable pub spawn_on : Scheduler → ℕ → ℕ → ℕ → ℕ → Scheduler × ℕ
unfolding schedule_actor
spawn_on s behavior args heap_size chosen =
    let pid = s.next_pid in
    let registered = record s {
      next_pid = pid + 1;
      actors = s.actors ++ spawned pid behavior args heap_size ∷ [];
      total_actors_spawned = s.total_actors_spawned + 1;
    } in
    (schedule_actor registered pid chosen, pid)

-- A call of `spawn` with no step of another thread in between.
unfoldable pub spawn : Scheduler → ℕ → ℕ → ℕ → Scheduler × ℕ
unfolding choose_worker spawn_on
spawn s behavior args heap_size = spawn_on s behavior args heap_size (choose_worker s)

abbrev pub count_sent : Scheduler → ℕ → ActorProcess × Bool → Scheduler × Bool
count_sent s pid (a, false) = (record s { actors = store_actor pid a s.actors }, false)
count_sent s pid (a, true) = (
  record s { actors = store_actor pid a s.actors; total_messages_sent = s.total_messages_sent + 1 },
  true,
)

-- The workers are woken, and the receiver is put in no queue.
unfoldable pub send_message : Scheduler → ℕ → Message → ℕ → Scheduler × Bool
send_message s to_pid msg now = elim (find_actor to_pid s.actors) [
  | none ↦ (s, false)
  | some a ↦ if is_alive a then count_sent s to_pid (send a msg now) else (s, false)
]

unfoldable pub kill_actor : Scheduler → ℕ → ℕ → Scheduler
kill_actor s pid now = elim (find_actor pid s.actors) [
  | none ↦ s
  | some a ↦ record s { actors = store_actor pid (handle_crash a (codes "killed") now) s.actors }
]

unfoldable pub num_alive : List ActorProcess → ℕ
num_alive [] = 0
num_alive (a ∷ actors) = (if is_alive a then 1 else 0) + num_alive actors

unfoldable pub stop : Worker → Worker
stop w = record w { running = false }

abbrev pub stop_all : List Worker → List Worker
stop_all [] = []
stop_all (w ∷ ws) = stop w ∷ stop_all ws

abbrev pub shutdown : Scheduler → Scheduler
shutdown s = record s { system_running = false; workers = stop_all s.workers }

-- The first step of a round: `get_next_actor`, if the worker still runs and is not in a round.
abbrev pub pop_front : Worker → List ℕ → Worker
pop_front w [] = w
pop_front w (pid ∷ rest) = record w {
  run_queue = rest;
  queue_size = (w.queue_size + word - 1) % word;
  phase = took pid;
}

abbrev pub get_next : Phase → Worker → Worker
get_next idle w = if w.running then pop_front w w.run_queue else w
get_next _ w = w

unfoldable pub get_next_actor : Worker → Worker
get_next_actor w = get_next w.phase w
