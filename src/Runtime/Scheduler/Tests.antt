-- ===== src/Runtime/Scheduler/Tests.antt =====
-- A run of two workers, and the scheduler's theorems at its states.
use aithon.Prelude.{ℕ, ◌≡◌, ◌≢◌, refl, true, Option, none, some, [], ◌∷◌, length, get_elem?, arith}
use aithon.Runtime.Actor.{
  ActorProcess, ActorState, Message, Behavior, runnable, receive, init as new_actor,
  execute_quantum, send,
}
use aithon.Runtime.Heap.{allocate}
use aithon.Runtime.Scheduler.{
  idle, ran, Worker, Scheduler, init, spawn, spawn_on, send_message, find_actor, store_actor,
  get_next_actor, choose_worker, push_back,
}
use aithon.Runtime.Scheduler.Counted.{AllCounted, reach-AllCounted}
use aithon.Runtime.Scheduler.Exclusive.{IsExclusive, reach-IsExclusive}
use aithon.Runtime.Scheduler.Ownership.{tally}
use aithon.Runtime.Scheduler.Queues.{Robbery, steal_work-Robbery}
use aithon.Runtime.Scheduler.Rounds.{run, reschedule, steal_work, robbed, enriched}
use aithon.Runtime.Scheduler.Shortest.{NoneShorter, spawn_shortest}
use aithon.Runtime.Scheduler.Steps.{Reach, here, after, spawns, takes, runs, sends, take_next}
use aithon.Runtime.Scheduler.Stranded.{waiting_is_stranded}

-- A behaviour that receives one message.
abbrev listen : ℕ → Behavior
listen code args a = ((receive a).0, none)

-- One actor is spawned, taken by worker 0 and run: it waits for a message.
abbrev started : Scheduler
started = (spawn (init 2 0) 7 0 1000).0

abbrev has_run : Scheduler
has_run = run listen (take_next started 0) 0 5

has_run-Reach : Reach listen (init 2 0) has_run
unfolding spawn_on spawn init
has_run-Reach = after (after (after here (spawns 7 0 1000 0)) (takes 0)) (runs 0 5)

abbrev greeting : Message
greeting = record { payload = 4096; size = 20; sender_pid = 3; timestamp = 0 }

abbrev put_away : Scheduler
put_away = reschedule has_run 0

abbrev woken : Scheduler
woken = (send_message put_away 0 greeting 6).0

abbrev worker_0 : Worker
worker_0 = record { run_queue = []; queue_size = 0; running = true; phase = ran 0 true }

abbrev state_of : Option ActorProcess → Option (ActorState × ℕ)
state_of none = none
state_of (some a) = some (a.state, length a.mailbox)

-- After the message the actor is runnable and has it in its mailbox.
woken_state : state_of (find_actor 0 woken.actors) ≡ some (runnable, 1)
unfolding send_message reschedule run spawn spawn_on init find_actor new_actor get_next_actor
    store_actor execute_quantum receive send allocate
woken_state = refl

abbrev or_new : Option ActorProcess → ActorProcess
or_new none = new_actor 0 0
or_new (some a) = a

waiting_is_stranded_example : tally 0 woken.workers ≡ 0
unfolding run spawn spawn_on init find_actor new_actor get_next_actor store_actor execute_quantum
    receive allocate
waiting_is_stranded_example =
    waiting_is_stranded listen 2 0 has_run woken 0 0 true worker_0
      (or_new (find_actor 0 has_run.actors)) has_run-Reach refl refl refl refl
      (after here (sends 0 greeting 6))

reach-IsExclusive_example : IsExclusive has_run
reach-IsExclusive_example = reach-IsExclusive listen 2 0 has_run has_run-Reach

reach-AllCounted_example : AllCounted has_run.workers
reach-AllCounted_example = reach-AllCounted listen 2 0 has_run has_run-Reach

abbrev new_worker : Worker
new_worker = record { run_queue = []; queue_size = 0; running = true; phase = idle }

-- The first actor stands in the queue of worker 0, and the next one goes to worker 1.
spawn_shortest_example :
    (w : Worker) × (get_elem? started.workers (choose_worker started) ≡ some w)
    × NoneShorter (length w.run_queue) started.workers
    × (get_elem? (spawn started 8 0 1000).0.workers (choose_worker started) ≡ some (push_back w 1))
unfolding spawn spawn_on init find_actor new_actor
spawn_shortest_example =
    spawn_shortest listen 2 0 started
      (record { run_queue = 0 ∷ []; queue_size = 1; running = true; phase = idle })
      (new_worker ∷ []) 8 0 1000 (after here (spawns 7 0 1000 0)) refl
      (omega arith, (omega arith, tt))

abbrev busy : Worker
busy = record new_worker { run_queue = 4 ∷ 5 ∷ 6 ∷ 7 ∷ 8 ∷ []; queue_size = 5 }

abbrev unbalanced : Scheduler
unbalanced = record started { workers = busy ∷ new_worker ∷ [] }

steal_work-Robbery_example :
    (get_elem? (steal_work unbalanced 1 0).workers 1 ≡ some (enriched busy new_worker))
    × (get_elem? (steal_work unbalanced 1 0).workers 0 ≡ some (robbed busy))
    × Robbery new_worker busy (enriched busy new_worker) (robbed busy)
    × ((i : ℕ)
        → i ≢ 1
        → i ≢ 0
        → get_elem? (steal_work unbalanced 1 0).workers i ≡ get_elem? unbalanced.workers i)
steal_work-Robbery_example = steal_work-Robbery unbalanced 1 0 new_worker busy (λ e. cc) refl refl

stolen : (enriched busy new_worker).run_queue ≡ 8 ∷ 7 ∷ []
unfolding enriched
stolen = refl
