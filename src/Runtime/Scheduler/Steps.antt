-- ===== src/Runtime/Scheduler/Steps.antt =====
-- The scheduler as a whole: what its users and its workers do, one step at a time, in any order.
use aithon.Prelude.{ℕ}
use aithon.Runtime.Actor.{Behavior, Message}
use aithon.Runtime.Scheduler.{
  Scheduler, spawn_on, send_message, kill_actor, shutdown, update, get_next_actor,
}
use aithon.Runtime.Scheduler.Rounds.{run, reschedule, seek}

-- The worker `worker_id` takes an actor from its queue.
abbrev pub take_next : Scheduler → ℕ → Scheduler
take_next s worker_id = record s { workers = update s.workers worker_id get_next_actor }

module _ (call : ℕ → Behavior) where
  pub data Step (s : Scheduler) : Scheduler → Type 0 where
    -- The choice is any: it is made by queue sizes that were read before, one by one and without a lock.
    spawns :
        (behavior args heap_size chosen : ℕ) → Step s (spawn_on s behavior args heap_size chosen).0
    sends : (to_pid : ℕ) (msg : Message) (now : ℕ) → Step s (send_message s to_pid msg now).0
    kills : (pid now : ℕ) → Step s (kill_actor s pid now)
    shuts_down : Step s (shutdown s)
    takes : (worker_id : ℕ) → Step s (take_next s worker_id)
    runs : (worker_id now : ℕ) → Step s (run call s worker_id now)
    reschedules : (worker_id : ℕ) → Step s (reschedule s worker_id)
    steals : (worker_id victim_id : ℕ) → Step s (seek s worker_id victim_id)

  -- Any number of steps.
  pub data Reach (s : Scheduler) : Scheduler → Type 0 where
    here : Reach s s
    after : {t u : Scheduler} → Reach s t → Step t u → Reach s u
