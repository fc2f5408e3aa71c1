-- ===== src/Runtime/Scheduler/Exclusive.antt =====
-- How the hold of the workers on the actors changes from step to step.
use aithon.Prelude.{
  ℕ, zero, suc, ◌+◌, ◌≤◌, ◌<◌, ◌≡◌, ◌≢◌, inl, inr, refl, sym, ap, Bool, true, false, Option, none,
  some, arith, Bool-cases, Option-cases, get_elem?, ltb, ltb→lt, ◌==◌,
}
use aithon.Runtime.Actor.{ActorProcess, Behavior, Message, execute_quantum, send, is_alive}
use aithon.Runtime.Scheduler.{
  Phase, idle, took, ran, seeks, Worker, Scheduler, init, new_workers, update, schedule_actor,
  find_actor, get_next_actor, spawn_on, send_message, count_sent, kill_actor,
}
use aithon.Runtime.Scheduler.Ownership.{
  same, held, tally, tally-update, tally-update_le, tally-schedule_actor, owns-get_next_actor,
  tally-stop_all, tally-steal_work,
}
use aithon.Runtime.Scheduler.Rounds.{
  phase_of, set_phase, run, run_taken, reschedule, finish_round, put_down, goes_back, seek,
  steal_work, should_steal_work, is_seeking,
}
use aithon.Runtime.Scheduler.Steps.{
  Step, Reach, here, after, spawns, sends, kills, shuts_down, takes, runs, reschedules, steals,
  take_next,
}

-- What one step may do to the workers' hold on actors: only the pid that `spawn_on` gives out comes in.
pub record Change (s t : Scheduler) : Type 0 where
  pub pids : s.next_pid ≤ t.next_pid
  pub old : (pid : ℕ) → pid < s.next_pid → tally pid t.workers ≤ tally pid s.workers
  pub new : (pid : ℕ) → tally pid t.workers ≤ tally pid s.workers + 1
  pub unborn : (pid : ℕ) → t.next_pid ≤ pid → tally pid t.workers ≤ tally pid s.workers

-- A step that hands no pid out.
steady :
    (s t : Scheduler)
    → t.next_pid ≡ s.next_pid
    → ((pid : ℕ) → tally pid t.workers ≤ tally pid s.workers)
    → Change s t
steady s t e le = record {
  pids = omega (arith, e);
  old = λ pid _. le pid;
  new = λ pid. omega (arith, le pid);
  unborn = λ pid _. le pid;
}

schedule_actor-next_pid :
    (s : Scheduler) (pid worker_id : ℕ) → (schedule_actor s pid worker_id).next_pid ≡ s.next_pid
unfolding schedule_actor
schedule_actor-next_pid s pid worker_id = elim (Option-cases (find_actor pid s.actors)) [
  | inl e ↦ rw (e, schedule_actor) refl
  | inr (a, e) ↦ rw (e, schedule_actor) refl
]

grow :
    (s registered : Scheduler) (worker_id : ℕ)
    → registered.next_pid ≡ s.next_pid + 1
    → ((pid : ℕ) → tally pid registered.workers ≡ tally pid s.workers)
    → Change s (schedule_actor registered s.next_pid worker_id)
grow s registered worker_id e w = record {
  pids = omega (arith, e, schedule_actor-next_pid registered s.next_pid worker_id);
  old = λ pid lt.
      omega (arith, w pid, below pid lt, tally-schedule_actor pid s.next_pid registered worker_id);
  new = λ pid.
      omega
        (arith, w pid, at_most_one pid, tally-schedule_actor pid s.next_pid registered worker_id);
  unborn = λ pid le. omega (
    arith,
    w pid,
    above pid (omega (arith, e, le, schedule_actor-next_pid registered s.next_pid worker_id)),
    tally-schedule_actor pid s.next_pid registered worker_id,
  );
}
  where
    below : (pid : ℕ) → pid < s.next_pid → same s.next_pid pid ≡ 0
    below pid lt = ground arith

    above : (pid : ℕ) → s.next_pid < pid → same s.next_pid pid ≡ 0
    above pid lt = ground arith

    at_most_one : (pid : ℕ) → same s.next_pid pid ≤ 1
    at_most_one pid = ground arith

spawn-Change :
    (s : Scheduler) (behavior args heap_size chosen : ℕ)
    → Change s (spawn_on s behavior args heap_size chosen).0
unfolding spawn_on
spawn-Change s behavior args heap_size chosen = grow s _ chosen refl (λ pid. refl)

count_sent-Change :
    (s : Scheduler) (pid : ℕ) (r : ActorProcess × Bool) → Change s (count_sent s pid r).0
count_sent-Change s pid (a, true) = steady s _ refl (λ p. omega arith)
count_sent-Change s pid (a, false) = steady s _ refl (λ p. omega arith)

send_message-Change :
    (s : Scheduler) (to_pid : ℕ) (msg : Message) (now : ℕ)
    → Change s (send_message s to_pid msg now).0
unfolding send_message
send_message-Change s to_pid msg now = elim (Option-cases (find_actor to_pid s.actors)) [
  | inl e ↦ rw (e, send_message) (steady s s refl (λ p. omega arith))
  | inr (a, e) ↦ elim (Bool-cases (is_alive a)) [
    | inl on ↦ rw (e, send_message) (rw on (count_sent-Change s to_pid (send a msg now)))
    | inr off ↦ rw (e, send_message) (rw off (steady s s refl (λ p. omega arith)))
  ]
]

kill_actor-Change : (s : Scheduler) (pid now : ℕ) → Change s (kill_actor s pid now)
unfolding kill_actor
kill_actor-Change s pid now = elim (Option-cases (find_actor pid s.actors)) [
  | inl e ↦ rw (e, kill_actor) (steady s s refl (λ p. omega arith))
  | inr (a, e) ↦ rw (e, kill_actor) (steady s _ refl (λ p. omega arith))
]

take_next-Change : (s : Scheduler) (worker_id : ℕ) → Change s (take_next s worker_id)
take_next-Change s worker_id = steady s _ refl (λ pid.
    omega
      (arith, tally-update_le pid s.workers worker_id get_next_actor 0 (owns-get_next_actor pid)))

steal_work-next_pid :
    (s : Scheduler) (thief_id victim_id : ℕ)
    → (steal_work s thief_id victim_id).next_pid ≡ s.next_pid
unfolding steal_work
steal_work-next_pid s thief_id victim_id = elim (Bool-cases (thief_id == victim_id)) [
  | inl e ↦ rw (e, steal_work) refl
  | inr ne ↦ elim (Option-cases (get_elem? s.workers victim_id)) [
    | inl e ↦ rw (ne, steal_work) (rw e refl)
    | inr (victim, e) ↦ rw (ne, steal_work) (rw e refl)
  ]
]

-- The worker becomes idle after a theft or none.
become_idle :
    (s t : Scheduler) (worker_id : ℕ)
    → t.next_pid ≡ s.next_pid
    → ((pid : ℕ) → tally pid t.workers ≤ tally pid s.workers)
    → Change s (record t { workers = update t.workers worker_id (set_phase idle) })
become_idle s t worker_id e le = steady s _ e (λ pid.
    omega (
      arith,
      le pid,
      tally-update_le pid t.workers worker_id (set_phase idle) 0 (λ w. omega arith),
    ))

seek-Change : (s : Scheduler) (worker_id victim_id : ℕ) → Change s (seek s worker_id victim_id)
unfolding seek
seek-Change s worker_id victim_id =
    elim (Bool-cases (is_seeking (phase_of (get_elem? s.workers worker_id)))) [
      | inl at_end ↦ rw at_end (elim (Bool-cases (should_steal_work s worker_id)) [
        | inl some_work ↦ rw some_work (
            become_idle s (steal_work s worker_id victim_id) worker_id
              (steal_work-next_pid s worker_id victim_id)
              (λ pid. tally-steal_work pid s worker_id victim_id))
        | inr no_work ↦ rw no_work (become_idle s s worker_id refl (λ pid. omega arith))
      ])
      | inr elsewhere ↦ rw elsewhere (steady s s refl (λ pid. omega arith))
    ]

phase_of-cases :
    (o : Option Worker) (p : Phase)
    → phase_of o ≡ p
    → p ≢ idle
    → (w : Worker) × (o ≡ some w) × (w.phase ≡ p)
phase_of-cases none p e busy = absurd (busy (sym e))
phase_of-cases (some w) p e busy = (w, refl, e)

pub reschedules_le :
    (pid p : ℕ) (again : Bool) (s : Scheduler) (worker_id : ℕ) (w : Worker)
    → get_elem? s.workers worker_id ≡ some w
    → w.phase ≡ ran p again
    → tally pid (put_down s worker_id).workers + same p pid ≡ tally pid s.workers
reschedules_le pid p again s worker_id w g e =
    omega (arith, tally-update pid s.workers worker_id (set_phase seeks) w g, ap (held pid) e)

finish_round-Change :
    (s : Scheduler) (worker_id : ℕ) (p : Phase)
    → phase_of (get_elem? s.workers worker_id) ≡ p
    → Change s (finish_round s worker_id p)
finish_round-Change s worker_id (ran p again) e =
    let (w, g, h) = phase_of-cases (get_elem? s.workers worker_id) (ran p again) e (λ k. cc) in
    elim (Bool-cases (goes_back again (find_actor p s.actors))) [
      | inl back ↦ rw back (
          steady s _ (schedule_actor-next_pid (put_down s worker_id) p worker_id) (λ pid. omega (
            arith,
            reschedules_le pid p again s worker_id w g h,
            tally-schedule_actor pid p (put_down s worker_id) worker_id,
          )))
      | inr stays ↦
          rw stays
            (steady s _ refl (λ pid. omega (arith, reschedules_le pid p again s worker_id w g h)))
    ]
finish_round-Change s worker_id _ e = steady s s refl (λ pid. omega arith)

module _ (call : ℕ → Behavior) where
  run_taken-Change :
      (s : Scheduler) (worker_id now : ℕ) (p : Phase)
      → phase_of (get_elem? s.workers worker_id) ≡ p
      → Change s (run_taken call s worker_id now p)
  run_taken-Change s worker_id now (took p) e =
      let (w, g, h) = phase_of-cases (get_elem? s.workers worker_id) (took p) e (λ k. cc) in
      elim (Option-cases (find_actor p s.actors)) [
        | inl missing ↦ rw (missing, run_taken) (steady s s refl (λ pid. omega arith))
        | inr (a, known) ↦
            rw (known, run_taken)
              (steady s _ refl (λ pid. omega (
                arith,
                ap (held pid) h,
                tally-update pid s.workers worker_id
                    (set_phase (ran p (execute_quantum call a now).1)) w g,
              )))
      ]
  run_taken-Change s worker_id now _ e = steady s s refl (λ pid. omega arith)

  pub Step-Change : (s t : Scheduler) → Step call s t → Change s t
  unfolding run reschedule
  Step-Change s _ (spawns behavior args heap_size chosen) =
      spawn-Change s behavior args heap_size chosen
  Step-Change s _ (sends to_pid msg now) = send_message-Change s to_pid msg now
  Step-Change s _ (kills pid now) = kill_actor-Change s pid now
  Step-Change s _ shuts_down = steady s _ refl (λ pid. omega (arith, tally-stop_all pid s.workers))
  Step-Change s _ (takes worker_id) = take_next-Change s worker_id
  Step-Change s _ (runs worker_id now) = run_taken-Change s worker_id now _ refl
  Step-Change s _ (reschedules worker_id) = finish_round-Change s worker_id _ refl
  Step-Change s _ (steals worker_id victim_id) = seek-Change s worker_id victim_id

-- No actor is twice with the workers, and none is there whose pid is not given out yet.
pub record IsExclusive (s : Scheduler) : Type 0 where
  pub once : (pid : ℕ) → tally pid s.workers ≤ 1
  pub none_unborn : (pid : ℕ) → s.next_pid ≤ pid → tally pid s.workers ≡ 0

Change-IsExclusive : (s t : Scheduler) → Change s t → IsExclusive s → IsExclusive t
Change-IsExclusive s t c v = record {
  once = λ pid. elim (Bool-cases (ltb pid s.next_pid)) [
    | inl lt ↦ omega (arith, c.old pid (ltb→lt pid s.next_pid lt), v.once pid)
    | inr ge ↦ omega (arith, c.new pid, v.none_unborn pid (ground arith))
  ];
  none_unborn = λ pid le.
      omega (arith, c.unborn pid le, c.pids, v.none_unborn pid (omega (arith, le, c.pids)));
}

new_workers_empty : (pid n : ℕ) → tally pid (new_workers n) ≡ 0
unfolding new_workers
new_workers_empty pid zero = refl
new_workers_empty pid (suc n) = omega (arith, new_workers_empty pid n)

init-IsExclusive : (num_threads hardware : ℕ) → IsExclusive (init num_threads hardware)
unfolding init
init-IsExclusive num_threads hardware = record {
  once = λ pid. omega (arith, new_workers_empty pid _);
  none_unborn = λ pid le. new_workers_empty pid _;
}

-- From a scheduler as it is built, whatever its users and its workers do and in whatever order, no
-- actor ever stands twice in the run queues and in the hands of the workers together.
pub reach-IsExclusive :
    (call : ℕ → Behavior) (num_threads hardware : ℕ) (s : Scheduler)
    → Reach call (init num_threads hardware) s
    → IsExclusive s
reach-IsExclusive call num_threads hardware s here = init-IsExclusive num_threads hardware
reach-IsExclusive call num_threads hardware s (after {t} past step) =
    Change-IsExclusive t s (Step-Change call t s step)
      (reach-IsExclusive call num_threads hardware t past)
