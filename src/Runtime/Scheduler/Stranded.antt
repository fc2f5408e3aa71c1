-- ===== src/Runtime/Scheduler/Stranded.antt =====
-- What becomes of an actor that waits when it leaves its worker.
use aithon.Prelude.{
  ℕ, zero, suc, subst, ◌≤◌, ◌<◌, ◌≡◌, refl, ap, Bool, false, Option, some, List, [], ◌∷◌, arith,
  inl, inr, Bool-cases, get_elem?, ltb, ltb→lt,
}
use aithon.Runtime.Actor.{ActorProcess, Behavior, waiting}
use aithon.Runtime.Scheduler.{ran, Worker, Scheduler, init, find_actor}
use aithon.Runtime.Scheduler.Exclusive.{IsExclusive, Step-Change, reach-IsExclusive, reschedules_le}
use aithon.Runtime.Scheduler.Ownership.{same, held, owns, tally}
use aithon.Runtime.Scheduler.Rounds.{reschedule, finish_round, put_down, goes_back, is_runnable}
use aithon.Runtime.Scheduler.Steps.{Reach, here, after}

-- An actor that no worker has, and whose pid is given out, never comes to a worker again.
reach_none :
    (call : ℕ → Behavior) (pid : ℕ) (s t : Scheduler)
    → Reach call s t
    → pid < s.next_pid
    → tally pid s.workers ≡ 0
    → (pid < t.next_pid) × (tally pid t.workers ≡ 0)
reach_none call pid s t here lt e = (lt, e)
reach_none call pid s u (after {t} past step) lt e =
    let (old, gone) = reach_none call pid s t past lt e in
    let change = Step-Change call t u step in
    (omega (arith, change.pids, old), omega (arith, change.old pid old, gone))

waiting_stays_out :
    (again : Bool) (o : Option ActorProcess) (a : ActorProcess)
    → o ≡ some a
    → a.state ≡ waiting
    → goes_back again o ≡ false
waiting_stays_out again o a e w = rw (e, goes_back) (rw (w, is_runnable) (ground arith))

tally-holds :
    (pid : ℕ) (ws : List Worker) (i : ℕ) (w : Worker)
    → get_elem? ws i ≡ some w
    → owns pid w ≤ tally pid ws
tally-holds pid [] i w e = absurd (cc)
tally-holds pid (v ∷ ws) zero w e = let v_is_w : v ≡ w = cc in rw v_is_w (omega arith)
tally-holds pid (v ∷ ws) (suc i) w e = omega (arith, tally-holds pid ws i w e)

same_refl : (pid : ℕ) → same pid pid ≡ 1
same_refl pid = ground arith

-- An actor that is WAITING when its worker has run it, as `receive` leaves one with no message, is
-- in no run queue and with no worker from then on, whatever messages it is sent and whatever steps
-- follow: `send_message` makes it RUNNABLE and wakes the workers, and nothing puts it in a queue.
pub waiting_is_stranded :
    (call : ℕ → Behavior) (num_threads hardware : ℕ) (s t : Scheduler) (worker_id pid : ℕ)
    (again : Bool) (w : Worker) (a : ActorProcess)
    → Reach call (init num_threads hardware) s
    → get_elem? s.workers worker_id ≡ some w
    → w.phase ≡ ran pid again
    → find_actor pid s.actors ≡ some a
    → a.state ≡ waiting
    → Reach call (reschedule s worker_id) t
    → tally pid t.workers ≡ 0
unfolding reschedule
waiting_is_stranded call num_threads hardware s t worker_id pid again w a past g ph fa wt future =
    (reach_none call pid (put_down s worker_id) t (subst (λ r. Reach call r t) left future) born
      gone).1
  where
    exclusive : IsExclusive s
    exclusive = reach-IsExclusive call num_threads hardware s past

    left : reschedule s worker_id ≡ put_down s worker_id
    left = rw (g, reschedule) (rw (ph, finish_round) (rw (waiting_stays_out again _ a fa wt) refl))

    one : 1 ≤ tally pid s.workers
    one = omega (arith, tally-holds pid s.workers worker_id w g, ap (held pid) ph, same_refl pid)

    born : pid < s.next_pid
    born = elim (Bool-cases (ltb pid s.next_pid)) [
      | inl lt ↦ ltb→lt pid s.next_pid lt
      | inr ge ↦ absurd (unborn (ground arith))
    ]
      where
        unborn : s.next_pid ≤ pid → ⊥
        unborn le = omega (arith, one, exclusive.none_unborn pid le)

    gone : tally pid (put_down s worker_id).workers ≡ 0
    gone =
        omega (
          arith,
          reschedules_le pid pid again s worker_id w g ph,
          exclusive.once pid,
          same_refl pid,
        )
