-- ===== src/Runtime/Actor/States.antt =====
-- The states that an actor moves through.
use aithon.Prelude.{ℕ, ◌≡◌, ◌≢◌, refl, ap, Bool, true, false, Option, none, some, [], arith, Bytes}
use aithon.Runtime.Actor.Mailbox.{taken, declined, send-Answered}
use aithon.Runtime.Actor.{
  ActorProcess, ActorState, Message, waiting, runnable, running, wake, send, receive, receive_from,
  alive, is_alive, handle_crash, Behavior, execute_quantum, pause, quantum, after_quantum,
  run_behavior,
}

-- What a quantum does, by the state of the actor and the way its code returns.
pub data Quantum (call : ℕ → Behavior) (a : ActorProcess) (now : ℕ) (r : ActorProcess × Bool)
    : Type 0 where
  not_ready : a.state ≢ runnable → r ≡ (a, false) → Quantum call a now r
  idle :
      a.state ≡ runnable
      → a.behavior ≡ none
      → r ≡ (record a { state = runnable; spent = 0 }, true)
      → Quantum call a now r
  returned :
      (code : ℕ) (b : ActorProcess)
      → a.state ≡ runnable
      → a.behavior ≡ some code
      → call code a.initial_args (record a { state = running; spent = 0 }) ≡ (b, none)
      → r ≡ (record b { state = pause b.state }, true)
      → Quantum call a now r
  threw :
      (code : ℕ) (b : ActorProcess) (error : Bytes)
      → a.state ≡ runnable
      → a.behavior ≡ some code
      → call code a.initial_args (record a { state = running; spent = 0 }) ≡ (b, some error)
      → r ≡ (handle_crash b error now, false)
      → Quantum call a now r

module _ (call : ℕ → Behavior) (now : ℕ) where
  returned-Quantum :
      (a : ActorProcess) (code : ℕ) (result : ActorProcess × Option Bytes)
      → a.state ≡ runnable
      → a.behavior ≡ some code
      → call code a.initial_args (record a { state = running; spent = 0 }) ≡ result
      → Quantum call a now (after_quantum call now result)
  unfolding execute_quantum
  returned-Quantum a code (b, none) s e r = returned code b s e r refl
  returned-Quantum a code (b, some error) s e r = threw code b error s e r refl

  behaves-Quantum :
      (a : ActorProcess) (code : Option ℕ)
      → a.state ≡ runnable
      → a.behavior ≡ code
      → Quantum call a now (
          after_quantum call now (run_behavior call code (record a { state = running; spent = 0 })))
  unfolding execute_quantum
  behaves-Quantum a none s e = idle s e refl
  behaves-Quantum a (some code) s e = returned-Quantum a code _ s e refl

  quantum-Quantum :
      (a : ActorProcess) (s : ActorState) → a.state ≡ s → Quantum call a now (quantum call s a now)
  unfolding execute_quantum
  quantum-Quantum a runnable e = behaves-Quantum a a.behavior e refl
  quantum-Quantum a _ e = not_ready (λ h. cc) refl

  pub execute_quantum-Quantum : (a : ActorProcess) → Quantum call a now (execute_quantum call a now)
  unfolding execute_quantum
  execute_quantum-Quantum a = quantum-Quantum a a.state refl

pause-ne-running : (s : ActorState) → pause s ≢ running
pause-ne-running s = ground arith

-- Whatever an actor's code does, and however it ends, no quantum leaves the actor RUNNING.
pub execute_quantum_stops :
    (call : ℕ → Behavior) (now : ℕ) (a : ActorProcess)
    → a.state ≢ running
    → (execute_quantum call a now).0.state ≢ running
execute_quantum_stops call now a h = elim (execute_quantum-Quantum call now a) [
  | not_ready s e ↦ rw e h
  | idle s b e ↦ rw e (λ k. cc)
  | returned code b s f c e ↦ rw e (pause-ne-running b.state)
  | threw code b error s f c e ↦ rw e (crashed b error)
]
  where
    crashed : (b : ActorProcess) (error : Bytes) → (handle_crash b error now).state ≢ running
    crashed b error = unfold handle_crash in λ k. cc

woken :
    (b : ActorProcess) (msg : Message) (now : ℕ)
    → b.state ≡ waiting
    → (is_alive b ≡ true) × ((send b msg now).1 ≡ true → (send b msg now).0.state ≡ runnable)
woken b msg now w = (
  ap alive w,
  elim (send-Answered b msg now) [
    | taken heap address e ↦ rw e (λ _. ap wake w)
    | declined heap e ↦ rw e (λ h. absurd (cc))
  ],
)

-- `receive` on an empty mailbox suspends the actor whatever its state, so that one which was killed
-- while it ran is alive again, and the next message makes it runnable.
pub receive_revives :
    (a : ActorProcess) (msg : Message) (now : ℕ)
    → a.mailbox ≡ []
    → (is_alive (receive a).0 ≡ true)
      × ((send (receive a).0 msg now).1 ≡ true → (send (receive a).0 msg now).0.state ≡ runnable)
unfolding receive
receive_revives a msg now e =
    let suspended : receive a ≡ (record a { state = waiting }, none) = ap (receive_from a) e in
    rw suspended (woken (record a { state = waiting }) msg now refl)
