-- ===== src/Runtime/GreenThread/Tests.antt =====
-- Green threads of src/runtime/green_threads.cpp in use, and the theorem on their code at one of them.
use aithon.Prelude.{
  true, ◌++◌, ◌∷◌, [], ℕ, ◌≡◌, refl, false, Option, none, some, Bytes, length, arith,
}
use aithon.Runtime.Actor.{ActorProcess, Message, receive}
use aithon.Runtime.Actor.Mailbox.{queued}
use aithon.Runtime.GreenThread.{
  GreenThread, ready, create, set_behavior, send_message, receive_message, temp_actor, crash,
  execute_quantum,
}
use aithon.Runtime.GreenThread.Quantum.{quanta, undelivered}
use aithon.Runtime.Heap.{allocate}

abbrev message : Message
message = record { payload = 0; size = 10; sender_pid = 2; timestamp = 0 }

abbrev thread : GreenThread
thread = set_behavior (create 5 1000) (some 77) 0

received : length ((send_message thread message 3).0.mailbox) ≡ 1
unfolding send_message create allocate
received = refl

-- Outside of a quantum, an empty mailbox does not block.
not_blocked : (receive_message thread).0.state ≡ ready
unfolding receive_message create
not_blocked = refl

crashed : (send_message (crash thread []) message 3).1 ≡ false
unfolding send_message crash create
crashed = refl

-- Code that does nothing.
abbrev idle : ℕ → ℕ → ActorProcess → GreenThread → GreenThread × Option Bytes
idle code args actor t = (t, none)

ready_again : (execute_quantum idle (λ used total. false) thread).0.state ≡ ready
unfolding execute_quantum create
ready_again = refl

-- Code that throws when its actor has no message.
abbrev listens : ℕ → ℕ → ActorProcess → Option Bytes
listens code args actor = elim ((receive actor).1) [ none ↦ some [] | some msg ↦ none ]

undelivered_example :
    (address : ℕ) × ((send_message thread message 3).1 ≡ true)
    × ((quanta listens (λ used total. false) 2 (send_message thread message 3).0).mailbox
        ≡ thread.mailbox ++ queued message address 3 ∷ [])
    × ((receive
          (temp_actor (quanta listens (λ used total. false) 2 (send_message thread message 3).0))).1
        ≡ none)
unfolding create
undelivered_example =
    undelivered listens (λ used total. false) 2 thread message 3 refl (omega arith)
      (record { filled = refl; counted = refl; bounded = omega arith }) (omega arith)
