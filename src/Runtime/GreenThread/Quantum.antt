-- ===== src/Runtime/GreenThread/Quantum.antt =====
-- What becomes of a message that is sent to a green thread of src/runtime/green_threads.cpp.
use aithon.Prelude.{
  ℕ, zero, suc, ◌+◌, ◌^◌, ◌≤◌, ◌<◌, ◌≡◌, refl, ap, ◌∙◌, Bool, true, Option, none, some, [], ◌∷◌,
  ◌++◌, Bytes, arith, Bool-cases, inl, inr,
}
use aithon.Runtime.Actor.{ActorProcess, Message, receive, init as new_actor}
use aithon.Runtime.Actor.Mailbox.{queued}
use aithon.Runtime.GreenThread.{
  GreenThread, State, created, ready, running, blocked, terminated, run_gc, send_again, send_first,
  send_message, is_alive, temp_actor, crash, after_call, run_quantum, quantum_in, execute_quantum,
}
use aithon.Runtime.Heap.{Heap, align, allocate, compact_heap, header_size}
use aithon.Runtime.Heap.Given.{Tried, allocate-Tried, collected_twice, Retried, allocate-Retried}
use aithon.Runtime.Heap.Layout.{IsLaidOut}

-- A send that says true, with the message last in the mailbox.
record Queued (t : GreenThread) (msg : Message) (now : ℕ) (r : GreenThread × Bool) : Type 0 where
  address : ℕ
  accepted : r.1 ≡ true
  last : r.0.mailbox ≡ t.mailbox ++ queued msg address now ∷ []

again-Queued :
    (t u : GreenThread) (msg : Message) (now : ℕ) (r : Heap × Option ℕ)
    → u.mailbox ≡ t.mailbox
    → header_size + align msg.size ≤ t.private_heap.total_size
    → Retried t.private_heap.total_size msg.size r
    → Queued t msg now (send_again u msg now r)
again-Queued t u msg now r same room (Retried.given heap address p e) = rw e (record {
  address = address;
  accepted = refl;
  last = ap (λ m. m ++ queued msg address now ∷ []) same;
})
again-Queued t u msg now r same room (Retried.full out e) = absurd (omega arith)

first-Queued :
    (t : GreenThread) (msg : Message) (now : ℕ) (r : Heap × Option ℕ)
    → msg.size < 2 ^ 63
    → IsLaidOut t.private_heap
    → header_size + align msg.size ≤ t.private_heap.total_size
    → Tried t.private_heap msg.size r
    → Queued t msg now (send_first t msg now r)
unfolding run_gc
first-Queued t msg now r small v room (Tried.given heap address p e) =
    rw e (record { address = address; accepted = refl; last = refl })
first-Queued t msg now r small v room (Tried.full out e) =
    let u : GreenThread = run_gc (record t { private_heap = compact_heap t.private_heap }) in
    let retried : Retried t.private_heap.total_size msg.size (allocate u.private_heap msg.size) =
      rw (collected_twice t.private_heap v)
        (allocate-Retried t.private_heap.total_size msg.size small) in
    rw e (again-Queued t u msg now _ refl room retried)

send-Queued :
    (t : GreenThread) (msg : Message) (now : ℕ)
    → is_alive t ≡ true
    → msg.size < 2 ^ 63
    → IsLaidOut t.private_heap
    → header_size + align msg.size ≤ t.private_heap.total_size
    → Queued t msg now (send_message t msg now)
unfolding send_message
send-Queued t msg now live small v room =
    rw live (first-Queued t msg now _ small v room (allocate-Tried t.private_heap msg.size small v))

-- Code that acts on nothing but its actor: how it returns.
module _ (behaves : ℕ → ℕ → ActorProcess → Option Bytes) (over : ℕ → ℕ → Bool) where
  abbrev pub call : ℕ → ℕ → ActorProcess → GreenThread → GreenThread × Option Bytes
  call code args actor t = (t, behaves code args actor)

  abbrev pub quanta : ℕ → GreenThread → GreenThread
  quanta zero t = t
  quanta (suc n) t = quanta n ((execute_quantum call over t).0)

  after-mailbox :
      (t : GreenThread) (o : Option Bytes) → ((after_call call over (t, o)).0).mailbox ≡ t.mailbox
  unfolding execute_quantum crash run_gc
  after-mailbox t (some reason) = refl
  after-mailbox t none =
      elim (Bool-cases (over t.private_heap.used_size t.private_heap.total_size)) [
        | inl e ↦ rw e refl
        | inr e ↦ rw e refl
      ]

  run-mailbox :
      (t : GreenThread) (code : Option ℕ) → ((run_quantum call over code t).0).mailbox ≡ t.mailbox
  run-mailbox t none = refl
  run-mailbox t (some code) = after-mailbox (record t { state = running }) _

  quantum-mailbox :
      (t : GreenThread) (s : State) → ((quantum_in call over s t).0).mailbox ≡ t.mailbox
  quantum-mailbox t created = refl
  quantum-mailbox t ready = run-mailbox t t.behavior
  quantum-mailbox t running = run-mailbox t t.behavior
  quantum-mailbox t blocked = refl
  quantum-mailbox t terminated = refl

  quanta-mailbox : (n : ℕ) (t : GreenThread) → (quanta n t).mailbox ≡ t.mailbox
  unfolding execute_quantum
  quanta-mailbox zero t = refl
  quanta-mailbox (suc n) t =
      quanta-mailbox n ((execute_quantum call over t).0) ∙ quantum-mailbox t t.state

  -- For a green thread that is alive, with a laid-out heap, and a message of less than 2^63 bytes whose copy
  -- with its header, rounded up, is no larger than the heap: the message is taken. After any number of
  -- quanta, of code that acts on nothing but the actor that it is given, it is still the last one in the
  -- mailbox, behind all that were there; and on the actor for the next quantum receive gives no message.
  pub undelivered :
      (n : ℕ) (t : GreenThread) (msg : Message) (now : ℕ)
      → is_alive t ≡ true
      → msg.size < 2 ^ 63
      → IsLaidOut t.private_heap
      → header_size + align msg.size ≤ t.private_heap.total_size
      → (address : ℕ) × ((send_message t msg now).1 ≡ true)
        × ((quanta n (send_message t msg now).0).mailbox ≡ t.mailbox ++ queued msg address now ∷ [])
        × ((receive (temp_actor (quanta n (send_message t msg now).0))).1 ≡ none)
  unfolding receive temp_actor
  undelivered n t msg now live small v room =
      let sent = send-Queued t msg now live small v room in
      (
        sent.address,
        sent.accepted,
        quanta-mailbox n (send_message t msg now).0 ∙ sent.last,
        unfold new_actor in refl,
      )
