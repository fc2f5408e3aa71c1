-- ===== src/Runtime/Actor/Mailbox.antt =====
-- Sending and receiving: order, refusals, and what becomes of messages when the heap is full.
use aithon.Prelude.{
  ℕ, zero, suc, ◌+◌, ◌^◌, ◌∙◌, drop, ◌≤◌, ◌<◌, ◌≡◌, refl, ap, Bool, true, false, Option, none, some,
  List, [], ◌∷◌, ◌++◌, arith, ltb,
}
use aithon.Runtime.Heap.{
  Heap, empty, allocate, collect_garbage, compact_heap, overflows, align, footprint, header_size,
  place,
}
use aithon.Runtime.Heap.Given.{
  Placed, Tried, allocate-Tried, collected_twice, Retried, allocate-Retried,
}
use aithon.Runtime.Heap.Layout.{IsLaidOut}
use aithon.Runtime.Heap.Full.{Unmarked, allocate_full}
use aithon.Runtime.Actor.{
  ActorProcess, Message, message_size, wake, send, send_first, send_again, receive, receive_from,
}

-- The copy of `msg` that waits in the mailbox.
abbrev pub queued : Message → ℕ → ℕ → Message
queued msg address now = record {
  payload = address;
  size = msg.size;
  sender_pid = msg.sender_pid;
  timestamp = now;
}

-- Either the message is the last one in the mailbox and a waiting actor is runnable, or `send` says
-- false and mailbox and state are as before. In both cases only the heap has changed besides.
pub data Answered (a : ActorProcess) (msg : Message) (now : ℕ) (r : ActorProcess × Bool)
    : Type 0 where
  taken :
      (heap : Heap) (address : ℕ)
      → r ≡ (
        record a {
          heap = heap;
          mailbox = a.mailbox ++ queued msg address now ∷ [];
          state = wake a.state;
        },
        true,
      )
      → Answered a msg now r
  declined : (heap : Heap) → r ≡ (record a { heap = heap }, false) → Answered a msg now r

send_again-Answered :
    (a : ActorProcess) (msg : Message) (now : ℕ) (r : Heap × Option ℕ)
    → Answered a msg now (send_again a msg now r)
send_again-Answered a msg now (heap, none) = declined heap refl
send_again-Answered a msg now (heap, some address) = taken heap address refl

send_first-Answered :
    (a : ActorProcess) (msg : Message) (now : ℕ) (r : Heap × Option ℕ)
    → Answered a msg now (send_first a msg now r)
send_first-Answered a msg now (heap, none) =
    send_again-Answered a msg now (allocate (collect_garbage heap) msg.size)
send_first-Answered a msg now (heap, some address) = taken heap address refl

pub send-Answered :
    (a : ActorProcess) (msg : Message) (now : ℕ) → Answered a msg now (send a msg now)
unfolding send
send-Answered a msg now = send_first-Answered a msg now (allocate a.heap msg.size)

-- A message whose copy with its header, rounded up, is no larger than the heap is taken: it is the last one
-- in the mailbox, its payload is the last object of the heap, which is laid out, and a waiting actor is
-- runnable. Any other is declined: the heap has lost all its objects, and nothing else has changed.
pub data Sent (a : ActorProcess) (msg : Message) (now : ℕ) (r : ActorProcess × Bool) : Type 0 where
  accepted :
      (heap : Heap) (address : ℕ)
      → header_size + align msg.size ≤ a.heap.total_size
      → Placed heap a.heap.total_size msg.size address
      → r ≡ (
        record a {
          heap = heap;
          mailbox = a.mailbox ++ queued msg address now ∷ [];
          state = wake a.state;
        },
        true,
      )
      → Sent a msg now r
  refused :
      a.heap.total_size < header_size + align msg.size
      → r ≡ (record a { heap = empty a.heap.total_size }, false)
      → Sent a msg now r

Placed-room :
    (h : Heap) (total request address : ℕ)
    → Placed h total request address
    → header_size + align request ≤ total
Placed-room h total request address p =
    omega (arith, p.behind, p.ends, p.laid_out.bounded, p.same_total)

send_again-Sent :
    (a : ActorProcess) (msg : Message) (now : ℕ) (r : Heap × Option ℕ)
    → Retried a.heap.total_size msg.size r
    → Sent a msg now (send_again a msg now r)
send_again-Sent a msg now r (Retried.given heap address p e) =
    accepted heap address (Placed-room heap _ msg.size address p) p (rw e refl)
send_again-Sent a msg now r (Retried.full out e) = refused out (rw e refl)

send_first-Sent :
    (a : ActorProcess) (msg : Message) (now : ℕ) (r : Heap × Option ℕ)
    → msg.size < 2 ^ 63
    → IsLaidOut a.heap
    → Tried a.heap msg.size r
    → Sent a msg now (send_first a msg now r)
send_first-Sent a msg now r small v (Tried.given heap address p e) =
    accepted heap address (Placed-room heap _ msg.size address p) p (rw e refl)
send_first-Sent a msg now r small v (Tried.full out e) =
    rw (e, collected_twice a.heap v)
      (send_again-Sent a msg now _ (allocate-Retried a.heap.total_size msg.size small))

-- For an actor with a laid-out heap and a message of less than 2^63 bytes, `send` says true exactly if the
-- copy with its header, rounded up, is no larger than the whole heap. Then the message is the last one in
-- the mailbox, its payload is the last object of a laid-out heap of the same size, and a waiting actor is
-- runnable. Else the heap has lost all its objects. Nothing else has changed.
pub send-Sent :
    (a : ActorProcess) (msg : Message) (now : ℕ)
    → IsLaidOut a.heap
    → msg.size < 2 ^ 63
    → Sent a msg now (send a msg now)
unfolding send
send-Sent a msg now v small =
    send_first-Sent a msg now _ small v (allocate-Tried a.heap msg.size small v)

no_room :
    (h : Heap)
    → h.total_size < 48
    → (h' : Heap) × (allocate h message_size ≡ (h', none)) × (h'.total_size ≡ h.total_size)
unfolding allocate compact_heap
no_room h small =
    let over : overflows h (align message_size) ≡ true = ground arith in
    let again : overflows (compact_heap h) (align message_size) ≡ true = ground arith in
    (compact_heap h, rw (over, again) refl, refl)

-- So many calls of `receive`, one after the other: the actor, and the messages that came.
abbrev pub receives : ℕ → ActorProcess → ActorProcess × List (Option Message)
receives zero a = (a, [])
receives (suc n) a = let r = receive a in let rest = receives n r.0 in (rest.0, r.1 ∷ rest.1)

abbrev pub nothing : ℕ → List (Option Message)
nothing zero = []
nothing (suc n) = none ∷ nothing n

receive_lost :
    (a : ActorProcess) (mailbox : List Message)
    → a.mailbox ≡ mailbox
    → a.heap.total_size < 48
    → ((receive a).1 ≡ none)
      × (((receive a).0.mailbox ≡ drop 1 mailbox) × ((receive a).0.heap.total_size < 48))
unfolding receive
receive_lost a [] e small = rw (ap (receive_from a) e) (refl, (e, small))
receive_lost a (msg ∷ rest) e small =
    let room = no_room a.heap small in
    rw (ap (receive_from a) e) (rw (room.1) (refl, (refl, omega (arith, room.2))))

drop-drop : (n : ℕ) (l : List Message) → drop n (drop 1 l) ≡ drop (suc n) l
drop-drop zero l = refl
drop-drop (suc n) [] = refl
drop-drop (suc n) (m ∷ l) = refl

-- An actor whose heap has less than 48 bytes, as many as a copy of a message takes with its header, loses
-- its messages: any number of calls of `receive` give none of them, and each call takes one from the
-- mailbox, while there is one.
pub receives_lost :
    (n : ℕ) (a : ActorProcess)
    → a.heap.total_size < 48
    → ((receives n a).1 ≡ nothing n) × ((receives n a).0.mailbox ≡ drop n a.mailbox)
receives_lost zero a small = (refl, refl)
receives_lost (suc n) a small =
    let once = receive_lost a a.mailbox refl small in
    let ih = receives_lost n (receive a).0 once.1.1 in
    (rw (once.0, ih.0) refl, ih.1 ∙ ap (drop n) once.1.0 ∙ drop-drop n a.mailbox)

-- A send that finds the heap full throws away the payloads of the messages that still wait: the new
-- payload lies at the start of the heap, where the first of all payloads lay, and theirs are in no
-- object any more.
pub send_overwrites :
    (a : ActorProcess) (msg : Message) (now : ℕ)
    → Unmarked a.heap
    → a.heap.total_size < a.heap.allocation_ptr + footprint (align msg.size)
    → footprint (align msg.size) ≤ a.heap.total_size
    → send a msg now ≡ (
      record a {
        heap = place (empty a.heap.total_size) (align msg.size);
        mailbox = a.mailbox ++ queued msg header_size now ∷ [];
        state = wake a.state;
      },
      true,
    )
unfolding send
send_overwrites a msg now u full fits =
    let room : ltb a.heap.total_size (footprint (align msg.size)) ≡ false = ground arith in
    rw (allocate_full a.heap msg.size u full) (rw room refl)
