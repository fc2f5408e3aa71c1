-- ===== src/Runtime/Tests.antt =====
-- Runs of the heap, of an actor and of the scheduler, and their theorems at concrete states.
use aithon.Prelude.{ℕ, drop, ◌+◌, ◌-◌, ◌≤◌, ◌≡◌, ◌≢◌, refl, true, false, none, some, [], ◌∷◌, arith}
use aithon.Runtime.Actor.{
  ActorProcess, Message, Behavior, runnable, running, dead, init as new_actor, send, receive,
  is_alive, execute_quantum,
}
use aithon.Runtime.Actor.Mailbox.{
  Sent, queued, send-Sent, receives, nothing, receives_lost, send_overwrites,
}
use aithon.Runtime.Actor.States.{execute_quantum_stops, receive_revives}
use aithon.Runtime.Heap.{Heap, empty, allocate, compact_heap, place, header_size, word}
use aithon.Runtime.Heap.Full.{allocate_fits, allocate_full, allocate_wraps}
use aithon.Runtime.Heap.Layout.{IsLaidOut, compact_heap_lem, allocate-IsLaidOut}

-- A heap of 100 bytes that holds objects of 24 and 16 bytes, the second marked.
abbrev two_objects : Heap
two_objects = record {
  objects = record { size = 24; marked = false } ∷ record { size = 16; marked = true } ∷ [];
  allocation_ptr = 72;
  total_size = 100;
  used_size = 72;
}

abbrev two_objects-IsLaidOut : IsLaidOut two_objects
two_objects-IsLaidOut = record { filled = refl; counted = refl; bounded = omega arith }

-- The same without the mark.
abbrev unmarked : Heap
unmarked = record two_objects {
  objects = record { size = 24; marked = false } ∷ record { size = 16; marked = false } ∷ [];
}

compact_heap_lem_example :
    ((compact_heap two_objects).objects ≡ record { size = 16; marked = false } ∷ [])
    × IsLaidOut (compact_heap two_objects)
    × ((compact_heap two_objects).used_size ≤ 72)
compact_heap_lem_example = compact_heap_lem two_objects two_objects-IsLaidOut

allocate-IsLaidOut_example : IsLaidOut (allocate two_objects 20).0
allocate-IsLaidOut_example = allocate-IsLaidOut two_objects 20 (omega arith) two_objects-IsLaidOut

allocate_fits_example :
    (allocate two_objects 5 ≡ (place two_objects 8, some 88))
    × (5 ≤ 8)
    × (72 + header_size + 8 ≡ 96)
    × (96 ≤ 100)
allocate_fits_example =
    allocate_fits two_objects 5 two_objects-IsLaidOut (omega arith) (omega arith)

allocate_full_example : allocate unmarked 20 ≡ (place (empty 100) 24, some 16)
allocate_full_example = allocate_full unmarked 20 (refl, (refl, tt)) (omega arith)

allocate_wraps_example : allocate two_objects (word - 1) ≡ (place two_objects 0, some 88)
allocate_wraps_example =
    allocate_wraps two_objects (word - 1) (omega arith) (omega arith) (omega arith)

abbrev greeting : Message
greeting = record { payload = 4096; size = 20; sender_pid = 3; timestamp = 0 }

-- An actor whose mailbox has a message, on a heap with the space that `room` says.
abbrev with_mail : Heap → ActorProcess
with_mail h = record (new_actor 1 100) { heap = h; mailbox = queued greeting 16 9 ∷ [] }

send-Sent_example :
    Sent (with_mail two_objects) greeting 12 (send (with_mail two_objects) greeting 12)
send-Sent_example =
    send-Sent (with_mail two_objects) greeting 12 two_objects-IsLaidOut (omega arith)

receives_lost_example :
    ((receives 2 (with_mail (empty 40))).1 ≡ nothing 2)
    × ((receives 2 (with_mail (empty 40))).0.mailbox ≡ drop 2 ((with_mail (empty 40)).mailbox))
receives_lost_example = receives_lost 2 (with_mail (empty 40)) (omega arith)

send_overwrites_example : send (with_mail unmarked) greeting 12 ≡ (
  record (with_mail unmarked) {
    heap = place (empty 100) 24;
    mailbox = queued greeting 16 9 ∷ queued greeting 16 12 ∷ [];
    state = runnable;
  },
  true,
)
unfolding new_actor
send_overwrites_example =
    send_overwrites (with_mail unmarked) greeting 12 (refl, (refl, tt)) (omega arith) (omega arith)

-- An actor that was killed while it ran.
abbrev killed : ActorProcess
killed = record (new_actor 1 100) { state = dead }

receive_revives_example :
    (is_alive (receive killed).0 ≡ true)
    × ((send (receive killed).0 greeting 5).1 ≡ true
        → (send (receive killed).0 greeting 5).0.state ≡ runnable)
unfolding new_actor
receive_revives_example = receive_revives killed greeting 5 refl

-- A behaviour that receives one message.
abbrev listen : ℕ → Behavior
listen code args a = ((receive a).0, none)

abbrev listener : ActorProcess
listener = record (new_actor 1 100) { behavior = some 7 }

execute_quantum_stops_example : (execute_quantum listen listener 5).0.state ≢ running
unfolding new_actor
execute_quantum_stops_example = execute_quantum_stops listen 5 listener (λ e. cc)
