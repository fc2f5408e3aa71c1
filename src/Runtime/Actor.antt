-- ===== src/Runtime/Actor.antt =====
-- src/runtime/actor_process.cpp, include/runtime/actor_process.h and include/runtime/message.h: one
-- actor. The lock-free mailbox is the list of its messages, oldest first; a method is one step.
pub mod Mailbox
pub mod States
use aithon.Prelude.{
  ℕ, ◌+◌, Bool, true, false, ◌&&◌, not, Option, none, some, List, [], ◌∷◌, ◌++◌, Bytes, codes, leb,
  if◌then◌else◌,
}
use aithon.Runtime.Heap.{Heap, empty, allocate, collect_garbage}

pub data ActorState : Type 0 where
  runnable waiting running suspended exiting dead : ActorState

-- `payload` is an address in the receiver's heap, once the message is in its mailbox.
pub record Message : Type 0 where
  pub payload : ℕ
  pub size : ℕ
  pub sender_pid : ℕ
  pub timestamp : ℕ

-- `sizeof(Message)`
abbrev pub message_size : ℕ
message_size = 32

abbrev pub reductions_per_slice : ℕ
reductions_per_slice = 2000

pub record ExitReason : Type 0 where
  pub error_msg : Bytes
  pub crash_time : ℕ

-- `reductions_` is `reductions_per_slice` less `spent`, which may be more. The pids -1 are `none`;
-- a behaviour is the address of its compiled code, `none` for null.
pub record ActorProcess : Type 0 where
  pub pid : ℕ
  pub heap : Heap
  pub mailbox : List Message
  pub state : ActorState
  pub spent : ℕ
  pub supervisor_pid : Option ℕ
  pub monitored_by : List ℕ
  pub caller_pid : Option ℕ
  pub exit_reason : ExitReason
  pub behavior : Option ℕ
  pub initial_args : ℕ

unfoldable pub init : ℕ → ℕ → ActorProcess
init pid heap_size = record {
  pid = pid;
  heap = empty heap_size;
  mailbox = [];
  state = runnable;
  spent = 0;
  supervisor_pid = none;
  monitored_by = [];
  caller_pid = none;
  exit_reason = record { error_msg = []; crash_time = 0 };
  behavior = none;
  initial_args = 0;
}

-- The compare-and-exchange that ends `send`.
abbrev pub wake : ActorState → ActorState
wake waiting = runnable
wake s = s

abbrev pub deliver : ActorProcess → Message → Heap → ℕ → ℕ → ActorProcess
deliver a msg heap address now = record a {
  heap = heap;
  mailbox =
      a.mailbox
      ++ record { payload = address; size = msg.size; sender_pid = msg.sender_pid; timestamp = now }
        ∷ [];
  state = wake a.state;
}

abbrev pub send_again : ActorProcess → Message → ℕ → Heap × Option ℕ → ActorProcess × Bool
send_again a msg now (heap, none) = (record a { heap = heap }, false)
send_again a msg now (heap, some address) = (deliver a msg heap address now, true)

abbrev pub send_first : ActorProcess → Message → ℕ → Heap × Option ℕ → ActorProcess × Bool
send_first a msg now (heap, none) = send_again a msg now (allocate (collect_garbage heap) msg.size)
send_first a msg now (heap, some address) = (deliver a msg heap address now, true)

-- `now` is the clock's reading as the copy is made.
unfoldable pub send : ActorProcess → Message → ℕ → ActorProcess × Bool
send a msg now = send_first a msg now (allocate a.heap msg.size)

abbrev pub suspend : ActorProcess → ActorProcess × Option Message
suspend a = (record a { state = waiting }, none)

abbrev pub take_first :
    ActorProcess → Message → List Message → Heap × Option ℕ → ActorProcess × Option Message
take_first a msg rest (heap, none) = suspend (record a { heap = heap; mailbox = rest })
take_first a msg rest (heap, some address) = (record a { heap = heap; mailbox = rest }, some msg)

abbrev pub receive_from : ActorProcess → List Message → ActorProcess × Option Message
receive_from a [] = suspend a
receive_from a (msg ∷ rest) = take_first a msg rest (allocate a.heap message_size)

-- The message comes back in a copy on the actor's own heap.
unfoldable pub receive : ActorProcess → ActorProcess × Option Message
receive a = receive_from a a.mailbox

unfoldable pub should_yield : ActorProcess → ActorProcess × Bool
should_yield a = (record a { spent = a.spent + 1 }, leb reductions_per_slice a.spent)

unfoldable pub handle_crash : ActorProcess → Bytes → ℕ → ActorProcess
handle_crash a reason now = record a {
  state = dead;
  exit_reason = record { error_msg = reason; crash_time = now };
}

abbrev pub alive : ActorState → Bool
alive dead = false
alive exiting = false
alive s = true

abbrev pub is_alive : ActorProcess → Bool
is_alive a = alive a.state

abbrev pub pause : ActorState → ActorState
pause running = runnable
pause s = s

-- How compiled code returns: normally, or by an exception with its text.
abbrev pub Behavior : Type 0
Behavior = ℕ → ActorProcess → ActorProcess × Option Bytes

-- `call` runs compiled code, which is no part of the runtime, on its arguments and the actor.
module _ (call : ℕ → Behavior) where
  abbrev pub run_behavior : Option ℕ → ActorProcess → ActorProcess × Option Bytes
  run_behavior none a = (a, none)
  run_behavior (some code) a = call code a.initial_args a

  abbrev pub after_quantum : ℕ → ActorProcess × Option Bytes → ActorProcess × Bool
  after_quantum now (a, none) = (record a { state = pause a.state }, true)
  after_quantum now (a, some error) = (handle_crash a error now, false)

  abbrev pub quantum : ActorState → ActorProcess → ℕ → ActorProcess × Bool
  quantum runnable a now =
      after_quantum now (run_behavior a.behavior (record a { state = running; spent = 0 }))
  quantum s a now = (a, false)

  unfoldable pub execute_quantum : ActorProcess → ℕ → ActorProcess × Bool
  unfolding handle_crash
  execute_quantum a now = quantum a.state a now
