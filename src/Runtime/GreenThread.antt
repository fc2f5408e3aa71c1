-- ===== src/Runtime/GreenThread.antt =====
-- src/runtime/green_threads.cpp and include/runtime/green_threads.h: one green thread. Its mailbox is the
-- list of its messages, oldest first. The times of collections and the saved registers are left out.
pub mod Quantum
mod Tests
use aithon.Prelude.{
  ℕ, ◌+◌, ◌-◌, ◌/◌, ◌%◌, ◌^◌, Bool, true, false, ◌&&◌, not, Option, none, some, List, [], ◌∷◌, ◌++◌,
  Bytes, if◌then◌else◌,
}
use aithon.Runtime.Actor.{ActorProcess, init, Message, message_size}
use aithon.Runtime.Heap.{Heap, empty, allocate, collect_garbage, word}

pub data State : Type 0 where
  created ready running blocked terminated : State

pub record GcStats : Type 0 where
  pub collections_count : ℕ
  pub objects_freed : ℕ
  pub bytes_freed : ℕ

pub record GreenThread : Type 0 where
  pub thread_id : ℕ
  pub state : State
  pub private_heap : Heap
  pub gc_stats : GcStats
  pub has_crashed : Bool
  pub crash_reason : Bytes
  pub mailbox : List Message
  pub behavior : Option ℕ
  pub initial_args : ℕ

unfoldable pub create : ℕ → ℕ → GreenThread
create id heap_size = record {
  thread_id = id;
  state = created;
  private_heap = empty heap_size;
  gc_stats = record { collections_count = 0; objects_freed = 0; bytes_freed = 0 };
  has_crashed = false;
  crash_reason = [];
  mailbox = [];
  behavior = none;
  initial_args = 0;
}

abbrev pub set_behavior : GreenThread → Option ℕ → ℕ → GreenThread
set_behavior t code args = record t { behavior = code; initial_args = args; state = ready }

abbrev pub is_terminated : State → Bool
is_terminated terminated = true
is_terminated s = false

abbrev pub is_alive : GreenThread → Bool
is_alive t = not t.has_crashed && not (is_terminated t.state)

-- The counters are `size_t`s, the estimate of objects too.
abbrev pub update_gc_stats : GcStats → ℕ → GcStats
update_gc_stats s freed = record {
  collections_count = (s.collections_count + 1) % word;
  objects_freed = (s.objects_freed + freed / 64) % word;
  bytes_freed = (s.bytes_freed + freed) % word;
}

unfoldable pub run_gc : GreenThread → GreenThread
run_gc t =
    let h = collect_garbage t.private_heap in
    record t {
      private_heap = h;
      gc_stats =
          update_gc_stats t.gc_stats ((t.private_heap.used_size + word - h.used_size) % word);
    }

abbrev pub unblock : State → State
unblock blocked = ready
unblock s = s

-- `now` is the clock's reading as the copy is made.
abbrev pub deliver : GreenThread → Message → Heap → ℕ → ℕ → GreenThread
deliver t msg heap address now = record t {
  private_heap = heap;
  mailbox =
      t.mailbox
      ++ (record {
        payload = address;
        size = msg.size;
        sender_pid = msg.sender_pid;
        timestamp = now;
      }
          ∷ []);
  state = unblock t.state;
}

abbrev pub send_again : GreenThread → Message → ℕ → Heap × Option ℕ → GreenThread × Bool
send_again t msg now (heap, none) = (record t { private_heap = heap }, false)
send_again t msg now (heap, some address) = (deliver t msg heap address now, true)

abbrev pub send_first : GreenThread → Message → ℕ → Heap × Option ℕ → GreenThread × Bool
send_first t msg now (heap, none) =
    send_again (run_gc (record t { private_heap = heap })) msg now
      (allocate ((run_gc (record t { private_heap = heap })).private_heap) msg.size)
send_first t msg now (heap, some address) = (deliver t msg heap address now, true)

abbrev pub send_if : Bool → GreenThread → Message → ℕ → GreenThread × Bool
send_if false t msg now = (t, false)
send_if true t msg now = send_first t msg now (allocate t.private_heap msg.size)

unfoldable pub send_message : GreenThread → Message → ℕ → GreenThread × Bool
send_message t msg now = send_if (is_alive t) t msg now

abbrev pub block_running : State → State
block_running running = blocked
block_running s = s

abbrev pub block : GreenThread → GreenThread × Option Message
block t = (record t { state = block_running t.state }, none)

abbrev pub take_first :
    GreenThread → Message → List Message → Heap × Option ℕ → GreenThread × Option Message
take_first t msg rest (heap, none) = block (record t { private_heap = heap; mailbox = rest })
take_first t msg rest (heap, some address) =
    (record t { private_heap = heap; mailbox = rest }, some msg)

abbrev pub receive_from : GreenThread → List Message → GreenThread × Option Message
receive_from t [] = block t
receive_from t (msg ∷ rest) = take_first t msg rest (allocate t.private_heap message_size)

unfoldable pub receive_message : GreenThread → GreenThread × Option Message
receive_message t = receive_from t t.mailbox

unfoldable pub crash : GreenThread → Bytes → GreenThread
crash t reason = record t { has_crashed = true; crash_reason = reason; state = terminated }

-- The actor that the behaviour is run on: a new one, whose heap has no bytes.
unfoldable pub temp_actor : GreenThread → ActorProcess
temp_actor t = record (init t.thread_id 0) { behavior = t.behavior }

-- `call` runs compiled code with its arguments on the actor. Other threads send messages meanwhile, so it
-- leaves the thread in some state, and returns or throws. `over` says if the heap is fuller than 80%, by
-- the division of doubles.
module _ (call : ℕ → ℕ → ActorProcess → GreenThread → GreenThread × Option Bytes)
    (over : ℕ → ℕ → Bool) where
  abbrev pub auto_gc_check : GreenThread → GreenThread
  auto_gc_check t = if over t.private_heap.used_size t.private_heap.total_size then run_gc t else t

  abbrev pub pause : State → State
  pause running = ready
  pause s = s

  abbrev pub after_call : GreenThread × Option Bytes → GreenThread × Bool
  after_call (t, some reason) = (crash t reason, false)
  after_call (t, none) = let u = auto_gc_check t in (record u { state = pause u.state }, true)

  abbrev pub run_quantum : Option ℕ → GreenThread → GreenThread × Bool
  run_quantum none t = (t, false)
  run_quantum (some code) t =
      after_call (call code t.initial_args (temp_actor t) (record t { state = running }))

  abbrev pub quantum_in : State → GreenThread → GreenThread × Bool
  quantum_in ready t = run_quantum t.behavior t
  quantum_in running t = run_quantum t.behavior t
  quantum_in s t = (t, false)

  unfoldable pub execute_quantum : GreenThread → GreenThread × Bool
  unfolding crash run_gc
  execute_quantum t = quantum_in t.state t
