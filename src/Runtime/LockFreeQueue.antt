-- ===== src/Runtime/LockFreeQueue.antt =====
-- include/runtime/lockfree_queue.h: the queue behind a mailbox, with many producers and one consumer.
-- A node stands at an address; a freed one is no longer there, and an access to it is a fault (`none`).
-- An enqueue is two steps, the exchange of the tail and the link from the node before, with any steps
-- of the other threads in between; `pending` has the locals of the enqueues between the two. A dequeue
-- is one step, since of what it reads only the link is written by others, and it reads that once.
pub mod Chain
pub mod Links
pub mod Fifo
pub mod Histories
mod Tests
use aithon.Prelude.{
  ℕ, zero, suc, Bool, true, false, Option, none, some, List, [], ◌∷◌, ◌==◌, if◌then◌else◌,
}

abbrev pub null : ℕ
null = 0

-- `next` is `null` or an address.
pub record Node (T : Type 0) : Type 0 where
  pub data_ : Option T
  pub next : ℕ

abbrev pub Store : Type 0 → Type 0
Store T = ℕ → Option (Node T)

unfoldable pub write : {T : Type 0} → Store T → ℕ → Option (Node T) → Store T
write nodes p n a = if a == p then n else nodes a

-- `pending` holds `prev_tail` and `new_node` of each enqueue that has not stored its link.
pub record Queue (T : Type 0) : Type 0 where
  pub nodes : Store T
  pub head : ℕ
  pub tail : ℕ
  pub pending : List (ℕ × ℕ)

abbrev pub node : {T : Type 0} → Option T → ℕ → Node T
node d a = record { data_ = d; next = a }

unfoldable pub init : {T : Type 0} → ℕ → Queue T
unfolding write
init dummy = record {
  nodes = write (λ a. none) dummy (some (node none null));
  head = dummy;
  tail = dummy;
  pending = [];
}

-- The first half of enqueue, at the address `new_node` that `new` has given.
unfoldable pub exchange : {T : Type 0} → T → ℕ → Queue T → Queue T
unfolding write
exchange value new_node q = record {
  nodes = write q.nodes new_node (some (node (some value) null));
  head = q.head;
  tail = new_node;
  pending = (q.tail, new_node) ∷ q.pending;
}

abbrev pub set_next : {T : Type 0} → Store T → ℕ → ℕ → Option (Node T) → Option (Store T)
set_next nodes p a none = none
set_next nodes p a (some n) = some (write nodes p (some (node n.data_ a)))

-- The element at an index and the others.
unfoldable pub take_nth {ℓ} : {A : Type ℓ} → ℕ → List A → Option (A × List A)
take_nth i [] = none
take_nth zero (x ∷ xs) = some (x, xs)
take_nth (suc i) (x ∷ xs) = elim (take_nth i xs) [ none ↦ none | some r ↦ some (r.0, x ∷ r.1) ]

abbrev pub with_nodes : {T : Type 0} → Queue T → List (ℕ × ℕ) → Option (Store T) → Option (Queue T)
with_nodes q rest none = none
with_nodes q rest (some nodes) = some (record q { nodes = nodes; pending = rest })

abbrev pub link_step : {T : Type 0} → Queue T → Option ((ℕ × ℕ) × List (ℕ × ℕ)) → Option (Queue T)
link_step q none = some q
link_step q (some ((prev_tail, new_node), rest)) =
    with_nodes q rest (set_next q.nodes prev_tail new_node (q.nodes prev_tail))

-- The second half of the enqueue that is at an index among those that have not stored their link.
unfoldable pub link : {T : Type 0} → ℕ → Queue T → Option (Queue T)
unfolding write take_nth
link i q = link_step q (take_nth i q.pending)

module _ {T : Type 0} (moved : T → T) where
  abbrev moved_from : Option T → Option T
  moved_from none = none
  moved_from (some v) = some (moved v)

  -- The data is moved out of the node behind the head, which becomes the head; the old one is freed.
  abbrev pub take_from : Queue T → ℕ → Option (Node T) → Option (Option T × Queue T)
  take_from q a none = none
  take_from q a (some n) = some (
    n.data_,
    record q {
      nodes = write (write q.nodes a (some (node (moved_from n.data_) n.next))) q.head none;
      head = a;
    },
  )

  -- `moved` is what a move leaves behind.
  abbrev pub dequeue_step : Queue T → Option (Node T) → Option (Option T × Queue T)
  dequeue_step q none = none
  dequeue_step q (some h) =
      if h.next == null then some (none, q) else take_from q h.next (q.nodes h.next)

  unfoldable pub try_dequeue : Queue T → Option (Option T × Queue T)
  unfolding write
  try_dequeue q = dequeue_step q (q.nodes q.head)

abbrev pub next_is_null : {T : Type 0} → Option (Node T) → Option Bool
next_is_null none = none
next_is_null (some h) = some (h.next == null)

unfoldable pub is_empty : {T : Type 0} → Queue T → Option Bool
is_empty q = next_is_null (q.nodes q.head)
