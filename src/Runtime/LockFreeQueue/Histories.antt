-- ===== src/Runtime/LockFreeQueue/Histories.antt =====
-- lockfree_queue.h: all that producers and the consumer do with a queue, in any order.
use mathlib.Core.Option.{some-injective}
use aithon.Prelude.{
  ℕ, ◌≡◌, ◌≢◌, refl, sym, ap, subst, true, Option, none, some, List, [], ◌∷◌, ◌++◌, append_assoc,
  append-nil, ◌∙◌, arith,
}
use aithon.Runtime.LockFreeQueue.{null, Queue, init, exchange, link, try_dequeue, is_empty}
use aithon.Runtime.LockFreeQueue.Fifo.{
  Holds, init-Holds, exchange-Holds, Linked, still, link-Linked, Taken, nothing, took,
  try_dequeue-Taken, is_empty-some, is_empty_lem, is_empty-some, is_empty_lem,
}

-- A queue, with what was put in by an exchange and what was handed out, in order.
pub record History (T : Type 0) : Type 0 where
  pub queue : Queue T
  pub sent : List T
  pub received : List T

abbrev pub start : {T : Type 0} → ℕ → History T
start dummy = record { queue = init dummy; sent = []; received = [] }

abbrev to_list : {T : Type 0} → Option T → List T
to_list none = []
to_list (some v) = v ∷ []

module _ {T : Type 0} (moved : T → T) where
  -- `new` gives any address where there is no node, one that was freed before too. A step that would
  -- access a freed node has no outcome.
  pub data Step (h : History T) : History T → Type 0 where
    exchanges :
        (v : T) (new_node : ℕ)
        → h.queue.nodes new_node ≡ none
        → new_node ≢ null
        → Step h (record h { queue = exchange v new_node h.queue; sent = h.sent ++ (v ∷ []) })
    links : (i : ℕ) (q : Queue T) → link i h.queue ≡ some q → Step h (record h { queue = q })
    dequeues :
        (o : Option T) (q : Queue T)
        → try_dequeue moved h.queue ≡ some (o, q)
        → Step h (record h { queue = q; received = h.received ++ to_list o })

  pub data Reach (h : History T) : History T → Type 0 where
    here : Reach h h
    after : {g k : History T} → Reach h g → Step g k → Reach h k

  -- What was received, and then what the queue holds, is what was sent.
  pub record InOrder (h : History T) : Type 0 where
    pub waiting : List T
    pub in_order : h.sent ≡ h.received ++ waiting
    pub holds : Holds h.queue waiting

  Linked-Holds :
      (vs : List T) (o : Option (Queue T)) (q : Queue T) → Linked vs o → o ≡ some q → Holds q vs
  Linked-Holds vs _ q (still r h) e = subst (λ x. Holds x vs) (some-injective _ _ e) h

  Taken-InOrder :
      (q : Queue T) (sent received vs : List T) (o : Option (Option T × Queue T))
      (r : Option T × Queue T)
      → sent ≡ received ++ vs
      → Holds q vs
      → Taken q vs o
      → o ≡ some r
      → InOrder (record { queue = r.1; sent = sent; received = received ++ to_list r.0 })
  Taken-InOrder q sent received vs _ r e h (nothing _ _) is =
      subst (λ x. InOrder (record { queue = x.1; sent = sent; received = received ++ to_list x.0 }))
        (some-injective _ _ is)
        (record { waiting = vs; in_order = rw (append-nil received) e; holds = h })
  Taken-InOrder q sent received _ _ r e h (took v vs q' h') is =
      subst (λ x. InOrder (record { queue = x.1; sent = sent; received = received ++ to_list x.0 }))
        (some-injective _ _ is)
        (record {
          waiting = vs;
          in_order = e ∙ sym (append_assoc received (v ∷ []) vs);
          holds = h';
        })

  Step-InOrder : (g h : History T) → Step g h → InOrder g → InOrder h
  Step-InOrder g _ (exchanges v f free nn) i = record {
    waiting = i.waiting ++ (v ∷ []);
    in_order = ap (λ l. l ++ (v ∷ [])) i.in_order ∙ append_assoc g.received i.waiting (v ∷ []);
    holds = exchange-Holds v f g.queue i.waiting free nn i.holds;
  }
  Step-InOrder g _ (links k q e) i = record {
    waiting = i.waiting;
    in_order = i.in_order;
    holds = Linked-Holds i.waiting _ q (link-Linked k g.queue i.waiting i.holds) e;
  }
  Step-InOrder g _ (dequeues o q e) i =
      Taken-InOrder g.queue g.sent g.received i.waiting _ (o, q) i.in_order i.holds
        (try_dequeue-Taken moved g.queue i.waiting i.holds) e

  -- From a queue as it is built, whatever the producers and the consumer do, in any order, what was
  -- received, followed by what the chain of nodes from the head to the tail holds, is what was sent, in
  -- the order of the exchanges.
  pub reach-InOrder : (dummy : ℕ) (h : History T) → Reach (start dummy) h → InOrder h
  reach-InOrder dummy _ here = record { waiting = []; in_order = refl; holds = init-Holds dummy }
  reach-InOrder dummy h (after {g} r s) = Step-InOrder g h s (reach-InOrder dummy g r)

  -- None of the accesses of the queue's operations is to a freed node.
  abbrev pub Safe : Queue T → Type 0
  Safe q = ((i : ℕ) → link i q ≢ none) × (try_dequeue moved q ≢ none) × (is_empty q ≢ none)

  Linked-some : (vs : List T) (o : Option (Queue T)) → Linked vs o → o ≢ none
  Linked-some vs _ (still q h) e = ground arith

  Taken-some :
      (q : Queue T) (vs : List T) (o : Option (Option T × Queue T)) → Taken q vs o → o ≢ none
  Taken-some q vs _ (nothing _ _) e = ground arith
  Taken-some q _ _ (took v vs r h) e = ground arith

  -- Whatever the producers and the consumer do, in any order, no later store of a link, no dequeue and
  -- no test for emptiness accesses a node that was freed.
  pub reach-Safe : (dummy : ℕ) (h : History T) → Reach (start dummy) h → Safe h.queue
  reach-Safe dummy h r =
      let i = reach-InOrder dummy h r in
      (
        λ k. Linked-some i.waiting _ (link-Linked k h.queue i.waiting i.holds),
        Taken-some h.queue i.waiting _ (try_dequeue-Taken moved h.queue i.waiting i.holds),
        is_empty-some h.queue i.waiting i.holds,
      )

  -- When no enqueue is underway and the queue says that it is empty, all that was sent has been
  -- received, in the order of the exchanges.
  pub reach_empty :
      (dummy : ℕ) (h : History T)
      → Reach (start dummy) h
      → h.queue.pending ≡ []
      → is_empty h.queue ≡ some true
      → h.received ≡ h.sent
  reach_empty dummy h r quiet e =
      let i = reach-InOrder dummy h r in
      sym (append-nil h.received)
      ∙ ap (λ l. h.received ++ l) (sym (is_empty_lem h.queue i.waiting i.holds quiet e))
      ∙ sym i.in_order
