-- ===== src/Runtime/LockFreeQueue/Fifo.antt =====
-- What the lockfree_queue.h queue promises: it hands out what was put in, in the order of the exchanges.
use mathlib.Core.List.{Mem, Perm, perm_append_singleton, mem-cons_self}
use mathlib.Core.List.Perm
use aithon.Prelude.{
  ℕ, ◌≡◌, ◌≢◌, ◌⊎◌, inl, inr, refl, sym, subst, true, false, Option, none, some, List, [], ◌∷◌,
  ◌++◌, arith, ◌==◌,
}
use aithon.Runtime.LockFreeQueue.{
  null, Store, Queue, init, exchange, link, link_step, with_nodes, set_next, try_dequeue, is_empty,
  next_is_null, take_nth,
}
use aithon.Runtime.LockFreeQueue.Chain.{
  Chain, last, linked, unlinked, Distinct, Distinct-append, write_at, Chain-write, Chain-Avoids,
  Chain-append, Chain-replace,
}
use aithon.Runtime.LockFreeQueue.Links.{Chain-Stored, Picked, take_nth-Picked}

-- The queue holds these values: its nodes make a chain with them, behind the node at the head, and the
-- links that are not stored yet are those that producers still have to store.
pub record Holds {T : Type 0} (q : Queue T) (values : List T) : Type 0 where
  pub first : Option T
  pub addresses : List ℕ
  pub links : List (ℕ × ℕ)
  pub chain : Chain q.nodes q.tail q.head first addresses values links
  pub distinct : Distinct (q.head ∷ addresses)
  pub pending : Perm links q.pending

module _ {T : Type 0} where
  pub init-Holds : (dummy : ℕ) → Holds {T = T} (init dummy) []
  unfolding init
  init-Holds dummy = record {
    first = none;
    addresses = [];
    links = [];
    chain = last dummy none (write_at (λ a. none) dummy _) refl;
    distinct = (tt, tt);
    pending = Perm.rfl;
  }

  pub exchange-Holds :
      (v : T) (f : ℕ) (q : Queue T) (vs : List T)
      → q.nodes f ≡ none
      → f ≢ null
      → Holds q vs
      → Holds (exchange v f q) (vs ++ (v ∷ []))
  unfolding exchange
  exchange-Holds v f q vs free nn h = record {
    first = h.first;
    addresses = h.addresses ++ (f ∷ []);
    links = h.links ++ ((q.tail, f) ∷ []);
    chain = Chain-append f v free nn h.chain;
    distinct = Distinct-append f (q.head ∷ h.addresses) h.distinct (Chain-Avoids f free h.chain);
    pending =
        Perm.trans (perm_append_singleton (q.tail, f) h.links) (Perm.cons (q.tail, f) h.pending);
  }

  -- What storing a link gives: there was a node to write to, and the queue holds the same.
  pub data Linked (vs : List T) : Option (Queue T) → Type 0 where
    still : (q : Queue T) → Holds q vs → Linked vs (some q)

  link_step-Linked :
      (q : Queue T) (vs : List T) (o : Option ((ℕ × ℕ) × List (ℕ × ℕ)))
      → Holds q vs
      → Picked q.pending o
      → Linked vs (link_step q o)
  link_step-Linked q vs none h _ = still q h
  link_step-Linked q vs (some ((p, n), rest)) h picked =
      let here = Perm.subset (Perm.symm (Perm.trans h.pending picked)) (p, n) mem-cons_self in
      let s = Chain-Stored p n h.chain h.distinct here in
      subst (λ o. Linked vs (with_nodes q rest (set_next q.nodes p n o))) (sym s.found)
        (still _ (record {
          first = h.first;
          addresses = h.addresses;
          links = s.rest;
          chain = s.chain;
          distinct = h.distinct;
          pending = Perm.cons_inv (Perm.trans (Perm.symm s.perm) (Perm.trans h.pending picked));
        }))

  pub link-Linked : (i : ℕ) (q : Queue T) (vs : List T) → Holds q vs → Linked vs (link i q)
  unfolding link
  link-Linked i q vs h =
      link_step-Linked q vs (take_nth i q.pending) h (take_nth-Picked i q.pending)

-- What a dequeue gives. It finds nothing in an empty queue, and behind a head whose link is not stored;
-- else it takes the first value.
pub data Taken {T : Type 0} (q : Queue T) : List T → Option (Option T × Queue T) → Type 0 where
  nothing :
      (vs : List T)
      → (vs ≡ []) ⊎ ((b : ℕ) × Mem (q.head, b) q.pending)
      → Taken q vs (some (none, q))
  took : (v : T) (vs : List T) (r : Queue T) → Holds r vs → Taken q (v ∷ vs) (some (some v, r))

not_null : (a : ℕ) → a ≢ null → (a == null) ≡ false
not_null a ne = ground arith

module _ {T : Type 0} (moved : T → T) where
  Chain-Taken :
      (q : Queue T) (d : Option T) (bs : List ℕ) (vs : List T) (us : List (ℕ × ℕ))
      → Chain q.nodes q.tail q.head d bs vs us
      → Distinct (q.head ∷ bs)
      → Perm us q.pending
      → Taken q vs (try_dequeue moved q)
  unfolding try_dequeue
  Chain-Taken q _ _ _ _ (last a d e at) ds p = rw e (nothing _ (inl refl))
  Chain-Taken q _ _ _ _ (unlinked a d b v bs vs us e nn c) ds p =
      rw e (nothing _ (inr (b, Perm.subset p (a, b) mem-cons_self)))
  Chain-Taken q _ _ _ _ (linked a d b v bs vs us e nn c) ds p =
      let r = Chain-replace (some (moved v)) ds.1.0 c in
      rw (e, not_null b nn, r.1)
        (took v vs _ (record {
          first = some (moved v);
          addresses = bs;
          links = us;
          chain = Chain-write q.head none ds.0 r.2;
          distinct = ds.1;
          pending = p;
        }))

  pub try_dequeue-Taken :
      (q : Queue T) (vs : List T) → Holds q vs → Taken q vs (try_dequeue moved q)
  try_dequeue-Taken q vs h =
      Chain-Taken q h.first h.addresses vs h.links h.chain h.distinct h.pending

-- What the consumer sees of an empty queue.
Chain-is_null :
    {T : Type 0} {nodes : Store T} {tail a : ℕ} {d : Option T} {bs : List ℕ} {vs : List T}
    {us : List (ℕ × ℕ)}
    → Chain nodes tail a d bs vs us
    → next_is_null (nodes a) ≢ none
Chain-is_null (last a d e at) q = ground arith
Chain-is_null (linked a d b v bs vs us e nn c) q = ground arith
Chain-is_null (unlinked a d b v bs vs us e nn c) q = ground arith

Chain_empty :
    {T : Type 0} {nodes : Store T} {tail a : ℕ} {d : Option T} {bs : List ℕ} {vs : List T}
    {us : List (ℕ × ℕ)}
    → Chain nodes tail a d bs vs us
    → Perm us []
    → next_is_null (nodes a) ≡ some true
    → vs ≡ []
Chain_empty (last a d e at) p q = refl
Chain_empty (linked a d b v bs vs us e nn c) p q = absurd (ground arith)
Chain_empty (unlinked a d b v bs vs us e nn c) p q =
    let none_left = Perm.eq-nil p in absurd (ground arith)

module _ {T : Type 0} (q : Queue T) (vs : List T) (h : Holds q vs) where
  pub is_empty-some : is_empty q ≢ none
  unfolding is_empty
  is_empty-some = Chain-is_null h.chain

  pub is_empty_lem : q.pending ≡ [] → is_empty q ≡ some true → vs ≡ []
  unfolding is_empty
  is_empty_lem quiet e = Chain_empty h.chain (subst (λ us. Perm h.links us) quiet h.pending) e
