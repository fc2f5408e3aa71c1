-- ===== src/Runtime/LockFreeQueue/Chain.antt =====
-- The nodes of a lockfree_queue.h queue from its head to its tail.
use aithon.Prelude.{
  ℕ, ◌≡◌, ◌≢◌, refl, sym, subst, Option, none, some, List, [], ◌∷◌, ◌++◌, All, arith, ◌∙◌,
}
use aithon.Runtime.LockFreeQueue.{null, Node, node, Store, write}

-- From the node at an address, with its data, on: the addresses and the data of those that follow, and
-- the links that are not stored yet.
pub data Chain {T : Type 0} (nodes : Store T) (tail : ℕ)
    : ℕ → Option T → List ℕ → List T → List (ℕ × ℕ) → Type 0 where
  last :
      (a : ℕ) (d : Option T)
      → nodes a ≡ some (node d null)
      → a ≡ tail
      → Chain nodes tail a d [] [] []
  linked :
      (a : ℕ) (d : Option T) (b : ℕ) (v : T) (bs : List ℕ) (vs : List T) (us : List (ℕ × ℕ))
      → nodes a ≡ some (node d b)
      → b ≢ null
      → Chain nodes tail b (some v) bs vs us
      → Chain nodes tail a d (b ∷ bs) (v ∷ vs) us
  unlinked :
      (a : ℕ) (d : Option T) (b : ℕ) (v : T) (bs : List ℕ) (vs : List T) (us : List (ℕ × ℕ))
      → nodes a ≡ some (node d null)
      → b ≢ null
      → Chain nodes tail b (some v) bs vs us
      → Chain nodes tail a d (b ∷ bs) (v ∷ vs) ((a, b) ∷ us)

-- No address of the list is `a`.
abbrev pub Avoids : ℕ → List ℕ → Type 0
Avoids a bs = All (λ b. b ≢ a) bs

abbrev pub Distinct : List ℕ → Type 0
Distinct [] = Unit
Distinct (a ∷ bs) = Avoids a bs × Distinct bs

module _ {T : Type 0} (nodes : Store T) (p : ℕ) (n : Option (Node T)) where
  pub write_at : write nodes p n p ≡ n
  unfolding write
  write_at = ground arith

  pub write_other : (a : ℕ) → a ≢ p → write nodes p n a ≡ nodes a
  unfolding write
  write_other a ne = ground arith

is_not :
    {T : Type 0} (nodes : Store T) (f a : ℕ) (n : Node T)
    → nodes f ≡ none
    → nodes a ≡ some n
    → a ≢ f
is_not nodes f a n free e = ground arith

module _ {T : Type 0} {nodes : Store T} {tail : ℕ} where
  -- A chain is not where there is no node.
  pub Chain-Avoids :
      (f : ℕ)
      → nodes f ≡ none
      → {a : ℕ} {d : Option T} {bs : List ℕ} {vs : List T} {us : List (ℕ × ℕ)}
      → Chain nodes tail a d bs vs us
      → Avoids f (a ∷ bs)
  Chain-Avoids f free (last a d e at) = (is_not nodes f a _ free e, tt)
  Chain-Avoids f free (linked a d b v bs vs us e ne c) =
      (is_not nodes f a _ free e, Chain-Avoids f free c)
  Chain-Avoids f free (unlinked a d b v bs vs us e ne c) =
      (is_not nodes f a _ free e, Chain-Avoids f free c)

  -- A write elsewhere leaves a chain.
  pub Chain-write :
      (p : ℕ) (n : Option (Node T)) {a : ℕ} {d : Option T} {bs : List ℕ} {vs : List T}
      {us : List (ℕ × ℕ)}
      → Avoids p (a ∷ bs)
      → Chain nodes tail a d bs vs us
      → Chain (write nodes p n) tail a d bs vs us
  Chain-write p n (ne, other) (last a d e at) = last a d (write_other nodes p n a ne ∙ e) at
  Chain-write p n (ne, other) (linked a d b v bs vs us e nn c) =
      linked a d b v bs vs us (write_other nodes p n a ne ∙ e) nn (Chain-write p n other c)
  Chain-write p n (ne, other) (unlinked a d b v bs vs us e nn c) =
      unlinked a d b v bs vs us (write_other nodes p n a ne ∙ e) nn (Chain-write p n other c)

  -- A new node behind the tail, whose link is not stored yet.
  pub Chain-append :
      (f : ℕ) (v : T)
      → nodes f ≡ none
      → f ≢ null
      → {a : ℕ} {d : Option T} {bs : List ℕ} {vs : List T} {us : List (ℕ × ℕ)}
      → Chain nodes tail a d bs vs us
      → Chain
          (write nodes f (some (node (some v) null)))
          f
          a
          d
          (bs ++ (f ∷ []))
          (vs ++ (v ∷ []))
          (us ++ ((tail, f) ∷ []))
  Chain-append f v free nn (last a d e at) =
      subst
        (λ t.
          Chain (write nodes f (some (node (some v) null))) f a d (f ∷ []) (v ∷ []) ((t, f) ∷ []))
        at
        (unlinked a d f v [] [] [] (write_other nodes f _ a (is_not nodes f a _ free e) ∙ e) nn
          (last f (some v) (write_at nodes f _) refl))
  Chain-append f v free nn (linked a d b w bs vs us e nb c) =
      linked a d b w _ _ _ (write_other nodes f _ a (is_not nodes f a _ free e) ∙ e) nb
        (Chain-append f v free nn c)
  Chain-append f v free nn (unlinked a d b w bs vs us e nb c) =
      unlinked a d b w _ _ _ (write_other nodes f _ a (is_not nodes f a _ free e) ∙ e) nb
        (Chain-append f v free nn c)

  -- Other data in the first node.
  pub Chain-replace :
      (d' : Option T) {a : ℕ} {d : Option T} {bs : List ℕ} {vs : List T} {us : List (ℕ × ℕ)}
      → Avoids a bs
      → Chain nodes tail a d bs vs us
      → (next : ℕ) × (nodes a ≡ some (node d next))
        × Chain (write nodes a (some (node d' next))) tail a d' bs vs us
  Chain-replace d' other (last a d e at) = (null, e, last a d' (write_at nodes a _) at)
  Chain-replace d' other (linked a d b v bs vs us e nn c) =
      (b, e, linked a d' b v bs vs us (write_at nodes a _) nn (Chain-write a _ other c))
  Chain-replace d' other (unlinked a d b v bs vs us e nn c) =
      (null, e, unlinked a d' b v bs vs us (write_at nodes a _) nn (Chain-write a _ other c))

pub Distinct-append : (f : ℕ) (bs : List ℕ) → Distinct bs → Avoids f bs → Distinct (bs ++ (f ∷ []))
Distinct-append f [] ds other = (tt, tt)
Distinct-append f (b ∷ bs) (here, ds) (ne, other) = (avoids bs here, Distinct-append f bs ds other)
  where
    avoids : (cs : List ℕ) → Avoids b cs → Avoids b (cs ++ (f ∷ []))
    avoids [] _ = ((λ e. ne (sym e)), tt)
    avoids (c ∷ cs) (n, r) = (n, avoids cs r)
