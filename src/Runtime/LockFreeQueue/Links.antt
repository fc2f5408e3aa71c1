-- ===== src/Runtime/LockFreeQueue/Links.antt =====
-- The links of a lockfree_queue.h queue that are not stored yet, and the step that stores one.
use mathlib.Core.List.{Mem, Mem-prop, Perm, not-mem-nil, eq-or-mem_of_mem-cons}
use mathlib.Core.List.Perm
use mathlib.Core.HLevel.{⊥_prop}
use mathlib.Core.Logic.{∥∥₁_elim}
use native.Mathlib.Decide.{ℕ_discrete}
use native.Mathlib.Nat.{ℕ_set}
use aithon.Prelude.{
  ℕ, zero, suc, ◌≡◌, ◌≢◌, inl, inr, sym, ap, subst, Option, none, some, List, [], ◌∷◌, ◌∙◌,
}
use aithon.Runtime.LockFreeQueue.{null, Node, node, Store, write, take_nth}
use aithon.Runtime.LockFreeQueue.Chain.{
  Chain, last, linked, unlinked, Avoids, Distinct, write_at, write_other, Chain-write,
}

-- A link is stored from a node of the chain.
Avoids-link :
    {T : Type 0} {nodes : Store T} {tail a : ℕ} {d : Option T} {bs : List ℕ} {vs : List T}
    {us : List (ℕ × ℕ)} (p n : ℕ)
    → Chain nodes tail a d bs vs us
    → Avoids p (a ∷ bs)
    → Mem (p, n) us
    → ⊥
Avoids-link p n (last a d e at) _ m = not-mem-nil m
Avoids-link p n (linked a d b v bs vs us e nn c) (ne, other) m = Avoids-link p n c other m
Avoids-link p n (unlinked a d b v bs vs us e nn c) (ne, other) m =
    ∥∥₁_elim (eq-or-mem_of_mem-cons m) ⊥_prop
      λ o. elim o [ inl q ↦ ne (sym (ap (λ w. w.0) q)) | inr m' ↦ Avoids-link p n c other m' ]

-- What storing the link from `p` to `n` does to a chain.
pub record Stored {T : Type 0} (nodes : Store T) (tail a : ℕ) (d : Option T) (bs : List ℕ)
    (vs : List T) (us : List (ℕ × ℕ)) (p n : ℕ) : Type 0 where
  pub target : Node T
  pub found : nodes p ≡ some target
  pub rest : List (ℕ × ℕ)
  pub chain : Chain (write nodes p (some (node target.data_ n))) tail a d bs vs rest
  pub perm : Perm us ((p, n) ∷ rest)

module _ {T : Type 0} {nodes : Store T} {tail : ℕ} where
  Stored-first :
      (a : ℕ) (d : Option T) (b : ℕ) (v : T) (bs : List ℕ) (vs : List T) (us : List (ℕ × ℕ))
      → nodes a ≡ some (node d null)
      → b ≢ null
      → Avoids a (b ∷ bs)
      → Chain nodes tail b (some v) bs vs us
      → Stored nodes tail a d (b ∷ bs) (v ∷ vs) ((a, b) ∷ us) a b
  Stored-first a d b v bs vs us e nn other c = record {
    target = node d null;
    found = e;
    rest = us;
    chain = linked a d b v bs vs us (write_at _ a _) nn (Chain-write a _ other c);
    perm = Perm.rfl;
  }

  -- Storing a link that is not stored yet finds its node, and leaves the same data in the same order.
  pub Chain-Stored :
      {a : ℕ} {d : Option T} {bs : List ℕ} {vs : List T} {us : List (ℕ × ℕ)} (p n : ℕ)
      → Chain nodes tail a d bs vs us
      → Distinct (a ∷ bs)
      → Mem (p, n) us
      → Stored nodes tail a d bs vs us p n
  Chain-Stored p n (last a d e at) ds m = absurd (not-mem-nil m)
  Chain-Stored p n (linked a d b v bs vs us e nn c) (other, ds) m =
      let s = Chain-Stored p n c ds m in
      let ne = λ (q : a ≡ p). Avoids-link p n c (subst (λ x. Avoids x (b ∷ bs)) q other) m in
      record {
        target = s.target;
        found = s.found;
        rest = s.rest;
        chain = linked a d b v bs vs s.rest (write_other _ p _ a ne ∙ e) nn s.chain;
        perm = s.perm;
      }
  Chain-Stored p n (unlinked a d b v bs vs us e nn c) (other, ds) m = elim (ℕ_discrete a p) [
    | yes q ↦
        subst (λ x. Stored nodes tail a d (b ∷ bs) (v ∷ vs) ((a, b) ∷ us) x n) q
          (subst (λ x. Stored nodes tail a d (b ∷ bs) (v ∷ vs) ((a, b) ∷ us) a x) (the_same q)
            (Stored-first a d b v bs vs us e nn other c))
    | no ne ↦
        let s = Chain-Stored p n c ds (later ne) in
        record {
          target = s.target;
          found = s.found;
          rest = (a, b) ∷ s.rest;
          chain = unlinked a d b v bs vs s.rest (write_other _ p _ a ne ∙ e) nn s.chain;
          perm = Perm.trans (Perm.cons (a, b) s.perm) (Perm.swap (p, n) (a, b) s.rest);
        }
  ]
    where
      the_same : a ≡ p → b ≡ n
      the_same q = ∥∥₁_elim (eq-or-mem_of_mem-cons m) (ℕ_set b n) λ o. elim o [
        | inl w ↦ sym (ap (λ x. x.1) w)
        | inr m' ↦ absurd (Avoids-link p n c (subst (λ x. Avoids x (b ∷ bs)) q other) m')
      ]

      later : a ≢ p → Mem (p, n) us
      later ne =
          ∥∥₁_elim (eq-or-mem_of_mem-cons m) Mem-prop
            λ o. elim o [ inl w ↦ absurd (ne (sym (ap (λ x. x.0) w))) | inr m' ↦ m' ]

-- An element taken from a list, and the others.
abbrev pub Picked {ℓ} : {A : Type ℓ} → List A → Option (A × List A) → Type ℓ
Picked xs none = Unit
Picked xs (some (x, rest)) = Perm xs (x ∷ rest)

pub take_nth-Picked {ℓ} : {A : Type ℓ} (i : ℕ) (xs : List A) → Picked xs (take_nth i xs)
unfolding take_nth
take_nth-Picked i [] = tt
take_nth-Picked zero (x ∷ xs) = Perm.rfl
take_nth-Picked (suc i) (x ∷ xs) = behind (take_nth i xs) (take_nth-Picked i xs)
  where
    behind :
        (o : Option _)
        → Picked xs o
        → Picked (x ∷ xs) (elim o [ none ↦ none | some r ↦ some (r.0, x ∷ r.1) ])
    behind none _ = tt
    behind (some (y, rest)) p = Perm.trans (Perm.cons x p) (Perm.swap y x rest)
