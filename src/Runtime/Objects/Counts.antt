-- ===== src/Runtime/Objects/Counts.antt =====
-- What src/runtime/runtime.cpp does to the reference counts of class objects.
use aithon.Prelude.{
  ℕ, zero, suc, ◌+◌, ◌<◌, ◌≡◌, ◌≢◌, refl, sym, ap, subst, Bool, Option, none, some, Bytes, arith,
  pos,
}
use aithon.Runtime.Objects.{
  null, HeapObject, Objects, find, update, remove, increment, release_count,
}
use aithon.Runtime.Objects.Store.{
  Unique, find-update_same, find-update_other, find-remove_same, find-remove_other, Unique-update,
  Unique-remove, one, held, total, total-update, total-remove,
}
use native.Mathlib.Decide.{ℕ_discrete}

-- The count of an object is the number of references, less a debt, and is not 0; what is freed has
-- none left.
abbrev pub Agrees : Option HeapObject → ℕ → ℕ → Type 0
Agrees none refs debt = refs ≡ debt
Agrees (some o) refs debt = (n : ℕ) × ((o.ref_count ≡ pos n) × ((0 < n) × (n + debt ≡ refs)))

module _ (layout : Bytes → ℕ → Bool) where
  -- References stand in the fields of objects and outside of them. A debt is a reference that is still
  -- written and no longer counted.
  pub record Exact (objects : Objects) (outside debt : ℕ → ℕ) : Type 0 where
    pub unique : Unique objects
    pub agrees :
        (x : ℕ) → x ≢ null → Agrees (find x objects) (total layout objects x + outside x) (debt x)

  -- References and debts that change alike.
  pub Agrees-shift :
      (found : Option HeapObject) (a a' s s' : ℕ)
      → Agrees found a s
      → a' + s ≡ a + s'
      → Agrees found a' s'
  Agrees-shift none a a' s s' e f = omega arith
  Agrees-shift (some o) a a' s s' (n, (e, (l, g))) f = (n, (e, (l, omega arith)))

  pub update-Exact :
      (p : ℕ) (o o' : HeapObject) (os : Objects) (r r' s s' : ℕ → ℕ)
      → find p os ≡ some o
      → Exact os r s
      → ((x : ℕ)
          → x ≢ null
          → x ≢ p
          → total layout (update p o' os) x + r' x + s x ≡ total layout os x + r x + s' x)
      → Agrees (some o') (total layout (update p o' os) p + r' p) (s' p)
      → Exact (update p o' os) r' s'
  update-Exact p o o' os r r' s s' e h others own = record {
    unique = Unique-update p o' os h.unique;
    agrees = λ x nx. elim (ℕ_discrete x p) [
      | yes q ↦
          subst
            (λ y. Agrees (find y (update p o' os)) (total layout (update p o' os) y + r' y) (s' y))
            (sym q) (rw (find-update_same p o o' os e) own)
      | no ne ↦
          rw (find-update_other x p o' os ne)
            (Agrees-shift (find x os) _ _ (s x) (s' x) (h.agrees x nx) (others x nx ne))
    ];
  }

  remove-Exact :
      (p : ℕ) (o : HeapObject) (os : Objects) (r r' s s' : ℕ → ℕ)
      → find p os ≡ some o
      → Exact os r s
      → ((x : ℕ)
          → x ≢ null
          → x ≢ p
          → total layout (remove p os) x + r' x + s x ≡ total layout os x + r x + s' x)
      → total layout (remove p os) p + r' p ≡ s' p
      → Exact (remove p os) r' s'
  remove-Exact p o os r r' s s' e h others own = record {
    unique = Unique-remove p os h.unique;
    agrees = λ x nx. elim (ℕ_discrete x p) [
      | yes q ↦
          subst (λ y. Agrees (find y (remove p os)) (total layout (remove p os) y + r' y) (s' y))
            (sym q) (rw (find-remove_same p os h.unique) own)
      | no ne ↦
          rw (find-remove_other x p os ne)
            (Agrees-shift (find x os) _ _ (s x) (s' x) (h.agrees x nx) (others x nx ne))
    ];
  }

  one_other : (p x : ℕ) → x ≢ p → one p x ≡ 0
  one_other p x ne = ground arith

  one_same : (p : ℕ) → one p p ≡ 1
  one_same p = ground arith

  -- What is counted of an object that is there.
  pub Agrees-found :
      (p : ℕ) (o : HeapObject) (os : Objects) (a s : ℕ)
      → find p os ≡ some o
      → Agrees (find p os) a s
      → Agrees (some o) a s
  Agrees-found p o os a s e h = subst (λ f. Agrees f a s) e h

  pub retain-Exact :
      (p : ℕ) (o : HeapObject) (os : Objects) (r r' s : ℕ → ℕ)
      → p ≢ null
      → find p os ≡ some o
      → ((x : ℕ) → r' x ≡ r x + one p x)
      → Exact os r s
      → Exact (update p (record o { ref_count = increment o.ref_count }) os) r' s
  retain-Exact p o os r r' s ne e more h =
      let o' : HeapObject = record o { ref_count = increment o.ref_count } in
      let counted = Agrees-found p o os _ _ e (h.agrees p ne) in
      update-Exact p o o' os r r' s s e h
        (λ x nx other.
          omega (arith, total-update layout p o o' os x e, more x, one_other p x other))
        (
          suc counted.0,
          (
            ap increment (counted.1.0),
            (
              omega arith,
              omega (arith, counted.1.1.1, total-update layout p o o' os p e, more p, one_same p),
            ),
          ),
        )

  -- What a release leaves: the object with a reference less, or all but the object.
  pub data Released (p : ℕ) (o : HeapObject) (os : Objects) (r s' : ℕ → ℕ) : Objects → Type 0 where
    kept :
        (o' : HeapObject)
        → o'.fields ≡ o.fields
        → o'.class_name ≡ o.class_name
        → Exact (update p o' os) r s'
        → Released p o os r s' (update p o' os)
    freed : Exact (remove p os) (λ x. held layout o x + r x) s' → Released p o os r s' (remove p os)

  pub release-Released :
      (p : ℕ) (o : HeapObject) (os : Objects) (r s s' : ℕ → ℕ)
      → p ≢ null
      → find p os ≡ some o
      → ((x : ℕ) → s' x ≡ s x + one p x)
      → s p < total layout os p + r p
      → Exact os r s
      → Released p o os r s' (release_count p o o.ref_count os)
  release-Released p o os r s s' ne e more some_left h =
      by_count counted.0 counted.1.0 counted.1.1.1
    where
      counted : Agrees (some o) (total layout os p + r p) (s p)
      counted = Agrees-found p o os _ _ e (h.agrees p ne)

      by_count :
          (n : ℕ)
          → o.ref_count ≡ pos n
          → n + s p ≡ total layout os p + r p
          → Released p o os r s' (release_count p o o.ref_count os)
      by_count zero f g = absurd (omega arith)
      by_count (suc zero) f g = rw f (
          freed (
            remove-Exact p o os r (λ x. held layout o x + r x) s s' e h
              (λ x nx other.
                omega (arith, total-remove layout p o os x e, more x, one_other p x other))
              (omega (arith, total-remove layout p o os p e, more p, one_same p))))
      by_count (suc (suc n)) f g =
          let o' : HeapObject = record o { ref_count = pos (suc n) } in
          rw f (
            kept o' refl refl (
              update-Exact p o o' os r r s s' e h
                (λ x nx other.
                  omega (arith, total-update layout p o o' os x e, more x, one_other p x other))
                (
                  suc n,
                  (
                    refl,
                    (
                      omega arith,
                      omega (arith, total-update layout p o o' os p e, more p, one_same p),
                    ),
                  ),
                )))
