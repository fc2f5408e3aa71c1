-- ===== src/Runtime/Objects/Calls.antt =====
-- Each call of src/runtime/runtime.cpp on class objects, by code that has a reference to what it passes.
use native.Mathlib.Decide.{ℕ_discrete}
use aithon.Prelude.{
  ℕ, ◌+◌, ◌<◌, ◌≡◌, ◌≢◌, refl, sym, subst, Bool, true, false, none, some, List, Bytes, ltb, ◌==◌,
  length, arith, ℤ, pos, negsuc,
}
use aithon.Runtime.Objects.{
  null, HeapObject, Objects, find, remove, runtime_class_create, runtime_release, checked_index,
}
use aithon.Runtime.Objects.Changes.{LetGo, alive, gone, release-Dropped, referred, Exact-ext}
use aithon.Runtime.Objects.Counts.{Agrees, Exact}
use aithon.Runtime.Objects.Pointers.{lost_by, lost_by-Present, Remains-Present, Usable, Usable-refs}
use aithon.Runtime.Objects.Store.{one, held, held-zeros, total, find-remove_same}
use aithon.Runtime.Objects.Writes.{FieldAt}

pub not_null : (p : ℕ) → p ≢ null → (p == null) ≡ false
not_null p ne = ground arith

module _ (layout : Bytes → ℕ → Bool) where
  -- The field, if there is one, is of the kind.
  abbrev pub Kind : Objects → ℕ → ℤ → Bool → Type 0
  Kind os p field_idx kind =
      (o : HeapObject)
      → find p os ≡ some o
      → (i : ℕ) → checked_index field_idx o.fields ≡ some i
      → layout o.class_name i ≡ kind

  checked :
      (field_idx : ℤ) (fs : List ℕ) (i : ℕ)
      → checked_index field_idx fs ≡ some i
      → ltb i (length fs) ≡ true
  checked (negsuc n) fs i e = absurd (ground arith)
  checked (pos n) fs i e = ground arith

  pub field_of :
      (os : Objects) (p : ℕ) (field_idx : ℤ) (kind : Bool) (o : HeapObject) (i : ℕ)
      → Kind os p field_idx kind
      → find p os ≡ some o
      → checked_index field_idx o.fields ≡ some i
      → FieldAt layout o i kind
  field_of os p field_idx kind o i h e c = record {
    in_range = checked field_idx o.fields i c;
    is_kind = h o e i c;
  }

  pub refs_used :
      (os : Objects) (r : ℕ → ℕ) (p : ℕ)
      → Exact layout os r (λ x. 0)
      → p ≢ null
      → 0 < r p
      → (o : HeapObject) × (find p os ≡ some o)
  refs_used os r p h ne lt = referred layout p os r (λ x. 0) ne (omega arith) h

  pub create-Exact :
      (name : Bytes) (n a : ℕ) (os : Objects) (r : ℕ → ℕ)
      → a ≢ null
      → find a os ≡ none
      → Exact layout os r (λ x. 0)
      → Exact layout (runtime_class_create name n a os) (λ x. r x + one a x) (λ x. 0)
  unfolding runtime_class_create find total
  create-Exact name n a os r ne e h = record {
    unique = (e, h.unique);
    agrees = λ x nx. elim (ℕ_discrete x a) [
      | yes q ↦
          let counted = subst (λ f. Agrees f (total layout os a + r a) 0) e (h.agrees a ne) in
          let here : (x == a) ≡ true = ground arith in
          let same : one a a ≡ 1 = ground arith in
          let value : total layout os x + r x ≡ 0 =
            subst (λ y. total layout os y + r y ≡ 0) (sym q) counted in
          rw here (1, (refl, (omega arith, omega (arith, value, held-zeros layout name 0 n x nx))))
      | no other ↦
          let here : (x == a) ≡ false = ground arith in
          rw here (
            subst (λ t. Agrees (find x os) t 0) (omega (arith, held-zeros layout name 0 n x nx))
              (h.agrees x nx))
    ];
  }

  pub record FreedBy (w : ℕ) (os : Objects) (r : ℕ → ℕ) : Type 0 where
    pub after : Objects
    pub returns : runtime_release w os ≡ some after
    pub exact :
        Exact layout after
          (λ x. lost_by layout (find w os) (find w after) x + r x)
          (λ x. 0 + one w x)

  let_go :
      (w : ℕ) (os us : Objects) (r s' : ℕ → ℕ)
      → find w (remove w os) ≡ none
      → LetGo layout w os r s' us
      → Exact layout us (λ x. lost_by layout (find w os) (find w us) x + r x) s'
  let_go w os _ r s' gone_is (alive us exact kept) =
      Exact-ext layout us r _ s' s'
        (λ x nx. omega (arith, lost_by-Present layout w os us x (Remains-Present os us kept)))
        (λ x nx. refl) exact
  let_go w os _ r s' gone_is (gone o e exact ne) =
      Exact-ext layout (remove w os) (λ x. held layout o x + r x) _ s' s'
        (λ x nx. rw (e, gone_is) refl) (λ x nx. refl) exact

  pub release-FreedBy :
      (w : ℕ) (os : Objects) (r : ℕ → ℕ)
      → Usable layout r w
      → Exact layout os r (λ x. 0)
      → FreedBy w os r
  release-FreedBy w os r u h =
      let done = release-Dropped layout w os r (λ x. 0) (Usable-refs layout os r w u) h in
      record {
        after = done.after;
        returns = done.returns;
        exact =
            let_go w os done.after r (λ x. 0 + one w x) (find-remove_same w os h.unique)
              done.result;
      }
