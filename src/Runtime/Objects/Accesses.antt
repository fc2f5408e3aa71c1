-- ===== src/Runtime/Objects/Accesses.antt =====
-- Each access to a field of an object of src/runtime/runtime.cpp, by code that has a reference to it.
use native.Mathlib.Decide.{ℕ_discrete}
use aithon.Prelude.{
  ℕ, ◌+◌, ◌<◌, ◌≡◌, ◌≢◌, ◌⊎◌, inl, inr, refl, sym, subst, Bool, true, false, none, some, Bytes,
  arith, Option-cases, ℤ,
}
use aithon.Runtime.Objects.{
  null, HeapObject, Objects, find, update, or_zero, checked_index, set_field, get_field,
  runtime_class_set_field_ptr,
}
use aithon.Runtime.Objects.Changes.{Exact-ext}
use aithon.Runtime.Objects.Counts.{Exact}
use aithon.Runtime.Objects.Pointers.{lost_by, lost_by-Present, Usable, set-Wrote}
use aithon.Runtime.Objects.Store.{total}
use aithon.Runtime.Objects.Writes.{written, word_of, write-Exact_other, field_counted}
use aithon.Runtime.Objects.Calls.{not_null, Kind, field_of, refs_used}

module _ (layout : Bytes → ℕ → Bool) where
  -- The old value that a setter finds.
  abbrev pub old_word : ℕ → ℤ → Objects → ℕ
  old_word p field_idx os = or_zero (get_field p field_idx os)

  pub record PointerSet (p : ℕ) (field_idx : ℤ) (v : ℕ) (os : Objects) (r : ℕ → ℕ) : Type 0 where
    pub after : Objects
    pub returns : runtime_class_set_field_ptr p field_idx v os ≡ some after
    pub exact :
        Exact layout after
          (λ x.
            lost_by layout
              (find (old_word p field_idx os) os)
              (find (old_word p field_idx os) after)
              x
            + r x)
          (λ x. 0)

  unchanged :
      (w : ℕ) (os : Objects) (r : ℕ → ℕ)
      → Exact layout os r (λ x. 0)
      → Exact layout os (λ x. lost_by layout (find w os) (find w os) x + r x) (λ x. 0)
  unchanged w os r h =
      Exact-ext layout os r _ (λ x. 0) (λ x. 0)
        (λ x nx. omega (arith, lost_by-Present layout w os os x (λ y o e. (o, e)))) (λ x nx. refl) h

  pub set-PointerSet :
      (p : ℕ) (field_idx : ℤ) (v : ℕ) (os : Objects) (r : ℕ → ℕ)
      → Usable layout r p
      → Usable layout r v
      → Kind layout os p field_idx true
      → Exact layout os r (λ x. 0)
      → PointerSet p field_idx v os r
  unfolding runtime_class_set_field_ptr get_field
  set-PointerSet p field_idx v os r (inl e) uv k h = record {
    after = os;
    returns = rw e refl;
    exact = unchanged _ os r h;
  }
  set-PointerSet p field_idx v os r (inr (ne, lt)) uv k h =
      with_object (refs_used layout os r p h ne lt)
    where
      with_object : (o : HeapObject) × (find p os ≡ some o) → PointerSet p field_idx v os r
      with_object (o, e) = by_index (Option-cases (checked_index field_idx o.fields))
        where
          by_index :
              (checked_index field_idx o.fields ≡ none)
                ⊎ ((i : ℕ) × (checked_index field_idx o.fields ≡ some i))
              → PointerSet p field_idx v os r
          by_index (inl c) = record {
            after = os;
            returns = rw (not_null p ne, e, c) refl;
            exact = unchanged _ os r h;
          }
          by_index (inr (i, c)) =
              let done =
                set-Wrote layout p i v o os r ne e (field_of layout os p field_idx true o i k e c)
                  lt uv h in
              let old : old_word p field_idx os ≡ word_of o i = rw (not_null p ne, e, c) refl in
              record {
                after = done.after;
                returns = rw (not_null p ne, e, c) done.returns;
                exact =
                    subst
                      (λ w.
                        Exact layout done.after
                          (λ x. lost_by layout (find w os) (find w done.after) x + r x) (λ x. 0))
                      (sym old) done.exact;
              }

  pub record NumberSet (p : ℕ) (field_idx : ℤ) (word : ℕ) (os : Objects) (r : ℕ → ℕ) : Type 0 where
    pub after : Objects
    pub returns : set_field p field_idx word os ≡ some after
    pub exact : Exact layout after r (λ x. 0)

  pub set-NumberSet :
      (p : ℕ) (field_idx : ℤ) (word : ℕ) (os : Objects) (r : ℕ → ℕ)
      → Usable layout r p
      → Kind layout os p field_idx false
      → Exact layout os r (λ x. 0)
      → NumberSet p field_idx word os r
  unfolding set_field
  set-NumberSet p field_idx word os r (inl e) k h = record {
    after = os;
    returns = rw e refl;
    exact = h;
  }
  set-NumberSet p field_idx word os r (inr (ne, lt)) k h =
      with_object (refs_used layout os r p h ne lt)
    where
      with_object : (o : HeapObject) × (find p os ≡ some o) → NumberSet p field_idx word os r
      with_object (o, e) = by_index (Option-cases (checked_index field_idx o.fields))
        where
          by_index :
              (checked_index field_idx o.fields ≡ none)
                ⊎ ((i : ℕ) × (checked_index field_idx o.fields ≡ some i))
              → NumberSet p field_idx word os r
          by_index (inl c) = record {
            after = os;
            returns = rw (not_null p ne, e, c) refl;
            exact = h;
          }
          by_index (inr (i, c)) = record {
            after = update p (written o i word) os;
            returns = rw (not_null p ne, e, c) refl;
            exact =
                write-Exact_other layout p o os i word r (λ x. 0) ne e
                  (field_of layout os p field_idx false o i k e c) h;
          }

  -- What a getter of a reference field gives: null, or what a live object refers to.
  pub record PointerGot (p : ℕ) (field_idx : ℤ) (os : Objects) (r : ℕ → ℕ) : Type 0 where
    pub value : ℕ
    pub returns : get_field p field_idx os ≡ some value
    pub refers : (value ≡ null) ⊎ ((value ≢ null) × (0 < total layout os value + r value))

  pub get-PointerGot :
      (p : ℕ) (field_idx : ℤ) (os : Objects) (r : ℕ → ℕ)
      → Usable layout r p
      → Kind layout os p field_idx true
      → Exact layout os r (λ x. 0)
      → PointerGot p field_idx os r
  unfolding get_field
  get-PointerGot p field_idx os r (inl e) k h = record {
    value = 0;
    returns = rw e refl;
    refers = inl refl;
  }
  get-PointerGot p field_idx os r (inr (ne, lt)) k h = with_object (refs_used layout os r p h ne lt)
    where
      with_object : (o : HeapObject) × (find p os ≡ some o) → PointerGot p field_idx os r
      with_object (o, e) = by_index (Option-cases (checked_index field_idx o.fields))
        where
          by_index :
              (checked_index field_idx o.fields ≡ none)
                ⊎ ((i : ℕ) × (checked_index field_idx o.fields ≡ some i))
              → PointerGot p field_idx os r
          by_index (inl c) = record {
            value = 0;
            returns = rw (not_null p ne, e, c) refl;
            refers = inl refl;
          }
          by_index (inr (i, c)) = record {
            value = word_of o i;
            returns = rw (not_null p ne, e, c) refl;
            refers = elim (ℕ_discrete (word_of o i) null) [
              | yes q ↦ inl q
              | no other ↦ inr (
                other,
                let counted =
                      field_counted layout p o os i (word_of o i) e
                        (field_of layout os p field_idx true o i k e c) refl other in
                    omega arith,
              )
            ];
          }
