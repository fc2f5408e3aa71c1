-- ===== src/Runtime/Objects/Changes.antt =====
-- The calls of src/runtime/runtime.cpp that retain and release, with null among the pointers.
use mathlib.Core.Option.{some-injective}
use native.Mathlib.Decide.{ℕ_discrete}
use aithon.Prelude.{
  ℕ, ◌+◌, ◌<◌, ◌≡◌, ◌≢◌, ◌⊎◌, inl, inr, refl, sym, ap, subst, ◌∙◌, Bool, false, some, Bytes, ◌==◌,
  arith, Option-cases,
}
use aithon.Runtime.Objects.{
  null, HeapObject, Objects, find, update, remove, increment, runtime_retain, runtime_release,
  release_count,
}
use aithon.Runtime.Objects.Counts.{
  Agrees, Agrees-shift, Exact, retain-Exact, Released, kept, freed, release-Released,
}
use aithon.Runtime.Objects.Store.{find-update_same, find-update_other, one, held, total}

-- The same object, but for its count.
pub record Alike (o o' : HeapObject) : Type 0 where
  pub same_fields : o'.fields ≡ o.fields
  pub same_class : o'.class_name ≡ o.class_name

-- What was there is there, but for counts.
abbrev pub Remains : Objects → Objects → Type 0
Remains os us =
    (p : ℕ) (o : HeapObject)
    → find p os ≡ some o
    → (o' : HeapObject) × ((find p us ≡ some o') × Alike o o')

Remains-refl : (os : Objects) → Remains os os
Remains-refl os p o e = (o, (e, record { same_fields = refl; same_class = refl }))

Remains-update :
    (w : ℕ) (o o' : HeapObject) (os : Objects)
    → find w os ≡ some o
    → Alike o o'
    → Remains os (update w o' os)
Remains-update w o o' os e a p q f = elim (ℕ_discrete p w) [
  | yes same ↦
      let q_is : q ≡ o = some-injective q o (sym f ∙ ap (λ x. find x os) same ∙ e) in
      (
        o',
        (
          ap (λ x. find x (update w o' os)) same ∙ find-update_same w o o' os e,
          subst (λ x. Alike x o') (sym q_is) a,
        ),
      )
  | no ne ↦
      (q, (find-update_other p w o' os ne ∙ f, record { same_fields = refl; same_class = refl }))
]

not_null : (p : ℕ) → p ≢ null → (p == null) ≡ false
not_null p ne = ground arith

module _ (layout : Bytes → ℕ → Bool) where
  pub Exact-ext :
      (os : Objects) (r r' s s' : ℕ → ℕ)
      → ((x : ℕ) → x ≢ null → r' x ≡ r x)
      → ((x : ℕ) → x ≢ null → s' x ≡ s x)
      → Exact layout os r s
      → Exact layout os r' s'
  Exact-ext os r r' s s' f g h = record {
    unique = h.unique;
    agrees = λ x ne. rw (f x ne, g x ne) (h.agrees x ne);
  }

  -- References that are taken away with as many debts.
  pub Exact-shift :
      (os : Objects) (r r' s s' : ℕ → ℕ)
      → ((x : ℕ) → x ≢ null → r' x + s x ≡ r x + s' x)
      → Exact layout os r s
      → Exact layout os r' s'
  Exact-shift os r r' s s' f h = record {
    unique = h.unique;
    agrees = λ x ne.
        Agrees-shift layout (find x os) _ _ (s x) (s' x) (h.agrees x ne)
          (let both = f x ne in omega arith);
  }

  -- What is referred to is there.
  pub referred :
      (p : ℕ) (os : Objects) (r s : ℕ → ℕ)
      → p ≢ null
      → s p < total layout os p + r p
      → Exact layout os r s
      → (o : HeapObject) × (find p os ≡ some o)
  referred p os r s ne lt h = elim (Option-cases (find p os)) [
    | inl e ↦
        let counted = subst (λ f. Agrees f (total layout os p + r p) (s p)) e (h.agrees p ne) in
        absurd (omega arith)
    | inr (o, e) ↦ (o, e)
  ]

  pub record Retained (v : ℕ) (os : Objects) (r s : ℕ → ℕ) : Type 0 where
    pub after : Objects
    pub returns : runtime_retain v os ≡ some after
    pub exact : Exact layout after (λ x. r x + one v x) s
    pub remains : Remains os after

  pub retain-Retained :
      (v : ℕ) (os : Objects) (r s : ℕ → ℕ)
      → (v ≡ null) ⊎ ((v ≢ null) × (s v < total layout os v + r v))
      → Exact layout os r s
      → Retained v os r s
  unfolding runtime_retain
  retain-Retained v os r s (inl e) h = record {
    after = os;
    returns = rw e refl;
    exact = Exact-ext os r _ s s (λ x ne. ground arith) (λ x ne. refl) h;
    remains = Remains-refl os;
  }
  retain-Retained v os r s (inr (ne, lt)) h =
      let o = referred v os r s ne lt h in
      let o' : HeapObject = record (o.0) { ref_count = increment o.0.ref_count } in
      record {
        after = update v o' os;
        returns = rw (not_null v ne, o.1) refl;
        exact = retain-Exact layout v o.0 os r (λ x. r x + one v x) s ne o.1 (λ x. refl) h;
        remains = Remains-update v o.0 o' os o.1 (record { same_fields = refl; same_class = refl });
      }

  -- A release leaves what was there, or all but the object, whose fields are then not counted off.
  pub data LetGo (w : ℕ) (os : Objects) (r s' : ℕ → ℕ) : Objects → Type 0 where
    alive : (us : Objects) → Exact layout us r s' → Remains os us → LetGo w os r s' us
    gone :
        (o : HeapObject)
        → find w os ≡ some o
        → Exact layout (remove w os) (λ x. held layout o x + r x) s'
        → w ≢ null
        → LetGo w os r s' (remove w os)

  pub record Dropped (w : ℕ) (os : Objects) (r s' : ℕ → ℕ) : Type 0 where
    pub after : Objects
    pub returns : runtime_release w os ≡ some after
    pub result : LetGo w os r s' after

  released-LetGo :
      (w : ℕ) (o : HeapObject) (os us : Objects) (r s' : ℕ → ℕ)
      → find w os ≡ some o
      → w ≢ null
      → Released layout w o os r s' us
      → LetGo w os r s' us
  released-LetGo w o os _ r s' e ne (kept o' f c x) =
      alive _ x (Remains-update w o o' os e (record { same_fields = f; same_class = c }))
  released-LetGo w o os _ r s' e ne (freed x) = gone o e x ne

  pub release-Dropped :
      (w : ℕ) (os : Objects) (r s : ℕ → ℕ)
      → (w ≡ null) ⊎ ((w ≢ null) × (s w < total layout os w + r w))
      → Exact layout os r s
      → Dropped w os r (λ x. s x + one w x)
  unfolding runtime_release
  release-Dropped w os r s (inl e) h = record {
    after = os;
    returns = rw e refl;
    result =
        alive os (Exact-ext os r r s _ (λ x ne. refl) (λ x ne. ground arith) h) (Remains-refl os);
  }
  release-Dropped w os r s (inr (ne, lt)) h =
      let o = referred w os r s ne lt h in
      record {
        after = release_count w o.0 o.0.ref_count os;
        returns = rw (not_null w ne, o.1) refl;
        result =
            released-LetGo w o.0 os _ r (λ x. s x + one w x) o.1 ne
              (release-Released layout w o.0 os r s (λ x. s x + one w x) ne o.1 (λ x. refl) lt h);
      }
