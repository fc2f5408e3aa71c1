-- ===== src/Runtime/Objects/Pointers.antt =====
-- What `runtime_class_set_field_ptr` of src/runtime/runtime.cpp does: a retain, a release and a write.
use mathlib.Core.Option.{some-injective}
use native.Mathlib.Decide.{ℕ_discrete}
use aithon.Prelude.{
  ℕ, ◌+◌, ◌<◌, ◌≡◌, ◌≢◌, ◌⊎◌, inl, inr, refl, sym, ap, subst, ◌∙◌, Bool, true, Option, none, some,
  Bytes, get_elem?, arith, Option-cases,
}
use aithon.Runtime.Objects.{
  null, HeapObject, Objects, find, update, remove, or_zero, store_word, set_ptr_at,
}
use aithon.Runtime.Objects.Changes.{
  Alike, Remains, LetGo, alive, gone, release-Dropped, retain-Retained, referred, Exact-ext,
}
use aithon.Runtime.Objects.Counts.{Agrees, Exact}
use aithon.Runtime.Objects.Store.{
  find-update_same, find-update_other, find-remove_same, find-remove_other, one, held, total,
  total-remove,
}
use aithon.Runtime.Objects.Writes.{
  FieldAt, FieldAt-Alike, written, word_of, write-Exact, field_counted,
}

-- What is there stays there.
abbrev pub Present : Objects → Objects → Type 0
Present os us =
    (x : ℕ) (o : HeapObject) → find x os ≡ some o → (o' : HeapObject) × (find x us ≡ some o')

pub Present-update :
    (p : ℕ) (o o' : HeapObject) (os : Objects) → find p os ≡ some o → Present os (update p o' os)
Present-update p o o' os e x q f = elim (ℕ_discrete x p) [
  | yes same ↦ (o', ap (λ y. find y (update p o' os)) same ∙ find-update_same p o o' os e)
  | no ne ↦ (q, find-update_other x p o' os ne ∙ f)
]

pub Remains-Present : (os us : Objects) → Remains os us → Present os us
Remains-Present os us h x o e = let kept = h x o e in (kept.0, kept.1.0)

module _ (layout : Bytes → ℕ → Bool) where
  -- The references that the fields of an object had, if it is freed: by what was at the address before,
  -- and after.
  abbrev pub lost_by : Option HeapObject → Option HeapObject → ℕ → ℕ
  lost_by none after x = 0
  lost_by (some o) none x = held layout o x
  lost_by (some o) (some o') x = 0

  pub lost_by-Present :
      (w : ℕ) (os us : Objects) (x : ℕ) → Present os us → lost_by (find w os) (find w us) x ≡ 0
  lost_by-Present w os us x h = elim (Option-cases (find w os)) [
    | inl e ↦ rw e refl
    | inr (o, e) ↦ let there = h w o e in rw (e, there.1) refl
  ]

  pub held-Alike : (o o' : HeapObject) (x : ℕ) → Alike o o' → held layout o' x ≡ held layout o x
  held-Alike o o' x a = rw (a.same_fields, a.same_class) refl

  pub record Stored (p i v w : ℕ) (os us : Objects) (r : ℕ → ℕ) : Type 0 where
    pub after : Objects
    pub returns : store_word p i v (find p us) us ≡ some after
    pub exact : Exact layout after (λ x. lost_by (find w os) (find w after) x + r x) (λ x. 0)

  -- The object whose field held the last reference is another one.
  not_itself :
      (p w : ℕ) (o ow : HeapObject) (os : Objects) (i v : ℕ) (r : ℕ → ℕ)
      → find p os ≡ some o
      → FieldAt layout o i true
      → word_of o i ≡ w
      → 0 < r p
      → find w os ≡ some ow
      → w ≢ null
      → Exact layout (remove w os) (λ x. held layout ow x + (r x + one v x)) (λ x. 0 + one w x)
      → find w (remove w os) ≡ none
      → p ≢ w
  not_itself p w o ow os i v r e f same rp eo wn h gone_is q =
      let here : 0 < r w = subst (λ y. 0 < r y) q rp in
      let counted =
        subst
          (λ g.
            Agrees g (total layout (remove w os) w + (held layout ow w + (r w + one v w)))
              (0 + one w w))
          gone_is (h.agrees w wn) in
      let mine : one w w ≡ 1 = ground arith in
      omega (
        arith,
        counted,
        here,
        mine,
        total-remove layout w ow os w eo,
        field_counted layout p o os i w e f same wn,
      )

  pub LetGo-Stored :
      (p w : ℕ) (o : HeapObject) (os os1 us : Objects) (i v : ℕ) (r : ℕ → ℕ)
      → p ≢ null
      → find p os1 ≡ some o
      → FieldAt layout o i true
      → word_of o i ≡ w
      → 0 < r p
      → Remains os os1
      → (w ≢ null → (ow : HeapObject) × (find w os ≡ some ow))
      → find w (remove w os1) ≡ none
      → LetGo layout w os1 (λ x. r x + one v x) (λ x. 0 + one w x) us
      → Stored p i v w os us r
  LetGo-Stored p w o os os1 _ i v r ne e f same rp before origin gone_is (alive us exact after) =
      let found = after p o e in
      let o2 = found.0 in
      record {
        after = update p (written o2 i v) us;
        returns = rw (found.1.0) refl;
        exact =
            Exact-ext layout _ r _ (λ x. 0) (λ x. 0)
              (λ x nx. omega (
                arith,
                lost_by-Present w os (update p (written o2 i v) us) x (λ y q g.
                    let first = before y q g in
                    let second = after y first.0 first.1.0 in
                    Present-update p o2 (written o2 i v) us found.1.0 y second.0 second.1.0),
              ))
              (λ x nx. refl)
              (write-Exact layout p o2 us i v w r ne found.1.0
                (FieldAt-Alike layout o o2 i true found.1.1 f)
                (ap (λ fs. or_zero (get_elem? fs i)) found.1.1.same_fields ∙ same) exact);
      }
  LetGo-Stored p w o os os1 _ i v r ne e f same rp before origin gone_is (gone ow eo exact wn) =
      let other : p ≢ w = not_itself p w o ow os1 i v r e f same rp eo wn exact gone_is in
      let found : find p (remove w os1) ≡ some o = find-remove_other p w os1 other ∙ e in
      let after : Objects = update p (written o i v) (remove w os1) in
      let first = origin wn in
      let kept = before w first.0 first.1 in
      let same_ow : kept.0 ≡ ow = some-injective kept.0 ow (sym kept.1.0 ∙ eo) in
      let like : Alike first.0 ow = subst (λ q. Alike first.0 q) same_ow kept.1.1 in
      let freed : find w after ≡ none =
        find-update_other w p (written o i v) (remove w os1) (λ q. other (sym q)) ∙ gone_is in
      let lost : (x : ℕ) → lost_by (find w os) (find w after) x ≡ held layout ow x =
        λ x. rw (first.1, freed) (sym (held-Alike first.0 ow x like)) in
      record {
        after = after;
        returns = rw found refl;
        exact =
            Exact-ext layout after (λ x. held layout ow x + r x) _ (λ x. 0) (λ x. 0)
              (λ x nx. ap (λ t. t + r x) (lost x)) (λ x nx. refl)
              (write-Exact layout p o (remove w os1) i v w (λ x. held layout ow x + r x) ne found f
                same
                (Exact-ext layout (remove w os1) (λ x. held layout ow x + (r x + one v x)) _
                  (λ x. 0 + one w x) _ (λ x nx. omega arith) (λ x nx. refl) exact));
      }

  pub record Wrote (p i v w : ℕ) (os : Objects) (r : ℕ → ℕ) : Type 0 where
    pub after : Objects
    pub returns : set_ptr_at p (some i) v os ≡ some after
    pub exact : Exact layout after (λ x. lost_by (find w os) (find w after) x + r x) (λ x. 0)

  -- A pointer that is null, or is referred to.
  abbrev pub Usable : (ℕ → ℕ) → ℕ → Type 0
  Usable r p = (p ≡ null) ⊎ ((p ≢ null) × (0 < r p))

  pub Usable-refs :
      (os : Objects) (r : ℕ → ℕ) (p : ℕ)
      → Usable r p
      → (p ≡ null) ⊎ ((p ≢ null) × (0 < total layout os p + r p))
  Usable-refs os r p (inl e) = inl e
  Usable-refs os r p (inr (ne, lt)) = inr (ne, omega arith)

  field_refs :
      (w : ℕ) (os : Objects) (a : ℕ)
      → (w ≢ null → 0 < total layout os w)
      → (w ≡ null) ⊎ ((w ≢ null) × (0 < total layout os w + a))
  field_refs w os a h = elim (ℕ_discrete w null) [
    | yes e ↦ inl e
    | no ne ↦ inr (ne, let some_left = h ne in omega arith)
  ]

  pub set-Wrote :
      (p i v : ℕ) (o : HeapObject) (os : Objects) (r : ℕ → ℕ)
      → p ≢ null
      → find p os ≡ some o
      → FieldAt layout o i true
      → 0 < r p
      → Usable r v
      → Exact layout os r (λ x. 0)
      → Wrote p i v (word_of o i) os r
  set-Wrote p i v o os r ne e f rp uv h =
      let w : ℕ = word_of o i in
      let first = retain-Retained layout v os r (λ x. 0) (Usable-refs os r v uv) h in
      let os1 : Objects = first.after in
      let kept = first.remains p o e in
      let f1 = FieldAt-Alike layout o kept.0 i true kept.1.1 f in
      let same : word_of kept.0 i ≡ w =
        ap (λ fs. or_zero (get_elem? fs i)) (kept.1.1.same_fields) in
      let second =
        release-Dropped layout w os1 (λ x. r x + one v x) (λ x. 0)
          (field_refs w os1 (r w + one v w)
            (λ wn. field_counted layout p kept.0 os1 i w kept.1.0 f1 same wn))
          first.exact in
      let third =
        LetGo-Stored p w kept.0 os os1 second.after i v r ne kept.1.0 f1 same rp first.remains
          (λ wn.
            referred layout w os r (λ x. 0) wn
              (let counted = field_counted layout p o os i w e f refl wn in omega arith) h)
          (find-remove_same w os1 first.exact.unique) second.result in
      record {
        after = third.after;
        returns = rw (first.returns, kept.1.0, same, second.returns) (third.returns);
        exact = third.exact;
      }
