-- ===== src/Runtime/Objects/Writes.antt =====
-- What the writes to fields of src/runtime/runtime.cpp do to the reference counts.
use aithon.Prelude.{
  ℕ, ◌+◌, ◌<◌, ◌≡◌, ◌≢◌, ap, subst, ◌∙◌, Bool, true, false, some, Bytes, ltb, length, get_elem?,
  set, arith,
}
use aithon.Runtime.Objects.{null, HeapObject, Objects, find, update, or_zero}
use aithon.Runtime.Objects.Changes.{Alike}
use aithon.Runtime.Objects.Counts.{Exact, update-Exact, Agrees-found}
use aithon.Runtime.Objects.Store.{
  one, held, total, total-update, held_from-set, held_from-set_other, held_le,
}

-- The field of an object is there and is a reference, or is none.
pub record FieldAt (layout : Bytes → ℕ → Bool) (o : HeapObject) (i : ℕ) (kind : Bool) : Type 0 where
  pub in_range : ltb i (length o.fields) ≡ true
  pub is_kind : layout o.class_name i ≡ kind

pub FieldAt-Alike :
    (layout : Bytes → ℕ → Bool) (o o' : HeapObject) (i : ℕ) (kind : Bool)
    → Alike o o'
    → FieldAt layout o i kind
    → FieldAt layout o' i kind
FieldAt-Alike layout o o' i kind a h = record {
  in_range = ap (λ fs. ltb i (length fs)) a.same_fields ∙ h.in_range;
  is_kind = ap (λ name. layout name i) a.same_class ∙ h.is_kind;
}

abbrev pub written : HeapObject → ℕ → ℕ → HeapObject
written o i v = record o { fields = set o.fields i v }

-- The word of a field.
abbrev pub word_of : HeapObject → ℕ → ℕ
word_of o i = or_zero (get_elem? o.fields i)

module _ (layout : Bytes → ℕ → Bool) where
  held-written :
      (o : HeapObject) (i v x : ℕ)
      → FieldAt layout o i true
      → held layout (written o i v) x + one (word_of o i) x ≡ held layout o x + one v x
  held-written o i v x h =
      held_from-set layout o.class_name 0 i i o.fields v x h.in_range (omega arith) h.is_kind

  held-written_other :
      (o : HeapObject) (i v x : ℕ)
      → FieldAt layout o i false
      → held layout (written o i v) x ≡ held layout o x
  held-written_other o i v x h =
      held_from-set_other layout o.class_name 0 i i o.fields v x (omega arith) h.is_kind

  -- The write of a reference that pays off the debt that the old one was.
  pub write-Exact :
      (p : ℕ) (o : HeapObject) (os : Objects) (i v w : ℕ) (r : ℕ → ℕ)
      → p ≢ null
      → find p os ≡ some o
      → FieldAt layout o i true
      → word_of o i ≡ w
      → Exact layout os (λ x. r x + one v x) (λ x. 0 + one w x)
      → Exact layout (update p (written o i v) os) r (λ x. 0)
  write-Exact p o os i v w r ne e f same h =
      let o' : HeapObject = written o i v in
      let counted = Agrees-found layout p o os _ _ e (h.agrees p ne) in
      let changes : (x : ℕ) → held layout o' x + one w x ≡ held layout o x + one v x = λ x.
        subst (λ y. held layout o' x + one y x ≡ held layout o x + one v x) same
          (held-written o i v x f) in
      update-Exact layout p o o' os (λ x. r x + one v x) r (λ x. 0 + one w x) (λ x. 0) e h
        (λ x nx other. omega (arith, total-update layout p o o' os x e, changes x))
        (
          counted.0,
          (
            counted.1.0,
            (
              counted.1.1.0,
              omega (arith, counted.1.1.1, total-update layout p o o' os p e, changes p),
            ),
          ),
        )

  -- The write of a number changes no count.
  pub write-Exact_other :
      (p : ℕ) (o : HeapObject) (os : Objects) (i v : ℕ) (r s : ℕ → ℕ)
      → p ≢ null
      → find p os ≡ some o
      → FieldAt layout o i false
      → Exact layout os r s
      → Exact layout (update p (written o i v) os) r s
  write-Exact_other p o os i v r s ne e f h =
      let o' : HeapObject = written o i v in
      let counted = Agrees-found layout p o os _ _ e (h.agrees p ne) in
      update-Exact layout p o o' os r r s s e h
        (λ x nx other.
          omega (arith, total-update layout p o o' os x e, held-written_other o i v x f))
        (
          counted.0,
          (
            counted.1.0,
            (
              counted.1.1.0,
              omega (
                arith,
                counted.1.1.1,
                total-update layout p o o' os p e,
                held-written_other o i v p f,
              ),
            ),
          ),
        )

  -- What a reference field of a live object refers to is referred to.
  pub field_counted :
      (p : ℕ) (o : HeapObject) (os : Objects) (i x : ℕ)
      → find p os ≡ some o
      → FieldAt layout o i true
      → word_of o i ≡ x
      → x ≢ null
      → 0 < total layout os x
  field_counted p o os i x e f same ne =
      let paid : held layout (written o i null) x + one x x ≡ held layout o x + one null x =
        subst (λ y. held layout (written o i null) x + one y x ≡ held layout o x + one null x) same
          (held-written o i null x f) in
      let mine : one x x ≡ 1 = ground arith in
      let other : one null x ≡ 0 = ground arith in omega (arith, paid, held_le layout p o os x e)
