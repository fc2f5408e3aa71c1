-- ===== src/Runtime/Objects/Store.antt =====
-- The objects of src/runtime/runtime.cpp by their addresses, and the references in their fields.
use mathlib.Core.Option.{some-injective}
use aithon.Prelude.{
  ℕ, zero, suc, ◌+◌, ◌≤◌, ◌≡◌, ◌≢◌, refl, sym, ap, ◌∙◌, Bool, true, false, Option, none, some, List,
  [], ◌∷◌, Bytes, ltb, ◌==◌, if◌then◌else◌, length, get_elem?, set, arith,
}
use aithon.Runtime.Objects.{HeapObject, Objects, find, update, remove, or_zero, zeros}

-- No two objects stand at one address.
abbrev pub Unique : Objects → Type 0
Unique [] = Unit
Unique ((a, o) ∷ objects) = (find a objects ≡ none) × Unique objects

pub find-update_same :
    (a : ℕ) (o o' : HeapObject) (os : Objects)
    → find a os ≡ some o
    → find a (update a o' os) ≡ some o'
unfolding find update
find-update_same a o o' [] e = absurd (ground arith)
find-update_same a o o' ((b, p) ∷ os) e = ground (arith, find-update_same a o o' os)

pub find-update_other :
    (x a : ℕ) (o : HeapObject) (os : Objects) → x ≢ a → find x (update a o os) ≡ find x os
unfolding find update
find-update_other x a o [] ne = refl
find-update_other x a o ((b, p) ∷ os) ne = ground (arith, find-update_other x a o os ne)

pub find-remove_other : (x a : ℕ) (os : Objects) → x ≢ a → find x (remove a os) ≡ find x os
unfolding find remove
find-remove_other x a [] ne = refl
find-remove_other x a ((b, p) ∷ os) ne = ground (arith, find-remove_other x a os ne)

pub find-remove_same : (a : ℕ) (os : Objects) → Unique os → find a (remove a os) ≡ none
unfolding find remove
find-remove_same a [] u = refl
find-remove_same a ((b, p) ∷ os) (e, u) = ground (arith, find-remove_same a os u)

find-update-none :
    (x a : ℕ) (o : HeapObject) (os : Objects) → find x os ≡ none → find x (update a o os) ≡ none
unfolding find update
find-update-none x a o [] e = refl
find-update-none x a o ((b, p) ∷ os) e = ground (arith, find-update-none x a o os)

find-remove-none : (x a : ℕ) (os : Objects) → find x os ≡ none → find x (remove a os) ≡ none
unfolding find remove
find-remove-none x a [] e = refl
find-remove-none x a ((b, p) ∷ os) e = ground (arith, find-remove-none x a os)

Unique-if : (c : Bool) (os ps : Objects) → Unique os → Unique ps → Unique (if c then os else ps)
Unique-if true os ps u v = u
Unique-if false os ps u v = v

pub Unique-update : (a : ℕ) (o : HeapObject) (os : Objects) → Unique os → Unique (update a o os)
unfolding update find
Unique-update a o [] u = tt
Unique-update a o ((b, p) ∷ os) (e, u) =
    Unique-if (a == b) _ _ (e, u) (find-update-none b a o os e, Unique-update a o os u)

pub Unique-remove : (a : ℕ) (os : Objects) → Unique os → Unique (remove a os)
unfolding remove find
Unique-remove a [] u = tt
Unique-remove a ((b, p) ∷ os) (e, u) =
    Unique-if (a == b) _ _ u (find-remove-none b a os e, Unique-remove a os u)

-- One if the two are the same.
abbrev pub one : ℕ → ℕ → ℕ
one a x = if x == a then 1 else 0

-- How often a list has the address.
abbrev pub count : ℕ → List ℕ → ℕ
count x [] = 0
count x (a ∷ as_) = one a x + count x as_

-- `layout` says of a class and an index whether the field is a reference.
module _ (layout : Bytes → ℕ → Bool) where
  abbrev pub held_from : Bytes → ℕ → List ℕ → ℕ → ℕ
  held_from name i [] x = 0
  held_from name i (w ∷ ws) x = (if layout name i then one w x else 0) + held_from name (suc i) ws x

  -- How many reference fields of an object have the address.
  abbrev pub held : HeapObject → ℕ → ℕ
  held o x = held_from o.class_name 0 o.fields x

  unfoldable pub total : Objects → ℕ → ℕ
  total [] x = 0
  total ((a, o) ∷ os) x = held o x + total os x

  same_held : (p o : HeapObject) (x : ℕ) → some p ≡ some o → held p x ≡ held o x
  same_held p o x e = ap (λ q. held q x) (some-injective p o e)

  total-update_step :
      (c : Bool) (b : ℕ) (o o' p : HeapObject) (found : Option HeapObject) (os us : Objects) (x : ℕ)
      → (found ≡ some o → total us x + held o x ≡ total os x + held o' x)
      → (if c then some p else found) ≡ some o
      → total (if c then (b, o') ∷ os else (b, p) ∷ us) x + held o x
        ≡ held p x + total os x + held o' x
  unfolding total
  total-update_step true b o o' p found os us x rest e = omega (arith, same_held p o x e)
  total-update_step false b o o' p found os us x rest e = omega (arith, rest e)

  pub total-update :
      (a : ℕ) (o o' : HeapObject) (os : Objects) (x : ℕ)
      → find a os ≡ some o
      → total (update a o' os) x + held o x ≡ total os x + held o' x
  unfolding find update total
  total-update a o o' [] x e = absurd (ground arith)
  total-update a o o' ((b, p) ∷ os) x e =
      total-update_step (a == b) b o o' p (find a os) os (update a o' os) x
        (total-update a o o' os x) e

  total-remove_step :
      (c : Bool) (b : ℕ) (o p : HeapObject) (found : Option HeapObject) (os us : Objects) (x : ℕ)
      → (found ≡ some o → total us x + held o x ≡ total os x)
      → (if c then some p else found) ≡ some o
      → total (if c then os else (b, p) ∷ us) x + held o x ≡ held p x + total os x
  unfolding total
  total-remove_step true b o p found os us x rest e = omega (arith, same_held p o x e)
  total-remove_step false b o p found os us x rest e = omega (arith, rest e)

  pub total-remove :
      (a : ℕ) (o : HeapObject) (os : Objects) (x : ℕ)
      → find a os ≡ some o
      → total (remove a os) x + held o x ≡ total os x
  unfolding find remove total
  total-remove a o [] x e = absurd (ground arith)
  total-remove a o ((b, p) ∷ os) x e =
      total-remove_step (a == b) b o p (find a os) os (remove a os) x (total-remove a o os x) e

  -- A write to a reference field takes the old reference away and adds the new one.
  pub held_from-set :
      (name : Bytes) (i k j : ℕ) (ws : List ℕ) (v x : ℕ)
      → ltb k (length ws) ≡ true
      → j ≡ i + k
      → layout name j ≡ true
      → held_from name i (set ws k v) x + one (or_zero (get_elem? ws k)) x
        ≡ held_from name i ws x + one v x
  held_from-set name i k j [] v x lt e l = absurd (ground arith)
  held_from-set name i zero j (w ∷ ws) v x lt e l =
      let same : j ≡ i = omega arith in
      let here : layout name i ≡ true = ap (layout name) (sym same) ∙ l in rw here (omega arith)
  held_from-set name i (suc k) j (w ∷ ws) v x lt e l =
      omega (arith, held_from-set name (suc i) k j ws v x (ground arith) (omega arith) l)

  -- A write to another field changes no reference.
  pub held_from-set_other :
      (name : Bytes) (i k j : ℕ) (ws : List ℕ) (v x : ℕ)
      → j ≡ i + k
      → layout name j ≡ false
      → held_from name i (set ws k v) x ≡ held_from name i ws x
  held_from-set_other name i k j [] v x e l = refl
  held_from-set_other name i zero j (w ∷ ws) v x e l =
      let same : j ≡ i = omega arith in
      let here : layout name i ≡ false = ap (layout name) (sym same) ∙ l in rw here refl
  held_from-set_other name i (suc k) j (w ∷ ws) v x e l =
      omega (arith, held_from-set_other name (suc i) k j ws v x (omega arith) l)

  -- An object that is not freed holds no more than all do.
  pub held_le :
      (a : ℕ) (o : HeapObject) (os : Objects) (x : ℕ) → find a os ≡ some o → held o x ≤ total os x
  held_le a o os x e = omega (arith, total-remove a o os x e)

  pub held-zeros : (name : Bytes) (i n x : ℕ) → x ≢ 0 → held_from name i (zeros n) x ≡ 0
  held-zeros name i zero x ne = refl
  held-zeros name i (suc n) x ne = ground (arith, held-zeros name (suc i) n x ne)
