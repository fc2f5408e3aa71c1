-- ===== src/Runtime/Lists/Memory.antt =====
-- The copies of strings that the lists and dictionaries of src/runtime/runtime.cpp make and delete.
use aithon.Prelude.{
  ℕ, ◌≡◌, ◌≢◌, ◌⊎◌, inl, inr, refl, sym, ap, ◌∙◌, Bool, true, false, ◌||◌, Option, none, some, List,
  [], ◌∷◌, ◌++◌, Bytes, ◌==◌, if◌then◌else◌, arith, Bool-cases, ℤ,
}
use aithon.Runtime.Lists.{
  int_val, string_ptr, none_val, RuntimeList, Strings, string_at, without, delete_string,
  runtime_list_create, runtime_list_append_int, runtime_list_append_string, free_values,
  runtime_list_free,
}

string_at-without :
    (x p : ℕ) (s : Strings) → string_at x (without p s) ≡ (if x == p then none else string_at x s)
unfolding string_at without
string_at-without x p [] = ground arith
string_at-without x p ((a, t) ∷ s) = ground (arith, string_at-without x p s)

-- If the list has the string at the address.
abbrev pub points_to : RuntimeList → ℕ → Bool
points_to [] x = false
points_to (string_ptr p ∷ l) x = x == p || points_to l x
points_to (int_val z ∷ l) x = points_to l x
points_to (none_val ∷ l) x = points_to l x

-- The strings of a list are there, and no two of them are one.
abbrev pub Owned : RuntimeList → Strings → Type 0
Owned [] s = Unit
Owned (string_ptr p ∷ l) s =
    (p ≢ 0) × (((t : Bytes) × (string_at p s ≡ some t)) × ((points_to l p ≡ false) × Owned l s))
Owned (int_val z ∷ l) s = Owned l s
Owned (none_val ∷ l) s = Owned l s

Owned-without :
    (l : RuntimeList) (p : ℕ) (s : Strings)
    → points_to l p ≡ false
    → Owned l s
    → Owned l (without p s)
Owned-without [] p s h o = tt
Owned-without (int_val z ∷ l) p s h o = Owned-without l p s h o
Owned-without (none_val ∷ l) p s h o = Owned-without l p s h o
Owned-without (string_ptr q ∷ l) p s h (ne, ((t, e), (d, o))) =
    let other : (q == p) ≡ false = ground arith in
    (ne, ((t, string_at-without q p s ∙ rw other e), (d, Owned-without l p s (ground arith) o)))

-- What is left of the strings after those of a list are deleted.
pub record Freed (l : RuntimeList) (s : Strings) : Type 0 where
  pub after : Strings
  pub returns : free_values l s ≡ some after
  pub left : (x : ℕ) → string_at x after ≡ (if points_to l x then none else string_at x s)

pub free_values-Freed : (l : RuntimeList) (s : Strings) → Owned l s → Freed l s
unfolding free_values delete_string
free_values-Freed [] s o = record { after = s; returns = refl; left = λ x. refl }
free_values-Freed (int_val z ∷ l) s o =
    let rest = free_values-Freed l s o in
    record { after = rest.after; returns = rest.returns; left = rest.left }
free_values-Freed (none_val ∷ l) s o =
    let rest = free_values-Freed l s o in
    record { after = rest.after; returns = rest.returns; left = rest.left }
free_values-Freed (string_ptr p ∷ l) s (ne, ((t, e), (d, o))) =
    let rest = free_values-Freed l (without p s) (Owned-without l p s d o) in
    let proper : (p == 0) ≡ false = ground arith in
    record {
      after = rest.after;
      returns = rw (proper, e) rest.returns;
      left = λ x. ground (arith, rest.left x, string_at-without x p s);
    }

points_to-append :
    (l m : RuntimeList) (x : ℕ) → points_to (l ++ m) x ≡ (points_to l x || points_to m x)
points_to-append [] m x = refl
points_to-append (string_ptr p ∷ l) m x = ground (arith, points_to-append l m x)
points_to-append (int_val z ∷ l) m x = points_to-append l m x
points_to-append (none_val ∷ l) m x = points_to-append l m x

Owned-append_int :
    (l : RuntimeList) (z : ℤ) (s : Strings) → Owned l s → Owned (l ++ (int_val z ∷ [])) s
Owned-append_int [] z s o = tt
Owned-append_int (int_val y ∷ l) z s o = Owned-append_int l z s o
Owned-append_int (none_val ∷ l) z s o = Owned-append_int l z s o
Owned-append_int (string_ptr p ∷ l) z s (ne, (found, (d, o))) =
    (ne, (found, (ground (arith, points_to-append l (int_val z ∷ []) p), Owned-append_int l z s o)))

Owned-append_string :
    (l : RuntimeList) (a : ℕ) (t : Bytes) (s : Strings)
    → a ≢ 0
    → string_at a s ≡ none
    → Owned l s
    → Owned (l ++ (string_ptr a ∷ [])) ((a, t) ∷ s)
unfolding string_at
Owned-append_string [] a t s ne e o = (ne, ((t, ground arith), (refl, tt)))
Owned-append_string (int_val y ∷ l) a t s ne e o = Owned-append_string l a t s ne e o
Owned-append_string (none_val ∷ l) a t s ne e o = Owned-append_string l a t s ne e o
Owned-append_string (string_ptr p ∷ l) a t s ne e (np, ((u, found), (d, o))) =
    let apart : (p == a) ≡ false = by_test (Bool-cases (p == a)) in
    (
      np,
      (
        (u, rw apart found),
        (
          points_to-append l (string_ptr a ∷ []) p ∙ rw (d, apart) refl,
          Owned-append_string l a t s ne e o,
        ),
      ),
    )
  where
    by_test : ((p == a) ≡ true) ⊎ ((p == a) ≡ false) → (p == a) ≡ false
    by_test (inr h) = h
    by_test (inl h) =
        let q : p ≡ a = ground arith in
        let both : none ≡ some u = sym e ∙ ap (λ x. string_at x s) (sym q) ∙ found in cc

-- A call that appends.
pub data Append : Type 0 where
  int_item : ℤ → Append
  string_item : Bytes → ℕ → Append

abbrev pub appended : List Append → Option RuntimeList × Strings → Option RuntimeList × Strings
appended [] (l, s) = (l, s)
appended (int_item z ∷ calls) (l, s) = appended calls (runtime_list_append_int l z, s)
appended (string_item text a ∷ calls) (l, s) =
    appended calls (runtime_list_append_string l text a s)

-- `new` gives an address that is not null and where no string is.
abbrev pub Fresh : List Append → Strings → Type 0
Fresh [] s = Unit
Fresh (int_item z ∷ calls) s = Fresh calls s
Fresh (string_item text a ∷ calls) s =
    (a ≢ 0) × ((string_at a s ≡ none) × Fresh calls ((a, text) ∷ s))

pub record Restored (r : Option RuntimeList × Strings) (s : Strings) : Type 0 where
  pub after : Strings
  pub returns : runtime_list_free r.0 r.1 ≡ some after
  pub same : (x : ℕ) → string_at x after ≡ string_at x s

-- The strings of the list are those that are new.
abbrev Grown : RuntimeList → Strings → Strings → Type 0
Grown l s before =
    Owned l s × ((x : ℕ) → string_at x before ≡ (if points_to l x then none else string_at x s))

Grown-append :
    (l : RuntimeList) (a : ℕ) (t : Bytes) (s before : Strings)
    → a ≢ 0
    → string_at a s ≡ none
    → Grown l s before
    → Grown (l ++ (string_ptr a ∷ [])) ((a, t) ∷ s) before
unfolding string_at
Grown-append l a t s before ne e (o, same) =
    (Owned-append_string l a t s ne e o, λ x. by_test x (Bool-cases (x == a)))
  where
    by_test :
        (x : ℕ)
        → ((x == a) ≡ true) ⊎ ((x == a) ≡ false)
        → string_at x before
          ≡ (if points_to (l ++ (string_ptr a ∷ [])) x then none else string_at x ((a, t) ∷ s))
    by_test x (inl h) =
        let q : x ≡ a = ground arith in
        let gone : string_at x s ≡ none = ap (λ y. string_at y s) q ∙ e in
        ground (arith, same x, points_to-append l (string_ptr a ∷ []) x)
    by_test x (inr h) = ground (arith, same x, points_to-append l (string_ptr a ∷ []) x)

Grown-append_int :
    (l : RuntimeList) (z : ℤ) (s before : Strings)
    → Grown l s before
    → Grown (l ++ (int_val z ∷ [])) s before
Grown-append_int l z s before (o, same) =
    (Owned-append_int l z s o, λ x. ground (arith, same x, points_to-append l (int_val z ∷ []) x))

Grown-Restored :
    (calls : List Append) (l : RuntimeList) (s before : Strings)
    → Fresh calls s
    → Grown l s before
    → Restored (appended calls (some l, s)) before
unfolding runtime_list_free
Grown-Restored [] l s before fresh (o, same) =
    let freed = free_values-Freed l s o in
    record { after = freed.after; returns = freed.returns; same = λ x. freed.left x ∙ sym (same x) }
Grown-Restored (int_item z ∷ calls) l s before fresh g =
    Grown-Restored calls (l ++ (int_val z ∷ [])) s before fresh (Grown-append_int l z s before g)
Grown-Restored (string_item text a ∷ calls) l s before (ne, (e, fresh)) g =
    Grown-Restored calls (l ++ (string_ptr a ∷ [])) ((a, text) ∷ s) before fresh
      (Grown-append l a text s before ne e g)

-- For a list that is created and any appends to it, where `new` gives addresses that are not in use:
-- freeing it deletes no string twice, and then each address has the string that it had before, so all
-- copies are deleted and nothing else.
pub appended-Restored :
    (calls : List Append) (s : Strings)
    → Fresh calls s
    → Restored (appended calls (runtime_list_create, s)) s
appended-Restored calls s fresh = Grown-Restored calls [] s s fresh (tt, λ x. refl)
