-- ===== src/Runtime/Values/Items.antt =====
-- The items of lists and the entries of dictionaries of src/runtime/pyobject.cpp.
use aithon.Prelude.{
  ℕ, zero, suc, ◌-◌, ◌^◌, ◌≤◌, ◌<◌, ◌≡◌, ◌⊎◌, inl, inr, refl, Bool, true, false, ◌||◌, none, List,
  [], ◌∷◌, Bytes, bytes_eq, bytes_eq_iff, ltb, leb, if◌then◌else◌, length, get_elem?, set,
  length-set, get_elem?-set, arith, Bool-cases, ℤ, pos, negsuc, eqb_ℤ,
}
use aithon.Runtime.Objects.{to_word}
use aithon.Runtime.Values.{returns, throws, index_out_of_range, Value, int_value, fits}
use aithon.Runtime.Values.Containers.{
  from_end, item_at, list_set_item, list_get_item, dict_get, contains, dict_set, value_found,
  dict_get_item, dict_set_item,
}

-- An index of a list of the length, from the start or from the end.
abbrev pub Inside : ℤ → ℕ → Type 0
Inside (pos i) n = i < n
Inside (negsuc i) n = i < n

abbrev pub Outside : ℤ → ℕ → Type 0
Outside (pos i) n = n ≤ i
Outside (negsuc i) n = n ≤ i

abbrev place : ℤ → ℕ → ℕ
place (pos i) n = i
place (negsuc i) n = n - suc i

Inside-or_Outside : (z : ℤ) (n : ℕ) → Outside z n ⊎ Inside z n
Inside-or_Outside (pos i) n = elim (Bool-cases (leb n i)) [
  | inl e ↦ inl (ground arith)
  | inr e ↦ inr (ground arith)
]
Inside-or_Outside (negsuc i) n = elim (Bool-cases (leb n i)) [
  | inl e ↦ inl (ground arith)
  | inr e ↦ inr (ground arith)
]

from_end-Inside : (z : ℤ) (n : ℕ) → Inside z n → from_end z n ≡ pos (place z n)
from_end-Inside (pos i) n h = refl
from_end-Inside (negsuc i) n h = ground arith

place_bound : (z : ℤ) (n : ℕ) → Inside z n → ltb (place z n) n ≡ true
place_bound (pos i) n h = ground arith
place_bound (negsuc i) n h = ground arith

-- As an unsigned number, an index outside is past the end.
to_word-Outside :
    (z : ℤ) (n : ℕ)
    → Outside z n
    → n < 2 ^ 63
    → fits z ≡ true
    → leb n (to_word (from_end z n)) ≡ true
to_word-Outside (pos i) n h lt f = ground arith
to_word-Outside (negsuc i) n h lt f = ground arith

get_elem?-none {ℓ} : {A : Type ℓ} (l : List A) (i : ℕ) → length l ≤ i → get_elem? l i ≡ none
get_elem?-none [] i h = refl
get_elem?-none (x ∷ l) zero h = absurd (omega arith)
get_elem?-none (x ∷ l) (suc i) h = get_elem?-none l i (omega arith)

item_at-Outside {ℓ} :
    {A : Type ℓ} (l : List A) (z : ℤ)
    → Outside z (length l)
    → item_at l (from_end z (length l)) ≡ throws index_out_of_range
item_at-Outside l (pos i) h = rw (get_elem?-none l i h) refl
item_at-Outside l (negsuc i) h =
    let past : from_end (negsuc i) (length l) ≡ negsuc (suc i - length l - 1) = ground arith in
    rw past refl

item_at-set :
    (l : List ℕ) (i x : ℕ) (z : ℤ)
    → ltb i (length l) ≡ true
    → item_at (set l i x) z ≡ (if eqb_ℤ z (pos i) then returns x else item_at l z)
item_at-set l i x (pos j) h = ground (arith, get_elem?-set l i j x h)
item_at-set l i x (negsuc j) h = ground arith

module _ (D : Type 0) where
  abbrev pub key : ℤ → Value D
  key z = int_value z

  -- For a list of less than 2^63 items and an index of 64 bits: if it is outside of the list, from the start and from
  -- the end, then reading and writing an item throw. If it is inside, writing returns a list of the same
  -- length, and then reading at an index gives what was written, if that counts to the same position, and
  -- else what it gave before.
  pub get_item-set_item :
      (items : List ℕ) (z w : ℤ) (x : ℕ)
      → length items < 2 ^ 63
      → fits z ≡ true
      → (Outside z (length items)
          × ((list_get_item items (key z) ≡ throws index_out_of_range)
              × (list_set_item items (key z) x ≡ throws index_out_of_range)))
        ⊎ (Inside z (length items)
            × ((l : List ℕ) × ((list_set_item items (key z) x ≡ returns l)
                  × ((length l ≡ length items)
                      × (list_get_item l (key w) ≡ (
                          if eqb_ℤ (from_end w (length items)) (from_end z (length items))
                          then returns x
                          else list_get_item items (key w)))))))
  get_item-set_item items z w x small fit = elim (Inside-or_Outside z (length items)) [
    | inl out ↦ inl (
      out,
      (item_at-Outside items z out, rw (to_word-Outside z (length items) out small fit) refl),
    )
    | inr h ↦
        let i : ℕ = place z (length items) in
        let e : from_end z (length items) ≡ pos i = from_end-Inside z (length items) h in
        let lt : ltb i (length items) ≡ true = place_bound z (length items) h in
        let test : leb (length items) i ≡ false = ground arith in
        inr (
          h,
          (
            set items i x,
            (
              rw (e, test) refl,
              (
                length-set items i x,
                rw (e, length-set items i x) (item_at-set items i x (from_end w (length items)) lt),
              ),
            ),
          ),
        )
  ]

dict_get-dict_set :
    (k k' : Bytes) (x : ℕ) (entries : List (Bytes × ℕ))
    → dict_get k' (dict_set k x entries) ≡ (if bytes_eq k' k then x else dict_get k' entries)
unfolding dict_get dict_set
dict_get-dict_set k k' x [] = refl
dict_get-dict_set k k' x ((c, y) ∷ entries) = ground (
  arith,
  dict_get-dict_set k k' x entries,
  bytes_eq_iff k c,
  bytes_eq_iff k' c,
  bytes_eq_iff k' k,
)

contains-dict_set :
    (k k' : Bytes) (x : ℕ) (entries : List (Bytes × ℕ))
    → contains k' (dict_set k x entries) ≡ (bytes_eq k' k || contains k' entries)
unfolding contains dict_set
contains-dict_set k k' x [] = refl
contains-dict_set k k' x ((c, y) ∷ entries) = ground (
  arith,
  contains-dict_set k k' x entries,
  bytes_eq_iff k c,
  bytes_eq_iff k' c,
  bytes_eq_iff k' k,
)

length-dict_set :
    (k : Bytes) (x : ℕ) (entries : List (Bytes × ℕ))
    → length (dict_set k x entries)
      ≡ (if contains k entries then length entries else suc (length entries))
unfolding contains dict_set
length-dict_set k x [] = refl
length-dict_set k x ((c, y) ∷ entries) = ground (arith, length-dict_set k x entries)

-- After the value of a key is set: reading a key throws if it is the same key and the value is null, gives
-- the value if it is the same key, and else does what it did before. The dictionary has the key, and
-- those that it had, and is one longer exactly if it did not have the key.
pub get_item-set_item_entry :
    (k k' : Bytes) (x : ℕ) (entries : List (Bytes × ℕ))
    → (dict_get_item (dict_set_item entries k x) k'
        ≡ (if bytes_eq k' k then value_found x else dict_get_item entries k'))
      × ((contains k' (dict_set_item entries k x) ≡ (bytes_eq k' k || contains k' entries))
          × (length (dict_set_item entries k x)
              ≡ (if contains k entries then length entries else suc (length entries))))
get_item-set_item_entry k k' x entries = (
  rw (dict_get-dict_set k k' x entries) (found_if (bytes_eq k' k)),
  (contains-dict_set k k' x entries, length-dict_set k x entries),
)
  where
    found_if :
        (c : Bool)
        → value_found (if c then x else dict_get k' entries)
          ≡ (if c then value_found x else dict_get_item entries k')
    found_if true = refl
    found_if false = refl
