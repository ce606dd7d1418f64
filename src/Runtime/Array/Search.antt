-- ===== src/Runtime/Array/Search.antt =====
-- What `index_of`, `contains` and `count` of crates/plat-runtime/src/ffi/array.rs find.
use plat.Base.{
  ℕ, zero, suc, ◌+◌, ◌-◌, ◌%◌, ◌^◌, ◌≤◌, ◌<◌, ◌≡◌, ◌≢◌, refl, sym, ap, Bool, true, false, not, ◌||◌,
  List, [], ◌∷◌, ◌++◌, Option, none, some, ◌==◌, ==_iff, if_intro, Bool-cases, inl, inr, arith,
  length, take, All,
}
use plat.Runtime.Array.{RuntimeArray, ElementType, slots_of, load, plat_array_len}
use plat.Runtime.Array.Queries.{
  is_value, search_from, index_as_i32, plat_array_index_of, count_in, contained_in,
  plat_array_count, plat_array_contains,
}
use plat.Runtime.Array.Growth.{view}

-- The first slot among those from `i` on that reads as the value, if there is one.
pub data IsFirst (ty : ElementType) (value i : ℕ) (xs : List ℕ) : Option ℕ → Type 0 where
  first :
      {k : ℕ} (before : List ℕ) (x : ℕ) (after : List ℕ)
      → xs ≡ before ++ x ∷ after
      → k ≡ i + length before
      → load ty x ≡ some value
      → All (λ y. load ty y ≢ some value) before
      → IsFirst ty value i xs (some k)
  absent : All (λ y. load ty y ≢ some value) xs → IsFirst ty value i xs none

is_value-true : (value : ℕ) (o : Option ℕ) → is_value value o ≡ true → o ≡ some value
is_value-true value none h = cc
is_value-true value (some v) h = ground (arith, ==_iff v value)

is_value-false : (value : ℕ) (o : Option ℕ) → is_value value o ≡ false → o ≢ some value
is_value-false value none h e = cc
is_value-false value (some v) h e = ground (arith, ==_iff v value)

later :
    {ty : ElementType} {value i : ℕ} {xs : List ℕ} {o : Option ℕ} (x : ℕ)
    → load ty x ≢ some value
    → IsFirst ty value (suc i) xs o
    → IsFirst ty value i (x ∷ xs) o
later x other (first before y after e k h rest) =
    first (x ∷ before) y after (ap (λ t. x ∷ t) e) (omega arith) h (other, rest)
later x other (absent rest) = absent (other, rest)

search_from-IsFirst :
    (ty : ElementType) (value i : ℕ) (xs : List ℕ)
    → IsFirst ty value i xs (search_from ty value i xs)
unfolding search_from
search_from-IsFirst ty value i [] = absent tt
search_from-IsFirst ty value i (x ∷ xs) =
    if_intro (IsFirst ty value i (x ∷ xs)) (is_value value (load ty x))
      (λ h. first [] x xs refl (omega arith) (is_value-true value (load ty x) h) tt)
      (λ h. later x (is_value-false value (load ty x) h) (search_from-IsFirst ty value (suc i) xs))

-- What the result says of the slots: an index is cut to 32 bits, and is exact below 2 ^ 31.
pub data IsIndexOf (ty : ElementType) (value : ℕ) (xs : List ℕ) : Bool × ℕ → Type 0 where
  at_first :
      {k : ℕ} (before : List ℕ) (x : ℕ) (after : List ℕ)
      → xs ≡ before ++ x ∷ after
      → load ty x ≡ some value
      → All (λ y. load ty y ≢ some value) before
      → k ≡ length before % 2 ^ 32
      → IsIndexOf ty value xs (true, k)
  nowhere : All (λ y. load ty y ≢ some value) xs → IsIndexOf ty value xs (false, 2 ^ 32 - 1)

IsFirst-IsIndexOf :
    (ty : ElementType) (value : ℕ) (xs : List ℕ) (o : Option ℕ)
    → IsFirst ty value 0 xs o
    → IsIndexOf ty value xs (index_as_i32 o)
IsFirst-IsIndexOf ty value xs (some k) (first before x after e at h rest) =
    at_first before x after e h rest (omega (arith, at))
IsFirst-IsIndexOf ty value xs none (absent h) = nowhere h

-- `plat_array_index_of` gives the index of the first element in use that reads as the value, cut to an
-- i32, and -1 where none does.
pub plat_array_index_of-IsIndexOf :
    (a : RuntimeArray) (value : ℕ)
    → IsIndexOf a.element_type value (view a) (plat_array_index_of (some a) value)
unfolding plat_array_index_of
plat_array_index_of-IsIndexOf a value =
    IsFirst-IsIndexOf a.element_type value (view a) (search_from a.element_type value 0 (view a))
      (search_from-IsFirst a.element_type value 0 (view a))

length-take_at_most : (n : ℕ) (xs : List ℕ) → length (take n xs) ≤ n
length-take_at_most zero xs = omega arith
length-take_at_most (suc n) [] = omega arith
length-take_at_most (suc n) (x ∷ xs) = omega (arith, length-take_at_most n xs)

-- The counter stays below 2 ^ 32, and is 0 only where it was and nothing is found.
count_in-contained_in :
    (ty : ElementType) (value : ℕ) (xs : List ℕ) (n : ℕ)
    → n + length xs < 2 ^ 32
    → not (count_in ty value xs n == 0) ≡ (not (n == 0) || contained_in ty value xs)
unfolding count_in contained_in
count_in-contained_in ty value [] n h = ground arith
count_in-contained_in ty value (x ∷ xs) n h = elim (Bool-cases (is_value value (load ty x))) [
  | inl here ↦ rw here (
      let below : (n + 1) % 2 ^ 32 ≡ n + 1 = omega arith in
      rw below (ground (arith, count_in-contained_in ty value xs (n + 1) (omega arith))))
  | inr other ↦ rw other (count_in-contained_in ty value xs n (omega arith))
]

-- `plat_array_contains` says of every value and every array of less than 2 ^ 31 elements whether
-- `plat_array_count` is not 0.
pub contains-count :
    (a : Option RuntimeArray) (value : ℕ)
    → plat_array_len a < 2 ^ 31
    → plat_array_contains a value ≡ not (plat_array_count a value == 0)
unfolding plat_array_contains plat_array_count
contains-count none value h = refl
contains-count (some a) value h = sym (
    count_in-contained_in a.element_type value (view a) 0
      (omega (arith, length-take_at_most a.length_ (slots_of a.data_ptr))))
