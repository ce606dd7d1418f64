-- ===== src/Runtime/Array/Queries.antt =====
-- The operations of crates/plat-runtime/src/ffi/array.rs that leave the array as it is. A null array is
-- `none`; an i32 that is returned is its bit pattern.
use plat.Base.{
  ℕ, suc, ◌+◌, ◌-◌, ◌%◌, ◌^◌, Bool, true, false, not, ◌&&◌, ◌||◌, List, [], ◌∷◌, ◌++◌, Option, none,
  some, ltb, leb, ◌==◌, if◌then◌else◌, take, drop, any,
}
use plat.Runtime.Buffer.{alloc}
use plat.Runtime.Array.{
  RuntimeArray, ElementType, i32, i64, bool, string, class, i8, slots_of, is_null, or_zero, load,
  create_typed_array,
}

abbrev pub is_value : ℕ → Option ℕ → Bool
is_value value none = false
is_value value (some v) = v == value

-- The loop of `plat_array_index_of` over the slots in use; `i` is the index of the first.
unfoldable pub search_from : ElementType → ℕ → ℕ → List ℕ → Option ℕ
unfolding load
search_from ty value i [] = none
search_from ty value i (x ∷ xs) =
    let rest = search_from ty value (suc i) xs in
    if is_value value (load ty x) then some i else rest

-- An index `as i32`, as its bit pattern; a pair with `false` is `none`.
abbrev pub index_as_i32 : Option ℕ → Bool × ℕ
index_as_i32 none = (false, 2 ^ 32 - 1)
index_as_i32 (some i) = (true, i % 2 ^ 32)

unfoldable pub plat_array_index_of : Option RuntimeArray → ℕ → Bool × ℕ
unfolding search_from
plat_array_index_of none value = (false, 2 ^ 32 - 1)
plat_array_index_of (some a) value =
    index_as_i32 (search_from a.element_type value 0 (take a.length_ (slots_of a.data_ptr)))

-- An i8 array has no slice.
abbrev pub slice_typed : ElementType → Option RuntimeArray → Option RuntimeArray
slice_typed i8 created = none
slice_typed i32 created = created
slice_typed i64 created = created
slice_typed bool created = created
slice_typed string created = created
slice_typed class created = created

-- A negative bound is `none`.
unfoldable pub plat_array_slice : Option RuntimeArray → Option ℕ → Option ℕ → Option RuntimeArray
unfolding create_typed_array
plat_array_slice none start end = none
plat_array_slice (some a) none end = none
plat_array_slice (some a) (some start) none = none
plat_array_slice (some a) (some start) (some end) =
    if ltb end start
    then none
    else if leb a.length_ start || ltb a.length_ end || is_null a.data_ptr
    then none
    else slice_typed a.element_type
        (create_typed_array (some (drop start (slots_of a.data_ptr))) (end - start) a.element_type)

-- `count += 1` of an i32 as its bit pattern, as it wraps without overflow checks
abbrev pub increment : ℕ → ℕ
increment count = (count + 1) % 2 ^ 32

-- The loop of `plat_array_count` over the slots in use
unfoldable pub count_in : ElementType → ℕ → List ℕ → ℕ → ℕ
unfolding load
count_in ty value [] count = count
count_in ty value (x ∷ xs) count =
    count_in ty value xs (if is_value value (load ty x) then increment count else count)

unfoldable pub plat_array_count : Option RuntimeArray → ℕ → ℕ
unfolding count_in
plat_array_count none value = 0
plat_array_count (some a) value =
    count_in a.element_type value (take a.length_ (slots_of a.data_ptr)) 0

-- The loop of `plat_array_contains` over the slots in use
unfoldable pub contained_in : ElementType → ℕ → List ℕ → Bool
unfolding load
contained_in ty value [] = false
contained_in ty value (x ∷ xs) =
    let rest = contained_in ty value xs in if is_value value (load ty x) then true else rest

unfoldable pub plat_array_contains : Option RuntimeArray → ℕ → Bool
unfolding contained_in
plat_array_contains none value = false
plat_array_contains (some a) value =
    contained_in a.element_type value (take a.length_ (slots_of a.data_ptr))

-- An element of a type without a case counts as 0.
unfoldable pub is_truthy : ElementType → ℕ → Bool
unfolding load
is_truthy ty x = not (or_zero (load ty x) == 0)

abbrev pub all_in : ElementType → List ℕ → Bool
all_in ty [] = true
all_in ty (x ∷ xs) = is_truthy ty x && all_in ty xs

unfoldable pub plat_array_all_truthy : Option RuntimeArray → Bool
unfolding is_truthy
plat_array_all_truthy none = true
plat_array_all_truthy (some a) = all_in a.element_type (take a.length_ (slots_of a.data_ptr))

unfoldable pub plat_array_any_truthy : Option RuntimeArray → Bool
unfolding is_truthy
plat_array_any_truthy none = false
plat_array_any_truthy (some a) =
    any (is_truthy a.element_type) (take a.length_ (slots_of a.data_ptr))

-- The numbers that the `ARRAY_TYPE_..` constants have.
abbrev pub code_of : ElementType → ℕ
code_of i32 = 0
code_of i64 = 1
code_of bool = 2
code_of string = 3
code_of class = 4
code_of i8 = 5

abbrev pub joined : RuntimeArray → RuntimeArray → RuntimeArray
joined a b =
    let total = a.length_ + b.length_ in
    record {
      data_ptr =
          if ltb 0 total
          then some (
              if not (is_null a.data_ptr) && not (is_null b.data_ptr)
              then take a.length_ (slots_of a.data_ptr) ++ take b.length_ (slots_of b.data_ptr)
              else alloc total)
          else none;
      length_ = total;
      capacity = total;
      element_size = a.element_size;
      element_type = a.element_type;
    }

unfoldable pub plat_array_concat : Option RuntimeArray → Option RuntimeArray → Option RuntimeArray
unfolding alloc
plat_array_concat none b = none
plat_array_concat (some a) none = none
plat_array_concat (some a) (some b) =
    if code_of a.element_type == code_of b.element_type then some (joined a b) else none
