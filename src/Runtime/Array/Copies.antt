-- ===== src/Runtime/Array/Copies.antt =====
-- What `create_typed_array`, `slice` and `concat` of crates/plat-runtime/src/ffi/array.rs copy.
use plat.Base.{
  Bool-cases, inl, inr, ℕ, zero, suc, ◌+◌, ◌-◌, ◌≤◌, ◌<◌, ◌≡◌, ◌≢◌, refl, ap, sym, subst, ◌∙◌, true,
  false, ◌||◌, List, [], ◌∷◌, ◌++◌, Option, some, ltb, leb, ◌==◌, ==_refl, arith, length,
  length-append, length-drop, take, drop,
}
use plat.Runtime.Array.{
  RuntimeArray, ElementType, i32, i64, bool, string, class, i8, is_null, slots_of,
  create_typed_array,
}
use plat.Runtime.Array.Queries.{plat_array_slice, slice_typed, plat_array_concat, joined, code_of}
use plat.Runtime.Array.Growth.{view, IsValid, Holds, length-view, is_null-false}
use plat.Runtime.Buffer.{alloc, take-copy_to, length-copy_to, length-replicate, take-take_le}

-- The result is an array, not null, that is valid and has the given slots in use.
pub data HoldsSome (ty : ElementType) (xs : List ℕ) : Option RuntimeArray → Type 0 where
  holds_some : {a : RuntimeArray} → Holds a ty xs → HoldsSome ty xs (some a)

positive : (n : ℕ) → ltb 0 (suc n) ≡ true
positive n = ground arith

-- `create_typed_array` of `n` elements that are there, from a pointer that is not null, makes an array
-- of exactly these.
pub create_typed_array-HoldsSome :
    (ty : ElementType) (n : ℕ) (xs : List ℕ)
    → n ≤ length xs
    → HoldsSome ty (take n xs) (create_typed_array (some xs) n ty)
unfolding create_typed_array alloc
create_typed_array-HoldsSome ty zero xs h = holds_some ((refl, omega arith), refl, refl)
create_typed_array-HoldsSome ty (suc n) xs h =
    let size : length (alloc (suc n)) ≡ suc n = length-replicate (suc n) 0 in
    rw (positive n) (
      holds_some (
        (length-copy_to xs (suc n) (alloc (suc n)) h (omega arith) ∙ size, omega arith),
        take-copy_to xs (suc n) (alloc (suc n)) h,
        refl,
      ))

take-drop-take :
    (s n m : ℕ) (xs : List ℕ) → s + n ≤ m → take n (drop s xs) ≡ take n (drop s (take m xs))
take-drop-take zero n m xs h = sym (take-take_le n m xs (omega arith))
take-drop-take (suc s) n zero xs h = absurd (omega arith)
take-drop-take (suc s) zero (suc m) [] h = refl
take-drop-take (suc s) (suc n) (suc m) [] h = refl
take-drop-take (suc s) n (suc m) (x ∷ xs) h = take-drop-take s n m xs (omega arith)

slice_typed_lem : (ty : ElementType) (o : Option RuntimeArray) → ty ≢ i8 → slice_typed ty o ≡ o
slice_typed_lem i32 o h = refl
slice_typed_lem i64 o h = refl
slice_typed_lem bool o h = refl
slice_typed_lem string o h = refl
slice_typed_lem class o h = refl
slice_typed_lem i8 o h = absurd (h refl)

-- `plat_array_slice` of a valid array that is not of i8, with bounds in range, makes an array of the
-- elements from `start` up to `end`, without the one at `end`.
pub slice-HoldsSome :
    (a : RuntimeArray) (start end : ℕ)
    → IsValid a
    → a.element_type ≢ i8
    → start ≤ end
    → start < a.length_
    → end ≤ a.length_
    → HoldsSome a.element_type
        (take (end - start) (drop start (view a)))
        (plat_array_slice (some a) (some start) (some end))
unfolding plat_array_slice
slice-HoldsSome a start end (h, k) ty le lt fits =
    let present = is_null-false a.data_ptr (omega arith) in
    let order : ltb end start ≡ false = ground arith in
    let in_range : (leb a.length_ start || ltb a.length_ end || is_null a.data_ptr) ≡ false =
      ground arith in
    rw order (
      rw in_range (
        rw
          (slice_typed_lem a.element_type
            (create_typed_array (some (drop start (slots_of a.data_ptr))) (end - start)
              a.element_type)
            ty)
          (subst
            (λ xs. HoldsSome a.element_type xs (
              create_typed_array (some (drop start (slots_of a.data_ptr))) (end - start)
                a.element_type))
            (take-drop-take start (end - start) a.length_ (slots_of a.data_ptr) (omega arith))
            (create_typed_array-HoldsSome a.element_type (end - start)
              (drop start (slots_of a.data_ptr))
              (omega (arith, length-drop start (slots_of a.data_ptr)))))))

take-all : (n : ℕ) (xs : List ℕ) → length xs ≡ n → take n xs ≡ xs
take-all zero [] h = refl
take-all (suc n) [] h = refl
take-all zero (x ∷ xs) h = absurd (omega arith)
take-all (suc n) (x ∷ xs) h = ap (λ t. x ∷ t) (take-all n xs (omega arith))

same_code : (ty : ElementType) → (code_of ty == code_of ty) ≡ true
same_code ty = ==_refl (code_of ty)

take-none : (n : ℕ) (xs : List ℕ) → length xs ≡ n → ltb 0 n ≡ false → take n [] ≡ xs
take-none n [] h e = ground arith
take-none n (x ∷ xs) h e = absurd (ground arith)

joined-Holds :
    (a b : RuntimeArray)
    → IsValid a
    → IsValid b
    → is_null a.data_ptr ≡ false
    → is_null b.data_ptr ≡ false
    → Holds (joined a b) a.element_type (view a ++ view b)
joined-Holds a b (h, k) (h', k') present there =
    let sum = a.length_ + b.length_ in
    let total : length (view a ++ view b) ≡ a.length_ + b.length_ =
      omega
        (arith, length-append (view a) (view b), length-view a (h, k), length-view b (h', k')) in
    elim (Bool-cases (ltb 0 (a.length_ + b.length_))) [
      | inl more ↦ rw more (
          rw present (rw there ((total, omega arith), take-all sum (view a ++ view b) total, refl)))
      | inr empty ↦
          rw empty ((ground arith, omega arith), take-none sum (view a ++ view b) total empty, refl)
    ]

-- `plat_array_concat` of two valid arrays of one element type, both with a data pointer that is not
-- null, makes an array of the elements of the first and then those of the second.
pub concat-HoldsSome :
    (a b : RuntimeArray)
    → IsValid a
    → IsValid b
    → is_null a.data_ptr ≡ false
    → is_null b.data_ptr ≡ false
    → b.element_type ≡ a.element_type
    → HoldsSome a.element_type (view a ++ view b) (plat_array_concat (some a) (some b))
unfolding plat_array_concat
concat-HoldsSome a b va vb present there same =
    let code : (code_of a.element_type == code_of b.element_type) ≡ true =
      ap (λ ty. code_of a.element_type == code_of ty) same ∙ same_code a.element_type in
    rw code (holds_some (joined-Holds a b va vb present there))
