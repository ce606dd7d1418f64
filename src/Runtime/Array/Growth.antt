-- ===== src/Runtime/Array/Growth.antt =====
-- What growth, `append` and `insert_at` of crates/plat-runtime/src/ffi/array.rs do to the sequence of
-- the slots in use.
use plat.Base.{
  ℕ, zero, suc, ◌-◌, ◌≤◌, ◌<◌, ◌≡◌, refl, ap, ◌∙◌, Bool, true, false, not, ◌&&◌, List, [], ◌∷◌,
  ◌++◌, Option, none, some, ltb, leb, if◌then◌else◌, if_intro, arith, length, take, drop,
}
use plat.Runtime.Buffer.{
  alloc, copy_to, length-replicate, length-take_le, length-write, take-write_end, take-copy_to,
  length-copy_to, take-insert, length-copy_within,
}
use plat.Runtime.Array.{
  RuntimeArray, ElementType, slots_of, store, grow, append, append_slot, insert_at, insert_slot,
  is_null, grown_capacity,
}

-- The slots in use.
abbrev pub view : RuntimeArray → List ℕ
view a = take a.length_ (slots_of a.data_ptr)

-- The buffer has as many slots as the array says, and the slots in use are among them.
abbrev pub IsValid : RuntimeArray → Type 0
IsValid a = (length (slots_of a.data_ptr) ≡ a.capacity) × (a.length_ ≤ a.capacity)

-- A valid array with the given slots and element type.
abbrev pub Holds : RuntimeArray → ElementType → List ℕ → Type 0
Holds a ty xs = IsValid a × (view a ≡ xs) × (a.element_type ≡ ty)

pub length-view : (a : RuntimeArray) → IsValid a → length (view a) ≡ a.length_
length-view a (h, k) = length-take_le a.length_ (slots_of a.data_ptr) (omega arith)

-- An array that holds an element is not null.
pub is_null-false : (d : Option (List ℕ)) → 0 < length (slots_of d) → is_null d ≡ false
is_null-false none h = absurd (omega arith)
is_null-false (some xs) h = refl

-- The test before the copy fails only where there is nothing to copy.
unused_lem :
    (n : ℕ) (d : Option (List ℕ))
    → n ≤ length (slots_of d)
    → (ltb 0 n && not (is_null d)) ≡ false
    → n ≡ 0
unused_lem n none h e = omega arith
unused_lem n (some xs) h e = ground arith

-- What growth keeps, and the room it makes.
pub data Grown (a : RuntimeArray) : RuntimeArray → Type 0 where
  grown :
      {b : RuntimeArray}
      → IsValid b
      → view b ≡ view a
      → b.element_type ≡ a.element_type
      → b.length_ ≡ a.length_
      → a.length_ < b.capacity
      → Grown a b

length-grown : (n : ℕ) → n < grown_capacity n
length-grown n = ground arith

-- The buffer that growth moves the slots to.
abbrev IsMoved : RuntimeArray → ℕ → List ℕ → Type 0
IsMoved a size xs = (length xs ≡ size) × (take a.length_ xs ≡ view a)

take-zero : (n : ℕ) (xs ys : List ℕ) → n ≡ 0 → take n xs ≡ take n ys
take-zero zero xs ys h = refl
take-zero (suc n) xs ys h = absurd (omega arith)

grow-IsMoved :
    (a : RuntimeArray) (size : ℕ)
    → IsValid a
    → a.length_ < size
    → IsMoved a size (
        if ltb 0 a.length_ && not (is_null a.data_ptr)
        then copy_to (slots_of a.data_ptr) a.length_ (alloc size)
        else alloc size)
unfolding alloc
grow-IsMoved a size (h, k) room =
    let fits : length (alloc size) ≡ size = length-replicate size 0 in
    if_intro (IsMoved a size) (ltb 0 a.length_ && not (is_null a.data_ptr))
      (λ used. (
        length-copy_to (slots_of a.data_ptr) a.length_ (alloc size) (omega arith) (omega arith)
            ∙ fits,
        take-copy_to (slots_of a.data_ptr) a.length_ (alloc size) (omega arith),
      ))
      (λ unused. (
        fits,
        take-zero a.length_ (alloc size) (slots_of a.data_ptr)
            (unused_lem a.length_ a.data_ptr (omega arith) unused),
      ))

pub grow_lem : (a : RuntimeArray) → IsValid a → Grown a (grow a)
unfolding grow
grow_lem a (h, k) =
    if_intro (Grown a) (leb a.capacity a.length_)
      (λ full.
        let roomy : a.length_ < grown_capacity a.capacity =
          omega (arith, length-grown a.capacity) in
        let (p, q) = grow-IsMoved a (grown_capacity a.capacity) (h, k) roomy in
        grown (p, omega arith) q refl refl roomy)
      (λ room. grown (h, k) refl refl refl (ground arith))

-- A push writes the slot behind the last one.
pub append_slot_lem :
    (a b : RuntimeArray) (x : ℕ)
    → Grown a b
    → Holds (append_slot (some x) b).0 a.element_type (view a ++ x ∷ [])
append_slot_lem a b x (grown (h, k) same type len room) = (
  (length-write b.length_ x (slots_of b.data_ptr) ∙ h, omega arith),
  take-write_end b.length_ x (slots_of b.data_ptr) (omega arith) ∙ ap (λ t. t ++ x ∷ []) same,
  type,
)

-- `plat_array_append` to a valid array of a value that the element type can store makes the array,
-- whatever its capacity was, hold one more element, at the end, and reports success.
pub append-Holds :
    (a : RuntimeArray) (value x : ℕ)
    → IsValid a
    → store a.element_type value ≡ some x
    → Holds (append a value).0 a.element_type (view a ++ x ∷ []) × ((append a value).1 ≡ true)
unfolding append
append-Holds a value x h e = rw e (append_slot_lem a (grow a) x (grow_lem a h), refl)

pub insert_slot_lem :
    (a b : RuntimeArray) (i x : ℕ)
    → i ≤ a.length_
    → Grown a b
    → Holds (insert_slot i (some x) b).0 a.element_type (take i (view a) ++ x ∷ drop i (view a))
insert_slot_lem a b i x le (grown (h, k) same type len room) = (
  (
    length-write i x _
        ∙ length-copy_within i (suc i) (b.length_ - i) (slots_of b.data_ptr) (omega arith)
            (omega arith)
        ∙ h,
    omega arith,
  ),
  take-insert b.length_ i (b.length_ - i) x (slots_of b.data_ptr) (omega arith) (omega arith)
      ∙ ap (λ t. take i t ++ x ∷ drop i t) same,
  type,
)

-- `plat_array_insert_at` of a valid array, at an index up to the length, of a value that the element
-- type can store, puts the element there, keeps the others in order and reports success.
pub insert_at-Holds :
    (a : RuntimeArray) (i value x : ℕ)
    → IsValid a
    → i ≤ a.length_
    → store a.element_type value ≡ some x
    → Holds (insert_at a (some i) value).0 a.element_type (take i (view a) ++ x ∷ drop i (view a))
      × ((insert_at a (some i) value).1 ≡ true)
unfolding insert_at
insert_at-Holds a i value x h le e =
    if_intro
      (λ (r : RuntimeArray × Bool).
        Holds r.0 a.element_type (take i (view a) ++ x ∷ drop i (view a)) × (r.1 ≡ true))
      (ltb a.length_ i) (λ out. absurd (ground arith))
      (λ inside. rw e (insert_slot_lem a (grow a) i x le (grow_lem a h), refl))
