-- ===== src/Runtime/Array.antt =====
-- crates/plat-runtime/src/ffi/array.rs. A value is the bit pattern of an i64. A slot holds the bits of
-- one element; the element type says how wide they are. A pointer to an array is an `Option`, and
-- an operation that mutates the array returns it. Lengths and capacities are not bounded.
pub mod Growth
pub mod Edits
pub mod Queries
pub mod Exports
pub mod Search
pub mod Copies
pub mod Runs
mod Examples
use plat.Base.{
  ℕ, suc, ◌+◌, ◌-◌, ◌*◌, ◌%◌, ◌^◌, Bool, true, false, not, ◌&&◌, ◌||◌, List, [], ◌∷◌, ◌++◌, Option,
  none, some, ltb, leb, ◌==◌, if◌then◌else◌, length, take, drop, get_elem?, i64_half, i64_mod,
}
use plat.Runtime.Buffer.{alloc, copy_to, copy_within, write}

-- The `ARRAY_TYPE_..` constants.
pub data ElementType : Type 0 where
  i32 i64 bool string class i8 : ElementType

pub record RuntimeArray : Type 0 where
  pub data_ptr : Option (List ℕ)
  pub length_ : ℕ
  pub capacity : ℕ
  pub element_size : ℕ
  pub element_type : ElementType

abbrev pub size_of : ElementType → ℕ
size_of i32 = 4
size_of i64 = 8
size_of bool = 1
size_of string = 8
size_of class = 8
size_of i8 = 1

-- `as i64` of an i32
unfoldable pub sign_extend : ℕ → ℕ
sign_extend x = if ltb x (2 ^ 31) then x else x + (i64_mod - 2 ^ 32)

-- `*data_ptr.add(i)` as an i64, by the element type: i8 arrays fall under `_`.
unfoldable pub load : ElementType → ℕ → Option ℕ
unfolding sign_extend
load i32 x = some (sign_extend x)
load i64 x = some x
load bool x = some (if x == 0 then 0 else 1)
load string x = some x
load class x = some x
load i8 x = none

-- The bits that a store of an i64 leaves in the slot.
unfoldable pub store : ElementType → ℕ → Option ℕ
store i32 v = some (v % 2 ^ 32)
store i64 v = some v
store bool v = some (if v == 0 then 0 else 1)
store string v = some v
store class v = some v
store i8 v = none

-- The slots, none at a null pointer.
abbrev pub slots_of : Option (List ℕ) → List ℕ
slots_of none = []
slots_of (some xs) = xs

abbrev pub is_null {ℓ} : {A : Type ℓ} → Option A → Bool
is_null none = true
is_null (some x) = false

abbrev load_at : ElementType → Option ℕ → Option ℕ
load_at ty none = none
load_at ty (some x) = load ty x

-- The element at `i`, read through the data pointer.
abbrev pub element : RuntimeArray → ℕ → Option ℕ
element a i = load_at a.element_type (get_elem? (slots_of a.data_ptr) i)

abbrev pub or_zero : Option ℕ → ℕ
or_zero none = 0
or_zero (some v) = v

-- `create_typed_array` and the six `plat_array_create_..` that call it: `elements` points to `count`
-- elements of the given type.
unfoldable pub create_typed_array : Option (List ℕ) → ℕ → ElementType → Option RuntimeArray
unfolding alloc copy_to
create_typed_array elements count ty =
    if is_null elements && ltb 0 count
    then none
    else some (record {
      data_ptr =
          if ltb 0 count then some (copy_to (slots_of elements) count (alloc count)) else none;
      length_ = count;
      capacity = count;
      element_size = size_of ty;
      element_type = ty;
    })

-- `index` is a usize.
unfoldable pub plat_array_get : Option RuntimeArray → ℕ → ℕ
unfolding load
plat_array_get none index = 0
plat_array_get (some a) index =
    if leb a.length_ index || is_null a.data_ptr then 0 else or_zero (element a index)

abbrev pub plat_array_len : Option RuntimeArray → ℕ
plat_array_len none = 0
plat_array_len (some a) = a.length_

-- The length `as i32`, as its bit pattern
unfoldable pub plat_array_length : Option RuntimeArray → ℕ
plat_array_length a = plat_array_len a % 2 ^ 32

abbrev found_of : Option ℕ → Bool × ℕ
found_of none = (false, 0)
found_of (some v) = (true, v)

-- An i32 index that is negative is `none`.
unfoldable pub plat_array_get_safe : Option RuntimeArray → Option ℕ → Bool × ℕ
unfolding load
plat_array_get_safe none index = (false, 0)
plat_array_get_safe (some a) none = (false, 0)
plat_array_get_safe (some a) (some index) =
    if leb a.length_ index || is_null a.data_ptr then (false, 0) else found_of (element a index)

abbrev pub write_slot : ℕ → Option ℕ → RuntimeArray → RuntimeArray × Bool
write_slot index none a = (a, false)
write_slot index (some x) a =
    (record a { data_ptr = some (write index x (slots_of a.data_ptr)) }, true)

-- The part of `plat_array_set` behind the test for a null array.
unfoldable pub set_element : RuntimeArray → Option ℕ → ℕ → RuntimeArray × Bool
unfolding store write
set_element a none value = (a, false)
set_element a (some index) value =
    if leb a.length_ index || is_null a.data_ptr
    then (a, false)
    else write_slot index (store a.element_type value) a

-- The growth that `plat_array_append` and `plat_array_insert_at` begin with.
abbrev pub grown_capacity : ℕ → ℕ
grown_capacity capacity = if capacity == 0 then 4 else capacity * 2

unfoldable pub grow : RuntimeArray → RuntimeArray
unfolding alloc copy_to
grow a =
    if leb a.capacity a.length_
    then (let new_data = alloc (grown_capacity a.capacity) in
        record a {
          data_ptr = some (
              if ltb 0 a.length_ && not (is_null a.data_ptr)
              then copy_to (slots_of a.data_ptr) a.length_ new_data
              else new_data);
          capacity = grown_capacity a.capacity;
        })
    else a

abbrev pub append_slot : Option ℕ → RuntimeArray → RuntimeArray × Bool
append_slot none a = (a, false)
append_slot (some x) a = (
  record a { data_ptr = some (write a.length_ x (slots_of a.data_ptr)); length_ = suc a.length_ },
  true,
)

-- `plat_array_append`, not at null
unfoldable pub append : RuntimeArray → ℕ → RuntimeArray × Bool
unfolding grow store write
append a value = append_slot (store a.element_type value) (grow a)

-- `1i64 << 32`, which stands for `Option::None`
abbrev pub pop_none : ℕ
pop_none = 2 ^ 32

abbrev pub pop_value : Option ℕ → RuntimeArray → RuntimeArray × ℕ
pop_value none a = (a, pop_none)
pop_value (some v) a = (record a { length_ = a.length_ - 1 }, v)

-- `plat_array_pop`, not at null
unfoldable pub pop : RuntimeArray → RuntimeArray × ℕ
unfolding load
pop a = if a.length_ == 0 then (a, pop_none) else pop_value (element a (a.length_ - 1)) a

-- The move of the slots from `index` on, and the write into the free one.
abbrev pub insert_slot : ℕ → Option ℕ → RuntimeArray → RuntimeArray × Bool
insert_slot index none a = (a, false)
insert_slot index (some x) a = (
  record a {
    data_ptr =
        some
          (write index x (copy_within index (suc index) (a.length_ - index) (slots_of a.data_ptr)));
    length_ = suc a.length_;
  },
  true,
)

-- `plat_array_insert_at`, not at null. At the end no slot moves, as in the source.
unfoldable pub insert_at : RuntimeArray → Option ℕ → ℕ → RuntimeArray × Bool
unfolding grow store copy_within write
insert_at a none value = (a, false)
insert_at a (some index) value =
    if ltb a.length_ index
    then (a, false)
    else insert_slot index (store a.element_type value) (grow a)

abbrev pub remove_slot : ℕ → Option ℕ → RuntimeArray → RuntimeArray × Bool × ℕ
remove_slot index none a = (a, false, 0)
remove_slot index (some v) a = (
  record a {
    data_ptr = some (copy_within (suc index) index (a.length_ - index - 1) (slots_of a.data_ptr));
    length_ = a.length_ - 1;
  },
  true,
  v,
)

-- `plat_array_remove_at`, not at null
unfoldable pub remove_at : RuntimeArray → Option ℕ → RuntimeArray × Bool × ℕ
unfolding load copy_within
remove_at a none = (a, false, 0)
remove_at a (some index) =
    if leb a.length_ index || is_null a.data_ptr
    then (a, false, 0)
    else remove_slot index (element a index) a

-- `plat_array_clear`, not at null
unfoldable pub clear : RuntimeArray → RuntimeArray
clear a = record a { length_ = 0 }
