-- ===== src/Runtime/Set.antt =====
-- crates/plat-runtime/src/ffi/set.rs. The two buffers of a set, of values and of their types, are
-- allocated together, have one size and are read and written at the same index: they are one buffer of
-- entries here. A null pointer is `none`; a value is the bit pattern of an i64.
pub mod Entries
pub mod Laws
pub mod Removal
pub mod Algebra
pub mod Operators
pub mod Exports
mod Examples
use plat.Base.{
  ℕ, zero, suc, ◌+◌, ◌-◌, ◌*◌, ◌%◌, ◌^◌, Bool, true, false, not, ◌&&◌, ◌||◌, List, [], ◌∷◌, ◌++◌,
  Option, none, some, ltb, ◌==◌, if◌then◌else◌, length, take, replicate, any,
}
use plat.Runtime.Shift.{shift_down}
use plat.Runtime.Buffer.{copy_to, copy_within, write}

-- A value with its `SET_VALUE_TYPE_..`
abbrev pub Entry : Type 0
Entry = ℕ × ℕ

pub record RuntimeSet : Type 0 where
  pub values : Option (List Entry)
  pub length_ : ℕ
  pub capacity : ℕ

-- `*existing_value == value && *existing_type == value_type`
abbrev pub same : Entry → Entry → Bool
same (v, t) (w, u) = (v == w) && (t == u)

unfoldable pub member : Entry → List Entry → Bool
member e xs = any (λ x. same x e) xs

abbrev pub slots_of : Option (List Entry) → List Entry
slots_of none = []
slots_of (some xs) = xs

-- The entries in use.
abbrev pub view : RuntimeSet → List Entry
view s = take s.length_ (slots_of s.values)

-- `plat_gc_alloc` zeroes what it returns.
unfoldable pub alloc : ℕ → List Entry
alloc n = replicate n (0, 0)

-- The loops that collect in `unique_values` the entries that are not there already.
unfoldable pub add_new : List Entry → List Entry → List Entry
unfolding member
add_new acc [] = acc
add_new acc (e ∷ es) = add_new (if member e acc then acc else acc ++ e ∷ []) es

abbrev pub created : ℕ → List Entry → RuntimeSet
created count unique = record {
  values = some (copy_to unique (length unique) (alloc count));
  length_ = length unique;
  capacity = length unique;
}

abbrev pub empty_set : RuntimeSet
empty_set = record { values = none; length_ = 0; capacity = 0 }

unfoldable pub plat_set_create : Option (List Entry) → ℕ → Option RuntimeSet
unfolding add_new alloc copy_to
plat_set_create none count = if ltb 0 count then none else some empty_set
plat_set_create (some es) count =
    some (if ltb 0 count then created count (add_new [] (take count es)) else empty_set)

unfoldable pub plat_set_contains : Option RuntimeSet → Entry → Bool
unfolding member
plat_set_contains none e = false
plat_set_contains (some s) e = member e (view s)

abbrev pub plat_set_len : Option RuntimeSet → ℕ
plat_set_len none = 0
plat_set_len (some s) = s.length_

-- The length `as i32`, as its bit pattern
unfoldable pub plat_set_length : Option RuntimeSet → ℕ
plat_set_length s = plat_set_len s % 2 ^ 32

abbrev pub is_null {ℓ} : {A : Type ℓ} → Option A → Bool
is_null none = true
is_null (some x) = false

abbrev pub grown_capacity : ℕ → ℕ
grown_capacity capacity = if capacity == 0 then 1 else capacity * 2

-- The buffers of `plat_set_add`, which it allocates on every call, full or not.
unfoldable pub expand : RuntimeSet → List Entry
unfolding alloc copy_to
expand s =
    let new_values = alloc (grown_capacity s.capacity) in
    if ltb 0 s.length_ && not (is_null s.values)
    then copy_to (slots_of s.values) s.length_ new_values
    else new_values

abbrev pub added : RuntimeSet → Entry → RuntimeSet
added s e = record {
  values = some (write s.length_ e (expand s));
  length_ = suc s.length_;
  capacity = grown_capacity s.capacity;
}

-- `plat_set_add`, not at null
unfoldable pub add : RuntimeSet → Entry → RuntimeSet × Bool
unfolding plat_set_contains expand write
add s e = if plat_set_contains (some s) e then (s, false) else (added s e, true)

-- The index of the first entry that is equal to `e`.
unfoldable pub find_from : Entry → ℕ → List Entry → Option ℕ
find_from e i [] = none
find_from e i (x ∷ xs) = let rest = find_from e (suc i) xs in if same x e then some i else rest

abbrev pub removed : RuntimeSet → Option ℕ → RuntimeSet × Bool
removed s none = (s, false)
removed s (some i) = (
  record s {
    values = some (shift_down i (s.length_ - 1 - i) (slots_of s.values));
    length_ = s.length_ - 1;
  },
  true,
)

-- `plat_set_remove`, not at null
unfoldable pub remove : RuntimeSet → Entry → RuntimeSet × Bool
unfolding find_from shift_down
remove s e = removed s (find_from e 0 (view s))

-- `plat_set_clear`, not at null
unfoldable pub clear : RuntimeSet → RuntimeSet
clear s = record s { length_ = 0 }
