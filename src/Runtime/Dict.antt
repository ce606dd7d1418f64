-- ===== src/Runtime/Dict.antt =====
-- crates/plat-runtime/src/ffi/dict.rs. The three buffers of a dict are allocated together, have one
-- size and are read and written at the same index: they are one buffer of entries here. A key is text,
-- as a C string that is UTF-8; a null pointer is `none`.
pub mod Lookup
pub mod Entries
pub mod Laws
pub mod Removal
pub mod Merge
pub mod Exports
mod Examples
use plat.Base.{
  ℕ, zero, suc, ◌+◌, ◌-◌, ◌*◌, ◌%◌, ◌^◌, Bool, true, false, ◌&&◌, List, [], ◌∷◌, ◌++◌, Option, none,
  some, Text, text_eq, ltb, leb, ◌==◌, if◌then◌else◌, length, take, replicate, get_elem?,
}
use plat.Runtime.Shift.{shift_down}
use plat.Runtime.Buffer.{copy_to, write}
use plat.Runtime.Array.{RuntimeArray, string, i32}

pub record Entry : Type 0 where
  pub key : Option Text
  pub value : ℕ
  pub value_type : ℕ

pub record RuntimeDict : Type 0 where
  pub entries : Option (List Entry)
  pub length_ : ℕ
  pub capacity : ℕ

abbrev pub slots_of : Option (List Entry) → List Entry
slots_of none = []
slots_of (some xs) = xs

-- The entries in use.
abbrev pub view : RuntimeDict → List Entry
view d = take d.length_ (slots_of d.entries)

-- `plat_gc_alloc` zeroes what it returns: null pointers and zeros.
unfoldable pub alloc : ℕ → List Entry
alloc n = replicate n (record { key = none; value = 0; value_type = 0 })

-- A null key matches nothing.
abbrev pub matches : Text → Option Text → Bool
matches k none = false
matches k (some j) = text_eq k j

-- The first entry with the key.
unfoldable pub lookup : Text → List Entry → Option Entry
lookup k [] = none
lookup k (x ∷ xs) = let rest = lookup k xs in if matches k x.key then some x else rest

-- Its index.
unfoldable pub find_from : Text → ℕ → List Entry → Option ℕ
find_from k i [] = none
find_from k i (x ∷ xs) =
    let rest = find_from k (suc i) xs in if matches k x.key then some i else rest

abbrev pub copied : List Entry → ℕ → RuntimeDict
copied es count = record {
  entries = if ltb 0 count then some (copy_to es count (alloc count)) else none;
  length_ = count;
  capacity = count;
}

unfoldable pub plat_dict_create : Option (List Entry) → ℕ → Option RuntimeDict
unfolding alloc copy_to
plat_dict_create none count = if ltb 0 count then none else some (copied [] count)
plat_dict_create (some es) count = some (copied es count)

abbrev pub value_or : ℕ → Option Entry → ℕ
value_or default none = default
value_or default (some e) = e.value

unfoldable pub plat_dict_get_or : Option RuntimeDict → Option Text → ℕ → ℕ
unfolding lookup
plat_dict_get_or none key default = default
plat_dict_get_or (some d) none default = default
plat_dict_get_or (some d) (some k) default = value_or default (lookup k (view d))

unfoldable pub plat_dict_get : Option RuntimeDict → Option Text → ℕ
unfolding lookup
plat_dict_get none key = 0
plat_dict_get (some d) none = 0
plat_dict_get (some d) (some k) = value_or 0 (lookup k (view d))

-- The length `as i32`, as its bit pattern
unfoldable pub plat_dict_len : Option RuntimeDict → ℕ
plat_dict_len none = 0
plat_dict_len (some d) = d.length_ % 2 ^ 32

abbrev pub is_some {ℓ} : {A : Type ℓ} → Option A → Bool
is_some none = false
is_some (some a) = true

unfoldable pub plat_dict_has_key : Option RuntimeDict → Option Text → Bool
unfolding lookup
plat_dict_has_key none key = false
plat_dict_has_key (some d) none = false
plat_dict_has_key (some d) (some k) = is_some (lookup k (view d))

-- The entry that `plat_dict_set` writes: `value_type as u8`.
abbrev pub entry_of : Text → ℕ → ℕ → Entry
entry_of k v t = record { key = some k; value = v; value_type = t % 2 ^ 8 }

abbrev pub grown_capacity : ℕ → ℕ
grown_capacity capacity = if capacity == 0 then 8 else capacity * 2

-- The growth of `plat_dict_set`.
unfoldable pub grow : RuntimeDict → RuntimeDict
unfolding alloc copy_to
grow d =
    if leb d.capacity d.length_
    then (let new_entries = alloc (grown_capacity d.capacity) in
        record d {
          entries = some (
              if ltb 0 d.length_
              then copy_to (slots_of d.entries) d.length_ new_entries
              else new_entries);
          capacity = grown_capacity d.capacity;
        })
    else d

abbrev pub pushed : Entry → RuntimeDict → RuntimeDict
pushed e d = record d {
  entries = some (write d.length_ e (slots_of d.entries));
  length_ = suc d.length_;
}

-- The entry at an index keeps its key.
abbrev pub updated : ℕ → Entry → RuntimeDict → RuntimeDict
updated i e d = record d { entries = some (write i e (slots_of d.entries)) }

abbrev pub set_at : Option ℕ → Entry → RuntimeDict → RuntimeDict
set_at none e d = pushed e (grow d)
set_at (some i) e d = updated i e d

-- `plat_dict_set`, not at a null dict or key; it returns 1
unfoldable pub set : RuntimeDict → Text → ℕ → ℕ → RuntimeDict
unfolding find_from grow write
set d k v t = set_at (find_from k 0 (view d)) (entry_of k v t) d

abbrev pub removed_at : RuntimeDict → Option ℕ → RuntimeDict
removed_at d none = d
removed_at d (some i) = record d {
  entries = some (shift_down i (d.length_ - 1 - i) (slots_of d.entries));
  length_ = d.length_ - 1;
}

-- `plat_dict_remove`, not at a null dict or key
unfoldable pub remove : RuntimeDict → Text → RuntimeDict × ℕ
unfolding find_from lookup shift_down
remove d k = (removed_at d (find_from k 0 (view d)), value_or 0 (lookup k (view d)))

-- `plat_dict_clear`, not at null
unfoldable pub clear : RuntimeDict → RuntimeDict
clear d = record d { length_ = 0 }

unfoldable pub has_value_in : ℕ → ℕ → List Entry → Bool
has_value_in v t [] = false
has_value_in v t (x ∷ xs) =
    let rest = has_value_in v t xs in
    if (x.value_type == t % 2 ^ 8) && (x.value == v) then true else rest

unfoldable pub plat_dict_has_value : Option RuntimeDict → ℕ → ℕ → Bool
unfolding has_value_in
plat_dict_has_value none v t = false
plat_dict_has_value (some d) v t = has_value_in v t (view d)

-- The round of `plat_dict_merge` at one entry: one with a null key is left out.
abbrev pub merge_entry : Option Text → Entry → RuntimeDict → RuntimeDict
merge_entry none e d = d
merge_entry (some k) e d = set d k e.value e.value_type

-- The loop of `plat_dict_merge` over the entries of the other dict.
unfoldable pub merge : RuntimeDict → List Entry → RuntimeDict
unfolding set
merge d [] = d
merge d (e ∷ es) = merge (merge_entry e.key e d) es
