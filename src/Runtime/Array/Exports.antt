-- ===== src/Runtime/Array/Exports.antt =====
-- The functions that crates/plat-runtime/src/ffi/array.rs exports for changing an array: each begins
-- with a test for a null pointer. An i32 index that is negative is `none`.
use plat.Base.{ℕ, Bool, true, false, Option, none, some}
use plat.Runtime.Array.{
  RuntimeArray, append, pop, pop_none, insert_at, remove_at, set_element, clear,
}

-- What an operation leaves behind the pointer, with what it returns.
abbrev kept {ℓ} : {B : Type ℓ} → RuntimeArray × B → Option RuntimeArray × B
kept (a, b) = (some a, b)

abbrev kept_removed : RuntimeArray × Bool × ℕ → Option RuntimeArray × Bool × ℕ
kept_removed (a, b, v) = (some a, b, v)

unfoldable pub plat_array_set : Option RuntimeArray → Option ℕ → ℕ → Option RuntimeArray × Bool
unfolding set_element
plat_array_set none index value = (none, false)
plat_array_set (some a) index value = kept (set_element a index value)

unfoldable pub plat_array_append : Option RuntimeArray → ℕ → Option RuntimeArray × Bool
unfolding append
plat_array_append none value = (none, false)
plat_array_append (some a) value = kept (append a value)

unfoldable pub plat_array_pop : Option RuntimeArray → Option RuntimeArray × ℕ
unfolding pop
plat_array_pop none = (none, pop_none)
plat_array_pop (some a) = kept (pop a)

unfoldable pub plat_array_insert_at :
    Option RuntimeArray → Option ℕ → ℕ → Option RuntimeArray × Bool
unfolding insert_at
plat_array_insert_at none index value = (none, false)
plat_array_insert_at (some a) index value = kept (insert_at a index value)

unfoldable pub plat_array_remove_at :
    Option RuntimeArray → Option ℕ → Option RuntimeArray × Bool × ℕ
unfolding remove_at
plat_array_remove_at none index = (none, false, 0)
plat_array_remove_at (some a) index = kept_removed (remove_at a index)

unfoldable pub plat_array_clear : Option RuntimeArray → Option RuntimeArray × Bool
unfolding clear
plat_array_clear none = (none, false)
plat_array_clear (some a) = (some (clear a), true)
