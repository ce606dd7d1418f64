-- ===== src/Runtime/Set/Exports.antt =====
-- The functions that crates/plat-runtime/src/ffi/set.rs exports for changing a set: each begins with a
-- test for a null pointer.
use plat.Base.{Bool, false, Option, none, some}
use plat.Runtime.Set.{RuntimeSet, Entry, add, remove, clear}

abbrev kept : RuntimeSet × Bool → Option RuntimeSet × Bool
kept (s, b) = (some s, b)

unfoldable pub plat_set_add : Option RuntimeSet → Entry → Option RuntimeSet × Bool
unfolding add
plat_set_add none e = (none, false)
plat_set_add (some s) e = kept (add s e)

unfoldable pub plat_set_remove : Option RuntimeSet → Entry → Option RuntimeSet × Bool
unfolding remove
plat_set_remove none e = (none, false)
plat_set_remove (some s) e = kept (remove s e)

unfoldable pub plat_set_clear : Option RuntimeSet → Option RuntimeSet
unfolding clear
plat_set_clear none = none
plat_set_clear (some s) = some (clear s)
