-- ===== src/Runtime/Dict/Exports.antt =====
-- The functions that crates/plat-runtime/src/ffi/dict.rs exports for changing a dict: each begins with a
-- test for null pointers.
use plat.Base.{ℕ, Option, none, some, Text}
use plat.Runtime.Dict.{RuntimeDict, view, set, remove, clear, merge}

-- The result is 1 where the dict was changed.
unfoldable pub plat_dict_set : Option RuntimeDict → Option Text → ℕ → ℕ → Option RuntimeDict × ℕ
unfolding set
plat_dict_set none key v t = (none, 0)
plat_dict_set (some d) none v t = (some d, 0)
plat_dict_set (some d) (some k) v t = (some (set d k v t), 1)

abbrev kept : RuntimeDict × ℕ → Option RuntimeDict × ℕ
kept (d, v) = (some d, v)

unfoldable pub plat_dict_remove : Option RuntimeDict → Option Text → Option RuntimeDict × ℕ
unfolding remove
plat_dict_remove none key = (none, 0)
plat_dict_remove (some d) none = (some d, 0)
plat_dict_remove (some d) (some k) = kept (remove d k)

unfoldable pub plat_dict_clear : Option RuntimeDict → Option RuntimeDict
unfolding clear
plat_dict_clear none = none
plat_dict_clear (some d) = some (clear d)

unfoldable pub plat_dict_merge : Option RuntimeDict → Option RuntimeDict → Option RuntimeDict
unfolding merge
plat_dict_merge none other = none
plat_dict_merge (some d) none = some d
plat_dict_merge (some d) (some other) = some (merge d (view other))
