-- ===== src/Runtime/Set/Algebra.antt =====
-- The operations of crates/plat-runtime/src/ffi/set.rs on two sets.
use plat.Base.{
  Bool, true, false, not, ◌&&◌, List, [], ◌∷◌, Option, none, some, if◌then◌else◌, length,
}
use plat.Runtime.Set.{Entry, RuntimeSet, view, add_new, plat_set_create, plat_set_contains}

-- A new set of the collected entries.
unfoldable pub from_entries : List Entry → Option RuntimeSet
unfolding plat_set_create
from_entries [] = plat_set_create none 0
from_entries (e ∷ es) = plat_set_create (some (e ∷ es)) (length (e ∷ es))

unfoldable pub plat_set_union : Option RuntimeSet → Option RuntimeSet → Option RuntimeSet
unfolding from_entries add_new
plat_set_union none t = none
plat_set_union (some s) none = none
plat_set_union (some s) (some t) = from_entries (add_new (view s) (view t))

-- The entries of the loop that pass its test.
abbrev pub selected : (Entry → Bool) → List Entry → List Entry
selected p [] = []
selected p (e ∷ es) = if p e then e ∷ selected p es else selected p es

unfoldable pub plat_set_intersection : Option RuntimeSet → Option RuntimeSet → Option RuntimeSet
unfolding from_entries plat_set_contains
plat_set_intersection none t = none
plat_set_intersection (some s) none = none
plat_set_intersection (some s) (some t) =
    from_entries (selected (λ e. plat_set_contains (some t) e) (view s))

unfoldable pub plat_set_difference : Option RuntimeSet → Option RuntimeSet → Option RuntimeSet
unfolding from_entries plat_set_contains
plat_set_difference none t = none
plat_set_difference (some s) none = none
plat_set_difference (some s) (some t) =
    from_entries (selected (λ e. not (plat_set_contains (some t) e)) (view s))

abbrev pub every : (Entry → Bool) → List Entry → Bool
every p [] = true
every p (e ∷ es) = p e && every p es

unfoldable pub plat_set_is_subset_of : Option RuntimeSet → Option RuntimeSet → Bool
unfolding plat_set_contains
plat_set_is_subset_of none t = false
plat_set_is_subset_of (some s) none = false
plat_set_is_subset_of (some s) (some t) = every (λ e. plat_set_contains (some t) e) (view s)

unfoldable pub plat_set_is_superset_of : Option RuntimeSet → Option RuntimeSet → Bool
unfolding plat_set_is_subset_of
plat_set_is_superset_of s t = plat_set_is_subset_of t s

unfoldable pub plat_set_is_disjoint_from : Option RuntimeSet → Option RuntimeSet → Bool
unfolding plat_set_contains
plat_set_is_disjoint_from none t = true
plat_set_is_disjoint_from (some s) none = true
plat_set_is_disjoint_from (some s) (some t) =
    every (λ e. not (plat_set_contains (some t) e)) (view s)
