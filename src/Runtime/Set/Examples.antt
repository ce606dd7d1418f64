-- ===== src/Runtime/Set/Examples.antt =====
-- The theorems on sets at sets of two entries.
use plat.Base.{[], ◌∷◌, some, true, false, not, ◌&&◌, ◌||◌, ◌≡◌, ◌↔◌, refl, arith}
use plat.Runtime.Set.{
  RuntimeSet, Entry, same, member, add, remove, plat_set_create, plat_set_contains,
}
use plat.Runtime.Set.Laws.{IsValid, Represents, plat_set_create-Represents, add-Represents}
use plat.Runtime.Set.Removal.{remove-Represents}
use plat.Runtime.Set.Algebra.{
  plat_set_union, plat_set_intersection, plat_set_difference, plat_set_is_subset_of,
  plat_set_is_disjoint_from,
}
use plat.Runtime.Set.Operators.{
  union-Represents, intersection-Represents, difference-Represents, subset_iff, disjoint_iff,
}

abbrev small : RuntimeSet
small = record { values = some ((1, 0) ∷ (2, 0) ∷ []); length_ = 2; capacity = 2 }

abbrev other : RuntimeSet
other = record { values = some ((2, 0) ∷ (2, 1) ∷ []); length_ = 2; capacity = 2 }

small-IsValid : IsValid small
unfolding member
small-IsValid = ((refl, (refl, tt)), omega arith, omega arith)

plat_set_create-Represents_example :
    Represents
      (λ e. member e ((1, 0) ∷ (2, 0) ∷ (1, 0) ∷ []))
      (plat_set_create (some ((1, 0) ∷ (2, 0) ∷ (1, 0) ∷ [])) 3)
plat_set_create-Represents_example =
    plat_set_create-Represents 3 ((1, 0) ∷ (2, 0) ∷ (1, 0) ∷ []) (omega arith)

add-Represents_example :
    Represents (λ x. same (3, 0) x || plat_set_contains (some small) x) (some (add small (3, 0)).0)
    × ((add small (3, 0)).1 ≡ not (plat_set_contains (some small) (3, 0)))
add-Represents_example = add-Represents small (3, 0) small-IsValid

remove-Represents_example :
    Represents
      (λ y. not (same (1, 0) y) && plat_set_contains (some small) y)
      (some (remove small (1, 0)).0)
    × ((remove small (1, 0)).1 ≡ plat_set_contains (some small) (1, 0))
remove-Represents_example = remove-Represents small (1, 0) small-IsValid

union-Represents_example :
    Represents
      (λ e. plat_set_contains (some small) e || plat_set_contains (some other) e)
      (plat_set_union (some small) (some other))
union-Represents_example = union-Represents small other

intersection-Represents_example :
    Represents
      (λ e. plat_set_contains (some small) e && plat_set_contains (some other) e)
      (plat_set_intersection (some small) (some other))
intersection-Represents_example = intersection-Represents small other

difference-Represents_example :
    Represents
      (λ e. plat_set_contains (some small) e && not (plat_set_contains (some other) e))
      (plat_set_difference (some small) (some other))
difference-Represents_example = difference-Represents small other

subset_iff_example : (plat_set_is_subset_of (some small) (some other) ≡ true) ↔ (
    (e : Entry) → plat_set_contains (some small) e ≡ true → plat_set_contains (some other) e ≡ true)
subset_iff_example = subset_iff small other

disjoint_iff_example : (plat_set_is_disjoint_from (some small) (some other) ≡ true) ↔ (
    (e : Entry)
    → plat_set_contains (some small) e ≡ true
    → plat_set_contains (some other) e ≡ false)
disjoint_iff_example = disjoint_iff small other
