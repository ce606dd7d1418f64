-- ===== src/Runtime/Set/Operators.antt =====
-- What the operations of crates/plat-runtime/src/ffi/set.rs on two sets do to membership.
use plat.Base.{
  ◌≡◌, refl, ap, sym, ◌∙◌, subst, Bool, true, false, not, ◌&&◌, ◌||◌, List, [], ◌∷◌, Option, some,
  if_intro, Bool-cases, and_true, inl, inr, arith, length, Bool, ◌↔◌,
}
use plat.Runtime.Set.{
  Entry, RuntimeSet, same, member, view, add_new, plat_set_create, plat_set_contains,
}
use plat.Runtime.Set.Entries.{same_refl, same-eq, member-add_new}
use plat.Runtime.Set.Laws.{Represents, represents, take-all, plat_set_create-Represents}
use plat.Runtime.Set.Algebra.{
  from_entries, selected, every, plat_set_union, plat_set_intersection, plat_set_difference,
  plat_set_is_subset_of, plat_set_is_disjoint_from,
}

Represents-cong :
    {p q : Entry → Bool} {o : Option RuntimeSet}
    → ((e : Entry) → p e ≡ q e)
    → Represents p o
    → Represents q o
Represents-cong h (represents v k) = represents v (λ e. k e ∙ h e)

from_entries-Represents : (es : List Entry) → Represents (λ e. member e es) (from_entries es)
unfolding from_entries plat_set_create plat_set_contains member
from_entries-Represents [] = represents (tt, omega arith, omega arith) (λ e. refl)
from_entries-Represents (e ∷ es) =
    Represents-cong (λ x. ap (λ t. member x t) (take-all (length (e ∷ es)) (e ∷ es) refl))
      (plat_set_create-Represents (length (e ∷ es)) (e ∷ es) (omega arith))

-- `plat_set_union` of two sets makes a valid set whose members are those of either.
pub union-Represents :
    (s t : RuntimeSet)
    → Represents
        (λ e. plat_set_contains (some s) e || plat_set_contains (some t) e)
        (plat_set_union (some s) (some t))
unfolding plat_set_union plat_set_contains
union-Represents s t =
    Represents-cong (λ e. member-add_new e (view s) (view t))
      (from_entries-Represents (add_new (view s) (view t)))

and_false : (a : Bool) → (a && false) ≡ false
and_false true = refl
and_false false = refl

member-selected :
    (p : Entry → Bool) (e : Entry) (es : List Entry)
    → member e (selected p es) ≡ (member e es && p e)
unfolding member
member-selected p e [] = refl
member-selected p e (x ∷ es) =
    let rest = member-selected p e es in
    if_intro (λ kept. member e kept ≡ ((same x e || member e es) && p e)) (p x)
      (λ passes. elim (Bool-cases (same x e)) [
        | inl s ↦ rw s (sym (sym (ap p (same-eq x e s)) ∙ passes))
        | inr d ↦ rw d rest
      ])
      (λ fails. elim (Bool-cases (same x e)) [
        | inl s ↦
            let out : p e ≡ false = sym (ap p (same-eq x e s)) ∙ fails in
            rw s (rest ∙ ap (λ b. member e es && b) out ∙ and_false (member e es) ∙ sym out)
        | inr d ↦ rw d rest
      ])

-- `plat_set_intersection` of two sets makes a valid set whose members are those of both.
pub intersection-Represents :
    (s t : RuntimeSet)
    → Represents
        (λ e. plat_set_contains (some s) e && plat_set_contains (some t) e)
        (plat_set_intersection (some s) (some t))
unfolding plat_set_intersection plat_set_contains
intersection-Represents s t =
    Represents-cong (λ e. member-selected (λ x. member x (view t)) e (view s))
      (from_entries-Represents (selected (λ x. member x (view t)) (view s)))

-- `plat_set_difference` of two sets makes a valid set whose members are those of the first that the
-- second has not.
pub difference-Represents :
    (s t : RuntimeSet)
    → Represents
        (λ e. plat_set_contains (some s) e && not (plat_set_contains (some t) e))
        (plat_set_difference (some s) (some t))
unfolding plat_set_difference plat_set_contains
difference-Represents s t =
    Represents-cong (λ e. member-selected (λ x. not (member x (view t))) e (view s))
      (from_entries-Represents (selected (λ x. not (member x (view t))) (view s)))

or_true : (a : Bool) → (a || true) ≡ true
or_true true = refl
or_true false = refl

every-member :
    (p : Entry → Bool) (es : List Entry) (e : Entry)
    → every p es ≡ true
    → member e es ≡ true
    → p e ≡ true
unfolding member
every-member p [] e h k = cc
every-member p (x ∷ es) e h k = elim (Bool-cases (same x e)) [
  | inl s ↦ sym (ap p (same-eq x e s)) ∙ (and_true h).0
  | inr d ↦ every-member p es e ((and_true h).1) (subst (λ b. (b || member e es) ≡ true) d k)
]

member-every :
    (p : Entry → Bool) (es : List Entry)
    → ((e : Entry) → member e es ≡ true → p e ≡ true)
    → every p es ≡ true
unfolding member
member-every p [] h = refl
member-every p (x ∷ es) h =
    let first : p x ≡ true = h x (ap (λ b. b || member x es) (same_refl x)) in
    let rest : every p es ≡ true =
      member-every p es (λ e k. h e (ap (λ b. same x e || b) k ∙ or_true (same x e))) in
    rw first rest

-- `plat_set_is_subset_of` says of every two sets whether the members of the first are members of the
-- second.
pub subset_iff :
    (s t : RuntimeSet)
    → (plat_set_is_subset_of (some s) (some t) ≡ true)
      ↔ ((e : Entry) → plat_set_contains (some s) e ≡ true → plat_set_contains (some t) e ≡ true)
unfolding plat_set_is_subset_of plat_set_contains
subset_iff s t = (
  λ h e k. every-member (λ x. member x (view t)) (view s) e h k,
  λ h. member-every (λ x. member x (view t)) (view s) h,
)

false_of_not : (b : Bool) → not b ≡ true → b ≡ false
false_of_not b h = ground arith

not_of_false : (b : Bool) → b ≡ false → not b ≡ true
not_of_false b h = ground arith

-- `plat_set_is_disjoint_from` says of every two sets whether no member of the first is a member of the
-- second.
pub disjoint_iff :
    (s t : RuntimeSet)
    → (plat_set_is_disjoint_from (some s) (some t) ≡ true)
      ↔ ((e : Entry) → plat_set_contains (some s) e ≡ true → plat_set_contains (some t) e ≡ false)
unfolding plat_set_is_disjoint_from plat_set_contains
disjoint_iff s t = (
  λ h e k.
      false_of_not (member e (view t)) (every-member (λ x. not (member x (view t))) (view s) e h k),
  λ h.
      member-every (λ x. not (member x (view t))) (view s)
        (λ e k. not_of_false (member e (view t)) (h e k)),
)
