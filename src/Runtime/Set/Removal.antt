-- ===== src/Runtime/Set/Removal.antt =====
-- What `plat_set_remove` of crates/plat-runtime/src/ffi/set.rs does to membership.
use plat.Base.{
  ℕ, suc, ◌+◌, ◌-◌, ◌<◌, ◌≡◌, refl, ap, sym, ◌∙◌, subst, Bool, true, false, not, ◌&&◌, ◌||◌, List,
  [], ◌∷◌, ◌++◌, Option, none, some, if_intro, Bool-cases, inl, inr, arith, length, length-append,
}
use plat.Runtime.Shift.{length-shift_down, take-shift_cut}
use plat.Runtime.Set.{
  Entry, RuntimeSet, same, member, slots_of, view, plat_set_contains, find_from, removed, remove,
}
use plat.Runtime.Set.Entries.{same_refl, same-eq, same_comm, member-append, Distinct}
use plat.Runtime.Set.Laws.{IsValid, Represents, represents, length-view}

-- What the search finds.
data IsFound (e : Entry) (i : ℕ) (xs : List Entry) : Option ℕ → Type 0 where
  found :
      {k : ℕ} (before after : List Entry)
      → xs ≡ before ++ e ∷ after
      → k ≡ i + length before
      → IsFound e i xs (some k)
  missing : member e xs ≡ false → IsFound e i xs none

found_later :
    {e : Entry} {i : ℕ} {xs : List Entry} {o : Option ℕ} (x : Entry)
    → same x e ≡ false
    → IsFound e (suc i) xs o
    → IsFound e i (x ∷ xs) o
unfolding member
found_later x d (found before after h k) =
    found (x ∷ before) after (ap (λ t. x ∷ t) h) (omega arith)
found_later x d (missing h) = missing (rw d h)

find_from-IsFound : (e : Entry) (i : ℕ) (xs : List Entry) → IsFound e i xs (find_from e i xs)
unfolding find_from member
find_from-IsFound e i [] = missing refl
find_from-IsFound e i (x ∷ xs) =
    if_intro (IsFound e i (x ∷ xs)) (same x e)
      (λ s. found [] xs (ap (λ t. t ∷ xs) (same-eq x e s)) (omega arith))
      (λ d. found_later x d (find_from-IsFound e (suc i) xs))

-- The entries without the one found.
view-removed :
    (s : RuntimeSet) (e : Entry) (k : ℕ) (before after : List Entry)
    → IsValid s
    → view s ≡ before ++ e ∷ after
    → k ≡ length before
    → view (removed s (some k)).0 ≡ before ++ after
view-removed s e k before after (d, fits, room) h i =
    take-shift_cut s.length_ k (slots_of s.values) before after e (omega arith) h i

or_parts : (a b c : Bool) → (a || (b || c)) ≡ false → ((a || c) ≡ false) × (b ≡ false)
or_parts a b c h = ground arith

split_lem :
    (e x : Entry) (before after : List Entry)
    → member x (before ++ e ∷ after) ≡ false
    → (member x (before ++ after) ≡ false) × (same x e ≡ false)
unfolding member
split_lem e x before after h =
    let (p, q) =
      or_parts (member x before) (same e x) (member x after)
        (sym (member-append x before (e ∷ after)) ∙ h) in
    (member-append x before after ∙ p, same_comm x e ∙ q)

-- What is left of distinct entries is distinct, and the one taken out is not a member of it.
Distinct-cut :
    (e : Entry) (before after : List Entry)
    → Distinct (before ++ e ∷ after)
    → Distinct (before ++ after) × (member e (before ++ after) ≡ false)
unfolding member
Distinct-cut e [] after (h, d) = (d, h)
Distinct-cut e (x ∷ before) after (h, d) =
    let (d', out) = Distinct-cut e before after d in
    let parts = split_lem e x before after h in ((parts.0, d'), rw (parts.1) out)

or_true : (a b : Bool) → b ≡ true → (a || b) ≡ true
or_true a b h = ground arith

member-here : (e : Entry) (before after : List Entry) → member e (before ++ e ∷ after) ≡ true
unfolding member
member-here e [] after = rw (same_refl e) refl
member-here e (x ∷ before) after =
    or_true (same x e) (member e (before ++ e ∷ after)) (member-here e before after)

-- The members of what is left.
member-cut :
    (e y : Entry) (before after : List Entry)
    → member e (before ++ after) ≡ false
    → member y (before ++ after) ≡ (not (same e y) && member y (before ++ e ∷ after))
unfolding member
member-cut e y before after out = elim (Bool-cases (same e y)) [
  | inl s ↦ rw s (subst (λ z. member z (before ++ after) ≡ false) (same-eq e y s) out)
  | inr d ↦ rw d (
      member-append y before after
      ∙ sym (
          member-append y before (e ∷ after)
          ∙ ap (λ b. member y before || (b || member y after)) d))
]

removed-IsValid :
    (s : RuntimeSet) (k : ℕ)
    → IsValid s
    → k < s.length_
    → Distinct (view (removed s (some k)).0)
    → IsValid (removed s (some k)).0
removed-IsValid s k (d, h, room) lt d' = (
  d',
  omega arith,
  omega (arith, length-shift_down k (s.length_ - 1 - k) (slots_of s.values) (omega arith)),
)

outside_lem :
    (e y : Entry) (xs : List Entry)
    → member e xs ≡ false
    → member y xs ≡ (not (same e y) && member y xs)
outside_lem e y xs h = elim (Bool-cases (same e y)) [
  | inl s ↦ rw s (subst (λ z. member z xs ≡ false) (same-eq e y s) h)
  | inr d ↦ rw d refl
]

removed_lem :
    (s : RuntimeSet) (e : Entry) (o : Option ℕ)
    → IsValid s
    → IsFound e 0 (view s) o
    → Represents (λ y. not (same e y) && plat_set_contains (some s) y) (some (removed s o).0)
      × ((removed s o).1 ≡ plat_set_contains (some s) e)
unfolding plat_set_contains member
removed_lem s e (some k) v (found before after h i) =
    let (d, fits, room) = v in
    let rest = view-removed s e k before after v h (omega arith) in
    let (d', out) = Distinct-cut e before after (subst (λ xs. Distinct xs) h d) in
    let lt : k < s.length_ =
      omega (arith, length-view s v, ap (λ t. length t) h, length-append before (e ∷ after)) in
    (
      represents (removed-IsValid s k v lt (subst (λ xs. Distinct xs) (sym rest) d')) (λ y.
          ap (λ xs. member y xs) rest
          ∙ member-cut e y before after out
          ∙ ap (λ xs. not (same e y) && member y xs) (sym h)),
      sym (ap (λ xs. member e xs) h ∙ member-here e before after),
    )
removed_lem s e none v (missing h) = (represents v (λ y. outside_lem e y (view s) h), sym h)

-- `plat_set_remove` of a valid set leaves a valid set whose members are the old ones but for the entry,
-- and says whether the entry was a member.
pub remove-Represents :
    (s : RuntimeSet) (e : Entry)
    → IsValid s
    → Represents (λ y. not (same e y) && plat_set_contains (some s) y) (some (remove s e).0)
      × ((remove s e).1 ≡ plat_set_contains (some s) e)
unfolding remove plat_set_contains
remove-Represents s e v =
    removed_lem s e (find_from e 0 (view s)) v (find_from-IsFound e 0 (view s))
