-- ===== src/Runtime/Dict/Removal.antt =====
-- What `plat_dict_remove` of crates/plat-runtime/src/ffi/dict.rs does to the map from keys to values.
use plat.Base.{
  ℕ, suc, ◌-◌, ◌≤◌, ◌≡◌, refl, ap, sym, ◌∙◌, subst, true, Bool-cases, inl, inr, List, [], ◌∷◌, ◌++◌,
  Option, none, some, Text, text_eq, text_eq_iff, arith, if◌then◌else◌, length, length-append,
}
use plat.Runtime.Shift.{length-shift_down, take-shift_cut}
use plat.Runtime.Dict.{
  Entry, RuntimeDict, slots_of, view, matches, lookup, find_from, removed_at, remove, plat_dict_get,
}
use plat.Runtime.Dict.Lookup.{
  Distinct, IsFound, found, missing, find_from-IsFound, or_else, lookup-append, matches-true,
}
use plat.Runtime.Dict.Entries.{both_none, tail_none}
use plat.Runtime.Dict.Laws.{IsValid, Maps, length-view}

-- The map without a key.
abbrev pub without : Text → (Text → Option Entry) → Text → Option Entry
without k m j = if text_eq j k then none else m j

cut_none :
    (j : Text) (x : Entry) (before after : List Entry)
    → lookup j (before ++ x ∷ after) ≡ none
    → lookup j (before ++ after) ≡ none
cut_none j x before after h =
    let (p, q) =
      both_none (lookup j before) (lookup j (x ∷ after))
        (sym (lookup-append j before (x ∷ after)) ∙ h) in
    lookup-append j before after
    ∙ ap (λ o. or_else o (lookup j after)) p
    ∙ (tail_none j x after q).1

Distinct-cut :
    (x : Entry) (before after : List Entry)
    → Distinct (before ++ x ∷ after)
    → Distinct (before ++ after)
Distinct-cut x [] after (h, d) = d
Distinct-cut x (y ∷ before) after ((k, name, out), d) =
    ((k, name, cut_none k x before after out), Distinct-cut x before after d)

-- The key of an entry is not among those behind it.
unique_after :
    (k : Text) (x : Entry) (before after : List Entry)
    → Distinct (before ++ x ∷ after)
    → matches k x.key ≡ true
    → lookup k after ≡ none
unique_after k x [] after ((j, name, out), d) m =
    let same : k ≡ j = (text_eq_iff k j).0 (sym (ap (matches k) name) ∙ m) in
    ap (λ i. lookup i after) same ∙ out
unique_after k x (y ∷ before) after (h, d) m = unique_after k x before after d m

lookup-cut :
    (k j : Text) (x : Entry) (before after : List Entry)
    → x.key ≡ some k
    → lookup k before ≡ none
    → lookup k after ≡ none
    → lookup j (before ++ after) ≡ without k (λ i. lookup i (before ++ x ∷ after)) j
unfolding lookup
lookup-cut k j x before after key out out' = elim (Bool-cases (text_eq j k)) [
  | inl s ↦
      let same : j ≡ k = (text_eq_iff j k).0 s in
      rw s (
        lookup-append j before after
        ∙ ap (λ o. or_else o (lookup j after)) (ap (λ i. lookup i before) same ∙ out)
        ∙ ap (λ i. lookup i after) same
        ∙ out')
  | inr d ↦ rw d (
      lookup-append j before after
      ∙ sym (
          lookup-append j before (x ∷ after)
          ∙ ap (λ b. or_else (lookup j before) (if b then some x else lookup j after))
              (ap (matches j) key ∙ d)))
]

not_there :
    (k j : Text) (xs : List Entry)
    → lookup k xs ≡ none
    → lookup j xs ≡ without k (λ i. lookup i xs) j
not_there k j xs h = elim (Bool-cases (text_eq j k)) [
  | inl s ↦ rw s (ap (λ i. lookup i xs) ((text_eq_iff j k).0 s) ∙ h)
  | inr d ↦ rw d refl
]

removed_at-Maps :
    (d : RuntimeDict) (k : Text) (o : Option ℕ)
    → IsValid d
    → IsFound k 0 (view d) o
    → Maps (without k (λ j. lookup j (view d))) (removed_at d o)
removed_at-Maps d k none v (missing h) = (v, λ j. not_there k j (view d) h)
removed_at-Maps d k (some i) (p, h, c) (found before x after shape at_i m out) =
    let size : suc (length before) ≤ d.length_ = omega (
      arith,
      length-view d (p, h, c),
      ap (λ t. length t) shape,
      length-append before (x ∷ after),
    ) in
    let rest : view (removed_at d (some i)) ≡ before ++ after =
      take-shift_cut d.length_ i (slots_of d.entries) before after x (omega arith) shape
        (omega arith) in
    let old : Distinct (before ++ x ∷ after) = subst (λ xs. Distinct xs) shape p in
    (
      (
        subst (λ xs. Distinct xs) (sym rest) (Distinct-cut x before after old),
        omega arith,
        length-shift_down i (d.length_ - 1 - i) (slots_of d.entries) (omega arith) ∙ c,
      ),
      λ j.
          ap (lookup j) rest
          ∙ lookup-cut k j x before after (matches-true k x.key m) out
              (unique_after k x before after old m)
          ∙ ap (λ xs. without k (λ i. lookup i xs) j) (sym shape),
    )

-- `plat_dict_remove` of a valid dict leaves a valid dict in which the key has nothing and every other
-- key has what it had, and returns what `plat_dict_get` gave for the key before.
pub remove-Maps :
    (d : RuntimeDict) (k : Text)
    → IsValid d
    → Maps (without k (λ j. lookup j (view d))) (remove d k).0
      × ((remove d k).1 ≡ plat_dict_get (some d) (some k))
unfolding remove plat_dict_get
remove-Maps d k v =
    (removed_at-Maps d k (find_from k 0 (view d)) v (find_from-IsFound k 0 (view d)), refl)
