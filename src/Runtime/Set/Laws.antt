-- ===== src/Runtime/Set/Laws.antt =====
-- What `plat_set_create` and `plat_set_add` of crates/plat-runtime/src/ffi/set.rs do to membership.
use plat.Base.{
  ℕ, zero, suc, ◌≤◌, ◌<◌, ◌≡◌, refl, ap, sym, ◌∙◌, subst, Bool, true, false, not, ◌&&◌, ◌||◌, List,
  [], ◌∷◌, ◌++◌, Option, none, some, ltb, if_intro, Bool-cases, inl, inr, arith, length, take,
}
use plat.Runtime.Buffer.{
  take-copy_to, length-copy_to, length-replicate, length-take_le, length-write, take-write_end,
}
use plat.Runtime.Set.{
  Entry, RuntimeSet, same, member, slots_of, view, alloc, add_new, created, is_null,
  plat_set_create, plat_set_contains, expand, added, add, grown_capacity,
}
use plat.Runtime.Set.Entries.{
  same-eq, member-append, member-add_new, Distinct, Distinct-push, Distinct-add_new, length-add_new,
}

-- No entry stands twice, and the entries in use fit the buffers.
abbrev pub IsValid : RuntimeSet → Type 0
IsValid s = Distinct (view s) × (s.length_ ≤ s.capacity) × (s.capacity ≤ length (slots_of s.values))

-- The result is a set, not null, that is valid and has the members that `p` says.
pub data Represents (p : Entry → Bool) : Option RuntimeSet → Type 0 where
  represents :
      {s : RuntimeSet}
      → IsValid s
      → ((e : Entry) → plat_set_contains (some s) e ≡ p e)
      → Represents p (some s)

pub length-view : (s : RuntimeSet) → IsValid s → length (view s) ≡ s.length_
length-view s (d, h, k) = length-take_le s.length_ (slots_of s.values) (omega arith)

pub take-all : (n : ℕ) (xs : List Entry) → length xs ≡ n → take n xs ≡ xs
take-all zero [] h = refl
take-all (suc n) [] h = refl
take-all zero (x ∷ xs) h = absurd (omega arith)
take-all (suc n) (x ∷ xs) h = ap (λ t. x ∷ t) (take-all n xs (omega arith))

pub view-created : (count : ℕ) (es : List Entry) → view (created count es) ≡ es
view-created count es =
    take-copy_to es (length es) (alloc count) (omega arith) ∙ take-all (length es) es refl

created-IsValid :
    (count : ℕ) (es : List Entry) → Distinct es → length es ≤ count → IsValid (created count es)
unfolding alloc
created-IsValid count es d h =
    let size : length (alloc count) ≡ count = length-replicate count (0, 0) in
    (
      subst (λ xs. Distinct xs) (sym (view-created count es)) d,
      omega arith,
      omega (arith, length-copy_to es (length es) (alloc count) (omega arith) (omega arith)),
    )

-- `plat_set_create` of entries that are there makes a valid set: without repetitions, and with just
-- the given entries as its members.
pub plat_set_create-Represents :
    (count : ℕ) (es : List Entry)
    → count ≤ length es
    → Represents (λ e. member e (take count es)) (plat_set_create (some es) count)
unfolding plat_set_create plat_set_contains add_new member
plat_set_create-Represents zero es h = represents (tt, omega arith, omega arith) (λ e. refl)
plat_set_create-Represents (suc n) es h =
    let given = take (suc n) es in
    let fits : length (add_new [] given) ≤ suc n =
      omega (arith, length-add_new [] given, length-take_le (suc n) es h) in
    if_intro (λ s. Represents (λ e. member e given) (some s)) (ltb 0 (suc n))
      (λ used.
        represents (created-IsValid (suc n) (add_new [] given) (Distinct-add_new [] given tt) fits)
          (λ e.
            ap (λ xs. member e xs) (view-created (suc n) (add_new [] given))
            ∙ member-add_new e [] given))
      (λ unused. absurd (ground arith))

-- The test before the copy fails only where there is nothing to copy.
unused_lem :
    (n : ℕ) (d : Option (List Entry))
    → n ≤ length (slots_of d)
    → (ltb 0 n && not (is_null d)) ≡ false
    → n ≡ 0
unused_lem n none h e = omega arith
unused_lem n (some xs) h e = ground arith

take-zero : (n : ℕ) (xs ys : List Entry) → n ≡ 0 → take n xs ≡ take n ys
take-zero zero xs ys h = refl
take-zero (suc n) xs ys h = absurd (omega arith)

room : (n l : ℕ) → l ≤ n → l < grown_capacity n
room n l h = ground arith

expand_lem :
    (s : RuntimeSet)
    → IsValid s
    → (length (expand s) ≡ grown_capacity s.capacity) × (take s.length_ (expand s) ≡ view s)
unfolding expand alloc
expand_lem s (d, h, k) =
    let new_values = alloc (grown_capacity s.capacity) in
    let size : length (alloc (grown_capacity s.capacity)) ≡ grown_capacity s.capacity =
      length-replicate (grown_capacity s.capacity) (0, 0) in
    let more : s.length_ < grown_capacity s.capacity = room s.capacity s.length_ h in
    if_intro (λ xs. (length xs ≡ grown_capacity s.capacity) × (take s.length_ xs ≡ view s))
      (ltb 0 s.length_ && not (is_null s.values))
      (λ used. (
        length-copy_to (slots_of s.values) s.length_ new_values (omega arith) (omega arith) ∙ size,
        take-copy_to (slots_of s.values) s.length_ new_values (omega arith),
      ))
      (λ unused. (
        size,
        take-zero s.length_ new_values (slots_of s.values)
            (unused_lem s.length_ s.values (omega arith) unused),
      ))

pub view-added : (s : RuntimeSet) (e : Entry) → IsValid s → view (added s e) ≡ view s ++ e ∷ []
view-added s e v =
    let (size, same_view) = expand_lem s v in
    let more : s.length_ < grown_capacity s.capacity = room s.capacity s.length_ v.1 in
    take-write_end s.length_ e (expand s) (omega arith) ∙ ap (λ t. t ++ e ∷ []) same_view

added-IsValid :
    (s : RuntimeSet) (e : Entry) → IsValid s → member e (view s) ≡ false → IsValid (added s e)
added-IsValid s e v new =
    let (size, same_view) = expand_lem s v in
    let more : s.length_ < grown_capacity s.capacity = room s.capacity s.length_ v.1 in
    (
      subst (λ xs. Distinct xs) (sym (view-added s e v)) (Distinct-push e (view s) v.0 new),
      omega arith,
      omega (arith, length-write s.length_ e (expand s)),
    )

absorb_lem :
    (e x : Entry) (xs : List Entry) → member e xs ≡ true → member x xs ≡ (same e x || member x xs)
absorb_lem e x xs h = elim (Bool-cases (same e x)) [
  | inl s ↦ let k : member x xs ≡ true = subst (λ y. member y xs ≡ true) (same-eq e x s) h in rw s k
  | inr d ↦ rw d refl
]

or_swap : (a b : Bool) → (a || (b || false)) ≡ (b || a)
or_swap true true = refl
or_swap true false = refl
or_swap false true = refl
or_swap false false = refl

pushed_lem : (e x : Entry) (xs : List Entry) → member x (xs ++ e ∷ []) ≡ (same e x || member x xs)
unfolding member
pushed_lem e x xs = member-append x xs (e ∷ []) ∙ or_swap (member x xs) (same e x)

-- `plat_set_add` of a valid set leaves a valid set with the entry and the old members as its members,
-- and says whether the entry was new.
pub add-Represents :
    (s : RuntimeSet) (e : Entry)
    → IsValid s
    → Represents (λ x. same e x || plat_set_contains (some s) x) (some (add s e).0)
      × ((add s e).1 ≡ not (plat_set_contains (some s) e))
unfolding add plat_set_contains
add-Represents s e v = elim (Bool-cases (member e (view s))) [
  | inl old ↦ rw old (represents v (λ x. absorb_lem e x (view s) old), refl)
  | inr new ↦ rw new (
    represents (added-IsValid s e v new)
        (λ x. ap (λ xs. member x xs) (view-added s e v) ∙ pushed_lem e x (view s)),
    refl,
  )
]
