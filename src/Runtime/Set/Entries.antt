-- ===== src/Runtime/Set/Entries.antt =====
-- Membership among the entries of a set: the linear searches of crates/plat-runtime/src/ffi/set.rs.
use plat.Base.{
  suc, ◌+◌, ◌≤◌, ◌≡◌, refl, ap, sym, ◌∙◌, subst, Bool, true, false, ◌||◌, List, [], ◌∷◌, ◌++◌,
  ==_iff, ==_refl, if_intro, Bool-cases, inl, inr, arith, length, length-append,
}
use plat.Runtime.Set.{Entry, same, member, add_new}

pub same_refl : (e : Entry) → same e e ≡ true
same_refl (v, t) = rw (==_refl v) (==_refl t)

pub same-eq : (a b : Entry) → same a b ≡ true → a ≡ b
same-eq (v, t) (w, u) h =
    let p : v ≡ w = ground (arith, ==_iff v w) in
    let q : t ≡ u = ground (arith, ==_iff t u) in rw p (rw q refl)

or_assoc : (a b c : Bool) → ((a || b) || c) ≡ (a || (b || c))
or_assoc true b c = refl
or_assoc false b c = refl

or_false : (a : Bool) → (a || false) ≡ a
or_false true = refl
or_false false = refl

pub member-append :
    (e : Entry) (xs ys : List Entry) → member e (xs ++ ys) ≡ (member e xs || member e ys)
unfolding member
member-append e [] ys = refl
member-append e (x ∷ xs) ys =
    ap (λ b. same x e || b) (member-append e xs ys)
    ∙ sym (or_assoc (same x e) (member e xs) (member e ys))

-- An entry that is a member already makes no difference.
absorbed :
    (e x : Entry) (acc : List Entry)
    → member x acc ≡ true
    → (member e acc || same x e) ≡ member e acc
unfolding member
absorbed e x acc h = elim (Bool-cases (same x e)) [
  | inl s ↦
      let k : member e acc ≡ true = subst (λ y. member y acc ≡ true) (same-eq x e s) h in rw k refl
  | inr d ↦ rw d (or_false (member e acc))
]

-- The entries that the loops collect: those there before, and those they were given.
pub member-add_new :
    (e : Entry) (acc es : List Entry) → member e (add_new acc es) ≡ (member e acc || member e es)
unfolding add_new member
member-add_new e acc [] = sym (or_false (member e acc))
member-add_new e acc (x ∷ es) =
    if_intro (λ acc'. member e (add_new acc' es) ≡ (member e acc || (same x e || member e es)))
      (member x acc)
      (λ old.
        member-add_new e acc es
        ∙ ap (λ b. b || member e es) (sym (absorbed e x acc old))
        ∙ or_assoc (member e acc) (same x e) (member e es))
      (λ new.
        member-add_new e (acc ++ x ∷ []) es
        ∙ ap (λ b. b || member e es)
            (member-append e acc (x ∷ []) ∙ ap (λ b. member e acc || b) (or_false (same x e)))
        ∙ or_assoc (member e acc) (same x e) (member e es))

-- No entry stands twice.
abbrev pub Distinct : List Entry → Type 0
Distinct [] = Unit
Distinct (x ∷ xs) = (member x xs ≡ false) × Distinct xs

pub same_comm : (a b : Entry) → same a b ≡ same b a
same_comm (v, t) (w, u) = ground arith

or_both : (a b : Bool) → a ≡ false → b ≡ false → (a || b) ≡ false
or_both a b h k = ground arith

pub Distinct-push :
    (x : Entry) (xs : List Entry) → Distinct xs → member x xs ≡ false → Distinct (xs ++ x ∷ [])
unfolding member
Distinct-push x [] d h = (refl, tt)
Distinct-push x (y ∷ ys) (k, d) h =
    let same_false : same y x ≡ false = ground arith in
    let rest_false : member x ys ≡ false = ground arith in
    (
      member-append y ys (x ∷ [])
          ∙ or_both (member y ys) (same x y || false) k
              (or_both (same x y) false (same_comm x y ∙ same_false) refl),
      Distinct-push x ys d rest_false,
    )

pub Distinct-add_new : (acc es : List Entry) → Distinct acc → Distinct (add_new acc es)
unfolding add_new
Distinct-add_new acc [] d = d
Distinct-add_new acc (x ∷ es) d =
    if_intro (λ acc'. Distinct (add_new acc' es)) (member x acc) (λ old. Distinct-add_new acc es d)
      (λ new. Distinct-add_new (acc ++ x ∷ []) es (Distinct-push x acc d new))

pub length-add_new : (acc es : List Entry) → length (add_new acc es) ≤ length acc + length es
unfolding add_new
length-add_new acc [] = omega arith
length-add_new acc (x ∷ es) =
    if_intro (λ acc'. length (add_new acc' es) ≤ length acc + suc (length es)) (member x acc)
      (λ old. omega (arith, length-add_new acc es))
      (λ new. omega (arith, length-add_new (acc ++ x ∷ []) es, length-append acc (x ∷ [])))
