-- ===== src/Runtime/Dict/Entries.antt =====
-- Lists of entries with one entry more, or one replaced, as crates/plat-runtime/src/ffi/dict.rs
-- leaves them.
use plat.Base.{
  ◌≡◌, refl, ap, sym, ◌∙◌, false, Bool-cases, inl, inr, List, [], ◌∷◌, ◌++◌, Option, none, some,
  Text, text_eq, text_eq_iff, arith, if◌then◌else◌,
}
use plat.Runtime.Dict.{Entry, matches, lookup}
use plat.Runtime.Dict.Lookup.{Distinct, or_else, lookup-append}

or_else-none : (o : Option Entry) → or_else o none ≡ o
or_else-none none = refl
or_else-none (some e) = refl

pub both_none : (o p : Option Entry) → or_else o p ≡ none → (o ≡ none) × (p ≡ none)
both_none none p h = (refl, h)
both_none (some e) p h = absurd (cc)

-- The map after a write of the entry `e`.
abbrev pub put : Text → Entry → (Text → Option Entry) → Text → Option Entry
put k e m j = if text_eq j k then some e else m j

-- An entry behind the others, with a key that none of them has.
pub lookup-push :
    (k j : Text) (e : Entry) (xs : List Entry)
    → e.key ≡ some k
    → lookup k xs ≡ none
    → lookup j (xs ++ e ∷ []) ≡ put k e (λ i. lookup i xs) j
unfolding lookup
lookup-push k j e xs key new = elim (Bool-cases (text_eq j k)) [
  | inl s ↦
      let same : j ≡ k = (text_eq_iff j k).0 s in
      let out : lookup j xs ≡ none = ap (λ i. lookup i xs) same ∙ new in
      rw s (
        lookup-append j xs (e ∷ [])
        ∙ ap (λ o. or_else o (lookup j (e ∷ []))) out
        ∙ ap (λ b. if b then some e else none) (ap (matches j) key ∙ s))
  | inr d ↦ rw d (
      lookup-append j xs (e ∷ [])
      ∙ ap (λ b. or_else (lookup j xs) (if b then some e else none)) (ap (matches j) key ∙ d)
      ∙ or_else-none (lookup j xs))
]

pub text_eq_comm : (s t : Text) → text_eq s t ≡ text_eq t s
text_eq_comm s t = ground (arith, text_eq_iff s t, text_eq_iff t s)

pub tail_none :
    (k : Text) (x : Entry) (xs : List Entry)
    → lookup k (x ∷ xs) ≡ none
    → (matches k x.key ≡ false) × (lookup k xs ≡ none)
unfolding lookup
tail_none k x xs h = elim (Bool-cases (matches k x.key)) [
  | inl s ↦ absurd (cc (rw s at h))
  | inr d ↦ (d, rw d at h)
]

pub Distinct-push :
    (k : Text) (e : Entry) (xs : List Entry)
    → e.key ≡ some k
    → Distinct xs
    → lookup k xs ≡ none
    → Distinct (xs ++ e ∷ [])
unfolding lookup
Distinct-push k e [] key d h = ((k, key, refl), tt)
Distinct-push k e (x ∷ xs) key ((j, name, out), d) h =
    let (apart, rest) = tail_none k x xs h in
    let differ : text_eq j k ≡ false = text_eq_comm j k ∙ sym (ap (matches k) name) ∙ apart in
    (
      (
        j,
        name,
        lookup-push k j e xs key rest ∙ ap (λ b. if b then some e else lookup j xs) differ ∙ out,
      ),
      Distinct-push k e xs key d rest,
    )

-- An entry in the place of one with the same key.
pub lookup-replace :
    (k j : Text) (x e : Entry) (before after : List Entry)
    → x.key ≡ some k
    → e.key ≡ some k
    → lookup k before ≡ none
    → lookup j (before ++ e ∷ after) ≡ put k e (λ i. lookup i (before ++ x ∷ after)) j
unfolding lookup
lookup-replace k j x e before after old new out = elim (Bool-cases (text_eq j k)) [
  | inl s ↦
      let same : j ≡ k = (text_eq_iff j k).0 s in
      let skip : lookup j before ≡ none = ap (λ i. lookup i before) same ∙ out in
      rw s (
        lookup-append j before (e ∷ after)
        ∙ ap (λ o. or_else o (lookup j (e ∷ after))) skip
        ∙ ap (λ b. if b then some e else lookup j after) (ap (matches j) new ∙ s))
  | inr d ↦ rw d (
      lookup-append j before (e ∷ after)
      ∙ ap (λ b. or_else (lookup j before) (if b then some e else lookup j after))
          (ap (matches j) new ∙ d)
      ∙ sym (
          lookup-append j before (x ∷ after)
          ∙ ap (λ b. or_else (lookup j before) (if b then some x else lookup j after))
              (ap (matches j) old ∙ d)))
]

none_replaced :
    (j : Text) (x e : Entry) (before after : List Entry)
    → x.key ≡ e.key
    → lookup j (before ++ x ∷ after) ≡ none
    → lookup j (before ++ e ∷ after) ≡ none
unfolding lookup
none_replaced j x e before after same h =
    let (p, q) =
      both_none (lookup j before) (lookup j (x ∷ after))
        (sym (lookup-append j before (x ∷ after)) ∙ h) in
    let (apart, rest) = tail_none j x after q in
    lookup-append j before (e ∷ after)
    ∙ ap (λ o. or_else o (lookup j (e ∷ after))) p
    ∙ ap (λ b. if b then some e else lookup j after) (ap (matches j) (sym same) ∙ apart)
    ∙ rest

pub Distinct-replace :
    (x e : Entry) (before after : List Entry)
    → x.key ≡ e.key
    → Distinct (before ++ x ∷ after)
    → Distinct (before ++ e ∷ after)
Distinct-replace x e [] after same ((k, name, out), d) = ((k, sym same ∙ name, out), d)
Distinct-replace x e (y ∷ before) after same ((k, name, out), d) =
    ((k, name, none_replaced k x e before after same out), Distinct-replace x e before after same d)
