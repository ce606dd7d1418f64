-- ===== src/Runtime/Dict/Lookup.antt =====
-- Lookup in a list of entries: the searches of crates/plat-runtime/src/ffi/dict.rs.
use plat.Base.{
  ℕ, suc, ◌+◌, ◌≡◌, refl, ap, sym, true, false, Bool-cases, inl, inr, List, [], ◌∷◌, ◌++◌, Option,
  none, some, Text, text_eq_iff, arith, if_intro, length,
}
use plat.Runtime.Buffer.{write}
use plat.Runtime.Dict.{Entry, matches, lookup, find_from}

-- No key stands twice, and none is null.
abbrev pub Distinct : List Entry → Type 0
Distinct [] = Unit
Distinct (x ∷ xs) = ((k : Text) × (x.key ≡ some k) × (lookup k xs ≡ none)) × Distinct xs

-- What the search for a key finds.
pub data IsFound (k : Text) (i : ℕ) (xs : List Entry) : Option ℕ → Type 0 where
  found :
      {j : ℕ} (before : List Entry) (x : Entry) (after : List Entry)
      → xs ≡ before ++ x ∷ after
      → j ≡ i + length before
      → matches k x.key ≡ true
      → lookup k before ≡ none
      → IsFound k i xs (some j)
  missing : lookup k xs ≡ none → IsFound k i xs none

found_later :
    {k : Text} {i : ℕ} {xs : List Entry} {o : Option ℕ} (x : Entry)
    → matches k x.key ≡ false
    → IsFound k (suc i) xs o
    → IsFound k i (x ∷ xs) o
unfolding lookup
found_later x d (found before y after h j m l) =
    found (x ∷ before) y after (ap (λ t. x ∷ t) h) (omega arith) m (rw d l)
found_later x d (missing h) = missing (rw d h)

pub find_from-IsFound : (k : Text) (i : ℕ) (xs : List Entry) → IsFound k i xs (find_from k i xs)
unfolding find_from lookup
find_from-IsFound k i [] = missing refl
find_from-IsFound k i (x ∷ xs) =
    if_intro (IsFound k i (x ∷ xs)) (matches k x.key) (λ s. found [] x xs refl (omega arith) s refl)
      (λ d. found_later x d (find_from-IsFound k (suc i) xs))

-- The first of two searches that finds something.
abbrev pub or_else : Option Entry → Option Entry → Option Entry
or_else none o = o
or_else (some e) o = some e

pub lookup-append :
    (k : Text) (xs ys : List Entry) → lookup k (xs ++ ys) ≡ or_else (lookup k xs) (lookup k ys)
unfolding lookup
lookup-append k [] ys = refl
lookup-append k (x ∷ xs) ys = elim (Bool-cases (matches k x.key)) [
  | inl s ↦ rw s refl
  | inr d ↦ rw d (lookup-append k xs ys)
]

pub matches-true : (k : Text) (o : Option Text) → matches k o ≡ true → o ≡ some k
matches-true k none h = cc
matches-true k (some j) h = ap (λ t. some t) (sym ((text_eq_iff k j).0 h))

pub write-before :
    (before after : List Entry) (x e : Entry)
    → write (length before) e (before ++ x ∷ after) ≡ before ++ e ∷ after
unfolding write
write-before [] after x e = refl
write-before (y ∷ before) after x e = ap (λ t. y ∷ t) (write-before before after x e)
