-- ===== src/Base/Lists.antt =====
-- Lists measured and indexed by native numbers, under the library's names.
use Prim.Native.Nat.{ℕ, zero, suc, ◌+◌, ◌-◌, ◌≤◌, ◌<◌}
use mathlib.Core.Path.{◌≡◌, refl, ap}
use mathlib.Core.Bool.{Bool, false, ◌||◌}
use mathlib.Core.List.{List, [], ◌∷◌, ◌++◌}
use mathlib.Core.Option.{Option, none, some}
use native.Mathlib.Omega.{arith}

module _ {ℓ} {A : Type ℓ} where
  abbrev pub length : List A → ℕ
  length [] = 0
  length (x ∷ xs) = suc (length xs)

  abbrev pub get_elem? : List A → ℕ → Option A
  get_elem? [] i = none
  get_elem? (x ∷ xs) zero = some x
  get_elem? (x ∷ xs) (suc i) = get_elem? xs i

  abbrev pub take : ℕ → List A → List A
  take zero xs = []
  take (suc n) [] = []
  take (suc n) (x ∷ xs) = x ∷ take n xs

  abbrev pub drop : ℕ → List A → List A
  drop zero xs = xs
  drop (suc n) [] = []
  drop (suc n) (x ∷ xs) = drop n xs

  abbrev pub replicate : ℕ → A → List A
  replicate zero a = []
  replicate (suc n) a = a ∷ replicate n a

  abbrev pub any : (A → Bool) → List A → Bool
  any p [] = false
  any p (x ∷ xs) = p x || any p xs

  abbrev pub All {κ} : (A → Type κ) → List A → Type κ
  All P [] = Unit
  All P (x ∷ xs) = P x × All P xs

module _ {ℓ} {A : Type ℓ} where
  pub length-append : (xs ys : List A) → length (xs ++ ys) ≡ length xs + length ys
  length-append [] ys = omega arith
  length-append (x ∷ xs) ys = omega (arith, length-append xs ys)

  pub length-drop : (n : ℕ) (xs : List A) → length (drop n xs) ≡ length xs - n
  length-drop zero xs = omega arith
  length-drop (suc n) [] = omega arith
  length-drop (suc n) (x ∷ xs) = omega (arith, length-drop n xs)

  pub take-append-drop : (n : ℕ) (xs : List A) → take n xs ++ drop n xs ≡ xs
  take-append-drop zero xs = refl
  take-append-drop (suc n) [] = refl
  take-append-drop (suc n) (x ∷ xs) = ap (λ t. x ∷ t) (take-append-drop n xs)

  -- An element past the first `n` is read from what is left without them.
  pub get_elem?-drop :
      (n : ℕ) (xs : List A) {x : A} {r : List A} → drop n xs ≡ x ∷ r → get_elem? xs n ≡ some x
  get_elem?-drop zero [] h = ground arith
  get_elem?-drop zero (y ∷ ys) h = ground arith
  get_elem?-drop (suc n) [] h = ground arith
  get_elem?-drop (suc n) (y ∷ ys) h = get_elem?-drop n ys h

  -- An element that is read stands inside the list.
  pub lt_of_get_elem? : (xs : List A) (n : ℕ) {x : A} → get_elem? xs n ≡ some x → n < length xs
  lt_of_get_elem? [] n h = ground arith
  lt_of_get_elem? (y ∷ ys) zero h = omega arith
  lt_of_get_elem? (y ∷ ys) (suc n) h = omega (arith, lt_of_get_elem? ys n h)

  pub le_of_get_elem?-none : (xs : List A) (n : ℕ) → get_elem? xs n ≡ none → length xs ≤ n
  le_of_get_elem?-none [] n h = omega arith
  le_of_get_elem?-none (y ∷ ys) zero h = ground arith
  le_of_get_elem?-none (y ∷ ys) (suc n) h = omega (arith, le_of_get_elem?-none ys n h)

  pub All-mono {κ μ} :
      {P : A → Type κ} {Q : A → Type μ} (xs : List A) → ((x : A) → P x → Q x) → All P xs → All Q xs
  All-mono [] h a = tt
  All-mono (x ∷ xs) h (p, a) = (h x p, All-mono xs h a)
