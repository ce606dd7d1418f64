-- ===== src/Modules/Sets.antt =====
-- A `HashSet<String>` and a `HashMap<String, V>` of the source, as lists in some order. Iteration over
-- a map follows its list, so what holds for every list holds for every order of iteration.
use plat.Base.{
  Bool, true, false, not, ◌&&◌, ◌||◌, List, [], ◌∷◌, ◌++◌, Option, none, some, Text, text_eq, ◌≡◌,
  refl, arith, if◌then◌else◌, text_eq_iff, text_eq_refl, ◌≤◌, ◌<◌, ℕ, suc, length, All, All-mono,
}

unfoldable pub contains : List Text → Text → Bool
contains [] a = false
contains (x ∷ xs) a = text_eq x a || contains xs a

-- `HashSet::insert`
unfoldable pub insert : Text → List Text → List Text
unfolding contains
insert a xs = if contains xs a then xs else a ∷ xs

-- `HashSet::remove`
unfoldable pub remove : Text → List Text → List Text
remove a [] = []
remove a (x ∷ xs) = if text_eq x a then remove a xs else x ∷ remove a xs

module _ {ℓ} {V : Type ℓ} where
  -- `HashMap::get`
  unfoldable pub get : Text → List (Text × V) → Option V
  get k [] = none
  get k ((j, v) ∷ m) = if text_eq j k then some v else get k m

  -- `HashMap::insert`
  unfoldable pub put : Text → V → List (Text × V) → List (Text × V)
  put k v [] = (k, v) ∷ []
  put k v ((j, w) ∷ m) = if text_eq j k then (k, v) ∷ m else (j, w) ∷ put k v m

  -- `HashMap::keys`
  unfoldable pub keys : List (Text × V) → List Text
  keys [] = []
  keys ((k, v) ∷ m) = k ∷ keys m

  pub get-put :
      (k j : Text) (v : V) (m : List (Text × V))
      → get j (put k v m) ≡ (if text_eq k j then some v else get j m)
  unfolding get put
  get-put k j v [] = refl
  get-put k j v ((i, w) ∷ m) =
      ground (arith, text_eq_iff k j, text_eq_iff i k, text_eq_iff i j, get-put k j v m)

pub contains-append :
    (xs ys : List Text) (a : Text) → contains (xs ++ ys) a ≡ (contains xs a || contains ys a)
unfolding contains
contains-append [] ys a = refl
contains-append (x ∷ xs) ys a = ground (arith, contains-append xs ys a)

pub contains-insert :
    (m : Text) (xs : List Text) (a : Text)
    → contains (insert m xs) a ≡ (text_eq m a || contains xs a)
unfolding insert
contains-insert m xs a = ground (arith, text_eq_iff m a)

pub contains-remove :
    (m : Text) (xs : List Text) (a : Text)
    → contains (remove m xs) a ≡ (not (text_eq m a) && contains xs a)
unfolding remove contains
contains-remove m [] a = ground arith
contains-remove m (x ∷ xs) a =
    ground (arith, contains-remove m xs a, text_eq_iff x m, text_eq_iff m a, text_eq_iff x a)

pub contains-insert_mono :
    (m : Text) (xs : List Text) (a : Text) → contains xs a ≡ true → contains (insert m xs) a ≡ true
contains-insert_mono m xs a h = ground (arith, contains-insert m xs a)

-- How many of `us` are not in `xs`.
unfoldable pub missing : List Text → List Text → ℕ
missing [] xs = 0
missing (u ∷ us) xs = if contains xs u then missing us xs else suc (missing us xs)

pub missing-le-length : (us xs : List Text) → missing us xs ≤ length us
unfolding missing
missing-le-length [] xs = omega arith
missing-le-length (u ∷ us) xs = ground (arith, missing-le-length us xs)

-- A larger set misses fewer.
pub missing_mono :
    (us xs ys : List Text)
    → ((a : Text) → contains xs a ≡ true → contains ys a ≡ true)
    → missing us ys ≤ missing us xs
unfolding missing
missing_mono [] xs ys h = omega arith
missing_mono (u ∷ us) xs ys h = ground (arith, missing_mono us xs ys h, h u)

pub missing-insert :
    (us xs : List Text) (m : Text)
    → contains us m ≡ true
    → contains xs m ≡ false
    → missing us (insert m xs) < missing us xs
unfolding missing contains
missing-insert [] xs m hu hx = absurd (cc)
missing-insert (u ∷ us) xs m hu hx =
    let smaller = missing_mono us xs (insert m xs) (contains-insert_mono m xs) in
    ground (
      arith,
      smaller,
      missing-insert us xs m,
      contains-insert m xs u,
      text_eq_iff u m,
      text_eq_iff m u,
    )

pub contains-push :
    (xs : List Text) (m a : Text) → contains (xs ++ m ∷ []) a ≡ (contains xs a || text_eq m a)
unfolding contains
contains-push [] m a = ground arith
contains-push (x ∷ xs) m a = ground (arith, contains-push xs m a)

pub contains-nil : (a : Text) → contains [] a ≡ false
unfolding contains
contains-nil a = refl

pub contains-cons :
    (x : Text) (xs : List Text) (a : Text) → contains (x ∷ xs) a ≡ (text_eq x a || contains xs a)
unfolding contains
contains-cons x xs a = refl

-- A list holds its members.
pub All-contains : (xs : List Text) → All (λ d. contains xs d ≡ true) xs
All-contains [] = tt
All-contains (x ∷ xs) = (
  ground (arith, contains-cons x xs x, text_eq_refl x),
  All-mono xs (λ d h. ground (arith, contains-cons x xs d)) (All-contains xs),
)
