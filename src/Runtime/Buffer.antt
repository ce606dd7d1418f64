-- ===== src/Runtime/Buffer.antt =====
-- A buffer of the garbage-collected heap as the list of its slots. `plat_gc_alloc`
-- (crates/plat-runtime/src/ffi/core.rs) zeroes what it returns and aborts the process when there is no
-- memory, so the tests for a null result behind it never hold.
use plat.Base.{
  ℕ, zero, suc, ◌+◌, ◌≤◌, ◌<◌, ◌≡◌, refl, ap, ◌∙◌, List, [], ◌∷◌, ◌++◌, arith, length, take, drop,
  replicate, get_elem?, length-append, length-drop,
}

-- `plat_gc_alloc` for `n` slots
unfoldable pub alloc : ℕ → List ℕ
alloc n = replicate n 0

-- `copy_nonoverlapping(old, new, n)`
unfoldable pub copy_to {ℓ} : {A : Type ℓ} → List A → ℕ → List A → List A
copy_to old n new = take n old ++ drop n new

-- `ptr::copy(data.add(src), data.add(dst), n)`, in one buffer
unfoldable pub copy_within {ℓ} : {A : Type ℓ} → ℕ → ℕ → ℕ → List A → List A
copy_within src dst n slots = take dst slots ++ (take n (drop src slots) ++ drop (dst + n) slots)

-- `*data.add(i) = v`
unfoldable pub write {ℓ} : {A : Type ℓ} → ℕ → A → List A → List A
write i v [] = []
write zero v (x ∷ xs) = v ∷ xs
write (suc i) v (x ∷ xs) = x ∷ write i v xs

module _ {ℓ} {A : Type ℓ} where
  pub length-take_le : (n : ℕ) (xs : List A) → n ≤ length xs → length (take n xs) ≡ n
  length-take_le zero xs h = refl
  length-take_le (suc n) [] h = absurd (omega arith)
  length-take_le (suc n) (x ∷ xs) h = ap suc (length-take_le n xs (omega arith))

  pub take-append_le : (n : ℕ) (xs ys : List A) → n ≤ length xs → take n (xs ++ ys) ≡ take n xs
  take-append_le zero xs ys h = refl
  take-append_le (suc n) [] ys h = absurd (omega arith)
  take-append_le (suc n) (x ∷ xs) ys h = ap (λ t. x ∷ t) (take-append_le n xs ys (omega arith))

  pub take-take : (n : ℕ) (xs : List A) → take n (take n xs) ≡ take n xs
  take-take zero xs = refl
  take-take (suc n) [] = refl
  take-take (suc n) (x ∷ xs) = ap (λ t. x ∷ t) (take-take n xs)

  pub take-take_le : (m n : ℕ) (xs : List A) → m ≤ n → take m (take n xs) ≡ take m xs
  take-take_le zero n xs h = refl
  take-take_le (suc m) zero xs h = absurd (omega arith)
  take-take_le (suc m) (suc n) [] h = refl
  take-take_le (suc m) (suc n) (x ∷ xs) h = ap (λ t. x ∷ t) (take-take_le m n xs (omega arith))

  pub length-replicate : (n : ℕ) (a : A) → length (replicate n a) ≡ n
  length-replicate zero a = refl
  length-replicate (suc n) a = ap suc (length-replicate n a)

  pub get_elem?-take : (n i : ℕ) (xs : List A) → i < n → get_elem? (take n xs) i ≡ get_elem? xs i
  get_elem?-take zero i xs h = absurd (omega arith)
  get_elem?-take (suc n) i [] h = refl
  get_elem?-take (suc n) zero (x ∷ xs) h = refl
  get_elem?-take (suc n) (suc i) (x ∷ xs) h = get_elem?-take n i xs (omega arith)

pub length-write {ℓ} :
    {A : Type ℓ} (i : ℕ) (v : A) (xs : List A) → length (write i v xs) ≡ length xs
unfolding write
length-write i v [] = refl
length-write zero v (x ∷ xs) = refl
length-write (suc i) v (x ∷ xs) = ap suc (length-write i v xs)

-- A write behind the first `n` slots makes them one more.
pub take-write_end {ℓ} :
    {A : Type ℓ} (n : ℕ) (v : A) (xs : List A)
    → n < length xs
    → take (suc n) (write n v xs) ≡ take n xs ++ v ∷ []
unfolding write
take-write_end n v [] h = absurd (omega arith)
take-write_end zero v (x ∷ xs) h = refl
take-write_end (suc n) v (x ∷ xs) h = ap (λ t. x ∷ t) (take-write_end n v xs (omega arith))

-- A write among the first `n` slots.
pub take-write {ℓ} :
    {A : Type ℓ} (n i : ℕ) (v : A) (xs : List A)
    → i < n
    → take n (write i v xs) ≡ write i v (take n xs)
unfolding write
take-write zero i v xs h = absurd (omega arith)
take-write (suc n) i v [] h = refl
take-write (suc n) zero v (x ∷ xs) h = refl
take-write (suc n) (suc i) v (x ∷ xs) h = ap (λ t. x ∷ t) (take-write n i v xs (omega arith))

-- A copy into a fresh buffer keeps the slots that are in use.
pub take-copy_to {ℓ} :
    {A : Type ℓ} (old : List A) (n : ℕ) (new : List A)
    → n ≤ length old
    → take n (copy_to old n new) ≡ take n old
unfolding copy_to
take-copy_to old n new h =
    take-append_le n (take n old) (drop n new) (omega (arith, length-take_le n old h))
    ∙ take-take n old

pub length-copy_to {ℓ} :
    {A : Type ℓ} (old : List A) (n : ℕ) (new : List A)
    → n ≤ length old
    → n ≤ length new
    → length (copy_to old n new) ≡ length new
unfolding copy_to
length-copy_to old n new h k =
    omega
      (arith, length-append (take n old) (drop n new), length-take_le n old h, length-drop n new)

-- Insertion among `n` slots: the `m` from `i` on move up by one, and `v` takes the free one.
pub take-insert {ℓ} :
    {A : Type ℓ} (n i m : ℕ) (v : A) (xs : List A)
    → i + m ≡ n
    → n < length xs
    → take (suc n) (write i v (copy_within i (suc i) m xs))
      ≡ take i (take n xs) ++ v ∷ drop i (take n xs)
unfolding copy_within write
take-insert n i m v [] h k = absurd (omega arith)
take-insert n zero m v (x ∷ xs) h k =
    let e : m ≡ n = omega arith in
    let fits = length-take_le n (x ∷ xs) (omega arith) in
    rw e (
      ap (λ t. v ∷ t)
        (take-append_le n (take n (x ∷ xs)) (drop (1 + n) (x ∷ xs)) (omega arith)
          ∙ take-take n (x ∷ xs)))
take-insert zero (suc i) m v (x ∷ xs) h k = absurd (omega arith)
take-insert (suc n) (suc i) m v (x ∷ xs) h k =
    let e : suc (suc i) + m ≡ suc (suc i + m) = omega arith in
    rw e (ap (λ t. x ∷ t) (take-insert n i m v xs (omega arith) (omega arith)))

-- Removal among `n + 1` slots: the `m` behind `i` move down by one.
pub take-remove {ℓ} :
    {A : Type ℓ} (n i m : ℕ) (xs : List A)
    → i + m ≡ n
    → n < length xs
    → take n (copy_within (suc i) i m xs)
      ≡ take i (take (suc n) xs) ++ drop (suc i) (take (suc n) xs)
unfolding copy_within
take-remove n i m [] h k = absurd (omega arith)
take-remove n zero m (x ∷ xs) h k =
    let e : m ≡ n = omega arith in
    let fits = length-take_le n xs (omega arith) in
    rw e (take-append_le n (take n xs) (drop (0 + n) (x ∷ xs)) (omega arith) ∙ take-take n xs)
take-remove zero (suc i) m (x ∷ xs) h k = absurd (omega arith)
take-remove (suc n) (suc i) m (x ∷ xs) h k =
    let e : suc i + m ≡ suc (i + m) = omega arith in
    rw e (ap (λ t. x ∷ t) (take-remove n i m xs (omega arith) (omega arith)))

pub length-copy_within {ℓ} :
    {A : Type ℓ} (src dst n : ℕ) (xs : List A)
    → src + n ≤ length xs
    → dst + n ≤ length xs
    → length (copy_within src dst n xs) ≡ length xs
unfolding copy_within
length-copy_within src dst n xs h k = omega (
  arith,
  length-append (take dst xs) (take n (drop src xs) ++ drop (dst + n) xs),
  length-append (take n (drop src xs)) (drop (dst + n) xs),
  length-take_le dst xs (omega arith),
  length-take_le n (drop src xs) (omega (arith, length-drop src xs)),
  length-drop (dst + n) xs,
)
