-- ===== src/Runtime/Shift.antt =====
-- The removal of a slot by moving those behind it down, as crates/plat-runtime/src/ffi/set.rs and
-- crates/plat-runtime/src/ffi/dict.rs do it.
use plat.Base.{
  ℕ, zero, suc, ◌+◌, ◌-◌, ◌≤◌, ◌<◌, ◌≡◌, refl, ap, ◌∙◌, List, [], ◌∷◌, ◌++◌, arith, length, take,
  drop, length-append,
}
use plat.Runtime.Buffer.{copy_within, length-copy_within, length-take_le}

-- The loop `for j in i..length - 1`, of `n` rounds: each moves the slot behind `j` down to `j`.
unfoldable pub shift_down {ℓ} : {A : Type ℓ} → ℕ → ℕ → List A → List A
unfolding copy_within
shift_down j zero xs = xs
shift_down j (suc n) xs = shift_down (suc j) n (copy_within (suc j) j 1 xs)

shift_down-cons {ℓ} :
    {A : Type ℓ} (j n : ℕ) (x : A) (xs : List A)
    → shift_down (suc j) n (x ∷ xs) ≡ x ∷ shift_down j n xs
unfolding shift_down copy_within
shift_down-cons j zero x xs = refl
shift_down-cons j (suc n) x xs =
    let e : suc j + 1 ≡ suc (j + 1) = omega arith in
    rw e (shift_down-cons (suc j) n x (copy_within (suc j) j 1 xs))

drop-take {ℓ} : {A : Type ℓ} (n : ℕ) (xs : List A) → drop n (take n xs) ≡ []
drop-take zero xs = refl
drop-take (suc n) [] = refl
drop-take (suc n) (x ∷ xs) = drop-take n xs

-- The loop takes the slot at `i` out of the first `n + 1`.
pub take-shift_down {ℓ} :
    {A : Type ℓ} (n i m : ℕ) (xs : List A)
    → i + m ≡ n
    → n < length xs
    → take n (shift_down i m xs) ≡ take i (take (suc n) xs) ++ drop (suc i) (take (suc n) xs)
unfolding shift_down copy_within
take-shift_down n i m [] h k = absurd (omega arith)
take-shift_down zero zero zero (x ∷ xs) h k = refl
take-shift_down zero (suc i) m (x ∷ xs) h k = absurd (omega arith)
take-shift_down (suc n) (suc i) m (x ∷ xs) h k =
    rw (shift_down-cons i m x xs)
      (ap (λ t. x ∷ t) (take-shift_down n i m xs (omega arith) (omega arith)))
take-shift_down zero zero (suc m) (x ∷ xs) h k = absurd (omega arith)
take-shift_down (suc n) zero zero (x ∷ xs) h k = absurd (omega arith)
take-shift_down (suc n) zero (suc m) (x ∷ []) h k = absurd (omega arith)
take-shift_down (suc n) zero (suc m) (x ∷ (y ∷ r)) h k =
    rw (shift_down-cons zero m y (y ∷ r))
      (ap (λ t. y ∷ t) (take-shift_down n zero m (y ∷ r) (omega arith) (omega arith)))

pub length-shift_down {ℓ} :
    {A : Type ℓ} (i m : ℕ) (xs : List A)
    → i + m < length xs
    → length (shift_down i m xs) ≡ length xs
unfolding shift_down
length-shift_down i zero xs h = refl
length-shift_down i (suc m) xs h =
    let e = length-copy_within (suc i) i 1 xs (omega arith) (omega arith) in
    length-shift_down (suc i) m (copy_within (suc i) i 1 xs) (omega (arith, e)) ∙ e

take-before {ℓ} : {A : Type ℓ} (xs ys : List A) → take (length xs) (xs ++ ys) ≡ xs
take-before [] ys = refl
take-before (x ∷ xs) ys = ap (λ t. x ∷ t) (take-before xs ys)

drop-before {ℓ} : {A : Type ℓ} (xs ys : List A) (e : A) → drop (suc (length xs)) (xs ++ e ∷ ys) ≡ ys
drop-before [] ys e = refl
drop-before (x ∷ xs) ys e = drop-before xs ys e

cut_lem {ℓ} :
    {A : Type ℓ} (k : ℕ) (xs before after : List A) (e : A)
    → xs ≡ before ++ e ∷ after
    → k ≡ length before
    → take k xs ++ drop (suc k) xs ≡ before ++ after
cut_lem k xs before after e h i = rw h (
    rw i (rw (take-before before (e ∷ after)) (ap (λ t. before ++ t) (drop-before before after e))))

suc_pred : (n m : ℕ) → n ≡ suc m → suc (n - 1) ≡ n
suc_pred n m h = omega arith

-- The slots in use without the one at `k`.
pub take-shift_cut {ℓ} :
    {A : Type ℓ} (n k : ℕ) (xs before after : List A) (e : A)
    → n ≤ length xs
    → take n xs ≡ before ++ e ∷ after
    → k ≡ length before
    → take (n - 1) (shift_down k (n - 1 - k) xs) ≡ before ++ after
take-shift_cut n k xs before after e fits h i =
    let size : n ≡ suc (length before + length after) =
      omega
        (arith, length-take_le n xs fits, ap (λ t. length t) h, length-append before (e ∷ after)) in
    take-shift_down (n - 1) k (n - 1 - k) xs (omega arith) (omega arith)
    ∙ ap (λ m. take k (take m xs) ++ drop (suc k) (take m xs))
        (suc_pred n (length before + length after) size)
    ∙ cut_lem k (take n xs) before after e h i
