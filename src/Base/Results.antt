-- ===== src/Base/Results.antt =====
-- Results of fallible code, with the reason why code that loops returned no result: `stuck` is a
-- loop whose fuel ran out, `panic` is a panic of the source.

pub data Result {ℓ} (E : Type 0) (A : Type ℓ) : Type ℓ where
  ok : A → Result E A
  err : E → Result E A
  stuck panic : Result E A

infixl 5 ◌>>=◌
abbrev pub ◌>>=◌ {ℓ κ} :
    {E : Type 0} {A : Type ℓ} {B : Type κ} → Result E A → (A → Result E B) → Result E B
ok a >>= f = f a
err e >>= f = err e
stuck >>= f = stuck
panic >>= f = panic

-- The same, by name.
abbrev pub bind {ℓ κ} :
    {E : Type 0} {A : Type ℓ} {B : Type κ} → Result E A → (A → Result E B) → Result E B
bind r f = r >>= f

-- The result is a value with `P` or an error with `Q`: no loop ran out of fuel, nothing panicked.
pub data Ensures {ℓ} {E : Type 0} {A : Type ℓ} (P : A → Type 0) (Q : E → Type 0)
    : Result E A → Type ℓ where
  returns : {a : A} → P a → Ensures P Q (ok a)
  throws : {e : E} → Q e → Ensures P Q (err e)

module _ {ℓ κ} {E : Type 0} {A : Type ℓ} {B : Type κ} {P : A → Type 0} {P' : B → Type 0} where
  infixr 4 ◌⟫◌
  pub ◌⟫◌ :
      {Q : E → Type 0} {r : Result E A} {f : A → Result E B}
      → Ensures P Q r
      → ((a : A) → P a → Ensures P' Q (f a))
      → Ensures P' Q (r >>= f)
  returns h ⟫ k = k _ h
  throws h ⟫ k = throws h

-- The code returned a value or an error: no loop ran out of fuel, nothing panicked.
abbrev pub Returns {ℓ} : {E : Type 0} {A : Type ℓ} → Result E A → Type ℓ
Returns r = Ensures (λ _. Unit {0}) (λ _. Unit {0}) r

module _ {ℓ} {E : Type 0} {A : Type ℓ} {P : A → Type 0} {Q : E → Type 0} where
  pub Ensures-weaken :
      {P' : A → Type 0} {r : Result E A} → ((a : A) → P a → P' a) → Ensures P Q r → Ensures P' Q r
  Ensures-weaken f (returns h) = returns (f _ h)
  Ensures-weaken f (throws h) = throws h

  pub value_of : {a : A} → Ensures P Q (ok a) → P a
  value_of (returns h) = h
