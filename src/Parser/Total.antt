-- ===== src/Parser/Total.antt =====
-- That the rules of crates/plat-parser/src/lib.rs return: from any position a rule gives a result at a
-- position further on, or an error. It neither loops for ever nor panics.
pub mod Tokens
pub mod Rules
pub mod Loops
pub mod Types
pub mod Literals
pub mod Lookahead
pub mod Blocks
pub mod Primary
pub mod Operators
pub mod Statements
pub mod Declarations
pub mod Program
pub mod Input
use plat.Base.{
  Ensures, Returns, returns, throws, ◌⟫◌, bind, ok, err, ℕ, zero, suc, ◌+◌, ◌≤◌, ◌<◌, ◌≡◌, refl,
  Bool, true, false, List, [], ◌∷◌, Option, none, some, Text, arith, length, get_elem?, inl, inr,
  Bool-cases, ap,
}
use plat.Diags.{DiagnosticError}
use plat.Lexer.State.{Result}
use plat.Lexer.Token.{Token, TokenWithSpan, StringPart}
use plat.Parser.State.{Env, Parse, pure, ◌>>=◌, ◌>>◌, throw, is_eof}

-- The parser of an interpolation returns on each text in the string.
abbrev pub AreParsed : {F : Type 0} → Env F → List StringPart → Type 0
AreParsed env [] = Unit {0}
AreParsed env (StringPart.text s ∷ parts) = AreParsed env parts
AreParsed env (StringPart.interpolation s ∷ parts) =
    Returns (env.parse_interpolation s) × AreParsed env parts

abbrev pub IsParsed : {F : Type 0} → Env F → Token F → Type 0
IsParsed env (Token.interpolated_string parts) = AreParsed env parts
IsParsed env _ = Unit {0}

-- What the parser relies on: the tokens are those ahead of `last`, and an `eof` there.
pub record IsStream {F : Type 0} (env : Env F) : Type 0 where
  pub last : ℕ
  pub size : length env.tokens ≡ suc last
  pub at :
      (c : ℕ)
      → c ≤ last
      → (t : TokenWithSpan F) × (get_elem? env.tokens c ≡ some t) × IsParsed env t.token
  pub inner :
      (c : ℕ) (t : TokenWithSpan F)
      → c ≤ last
      → get_elem? env.tokens c ≡ some t
      → is_eof t.token ≡ false
      → c < last

abbrev pub Lands : {A : Type 0} → ℕ → ℕ → Result (A × ℕ) → Type 0
Lands last lo r = Ensures (λ x. (lo ≤ x.1) × (x.1 ≤ last)) (λ _. Unit {0}) r

-- From each position in `b .. last`, the method lands there or further on.
pub record Stays {A : Type 0} (last b : ℕ) (p : Parse A) : Type 0 where
  pub lands : (c : ℕ) → b ≤ c → c ≤ last → Lands last c (p c)

-- The same, and it passes a token.
pub record Passes {A : Type 0} (last b : ℕ) (p : Parse A) : Type 0 where
  pub lands : (c : ℕ) → b ≤ c → c ≤ last → Lands last (suc c) (p c)

pub Lands-weaken :
    {A : Type 0} {last lo lo' : ℕ} {r : Result (A × ℕ)}
    → lo ≤ lo'
    → Lands last lo' r
    → Lands last lo r
Lands-weaken h (returns (a, b)) = returns (omega arith, b)
Lands-weaken h (throws e) = throws e

module _ {last b : ℕ} {A : Type 0} where
  pub weaken : {p : Parse A} → Passes last b p → Stays last b p
  weaken h = record { lands = λ c lo hi. Lands-weaken (omega arith) (h.lands c lo hi) }

  pub mono : {b' : ℕ} {p : Parse A} → b ≤ b' → Stays last b p → Stays last b' p
  mono h k = record { lands = λ c lo hi. k.lands c (omega arith) hi }

  pub mono-Passes : {b' : ℕ} {p : Parse A} → b ≤ b' → Passes last b p → Passes last b' p
  mono-Passes h k = record { lands = λ c lo hi. k.lands c (omega arith) hi }

  pub pure-Stays : (a : A) → Stays last b (pure a)
  pure-Stays a = record { lands = λ c lo hi. returns (omega arith, hi) }

  pub throw-Passes : (e : DiagnosticError) → Passes last b (throw {A = A} e)
  throw-Passes e = record { lands = λ c lo hi. throws tt }

  module _ {B : Type 0} {p : Parse A} {f : A → Parse B} where
    -- `p`, then the rest
    infixr 3 ◌▸◌ ◌▸▸◌ ◌▹◌
    pub ◌▹◌ : Stays last b p → ((a : A) → Stays last b (f a)) → Stays last b (p >>= f)
    h ▹ k = record {
      lands = λ c lo hi.
          h.lands c lo hi ⟫ λ (a, d) m. Lands-weaken m.0 ((k a).lands d (omega (arith, m.0)) m.1);
    }

    pub ◌▸▸◌ : Passes last b p → ((a : A) → Stays last (suc b) (f a)) → Passes last b (p >>= f)
    h ▸▸ k = record {
      lands = λ c lo hi.
          h.lands c lo hi ⟫ λ (a, d) m. Lands-weaken m.0 ((k a).lands d (omega (arith, m.0)) m.1);
    }

    pub ◌▸◌ : Stays last b p → ((a : A) → Passes last b (f a)) → Passes last b (p >>= f)
    h ▸ k = record {
      lands = λ c lo hi. h.lands c lo hi ⟫ λ (a, d) m.
          Lands-weaken (omega (arith, m.0)) ((k a).lands d (omega (arith, m.0)) m.1);
    }

-- `Stays`, with a property of the result and the position.
pub record Makes {A : Type 0} (P : A → ℕ → Type 0) (last b : ℕ) (p : Parse A) : Type 0 where
  pub makes :
      (c : ℕ)
      → b ≤ c
      → c ≤ last
      → Ensures (λ x. P x.0 x.1 × (c ≤ x.1) × (x.1 ≤ last)) (λ _. Unit {0}) (p c)

module _ {last : ℕ} {B : Type 0} (P : B → ℕ → Type 0) where
  farther :
      {c d : ℕ} {r : Result (B × ℕ)}
      → c ≤ d
      → Ensures (λ x. P x.0 x.1 × (d ≤ x.1) × (x.1 ≤ last)) (λ _. Unit {0}) r
      → Ensures (λ x. P x.0 x.1 × (c ≤ x.1) × (x.1 ≤ last)) (λ _. Unit {0}) r
  farther le (returns (a, b, c)) = returns (a, omega arith, c)
  farther le (throws e) = throws e

module _ {last b : ℕ} {A B : Type 0} {P : B → ℕ → Type 0} where
  infixr 3 ◌▹▹◌ ◌▸▹◌
  pub ◌▹▹◌ :
      {p : Parse A} {f : A → Parse B}
      → Stays last b p
      → ((a : A) → Makes P last b (f a))
      → Makes P last b (p >>= f)
  h ▹▹ k = record {
    makes = λ c lo hi.
        h.lands c lo hi ⟫ λ (a, d) m. farther P m.0 ((k a).makes d (omega (arith, m.0)) m.1);
  }

  pub ◌▸▹◌ :
      {p : Parse A} {f : A → Parse B}
      → Passes last b p
      → ((a : A) → Makes P last (suc b) (f a))
      → Makes P last b (p >>= f)
  h ▸▹ k = record {
    makes = λ c lo hi. h.lands c lo hi ⟫ λ (a, d) m.
        farther P (omega (arith, m.0)) ((k a).makes d (omega (arith, m.0)) m.1);
  }

module _ {last b : ℕ} {B : Type 0} {P : B → ℕ → Type 0} where
  pub pure-Makes : (a : B) → ((c : ℕ) → P a c) → Makes P last b (pure a)
  pure-Makes a h = record { makes = λ c lo hi. returns (h c, omega arith, hi) }

  pub made : {p : Parse B} → Makes P last b p → Stays last b p
  made h = record { lands = λ c lo hi. forget (h.makes c lo hi) }
    where
      forget :
          {c : ℕ} {r : Result (B × ℕ)}
          → Ensures (λ x. P x.0 x.1 × (c ≤ x.1) × (x.1 ≤ last)) (λ _. Unit {0}) r
          → Lands last c r
      forget (returns (a, b, c)) = returns (b, c)
      forget (throws e) = throws e
