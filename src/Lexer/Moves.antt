-- ===== src/Lexer/Moves.antt =====
-- How the cursor operations of the lexer move: what a scan may change of the state, and where the
-- cursor may come to stand.
use plat.Base.{
  Ensures, throws, ℕ, ◌≤◌, ◌<◌, ◌≡◌, refl, ◌∙◌, Bool, true, List, [], ◌∷◌, ◌++◌, Option, none, some,
  inl, inr, Option-cases, Text, arith, length, length-drop, lt_of_get_elem?,
}
use plat.Diags.{DiagnosticError, Span, new}
use plat.Lexer.Token.{Token, StringPart}
use plat.Lexer.State.{
  Result, Lexer, fail, count_while, rest, peek, advance, advance_while, add_token, is_char,
  is_some_and,
}

-- An error that names the file and a span that begins inside the input.
abbrev pub IsErrorIn : Text → Text → DiagnosticError → Type 0
IsErrorIn filename input (DiagnosticError.rich d) =
    (d.filename ≡ filename)
    × (d.primary_label.span.start ≤ length input)
    × (d.primary_label.span.start ≤ d.primary_label.span.end)
IsErrorIn filename input _ = ⊥

count_while-le : (p : ℕ → Bool) (cs : Text) → count_while p cs ≤ length cs
unfolding count_while
count_while-le p [] = omega arith
count_while-le p (c ∷ cs) = ground (arith, count_while-le p cs)

-- Every error of the lexer is made by `fail`.
pub fail-IsErrorIn {ℓ} :
    {A : Type ℓ} {P : A → Type 0} (filename input : Text) (span : Span) (message label help : Text)
    → span.start ≤ length input
    → span.start ≤ span.end
    → Ensures P (IsErrorIn filename input) (fail filename span message label help)
unfolding fail
fail-IsErrorIn filename input span message label help h k = throws (refl, h, k)

-- The text of each interpolation has fewer than `n` characters.
abbrev pub AreShort : ℕ → List StringPart → Type 0
AreShort n [] = Unit {0}
AreShort n (StringPart.text s ∷ parts) = AreShort n parts
AreShort n (StringPart.interpolation s ∷ parts) = (length s < n) × AreShort n parts

pub AreShort-append :
    (n : ℕ) (parts rest : List StringPart)
    → AreShort n parts
    → AreShort n rest
    → AreShort n (parts ++ rest)
AreShort-append n [] rest h k = k
AreShort-append n (StringPart.text s ∷ parts) rest h k = AreShort-append n parts rest h k
AreShort-append n (StringPart.interpolation s ∷ parts) rest (h, hs) k =
    (h, AreShort-append n parts rest hs k)

module _ {F : Type 0} where
  -- The cursor went on, within the input, and nothing else changed.
  pub record Moved (l l' : Lexer F) : Type 0 where
    pub same_input : l'.input ≡ l.input
    pub same_name : l'.filename ≡ l.filename
    pub same_tokens : l'.tokens ≡ l.tokens
    pub forward : l.current ≤ l'.current
    pub inside : l'.current ≤ length l.input

  pub Moved-refl : (l : Lexer F) → l.current ≤ length l.input → Moved l l
  Moved-refl l h = record {
    same_input = refl;
    same_name = refl;
    same_tokens = refl;
    forward = omega arith;
    inside = h;
  }

  pub Moved-trans : {l m n : Lexer F} → Moved l m → Moved m n → Moved l n
  Moved-trans {l} {m} {n} h k = record {
    same_input = k.same_input ∙ h.same_input;
    same_name = k.same_name ∙ h.same_name;
    same_tokens = k.same_tokens ∙ h.same_tokens;
    forward = omega (arith, h.forward, k.forward);
    inside = ground (arith, k.inside, h.same_input);
  }

  pub lt_of_peek : (l : Lexer F) {c : ℕ} → peek l ≡ some c → l.current < length l.input
  lt_of_peek l h = lt_of_get_elem? l.input l.current h

  pub lt_of_is_char : (l : Lexer F) (c : ℕ) → is_char (peek l) c ≡ true → l.current < length l.input
  lt_of_is_char l c h = elim (Option-cases (peek l)) [
    | inl e ↦ absurd (cc (rw e at h))
    | inr (d, e) ↦ lt_of_peek l e
  ]

  pub lt_of_is_some_and :
      (l : Lexer F) (p : ℕ → Bool) → is_some_and (peek l) p ≡ true → l.current < length l.input
  lt_of_is_some_and l p h = elim (Option-cases (peek l)) [
    | inl e ↦ absurd (cc (rw e at h))
    | inr (d, e) ↦ lt_of_peek l e
  ]

  pub advance-Moved : (l : Lexer F) → l.current < length l.input → Moved l (advance l)
  advance-Moved l h = record {
    same_input = refl;
    same_name = refl;
    same_tokens = refl;
    forward = omega arith;
    inside = omega arith;
  }

  pub advance_while-Moved :
      (p : ℕ → Bool) (l : Lexer F) → l.current ≤ length l.input → Moved l (advance_while p l)
  unfolding advance_while
  advance_while-Moved p l h = record {
    same_input = refl;
    same_name = refl;
    same_tokens = refl;
    forward = omega arith;
    inside = omega (arith, count_while-le p (rest l), length-drop l.current l.input);
  }

  -- An error in the state that a move left is one in the state before.
  pub Ensures-Moved {κ} :
      {A : Type κ} {P : A → Type 0} {l l' : Lexer F} {r : Result A}
      → Moved l l'
      → Ensures P (IsErrorIn l'.filename l'.input) r
      → Ensures P (IsErrorIn l.filename l.input) r
  Ensures-Moved m h = rw (m.same_name, m.same_input) at h

  -- What the lexer emits: a token that is not `eof`, with short texts of interpolations.
  abbrev pub IsShort : ℕ → Token F → Type 0
  IsShort n Token.eof = ⊥
  IsShort n (Token.interpolated_string parts) = AreShort n parts
  IsShort n _ = Unit {0}

  abbrev pub IsShortIf : ℕ → Option (Token F) → Type 0
  IsShortIf n none = Unit {0}
  IsShortIf n (some token) = IsShort n token

  -- One token was added, whose span goes from `start` to the cursor, and the cursor went on.
  pub record Emitted (start : ℕ) (l l' : Lexer F) : Type 0 where
    pub same_input : l'.input ≡ l.input
    pub same_name : l'.filename ≡ l.filename
    pub forward : l.current ≤ l'.current
    pub inside : l'.current ≤ length l.input
    pub token : Token F
    pub short : IsShort (length l.input) token
    pub one_more :
        l'.tokens ≡ l.tokens ++ record { token = token; span = new start l'.current } ∷ []

  pub add_token-Emitted :
      (token : Token F) (start : ℕ) {l l' : Lexer F}
      → IsShort (length l.input) token
      → Moved l l'
      → Emitted start l (add_token token start l')
  unfolding add_token
  add_token-Emitted token start {l} {l'} short m = record {
    same_input = m.same_input;
    same_name = m.same_name;
    forward = m.forward;
    inside = m.inside;
    token = token;
    short = short;
    one_more = ground (arith, m.same_tokens);
  }

  -- The cursor stays inside the input that the new state names.
  pub inside_after : {l l' : Lexer F} → Moved l l' → l'.current ≤ length l'.input
  inside_after {l} {l'} m = ground (arith, m.inside, m.same_input)

  -- An error from a state that a move left, with a span that ends at the cursor.
  pub fail_after {κ} :
      {A : Type κ} {P : A → Type 0} {l l' : Lexer F} (start : ℕ) (message label help : Text)
      → start ≤ l.current
      → Moved l l'
      → Ensures P
          (IsErrorIn l.filename l.input)
          (fail l'.filename (new start l'.current) message label help)
  fail_after {l} {l'} start message label help hs m = Ensures-Moved m (
      fail-IsErrorIn l'.filename l'.input (new start l'.current) message label help
        (omega (arith, m.forward, inside_after m)) (omega (arith, m.forward)))
