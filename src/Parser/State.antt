-- ===== src/Parser/State.antt =====
-- The struct `Parser` of crates/plat-parser/src/lib.rs and its methods on single tokens. The tokens and the
-- file name do not change while it parses: they are the environment, and the state is `current`.
use plat.Base.{
  ℕ, zero, suc, ◌+◌, ◌/◌, ◌%◌, Bool, true, false, List, [], ◌∷◌, ◌++◌, Option, none, some, Text,
  ltb, ◌==◌, if◌then◌else◌, get_elem?, bind, ok, err, panic,
}
use plat.Diags.{Span, DiagnosticError}
use plat.Lexer.Token.{Token, TokenWithSpan}
use plat.Lexer.State.{Result}
use plat.Ast.{Expression}

-- The fields `tokens` and `filename`, and what the parser calls: the parse of the expression in an
-- interpolation (a parser of its own), `char::is_uppercase`, and the derived `Debug` of a token.
pub record Env (F : Type 0) : Type 0 where
  pub tokens : List (TokenWithSpan F)
  pub filename : Text
  pub parse_interpolation : Text → Result (Expression F)
  pub is_uppercase : ℕ → Bool
  pub debug : Token F → Text

-- A method with `&mut self`: what it does to `current`.
abbrev pub Parse : Type 0 → Type 0
Parse A = ℕ → Result (A × ℕ)

abbrev pub pure : {A : Type 0} → A → Parse A
pure a c = ok (a, c)

infixl 1 ◌>>=◌ ◌>>◌
abbrev pub ◌>>=◌ : {A B : Type 0} → Parse A → (A → Parse B) → Parse B
p >>= f = λ c. bind (p c) λ (a, d). f a d

abbrev pub ◌>>◌ : {A B : Type 0} → Parse A → Parse B → Parse B
p >> q = p >>= λ _. q

abbrev pub throw : {A : Type 0} → DiagnosticError → Parse A
throw e c = err e

abbrev pub lift : {A : Type 0} → Result A → Parse A
lift r c = bind r λ a. ok (a, c)

-- Indexing a `Vec` panics out of bounds.
abbrev pub or_panic {ℓ} : {A : Type ℓ} → Option A → Result A
or_panic none = panic
or_panic (some a) = ok a

module _ {F : Type 0} where
  -- The number of a token's constructor, which `std::mem::discriminant` compares.
  unfoldable pub discriminant : Token F → ℕ
  discriminant Token.fn_ = 0
  discriminant Token.let_ = 1
  discriminant Token.var_ = 2
  discriminant Token.if_ = 3
  discriminant Token.else_ = 4
  discriminant Token.while_ = 5
  discriminant Token.for_ = 6
  discriminant Token.in_ = 7
  discriminant Token.return_ = 8
  discriminant Token.true_ = 9
  discriminant Token.false_ = 10
  discriminant Token.print_ = 11
  discriminant Token.list_ = 12
  discriminant Token.dict_ = 13
  discriminant Token.set_ = 14
  discriminant Token.enum_ = 15
  discriminant Token.match_ = 16
  discriminant Token.mut_ = 17
  discriminant Token.class_ = 18
  discriminant Token.init_ = 19
  discriminant Token.self_ = 20
  discriminant Token.virtual_ = 21
  discriminant Token.override_ = 22
  discriminant Token.super_ = 23
  discriminant Token.mod_ = 24
  discriminant Token.use_ = 25
  discriminant Token.type_ = 26
  discriminant Token.newtype_ = 27
  discriminant Token.test_ = 28
  discriminant Token.bench_ = 29
  discriminant Token.cast_ = 30
  discriminant Token.pub_ = 31
  discriminant Token.concurrent_ = 32
  discriminant Token.spawn_ = 33
  discriminant (Token.ident x) = 34
  discriminant (Token.int_literal x y) = 35
  discriminant (Token.float_literal x y) = 36
  discriminant (Token.string_literal x) = 37
  discriminant (Token.interpolated_string x) = 38
  discriminant Token.plus = 39
  discriminant Token.minus = 40
  discriminant Token.star = 41
  discriminant Token.slash = 42
  discriminant Token.percent = 43
  discriminant Token.and_ = 44
  discriminant Token.or_ = 45
  discriminant Token.not_ = 46
  discriminant Token.assign = 47
  discriminant Token.eq = 48
  discriminant Token.not_eq = 49
  discriminant Token.less = 50
  discriminant Token.less_eq = 51
  discriminant Token.greater = 52
  discriminant Token.greater_eq = 53
  discriminant Token.question = 54
  discriminant Token.dot_dot = 55
  discriminant Token.dot_dot_eq = 56
  discriminant Token.left_paren = 57
  discriminant Token.right_paren = 58
  discriminant Token.left_brace = 59
  discriminant Token.right_brace = 60
  discriminant Token.left_bracket = 61
  discriminant Token.right_bracket = 62
  discriminant Token.semicolon = 63
  discriminant Token.comma = 64
  discriminant Token.arrow = 65
  discriminant Token.colon = 66
  discriminant Token.dot = 67
  discriminant Token.double_colon = 68
  discriminant Token.eof = 69

  abbrev pub is_eof : Token F → Bool
  is_eof t = discriminant t == discriminant Token.eof

-- `format!("{}", n)` of a usize; fuel `n + 1` is more than it has digits.
unfoldable pub decimal_from : ℕ → ℕ → Text
decimal_from zero n = []
decimal_from (suc fuel) n =
    let high = decimal_from fuel (n / 10) in
    if ltb n 10 then (b'0' + n) ∷ [] else high ++ (b'0' + n % 10) ∷ []

unfoldable pub decimal : ℕ → Text
unfolding decimal_from
decimal n = decimal_from (suc n) n

module _ {F : Type 0} (env : Env F) where
  unfoldable pub peek : Parse (TokenWithSpan F)
  peek c = lift (or_panic (get_elem? env.tokens c)) c

  abbrev at_previous : ℕ → Result (TokenWithSpan F)
  at_previous zero = panic
  at_previous (suc c) = or_panic (get_elem? env.tokens c)

  -- `self.tokens[self.current - 1]`
  unfoldable pub previous : Parse (TokenWithSpan F)
  previous c = lift (at_previous c) c

  unfoldable pub is_at_end : Parse Bool
  unfolding peek discriminant
  is_at_end = do t ← peek; pure (is_eof t.token)

  unfoldable pub current_span : Parse Span
  unfolding peek
  current_span = do t ← peek; pure t.span

  unfoldable pub previous_span : Parse Span
  unfolding previous
  previous_span = do t ← previous; pure t.span

  abbrev step_unless : Bool → Parse (Unit {0})
  step_unless true c = ok (tt, c)
  step_unless false c = ok (tt, suc c)

  -- `advance`, whose token is read by `previous`
  unfoldable pub advance : Parse (Unit {0})
  unfolding is_at_end previous
  advance = do end ← is_at_end; step_unless end; previous; pure tt

  -- `peek_next() == Some(token)` for a token without fields
  abbrev next_is : Option (TokenWithSpan F) → Token F → Bool
  next_is none token = false
  next_is (some t) token = discriminant t.token == discriminant token

  unfoldable pub is_next : Token F → Parse Bool
  unfolding discriminant
  is_next token c = ok (next_is (get_elem? env.tokens (suc c)) token, c)

  abbrev same_kind : Bool → Token F → Parse Bool
  same_kind true token = pure false
  same_kind false token = do t ← peek; pure (discriminant t.token == discriminant token)

  unfoldable pub check : Token F → Parse Bool
  unfolding is_at_end peek discriminant
  check token = do end ← is_at_end; same_kind end token

  abbrev advance_if : Bool → Parse Bool
  advance_if true = do advance; pure true
  advance_if false = pure false

  unfoldable pub match_token : Token F → Parse Bool
  unfolding check advance
  match_token token = do found ← check token; advance_if found

  -- `match_tokens`, with what the caller makes of each token
  unfoldable pub match_tokens : {A : Type 0} → List (Token F × A) → Parse (Option A)
  unfolding match_token
  match_tokens [] = pure none
  match_tokens ((token, a) ∷ rest) = do
    found ← match_token token
    (if found then pure (some a) else match_tokens rest)
