-- ===== src/Parser/Total/Input.antt =====
-- From the input to the program: `Parser::new` and `Parser::parse` of crates/plat-parser/src/lib.rs on the
-- tokens of the lexer.
use plat.Base.{
  Ensures, Ensures-weaken, value_of, Returns, returns, throws, ◌⟫◌, ok, ℕ, zero, suc, ◌≤◌, ◌<◌, ◌≡◌,
  refl, ap, ◌∙◌, true, false, List, [], ◌∷◌, ◌++◌, Option, some, Text, codes, arith, length,
  length-append, get_elem?, Bool,
}
use plat.Diags.{new, DiagnosticError}
use plat.Lexer.Token.{Token, TokenWithSpan, StringPart}
use plat.Lexer.State.{Result}
use plat.Lexer.Moves.{AreShort, IsShort, IsErrorIn}
use plat.Lexer.Tokenize.{tokenize_text}
use plat.Lexer.Tokenize.Layout.{AreShortIn, IsTokenized, tokenize_total}
use plat.Parser.State.{Env, is_eof, discriminant}
use plat.Parser.Statements.{all_calls}
use plat.Parser.Program.{env_of, result_of, interpolation, parse_tokens, parse, parse_program}
use plat.Parser.Total.{IsStream, AreParsed, IsParsed, Lands}
use plat.Parser.Total.Statements.{all_calls-Answers, parse_expression-Passes}
use plat.Parser.Literals.{is_dict_literal}
use plat.Parser.Blocks.{parse_if_expression}
use plat.Ast.Spans.{expr_span}
use plat.Parser.Total.Blocks.{parse_if_expression-Makes}
use plat.Parser.Total.Lookahead.{StartsDict, Decides, is_dict_literal-Decides}
use plat.Parser.Total.Program.{parse_program-Stays, parse_program-Makes}

result_of-Returns :
    {A : Type 0} {last lo : ℕ} {r : Result (A × ℕ)} → Lands last lo r → Returns (result_of r)
result_of-Returns h = h ⟫ λ (a, c) m. returns tt

module _ {F : Type 0} (n : ℕ) where
  inner_of_IsShort : (t : Token F) → IsShort n t → is_eof t ≡ false
  unfolding discriminant
  inner_of_IsShort Token.eof h = elim h [ ]
  inner_of_IsShort (Token.ident s) h = refl
  inner_of_IsShort _ h = refl

  -- There is no `eof` but the last token.
  eof_last :
      (body : List (TokenWithSpan F)) (e t : TokenWithSpan F) (c : ℕ)
      → AreShortIn n body
      → get_elem? (body ++ e ∷ []) c ≡ some t
      → is_eof t.token ≡ true
      → c ≡ length body
  eof_last [] e t zero h at eof = refl
  eof_last [] e t (suc c) h at eof = absurd (cc at)
  eof_last (u ∷ body) e t zero h at eof = absurd (cc (inner_of_IsShort u.token h.0, at, eof))
  eof_last (u ∷ body) e t (suc c) h at eof = ap suc (eof_last body e t c h.1 at eof)

  stands_at_last :
      {ts : List (TokenWithSpan F)} {t : TokenWithSpan F} {c : ℕ}
      → IsTokenized n ts
      → get_elem? ts c ≡ some t
      → is_eof t.token ≡ true
      → suc c ≡ length ts
  stands_at_last {t = t} {c = c} (body, e, laid_out, short) at eof =
      let last = eof_last body _ t c short (rw e at at) eof in
      rw e (
        omega (arith, last, length-append body (record { token = Token.eof; span = new n n } ∷ [])))

module _ {F : Type 0} (env : Env F) (n : ℕ)
    (nested : (s : Text) → length s < n → Returns (env.parse_interpolation s)) where
  AreShort-AreParsed : (parts : List StringPart) → AreShort n parts → AreParsed env parts
  AreShort-AreParsed [] h = tt
  AreShort-AreParsed (StringPart.text s ∷ parts) h = AreShort-AreParsed parts h
  AreShort-AreParsed (StringPart.interpolation s ∷ parts) (h, hs) =
      (nested s h, AreShort-AreParsed parts hs)

  IsShort-IsParsed : (t : Token F) → IsShort n t → IsParsed env t
  IsShort-IsParsed (Token.interpolated_string parts) h = AreShort-AreParsed parts h
  IsShort-IsParsed _ h = tt

  tokens-at :
      (body : List (TokenWithSpan F)) (e : TokenWithSpan F) (c : ℕ)
      → AreShortIn n body
      → IsParsed env e.token
      → c ≤ length body
      → (t : TokenWithSpan F) × (get_elem? (body ++ e ∷ []) c ≡ some t) × IsParsed env t.token
  tokens-at [] e zero h k le = (e, refl, k)
  tokens-at [] e (suc c) h k le = absurd (omega arith)
  tokens-at (t ∷ body) e zero h k le = (t, refl, IsShort-IsParsed t.token h.0)
  tokens-at (t ∷ body) e (suc c) h k le = tokens-at body e c h.1 k (omega arith)

  tokens-inner :
      (body : List (TokenWithSpan F)) (e t : TokenWithSpan F) (c : ℕ)
      → is_eof e.token ≡ true
      → c ≤ length body
      → get_elem? (body ++ e ∷ []) c ≡ some t
      → is_eof t.token ≡ false
      → c < length body
  tokens-inner [] e t zero h le at inner = absurd (cc (h, at, inner))
  tokens-inner [] e t (suc c) h le at inner = absurd (omega arith)
  tokens-inner (u ∷ body) e t zero h le at inner = omega arith
  tokens-inner (u ∷ body) e t (suc c) h le at inner =
      omega (arith, tokens-inner body e t c h (omega arith) at inner)

  IsTokenized-IsStream : IsTokenized n env.tokens → IsStream env
  unfolding discriminant
  IsTokenized-IsStream (body, e, laid_out, short) = record {
    last = length body;
    size =
        rw e (length-append body (record { token = Token.eof; span = new n n } ∷ []) ∙ omega arith);
    at = λ c le. rw e (tokens-at body _ c short tt le);
    inner = λ c t le at inner. tokens-inner body _ t c refl le (rw e at at) inner;
  }

forget_error :
    {A : Type 0} {P : A → Type 0} {Q : DiagnosticError → Type 0} {r : Result A}
    → Ensures P Q r
    → Ensures P (λ _. Unit {0}) r
forget_error (returns h) = returns h
forget_error (throws h) = throws tt

module _ {F : Type 0} (parse_f64 : Text → Option F) (is_uppercase : ℕ → Bool)
    (debug : Token F → Text) where
  -- The nesting of interpolations is less deep than the text is long.
  pub interpolation-Returns :
      (n : ℕ) (text : Text)
      → length text < n
      → Returns (interpolation parse_f64 is_uppercase debug n text)
  unfolding interpolation
  interpolation-Returns zero text h = absurd (omega arith)
  interpolation-Returns (suc n) text h =
      forget_error (tokenize_total parse_f64 text) ⟫ λ tokens ok_tokens.
      let env =
        env_of parse_f64 is_uppercase debug (interpolation parse_f64 is_uppercase debug n)
          (codes "<unknown>") tokens in
      let s : IsStream env =
        IsTokenized-IsStream env (length text) (λ s lt. interpolation-Returns n s (omega arith))
          ok_tokens in
      result_of-Returns ((parse_expression-Passes s).lands 0 (omega arith) (omega arith))

  -- The environment in which `Parser::new(input)?` parses.
  abbrev pub env_for : Text → List (TokenWithSpan F) → Env F
  env_for input tokens =
      env_of parse_f64 is_uppercase debug
        (interpolation parse_f64 is_uppercase debug (length input)) (codes "<unknown>") tokens

  pub IsTokenized-env_for :
      (input : Text) (tokens : List (TokenWithSpan F))
      → IsTokenized (length input) tokens
      → IsStream (env_for input tokens)
  IsTokenized-env_for input tokens h =
      IsTokenized-IsStream (env_for input tokens) (length input)
        (λ s lt. interpolation-Returns (length input) s lt) h

  tokens_of-IsTokenized :
      (input : Text) (tokens : List (TokenWithSpan F))
      → tokenize_text parse_f64 input ≡ ok tokens
      → IsTokenized (length input) tokens
  tokens_of-IsTokenized input tokens e =
      let h : Ensures (IsTokenized (length input)) (IsErrorIn (codes "<unknown>") input)
          (tokenize_text parse_f64 input) =
        tokenize_total parse_f64 input in
      value_of (rw e at h)

  pub tokens_of-IsStream :
      (input : Text) (tokens : List (TokenWithSpan F))
      → tokenize_text parse_f64 input ≡ ok tokens
      → IsStream (env_for input tokens)
  tokens_of-IsStream input tokens e =
      IsTokenized-env_for input tokens (tokens_of-IsTokenized input tokens e)

  -- For every input `parse` returns: a program or an error. No index is out of bounds, no position goes
  -- below zero, no `unreachable!` is reached, and no loop or recursion goes on for ever.
  pub parse_total : (input : Text) → Returns (parse parse_f64 is_uppercase debug input)
  unfolding parse parse_tokens
  parse_total input = forget_error (tokenize_total parse_f64 input) ⟫ λ tokens ok_tokens.
      let s = IsTokenized-env_for input tokens ok_tokens in
      result_of-Returns (
        (parse_program-Stays s (all_calls-Answers s (omega arith)) {b = 0}).lands 0 (omega arith)
          (omega arith))

  -- On the tokens of an input the parser returns a program or an error, and with a program it stands at
  -- the last of the tokens: it has passed all the others.
  pub parse_program-IsAtEof :
      (input : Text) (tokens : List (TokenWithSpan F))
      → tokenize_text parse_f64 input ≡ ok tokens
      → Ensures
          (λ x. suc x.1 ≡ length tokens)
          (λ _. Unit {0})
          (parse_program (env_for input tokens) (all_calls (env_for input tokens)) 0)
  parse_program-IsAtEof input tokens e =
      let s = tokens_of-IsStream input tokens e in
      let h = tokens_of-IsTokenized input tokens e in
      Ensures-weaken (λ x m. stands_at_last (length input) h m.0.1 m.0.2)
        ((parse_program-Makes s (all_calls-Answers s (omega arith)) {b = 0}).makes 0 (omega arith)
          (omega arith))

  -- From each position behind a token, `parse_if_expression` returns an error or an expression whose span
  -- ends at 0.
  pub parse_if_expression-EndsAtZero :
      (input : Text) (tokens : List (TokenWithSpan F)) (c : ℕ)
      → tokenize_text parse_f64 input ≡ ok tokens
      → 1 ≤ c
      → c < length tokens
      → Ensures
          (λ x. (expr_span x.0).end ≡ 0)
          (λ _. Unit {0})
          (parse_if_expression (env_for input tokens) (all_calls (env_for input tokens)) c)
  parse_if_expression-EndsAtZero input tokens c e h inside =
      let s = tokens_of-IsStream input tokens e in
      Ensures-weaken (λ x m. m.0)
        ((parse_if_expression-Makes s h (all_calls-Answers s (omega arith))).makes c (omega arith)
          (omega (arith, s.size)))

  -- At each token of an input, `is_dict_literal` returns whether a dict starts there: whether the token is
  -- `}` or the end of the file, or a text or a name with a `:` behind it. It leaves `current` as it was.
  pub is_dict_literal-StartsDict :
      (input : Text) (tokens : List (TokenWithSpan F)) (c : ℕ)
      → tokenize_text parse_f64 input ≡ ok tokens
      → c < length tokens
      → (b : Bool) × (is_dict_literal (env_for input tokens) c ≡ ok (b, c))
        × Decides b (StartsDict (env_for input tokens) c)
  is_dict_literal-StartsDict input tokens c e inside =
      let s = tokens_of-IsStream input tokens e in
      is_dict_literal-Decides s c (omega (arith, s.size))
