-- ===== src/Lexer/Numbers.antt =====
-- `Lexer::scan_number` and `Lexer::scan_identifier` of crates/plat-lexer/src/lib.rs, the parts of
-- `scan_number` as functions of their own. `str::parse::<f64>` is the argument `parse_f64`.
pub mod Progress
use plat.Base.{
  ok, ◌>>=◌, ℕ, ◌+◌, ◌-◌, ◌*◌, Bool, true, false, ◌&&◌, ◌||◌, [], ◌∷◌, ◌++◌, Option, none, some,
  Text, codes, text_eq, ltb, ◌==◌, if◌then◌else◌, i64_half,
}
use plat.Diags.{new}
use plat.Lexer.Token.{Token, IntType, FloatType, keyword_from_str}
use plat.Lexer.Chars.{is_ascii_digit, is_identifier_part, is_number_part}
use plat.Lexer.State.{
  Result, Lexer, fail, peek, peek_next, advance, advance_while, add_token, lexeme, is_char,
  is_some_and,
}

-- `.filter(|&c| *c != '_').collect()`
unfoldable pub without_underscores : Text → Text
without_underscores [] = []
without_underscores (c ∷ cs) =
    if c == b'_' then without_underscores cs else c ∷ without_underscores cs

unfoldable pub decimal_value : ℕ → Text → Option ℕ
unfolding is_ascii_digit
decimal_value acc [] = some acc
decimal_value acc (c ∷ cs) =
    let rest = decimal_value (acc * 10 + (c - b'0')) cs in if is_ascii_digit c then rest else none

abbrev pub in_i64 : Option ℕ → Option ℕ
in_i64 none = none
in_i64 (some n) = if ltb n i64_half then some n else none

-- `str::parse::<i64>` on a text with no sign
unfoldable pub parse_i64 : Text → Option ℕ
unfolding decimal_value
parse_i64 [] = none
parse_i64 (c ∷ cs) = in_i64 (decimal_value 0 (c ∷ cs))

unfoldable pub int_type : Option Text → Option IntType
int_type none = some IntType.i32
int_type (some s) =
    if text_eq s (codes "i8")
    then some IntType.i8
    else if text_eq s (codes "i16")
    then some IntType.i16
    else if text_eq s (codes "i32")
    then some IntType.i32
    else if text_eq s (codes "i64")
    then some IntType.i64
    else none

unfoldable pub float_type : Option Text → Option FloatType
float_type none = some FloatType.f64
float_type (some s) =
    if text_eq s (codes "f8")
    then some FloatType.f8
    else if text_eq s (codes "f16")
    then some FloatType.f16
    else if text_eq s (codes "f32")
    then some FloatType.f32
    else if text_eq s (codes "f64")
    then some FloatType.f64
    else none

abbrev is_some {ℓ} : {A : Type ℓ} → Option A → Bool
is_some none = false
is_some (some a) = true

-- `matches!(suffix.as_deref(), Some("f8") | Some("f16") | Some("f32") | Some("f64"))`
unfoldable pub is_float_suffix : Option Text → Bool
unfolding float_type
is_float_suffix none = false
is_float_suffix (some s) = is_some (float_type (some s))

abbrev pub get_text : Option Text → Text
get_text none = []
get_text (some s) = s

module _ {F : Type 0} where
  -- The decimal point and the digits behind it, unless the point begins a range.
  unfoldable pub scan_fraction : Lexer F → Lexer F × Bool
  unfolding is_ascii_digit is_number_part advance_while
  scan_fraction l =
      if is_char (peek l) b'.' && is_some_and (peek_next l) is_ascii_digit
      then (advance_while is_number_part (advance l), true)
      else (l, false)

  abbrev skip_sign : Lexer F → Lexer F
  skip_sign l = if is_char (peek l) b'+' || is_char (peek l) b'-' then advance l else l

  unfoldable pub scan_exponent : ℕ → Lexer F → Result (Lexer F × Bool)
  unfolding is_ascii_digit is_number_part advance_while fail
  scan_exponent start l =
      if is_char (peek l) b'e' || is_char (peek l) b'E'
      then (let l' = skip_sign (advance l) in
          if is_some_and (peek l') is_ascii_digit
          then ok (advance_while is_number_part l', true)
          else fail l'.filename (new start l'.current) (codes "Invalid scientific notation")
              (codes "expected digit after 'e' or 'E'")
              (codes
                "Scientific notation requires digits after the exponent marker (e.g., 1.5e10)"))
      else ok (l, false)

  unfoldable pub scan_suffix : Lexer F → Lexer F × Option Text
  unfolding is_ascii_digit advance_while lexeme
  scan_suffix l =
      if is_char (peek l) b'f' || is_char (peek l) b'i'
      then (let l' = advance_while is_ascii_digit (advance l) in (l', some (lexeme l.current l')))
      else (l, none)

  abbrev pub emit_int : Option IntType → ℕ → Lexer F → ℕ → Option Text → Result (Lexer F)
  emit_int none start l value suffix =
      fail l.filename (new start l.current)
        (codes "Invalid integer suffix '" ++ get_text suffix ++ codes "'") (codes "invalid suffix")
        (codes "Valid suffixes are 'i8', 'i16', 'i32', and 'i64'")
  emit_int (some ty) start l value suffix = ok (add_token (Token.int_literal value ty) start l)

  unfoldable pub int_token : ℕ → Lexer F → Option ℕ → Option Text → Result (Lexer F)
  unfolding int_type fail add_token
  int_token start l none suffix =
      fail l.filename (new start l.current) (codes "Invalid integer literal")
        (codes "cannot parse as integer")
        (codes "Check the number format and ensure it fits in the integer range")
  int_token start l (some value) suffix = emit_int (int_type suffix) start l value suffix

  abbrev pub emit_float : Option FloatType → ℕ → Lexer F → F → Option Text → Result (Lexer F)
  emit_float none start l value suffix =
      fail l.filename (new start l.current)
        (codes "Invalid float suffix '" ++ get_text suffix ++ codes "'") (codes "invalid suffix")
        (codes "Valid suffixes are 'f8', 'f16', 'f32', and 'f64'")
  emit_float (some ty) start l value suffix = ok (add_token (Token.float_literal value ty) start l)

  unfoldable pub float_token : ℕ → Lexer F → Option F → Option Text → Result (Lexer F)
  unfolding float_type fail add_token
  float_token start l none suffix =
      fail l.filename (new start l.current) (codes "Invalid float literal")
        (codes "cannot parse as floating point number")
        (codes "Check the number format (e.g., 3.14, 1.5e10)")
  float_token start l (some value) suffix = emit_float (float_type suffix) start l value suffix

  -- From the suffix on: `is_float` and `has_exponent` are the two flags.
  unfoldable pub number_token : (Text → Option F) → ℕ → Lexer F → Bool → Bool → Result (Lexer F)
  unfolding scan_suffix int_token float_token without_underscores parse_i64 is_float_suffix lexeme
  number_token parse_f64 start l is_float has_exponent =
      let num_str = without_underscores (lexeme start l) in
      let (l', suffix) = scan_suffix l in
      if is_float || has_exponent || is_float_suffix suffix
      then float_token start l' (parse_f64 num_str) suffix
      else int_token start l' (parse_i64 num_str) suffix

  unfoldable pub scan_number : (Text → Option F) → ℕ → Lexer F → Result (Lexer F)
  unfolding advance_while is_number_part scan_fraction scan_exponent number_token
  scan_number parse_f64 start l =
      let (l', is_float) = scan_fraction (advance_while is_number_part l) in
      scan_exponent start l' >>= λ (l'', has_exponent).
      number_token parse_f64 start l'' is_float has_exponent

  abbrev pub identifier_token : Option (Token F) → Text → Token F
  identifier_token none s = Token.ident s
  identifier_token (some token) s = token

  unfoldable pub scan_identifier : ℕ → Lexer F → Lexer F
  unfolding advance_while is_identifier_part lexeme keyword_from_str add_token
  scan_identifier start l =
      let l' = advance_while is_identifier_part l in
      let text = lexeme start l' in
      add_token (identifier_token (keyword_from_str text) text) start l'
