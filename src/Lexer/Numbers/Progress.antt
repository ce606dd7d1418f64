-- ===== src/Lexer/Numbers/Progress.antt =====
-- How `scan_number` and `scan_identifier` of crates/plat-lexer/src/lib.rs move the cursor.
use plat.Base.{
  Ensures, returns, ◌⟫◌, ℕ, ◌≤◌, ◌<◌, ◌≡◌, Bool, true, false, refl, ◌&&◌, ◌||◌, Bool-cases, inl,
  inr, if_intro, and_true, List, [], ◌∷◌, text_eq, Option, none, some, Text, arith, length,
}
use plat.Lexer.Token.{Token, IntType, FloatType, keywords, first_arm, keyword_from_str}
use plat.Lexer.Chars.{is_ascii_digit, is_number_part, is_identifier_part}
use plat.Lexer.State.{Lexer, lexeme, peek, peek_next, advance, advance_while, is_char, is_some_and}
use plat.Lexer.Numbers.{
  skip_sign, scan_fraction, scan_exponent, scan_suffix, int_type, float_type, int_token,
  float_token, emit_int, emit_float, number_token, scan_number, scan_identifier, identifier_token,
  is_float_suffix,
}
use plat.Lexer.Moves.{
  IsShort, IsShortIf, IsErrorIn, Moved, Moved-refl, Moved-trans, lt_of_is_char, advance-Moved,
  advance_while-Moved, Ensures-Moved, Emitted, add_token-Emitted, inside_after, fail_after,
}

module _ {F : Type 0} where
  skip_one :
      (l : Lexer F) (c : ℕ)
      → is_char (peek l) c ≡ true
      → (p : ℕ → Bool) → Moved l (advance_while p (advance l))
  skip_one l c h p =
      let m = advance-Moved l (lt_of_is_char l c h) in
      Moved-trans m (advance_while-Moved p (advance l) m.inside)

  scan_fraction-Moved : (l : Lexer F) → l.current ≤ length l.input → Moved l (scan_fraction l).0
  unfolding scan_fraction
  scan_fraction-Moved l hi =
      if_intro (λ (r : Lexer F × Bool). Moved l r.0)
        (is_char (peek l) b'.' && is_some_and (peek_next l) is_ascii_digit)
        (λ t. skip_one l b'.' (and_true t).0 is_number_part) (λ _. Moved-refl l hi)

  -- A test for one of two characters holds only before the end.
  lt_of_either :
      (l : Lexer F) (c d : ℕ)
      → (is_char (peek l) c || is_char (peek l) d) ≡ true
      → l.current < length l.input
  lt_of_either l c d h = elim (Bool-cases (is_char (peek l) c)) [
    | inl t ↦ lt_of_is_char l c t
    | inr f ↦ lt_of_is_char l d (rw f at h)
  ]

  skip_sign-Moved : (l : Lexer F) → l.current ≤ length l.input → Moved l (skip_sign l)
  skip_sign-Moved l hi =
      if_intro (Moved l) (is_char (peek l) b'+' || is_char (peek l) b'-')
        (λ t. advance-Moved l (lt_of_either l b'+' b'-' t)) (λ _. Moved-refl l hi)

  scan_exponent-Moved :
      (start : ℕ) (l : Lexer F)
      → start ≤ l.current
      → l.current ≤ length l.input
      → Ensures (λ r. Moved l r.0) (IsErrorIn l.filename l.input) (scan_exponent start l)
  unfolding scan_exponent
  scan_exponent-Moved start l hs hi =
      let E = Ensures (λ (r : Lexer F × Bool). Moved l r.0) (IsErrorIn l.filename l.input) in
      if_intro E (is_char (peek l) b'e' || is_char (peek l) b'E')
        (λ t.
          let m = advance-Moved l (lt_of_either l b'e' b'E' t) in
          let l' = skip_sign (advance l) in
          let m' : Moved l l' = Moved-trans m (skip_sign-Moved (advance l) m.inside) in
          if_intro E (is_some_and (peek l') is_ascii_digit)
            (λ _.
              returns (Moved-trans m' (advance_while-Moved is_number_part l' (inside_after m'))))
            (λ _. fail_after start _ _ _ hs m'))
        (λ _. returns (Moved-refl l hi))

  scan_suffix-Moved : (l : Lexer F) → l.current ≤ length l.input → Moved l (scan_suffix l).0
  unfolding scan_suffix
  scan_suffix-Moved l hi =
      if_intro (λ (r : Lexer F × Option Text). Moved l r.0)
        (is_char (peek l) b'f' || is_char (peek l) b'i')
        (λ t.
          let m = advance-Moved l (lt_of_either l b'f' b'i' t) in
          Moved-trans m (advance_while-Moved is_ascii_digit (advance l) m.inside))
        (λ _. Moved-refl l hi)

  emit_int-Emitted :
      (start : ℕ) {l : Lexer F} (l' : Lexer F) (ty : Option IntType) (value : ℕ)
      (suffix : Option Text)
      → start ≤ l.current
      → Moved l l'
      → Ensures (Emitted start l) (IsErrorIn l.filename l.input) (emit_int ty start l' value suffix)
  emit_int-Emitted start l' none value suffix hs m = fail_after start _ _ _ hs m
  emit_int-Emitted start l' (some ty) value suffix hs m =
      returns (add_token-Emitted (Token.int_literal value ty) start tt m)

  int_token-Emitted :
      (start : ℕ) {l : Lexer F} (l' : Lexer F) (value : Option ℕ) (suffix : Option Text)
      → start ≤ l.current
      → Moved l l'
      → Ensures (Emitted start l) (IsErrorIn l.filename l.input) (int_token start l' value suffix)
  unfolding int_token
  int_token-Emitted start l' none suffix hs m = fail_after start _ _ _ hs m
  int_token-Emitted start l' (some value) suffix hs m =
      emit_int-Emitted start l' (int_type suffix) value suffix hs m

  emit_float-Emitted :
      (start : ℕ) {l : Lexer F} (l' : Lexer F) (ty : Option FloatType) (value : F)
      (suffix : Option Text)
      → start ≤ l.current
      → Moved l l'
      → Ensures
          (Emitted start l)
          (IsErrorIn l.filename l.input)
          (emit_float ty start l' value suffix)
  emit_float-Emitted start l' none value suffix hs m = fail_after start _ _ _ hs m
  emit_float-Emitted start l' (some ty) value suffix hs m =
      returns (add_token-Emitted (Token.float_literal value ty) start tt m)

  float_token-Emitted :
      (start : ℕ) {l : Lexer F} (l' : Lexer F) (value : Option F) (suffix : Option Text)
      → start ≤ l.current
      → Moved l l'
      → Ensures (Emitted start l) (IsErrorIn l.filename l.input) (float_token start l' value suffix)
  unfolding float_token
  float_token-Emitted start l' none suffix hs m = fail_after start _ _ _ hs m
  float_token-Emitted start l' (some value) suffix hs m =
      emit_float-Emitted start l' (float_type suffix) value suffix hs m

  number_token-Emitted :
      (parse_f64 : Text → Option F) (start : ℕ) {l : Lexer F} (l' : Lexer F)
      (is_float has_exponent : Bool)
      → start ≤ l.current
      → Moved l l'
      → Ensures
          (Emitted start l)
          (IsErrorIn l.filename l.input)
          (number_token parse_f64 start l' is_float has_exponent)
  unfolding number_token
  number_token-Emitted parse_f64 start {l} l' is_float has_exponent hs m =
      let m' = Moved-trans m (scan_suffix-Moved l' (inside_after m)) in
      if_intro (Ensures (Emitted start l) (IsErrorIn l.filename l.input))
        (is_float || has_exponent || is_float_suffix (scan_suffix l').1)
        (λ _. float_token-Emitted start _ _ _ hs m') (λ _. int_token-Emitted start _ _ _ hs m')

  -- From behind the first digit the scan returns with one number token, whose span begins at
  -- `start`, or with an error in the file.
  pub scan_number-Emitted :
      (parse_f64 : Text → Option F) (start : ℕ) (l : Lexer F)
      → start ≤ l.current
      → l.current ≤ length l.input
      → Ensures (Emitted start l) (IsErrorIn l.filename l.input) (scan_number parse_f64 start l)
  unfolding scan_number
  scan_number-Emitted parse_f64 start l hs hi =
      let m = advance_while-Moved is_number_part l hi in
      let m' =
        Moved-trans m (scan_fraction-Moved (advance_while is_number_part l) (inside_after m)) in
      Ensures-Moved m' (
        scan_exponent-Moved start (scan_fraction (advance_while is_number_part l)).0
          (omega (arith, m'.forward)) (inside_after m'))
      ⟫ λ r n. number_token-Emitted parse_f64 start r.0 _ r.1 hs (Moved-trans m' n)

  -- No keyword is a string with interpolations or the end of file.
  abbrev is_plain : Token F → Bool
  is_plain Token.eof = false
  is_plain (Token.interpolated_string parts) = false
  is_plain _ = true

  abbrev are_plain : List (Text × Token F) → Bool
  are_plain [] = true
  are_plain ((word, token) ∷ arms) = is_plain token && are_plain arms

  plain-IsShort : (n : ℕ) (t : Token F) → is_plain t ≡ true → IsShort n t
  plain-IsShort n Token.eof h = absurd (cc h)
  plain-IsShort n (Token.interpolated_string parts) h = absurd (cc h)
  plain-IsShort n _ h = tt

  first_arm-IsShortIf :
      (n : ℕ) (s : Text) (arms : List (Text × Token F))
      → are_plain arms ≡ true
      → IsShortIf n (first_arm s arms)
  unfolding first_arm
  first_arm-IsShortIf n s [] h = tt
  first_arm-IsShortIf n s ((word, token) ∷ arms) h =
      if_intro (IsShortIf n) (text_eq s word) (λ _. plain-IsShort n token (and_true h).0)
        (λ _. first_arm-IsShortIf n s arms (and_true h).1)

module _ (F : Type 0) where
  keyword_from_str-IsShortIf : (n : ℕ) (s : Text) → IsShortIf {F = F} n (keyword_from_str s)
  unfolding keyword_from_str
  keyword_from_str-IsShortIf n s = first_arm-IsShortIf n s keywords refl

module _ {F : Type 0} where
  identifier_token-IsShort :
      (n : ℕ) (o : Option (Token F)) (s : Text) → IsShortIf n o → IsShort n (identifier_token o s)
  identifier_token-IsShort n none s h = tt
  identifier_token-IsShort n (some token) s h = h

  pub scan_identifier-Emitted :
      (start : ℕ) (l : Lexer F)
      → l.current ≤ length l.input
      → Emitted start l (scan_identifier start l)
  unfolding scan_identifier
  scan_identifier-Emitted start l hi =
      let text = lexeme start (advance_while is_identifier_part l) in
      add_token-Emitted _ start
        (identifier_token-IsShort (length l.input) (keyword_from_str text) text
          (keyword_from_str-IsShortIf F (length l.input) text))
        (advance_while-Moved is_identifier_part l hi)
