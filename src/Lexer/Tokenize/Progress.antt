-- ===== src/Lexer/Tokenize/Progress.antt =====
-- How a round of the main loop of crates/plat-lexer/src/lib.rs moves the cursor.
use plat.Base.{
  Ensures, returns, throws, ℕ, ◌≤◌, ◌⊎◌, inl, inr, if_intro, Option, none, some, Text, arith, ◌==◌,
  length, not,
}
use plat.Lexer.Token.{Token}
use plat.Lexer.Chars.{is_ascii_digit, is_identifier_start, is_whitespace}
use plat.Lexer.State.{Result, Lexer, peek, is_char, skip_whitespace}
use plat.Lexer.Tokenize.{one_or_two, scan_dot, scan_bang, single, scan_longer, scan_arm, scan_char}
use plat.Lexer.Strings.Progress.{scan_string-Emitted}
use plat.Lexer.Numbers.Progress.{scan_number-Emitted, scan_identifier-Emitted}
use plat.Lexer.Moves.{
  IsErrorIn, Moved, Moved-refl, Moved-trans, lt_of_is_char, advance-Moved, advance_while-Moved,
  IsShort, IsShortIf, Emitted, add_token-Emitted, fail-IsErrorIn,
}

module _ (F : Type 0) where
  single-IsShortIf : (n c : ℕ) → IsShortIf {F = F} n (single c)
  unfolding single
  single-IsShortIf n c =
      if_intro (IsShortIf n) (c == b'+') (λ _. tt)
        (λ _.
          if_intro (IsShortIf n) (c == b'*') (λ _. tt)
            (λ _.
              if_intro (IsShortIf n) (c == b'%') (λ _. tt)
                (λ _.
                  if_intro (IsShortIf n) (c == b'(') (λ _. tt)
                    (λ _.
                      if_intro (IsShortIf n) (c == b')') (λ _. tt)
                        (λ _.
                          if_intro (IsShortIf n) (c == b'{') (λ _. tt)
                            (λ _.
                              if_intro (IsShortIf n) (c == b'}') (λ _. tt)
                                (λ _.
                                  if_intro (IsShortIf n) (c == b'[') (λ _. tt)
                                    (λ _.
                                      if_intro (IsShortIf n) (c == b']') (λ _. tt)
                                        (λ _.
                                          if_intro (IsShortIf n) (c == b';') (λ _. tt)
                                            (λ _.
                                              if_intro (IsShortIf n) (c == b',') (λ _. tt)
                                                (λ _.
                                                  if_intro (IsShortIf n) (c == b'?') (λ _. tt)
                                                    (λ _. tt))))))))))))

module _ {F : Type 0} where
  -- A round emits one token, or passes a comment.
  abbrev pub Scanned : ℕ → Lexer F → Lexer F → Type 0
  Scanned start l l' = Emitted start l l' ⊎ Moved l l'

  emits :
      {start : ℕ} {l : Lexer F} {r : Result (Lexer F)}
      → Ensures (Emitted start l) (IsErrorIn l.filename l.input) r
      → Ensures (Scanned start l) (IsErrorIn l.filename l.input) r
  emits (returns h) = returns (inl h)
  emits (throws h) = throws h

  one_or_two-Emitted :
      (second : ℕ) (long short : Token F) (start : ℕ) {l : Lexer F} (l' : Lexer F)
      → IsShort (length l.input) long
      → IsShort (length l.input) short
      → Moved l l'
      → Emitted start l (one_or_two second long short start l')
  unfolding one_or_two
  one_or_two-Emitted second long short start {l} l' hl hs m =
      if_intro (Emitted start l) (is_char (peek l') second)
        (λ t.
          add_token-Emitted long start hl
            (Moved-trans m (advance-Moved l' (lt_of_is_char l' second t))))
        (λ _. add_token-Emitted short start hs m)

  scan_dot-Emitted :
      (start : ℕ) (l : Lexer F) → l.current ≤ length l.input → Emitted start l (scan_dot start l)
  unfolding scan_dot
  scan_dot-Emitted start l hi =
      if_intro (Emitted start l) (is_char (peek l) b'.')
        (λ t. one_or_two-Emitted _ _ _ start _ tt tt (advance-Moved l (lt_of_is_char l b'.' t)))
        (λ _. add_token-Emitted Token.dot start tt (Moved-refl l hi))

  scan_bang-Emitted :
      (start : ℕ) (l : Lexer F)
      → start ≤ l.current
      → l.current ≤ length l.input
      → Ensures (Emitted start l) (IsErrorIn l.filename l.input) (scan_bang start l)
  unfolding scan_bang
  scan_bang-Emitted start l hs hi =
      if_intro (Ensures (Emitted start l) (IsErrorIn l.filename l.input)) (is_char (peek l) b'=')
        (λ t.
          returns
            (add_token-Emitted Token.not_eq start tt (advance-Moved l (lt_of_is_char l b'=' t))))
        (λ _. fail-IsErrorIn _ _ _ _ _ _ (omega arith) (omega arith))

  scan_longer-Scanned :
      (parse_f64 : Text → Option F) (c start : ℕ) (l : Lexer F)
      → start ≤ l.current
      → l.current ≤ length l.input
      → Ensures (Scanned start l) (IsErrorIn l.filename l.input) (scan_longer parse_f64 c start l)
  unfolding scan_longer
  scan_longer-Scanned parse_f64 c start l hs hi =
      let E = Ensures (Scanned start l) (IsErrorIn l.filename l.input) in
      let here = Moved-refl l hi in
      if_intro E (c == b'-') (λ _. returns (inl (one_or_two-Emitted _ _ _ start l tt tt here)))
        λ _.
          if_intro E (c == b'/')
            (λ _. returns (
              if_intro (Scanned start l) (is_char (peek l) b'/')
                (λ _. inr (advance_while-Moved (λ d. not (d == b'\n')) l hi))
                (λ _. inl (add_token-Emitted Token.slash start tt here))))
            λ _.
              if_intro E (c == b':')
                (λ _. returns (inl (one_or_two-Emitted _ _ _ start l tt tt here)))
                λ _.
                  if_intro E (c == b'.') (λ _. returns (inl (scan_dot-Emitted start l hi)))
                    λ _.
                      if_intro E (c == b'=')
                        (λ _. returns (inl (one_or_two-Emitted _ _ _ start l tt tt here)))
                        λ _.
                          if_intro E (c == b'!') (λ _. emits (scan_bang-Emitted start l hs hi))
                            λ _.
                              if_intro E (c == b'<')
                                (λ _. returns (inl (one_or_two-Emitted _ _ _ start l tt tt here)))
                                λ _.
                                  if_intro E (c == b'>')
                                    (λ _.
                                      returns (inl (one_or_two-Emitted _ _ _ start l tt tt here)))
                                    λ _.
                                      if_intro E (c == b'"')
                                        (λ _. emits (scan_string-Emitted start l hs hi))
                                        λ _.
                                          if_intro E (is_ascii_digit c)
                                            (λ _.
                                              emits (scan_number-Emitted parse_f64 start l hs hi))
                                            λ _.
                                              if_intro E (is_identifier_start c)
                                                (λ _.
                                                  returns
                                                    (inl (scan_identifier-Emitted start l hi)))
                                                λ _.
                                                  fail-IsErrorIn _ _ _ _ _ _ (omega arith)
                                                    (omega arith)

  scan_arm-Scanned :
      (parse_f64 : Text → Option F) (o : Option (Token F)) (c start : ℕ) (l : Lexer F)
      → IsShortIf (length l.input) o
      → start ≤ l.current
      → l.current ≤ length l.input
      → Ensures (Scanned start l) (IsErrorIn l.filename l.input) (scan_arm parse_f64 o c start l)
  scan_arm-Scanned parse_f64 none c start l short hs hi =
      scan_longer-Scanned parse_f64 c start l hs hi
  scan_arm-Scanned parse_f64 (some token) c start l short hs hi =
      returns (inl (add_token-Emitted token start short (Moved-refl l hi)))

  pub scan_char-Scanned :
      (parse_f64 : Text → Option F) (c start : ℕ) (l : Lexer F)
      → start ≤ l.current
      → l.current ≤ length l.input
      → Ensures (Scanned start l) (IsErrorIn l.filename l.input) (scan_char parse_f64 c start l)
  unfolding scan_char
  scan_char-Scanned parse_f64 c start l =
      scan_arm-Scanned parse_f64 (single c) c start l (single-IsShortIf F _ c)

  pub skip_whitespace-Moved :
      (l : Lexer F) → l.current ≤ length l.input → Moved l (skip_whitespace l)
  unfolding skip_whitespace
  skip_whitespace-Moved l hi = advance_while-Moved is_whitespace l hi
