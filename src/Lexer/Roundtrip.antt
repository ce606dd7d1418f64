-- ===== src/Lexer/Roundtrip.antt =====
-- The lexer of crates/plat-lexer/src/lib.rs on the text of one string literal.
use plat.Base.{
  ok, ◌>>=◌, ℕ, suc, ◌+◌, ◌≡◌, refl, ap, ◌∙◌, [], ◌∷◌, ◌++◌, Option, none, Text, arith, length,
  length-append, drop, get_elem?,
}
use plat.Diags.{new}
use plat.Lexer.Token.{Token}
use plat.Lexer.Chars.{is_whitespace}
use plat.Lexer.State.{
  Lexer, new_lexer, with_filename, peek, rest, advance, advance_while, count_while, skip_whitespace,
  add_token,
}
use plat.Lexer.Strings.{scan_string}
use plat.Lexer.Strings.Quoted.{escape, scan_string-escape, moved_by}
use plat.Lexer.Tokenize.{
  tokenize_text, tokenize, tokenize_loop, scan_next, scan_char, scan_longer, single,
}

-- The literal of a text.
abbrev pub quote : Text → Text
quote s = b'"' ∷ (escape s ++ b'"' ∷ [])

drop-length : (xs : Text) → drop (length xs) xs ≡ []
drop-length [] = refl
drop-length (x ∷ xs) = drop-length xs

get_elem?-length : (xs : Text) → get_elem? xs (length xs) ≡ none
get_elem?-length [] = refl
get_elem?-length (x ∷ xs) = get_elem?-length xs

module _ {F : Type 0} where
  scan_char-quote :
      (parse_f64 : Text → Option F) (start : ℕ) (l : Lexer F)
      → scan_char parse_f64 b'"' start l ≡ scan_string start l
  unfolding scan_char scan_longer single
  scan_char-quote parse_f64 start l = refl

  skip_nothing : (l : Lexer F) → count_while is_whitespace (rest l) ≡ 0 → skip_whitespace l ≡ l
  unfolding skip_whitespace advance_while
  skip_nothing l h = let e : l.current + 0 ≡ l.current = omega arith in rw h (rw e refl)

  first_round :
      (parse_f64 : Text → Option F) (fuel : ℕ) (l : Lexer F)
      → count_while is_whitespace (rest l) ≡ 0
      → tokenize_loop parse_f64 (suc fuel) l
        ≡ scan_next parse_f64 (peek l) l (tokenize_loop parse_f64 fuel)
  unfolding tokenize_loop
  first_round parse_f64 fuel l h =
      ap (λ l'. scan_next parse_f64 (peek l') l' (tokenize_loop parse_f64 fuel)) (skip_nothing l h)

  end_of : (l : Lexer F) → l.current ≡ length l.input → peek l ≡ none
  end_of l h = ap (get_elem? l.input) h ∙ get_elem?-length l.input

  nothing_left : (l : Lexer F) → l.current ≡ length l.input → rest l ≡ []
  nothing_left l h = ap (λ n. drop n l.input) h ∙ drop-length l.input

  -- At the end of the input the loop is over.
  tokenize_loop-end :
      (parse_f64 : Text → Option F) (fuel : ℕ) (l : Lexer F)
      → l.current ≡ length l.input
      → tokenize_loop parse_f64 (suc fuel) l ≡ ok l
  unfolding count_while
  tokenize_loop-end parse_f64 fuel l h =
      first_round parse_f64 fuel l (ap (count_while is_whitespace) (nothing_left l h))
      ∙ ap (λ o. scan_next parse_f64 o l (tokenize_loop parse_f64 fuel)) (end_of l h)

  -- The lexer behind the literal.
  abbrev behind : Text → Lexer F
  behind s =
      add_token (Token.string_literal s) 0
        (advance (moved_by (length (escape s)) (advance (new_lexer (quote s)))))

  tokenize_loop-quote :
      (parse_f64 : Text → Option F) (s : Text) (fuel : ℕ)
      → tokenize_loop parse_f64 (suc (suc fuel)) (new_lexer (quote s)) ≡ ok (behind s)
  unfolding new_lexer with_filename count_while is_whitespace add_token
  tokenize_loop-quote parse_f64 s fuel =
      let l : Lexer F = new_lexer (quote s) in
      let size : 1 + length (escape s) + 1 ≡ length (quote s) =
        omega (arith, length-append (escape s) (b'"' ∷ [])) in
      first_round parse_f64 (suc fuel) l refl
      ∙ ap (λ r. r >>= tokenize_loop parse_f64 (suc fuel))
          (scan_char-quote parse_f64 0 (advance l) ∙ scan_string-escape s 0 (advance l) [] refl)
      ∙ tokenize_loop-end parse_f64 fuel (behind s) size

  -- For every text, the lexer reads the literal with the special characters escaped as one token, the
  -- string literal of this text from the first character to the last, and the end of file behind it.
  pub tokenize_text-quote :
      (parse_f64 : Text → Option F) (s : Text)
      → tokenize_text parse_f64 (quote s)
        ≡ ok (
            record { token = Token.string_literal s; span = new 0 (length (quote s)) }
            ∷ record { token = Token.eof; span = new (length (quote s)) (length (quote s)) }
            ∷ [])
  unfolding tokenize_text tokenize add_token new_lexer with_filename
  tokenize_text-quote parse_f64 s =
      let size : 1 + length (escape s) + 1 ≡ length (quote s) =
        omega (arith, length-append (escape s) (b'"' ∷ [])) in
      rw (tokenize_loop-quote parse_f64 s (length (escape s ++ b'"' ∷ []))) (rw size refl)
