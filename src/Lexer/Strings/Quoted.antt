-- ===== src/Lexer/Strings/Quoted.antt =====
-- A string literal with every '"', '\' and '$' escaped, and what crates/plat-lexer/src/lib.rs reads in it.
use plat.Base.{
  ok, ℕ, zero, suc, ◌+◌, ◌-◌, ◌<◌, ◌≡◌, refl, sym, ap, ◌∙◌, Bool, true, false, ◌||◌, Bool-cases,
  inl, inr, List, [], ◌∷◌, ◌++◌, append_assoc, append-nil, some, Text, arith, length, length-append,
  length-drop, leb, ◌==◌, if◌then◌else◌, drop, get_elem?-drop,
}
use plat.Lexer.Token.{Token, StringPart}
use plat.Lexer.State.{Result, Lexer, peek, rest, advance, add_token}
use plat.Lexer.Strings.{
  Round, again, Scanned, round_at, escape_in, unescape, flush, string_token, after_round,
  string_loop, finish_string, scan_string,
}

-- The characters that mean something in a string literal.
abbrev pub is_special : ℕ → Bool
is_special c = (c == b'"') || (c == b'\\') || (c == b'$')

abbrev pub escape_char : ℕ → Text
escape_char c = if is_special c then b'\\' ∷ c ∷ [] else c ∷ []

unfoldable pub escape : Text → Text
escape [] = []
escape (c ∷ cs) = escape_char c ++ escape cs

unescape_special : (c : ℕ) → is_special c ≡ true → unescape c ≡ c
unfolding unescape
unescape_special c h = ground arith

drop-suc : (n : ℕ) (xs : Text) {c : ℕ} {r : Text} → drop n xs ≡ c ∷ r → drop (suc n) xs ≡ r
drop-suc zero [] h = cc
drop-suc zero (x ∷ xs) h = cc
drop-suc (suc n) [] h = cc
drop-suc (suc n) (x ∷ xs) h = drop-suc n xs h

plus_one : (n : ℕ) → n + 1 ≡ suc n
plus_one n = omega arith

drop_next : (n : ℕ) (xs : Text) {c : ℕ} {r : Text} → drop n xs ≡ c ∷ r → drop (n + 1) xs ≡ r
drop_next n xs h = rw (plus_one n) (drop-suc n xs h)

module _ {F : Type 0} where
  -- A round at a character that is not special takes it.
  round_plain :
      (c start : ℕ) (l : Lexer F) (text : Text) (parts : List StringPart)
      → is_special c ≡ false
      → round_at (some c) start l text parts ≡ again (advance l) (text ++ c ∷ []) parts
  unfolding round_at
  round_plain c start l text parts h = ground arith

  -- A round at a '\' takes the special character behind it.
  round_escaped :
      (c start : ℕ) (l : Lexer F) (text : Text) (parts : List StringPart)
      → is_special c ≡ true
      → peek (advance l) ≡ some c
      → round_at (some b'\\') start l text parts
        ≡ again (advance (advance l)) (text ++ c ∷ []) parts
  unfolding round_at escape_in
  round_escaped c start l text parts h e = rw e (rw (unescape_special c h) refl)

  -- The lexer with its cursor moved on by `n`.
  abbrev pub moved_by : ℕ → Lexer F → Lexer F
  moved_by n l = record l { current = l.current + n }

  peek_at : (l : Lexer F) {c : ℕ} {r : Text} → rest l ≡ c ∷ r → peek l ≡ some c
  peek_at l h = get_elem?-drop l.current l.input h

  abbrev reads : Lexer F → Text → Result (Scanned F)
  reads l text = ok (l, text, [])

  reads_cong :
      (l : Lexer F) (a b : ℕ) (text text' : Text)
      → a ≡ b
      → text ≡ text'
      → reads (record l { current = a }) text ≡ reads (record l { current = b }) text'
  reads_cong l a b text text' h k = rw h (rw k refl)

  step_plain :
      (c fuel start : ℕ) (l : Lexer F) (text r : Text)
      → is_special c ≡ false
      → rest l ≡ c ∷ r
      → string_loop (suc fuel) start l text []
        ≡ string_loop fuel start (advance l) (text ++ c ∷ []) []
  unfolding string_loop
  step_plain c fuel start l text r h e =
      rw (peek_at l e) (rw (round_plain c start l text [] h) refl)

  step_special :
      (c fuel start : ℕ) (l : Lexer F) (text r : Text)
      → is_special c ≡ true
      → rest l ≡ b'\\' ∷ (c ∷ r)
      → string_loop (suc fuel) start l text []
        ≡ string_loop fuel start (advance (advance l)) (text ++ c ∷ []) []
  unfolding string_loop
  step_special c fuel start l text r h e =
      let next = peek_at (advance l) (drop_next l.current l.input e) in
      rw (peek_at l e) (
        ap (λ (r : Round F). after_round r (reads l text) (string_loop fuel start))
          (round_escaped c start l text [] h next))

  closing_quote :
      (fuel start : ℕ) (l : Lexer F) (text post : Text)
      → rest l ≡ b'"' ∷ post
      → string_loop (suc fuel) start l text [] ≡ reads (moved_by 0 l) (text ++ [])
  unfolding string_loop round_at
  closing_quote fuel start l text post h =
      let e : l.current + 0 ≡ l.current = omega arith in
      rw (peek_at l h) (rw e (ap (reads l) (sym (append-nil text))))

  -- The outer loop reads an escaped text up to the quote behind it.
  string_loop-escape :
      (s : Text) (fuel start : ℕ) (l : Lexer F) (text post : Text)
      → rest l ≡ escape s ++ b'"' ∷ post
      → length (escape s) < fuel
      → string_loop fuel start l text [] ≡ reads (moved_by (length (escape s)) l) (text ++ s)
  unfolding escape
  string_loop-escape s zero start l text post h k = absurd (omega arith)
  string_loop-escape [] (suc fuel) start l text post h k = closing_quote fuel start l text post h
  string_loop-escape (c ∷ s) (suc fuel) start l text post h k = elim (Bool-cases (is_special c)) [
    | inl special ↦
        let h' : rest l ≡ b'\\' ∷ (c ∷ (escape s ++ b'"' ∷ post)) = rw special at h in
        let k' : suc (suc (length (escape s))) < suc fuel = rw special at k in
        let next = drop_next (l.current + 1) l.input (drop_next l.current l.input h') in
        rw special (
          step_special c fuel start l text (escape s ++ b'"' ∷ post) special h'
          ∙ string_loop-escape s fuel start (advance (advance l)) (text ++ c ∷ []) post next
              (omega arith)
          ∙ reads_cong l (l.current + 1 + 1 + length (escape s))
              (l.current + suc (suc (length (escape s)))) ((text ++ c ∷ []) ++ s) (text ++ c ∷ s)
              (omega arith) (append_assoc text (c ∷ []) s))
    | inr plain ↦
        let h' : rest l ≡ c ∷ (escape s ++ b'"' ∷ post) = rw plain at h in
        let k' : suc (length (escape s)) < suc fuel = rw plain at k in
        rw plain (
          step_plain c fuel start l text (escape s ++ b'"' ∷ post) plain h'
          ∙ string_loop-escape s fuel start (advance l) (text ++ c ∷ []) post
              (drop_next l.current l.input h') (omega arith)
          ∙ reads_cong l (l.current + 1 + length (escape s)) (l.current + suc (length (escape s)))
              ((text ++ c ∷ []) ++ s) (text ++ c ∷ s) (omega arith) (append_assoc text (c ∷ []) s))
  ]

  string_token-flush : (s : Text) → string_token {F = F} (flush s []) ≡ Token.string_literal s
  unfolding string_token flush
  string_token-flush [] = refl
  string_token-flush (c ∷ s) = refl

  -- `scan_string`, from behind the opening quote of an escaped text.
  pub scan_string-escape :
      (s : Text) (start : ℕ) (l : Lexer F) (post : Text)
      → rest l ≡ escape s ++ b'"' ∷ post
      → scan_string start l
        ≡ ok (add_token (Token.string_literal s) start (advance (moved_by (length (escape s)) l)))
  unfolding scan_string finish_string
  scan_string-escape s start l post h =
      let size : length (rest l) ≡ length (escape s) + suc (length post) =
        ap (λ t. length t) h ∙ length-append (escape s) (b'"' ∷ post) in
      let left : length (rest l) ≡ length l.input - l.current = length-drop l.current l.input in
      let inside : leb (length l.input) (l.current + length (escape s)) ≡ false = ground arith in
      rw (string_loop-escape s (suc (length (rest l))) start l [] post h (omega arith))
        (rw inside (rw (string_token-flush s) refl))
