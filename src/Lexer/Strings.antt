-- ===== src/Lexer/Strings.antt =====
-- `Lexer::scan_string` of crates/plat-lexer/src/lib.rs. Each `while` loop is a function of its own;
-- the outer one runs on fuel, one more than the characters left, and a round passes at least one.
pub mod Progress
pub mod Quoted
use plat.Base.{
  ok, err, stuck, ◌>>=◌, ℕ, zero, suc, ◌+◌, ◌&&◌, List, [], ◌∷◌, ◌++◌, Option, none, some, Text,
  codes, ltb, leb, ◌^◌, ◌==◌, if◌then◌else◌, length,
}
use plat.Diags.{new}
use plat.Lexer.Token.{StringPart, Token}
use plat.Lexer.State.{
  Result, Lexer, fail, rich_error, rest, is_at_end, peek, peek_next, advance, add_token, is_char,
}
use plat.Diags.{DiagnosticError}

-- What `while !self.is_at_end() && depth > 0` does to the characters left: how many it passes, and
-- the final `depth` and `expr`. The depth is the bit pattern of an i32, negative from 2 ^ 31 on; an overflow
-- wraps, as without overflow checks.
unfoldable pub interpolation_loop : Text → ℕ → Text → ℕ × ℕ × Text
interpolation_loop [] depth expr = (0, depth, expr)
interpolation_loop (c ∷ cs) zero expr = (0, zero, expr)
interpolation_loop (c ∷ cs) (suc d) expr =
    let depth = if c == b'{' then suc (suc d) else if c == b'}' then d else suc d in
    let expr' = if c == b'}' then (if ltb 0 d then expr ++ c ∷ [] else expr) else expr ++ c ∷ [] in
    let (n, depth', expr'') = interpolation_loop cs depth expr' in
    if leb (2 ^ 31) (suc d) then (0, suc d, expr) else (suc n, depth', expr'')

-- The character that `\` and `c` stand for.
unfoldable pub unescape : ℕ → ℕ
unescape c =
    if c == b'n' then b'\n' else if c == b't' then b'\t' else if c == b'r' then b'\r' else c

-- `if !current_text.is_empty() { parts.push(StringPart::Text(..)) }`
unfoldable pub flush : Text → List StringPart → List StringPart
flush [] parts = parts
flush (c ∷ cs) parts = parts ++ StringPart.text (c ∷ cs) ∷ []

-- What one round of the outer loop leaves: the loop is over, goes on, or returns an error.
pub data Round (F : Type 0) : Type 0 where
  finished : Round F
  again : Lexer F → Text → List StringPart → Round F
  failed : DiagnosticError → Round F

-- The locals of the outer loop: the lexer, `current_text` and `parts`.
abbrev pub Scanned : Type 0 → Type 0
Scanned F = Lexer F × Text × List StringPart

module _ {F : Type 0} where
  -- The branch at `${`; `l` stands at the `$`.
  unfoldable pub interpolation : ℕ → Lexer F → Text → List StringPart → Round F
  unfolding interpolation_loop flush rich_error
  interpolation start l text parts =
      let l₁ = advance (advance l) in
      let (n, depth, expr) = interpolation_loop (rest l₁) 1 [] in
      let l₂ = record l₁ { current = l₁.current + n } in
      if depth == 0
      then again l₂ [] (flush text parts ++ StringPart.interpolation expr ∷ [])
      else failed (
          rich_error l.filename (new start l₂.current) (codes "Unclosed string interpolation")
            (codes "unterminated interpolation expression")
            (codes "Add a closing '}' to complete the interpolation"))

  unfoldable pub escape_in : Option ℕ → Lexer F → Text → Lexer F × Text
  unfolding unescape
  escape_in none l text = (l, text)
  escape_in (some c) l text = (advance l, text ++ unescape c ∷ [])

  unfoldable pub round_at : Option ℕ → ℕ → Lexer F → Text → List StringPart → Round F
  unfolding interpolation escape_in
  round_at none start l text parts = finished
  round_at (some c) start l text parts =
      if c == b'"'
      then finished
      else if c == b'$' && is_char (peek_next l) b'{'
      then interpolation start l text parts
      else if c == b'\\'
      then (let (l', text') = escape_in (peek (advance l)) (advance l) text in again l' text' parts)
      else again (advance l) (text ++ c ∷ []) parts

  abbrev pub after_round :
      Round F
      → Result (Scanned F)
      → (Lexer F → Text → List StringPart → Result (Scanned F))
      → Result (Scanned F)
  after_round finished done next = done
  after_round (again l text parts) done next = next l text parts
  after_round (failed e) done next = err e

  -- `while self.peek() != Some('"') && !self.is_at_end()`
  unfoldable pub string_loop : ℕ → ℕ → Lexer F → Text → List StringPart → Result (Scanned F)
  unfolding round_at
  string_loop zero start l text parts = stuck
  string_loop (suc fuel) start l text parts =
      after_round (round_at (peek l) start l text parts) (ok (l, text, parts))
        (string_loop fuel start)

  unfoldable pub string_token : List StringPart → Token F
  string_token [] = Token.string_literal []
  string_token (StringPart.text s ∷ []) = Token.string_literal s
  string_token parts = Token.interpolated_string parts

  -- What follows the outer loop.
  unfoldable pub finish_string : ℕ → Scanned F → Result (Lexer F)
  unfolding fail flush string_token add_token
  finish_string start (l, text, parts) =
      if is_at_end l
      then fail l.filename (new start l.current) (codes "Unterminated string literal")
          (codes "string started here but never closed")
          (codes "Add a closing \" to complete the string")
      else ok (add_token (string_token (flush text parts)) start (advance l))

  unfoldable pub scan_string : ℕ → Lexer F → Result (Lexer F)
  unfolding string_loop finish_string
  scan_string start l = string_loop (suc (length (rest l))) start l [] [] >>= finish_string start
