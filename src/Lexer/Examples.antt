-- ===== src/Lexer/Examples.antt =====
-- Runs of the lexer on concrete inputs, and its theorems at such inputs.
use plat.Base.{ok, ◌≡◌, [], ◌∷◌, Option, some, Text, codes, length, Ensures}
use plat.Lexer.Tokenize.{tokenize_text}
use plat.Lexer.Tokenize.Layout.{IsTokenized, tokenize_total}
use plat.Lexer.Roundtrip.{quote, tokenize_text-quote}
use plat.Diags.{new}
use plat.Lexer.Token.{Token}
use plat.Lexer.Moves.{IsErrorIn}

-- `parse::<f64>` instantiated by the text itself.
abbrev parse_f64 : Text → Option Text
parse_f64 s = some s

-- A statement with an interpolation, an escape, a suffix, a range and a comment.
abbrev statement : Text
statement = codes "let x: int = \"a${b}\\n\" + 1_0i64 .. 2.5e3; // hi"

tokenize_total_example :
    Ensures
      (IsTokenized (length statement))
      (IsErrorIn (codes "<unknown>") statement)
      (tokenize_text parse_f64 statement)
tokenize_total_example = tokenize_total parse_f64 statement

-- Every special character, and a line feed that needs no escape.
abbrev word : Text
word = codes "a\"b$\\{\n}"

tokenize_text-quote_example :
    tokenize_text parse_f64 (quote word)
    ≡ ok (
        record { token = Token.string_literal word; span = new 0 (length (quote word)) }
        ∷ record { token = Token.eof; span = new (length (quote word)) (length (quote word)) }
        ∷ [])
tokenize_text-quote_example = tokenize_text-quote parse_f64 word
