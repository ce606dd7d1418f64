-- ===== src/Lexer/Chars.antt =====
-- The tests on `char` that crates/plat-lexer/src/lib.rs makes, over code points.
use plat.Base.{ℕ, Bool, ◌&&◌, ◌||◌, ltb, leb, ◌==◌, if◌then◌else◌}

-- `char::is_ascii_digit`
unfoldable pub is_ascii_digit : ℕ → Bool
is_ascii_digit c = leb b'0' c && leb c b'9'

-- `char::is_ascii_alphabetic`
unfoldable pub is_ascii_alphabetic : ℕ → Bool
is_ascii_alphabetic c = leb b'a' c && leb c b'z' || leb b'A' c && leb c b'Z'

-- `char::is_ascii_alphanumeric`
unfoldable pub is_ascii_alphanumeric : ℕ → Bool
unfolding is_ascii_digit is_ascii_alphabetic
is_ascii_alphanumeric c = is_ascii_alphabetic c || is_ascii_digit c

-- `char::is_whitespace`: the code points with the Unicode property White_Space
unfoldable pub is_whitespace : ℕ → Bool
is_whitespace c =
    leb 9 c && leb c 13
    || c == 32
    || c == 0x85
    || c == 0xa0
    || c == 0x1680
    || leb 0x2000 c && leb c 0x200a
    || c == 0x2028
    || c == 0x2029
    || c == 0x202f
    || c == 0x205f
    || c == 0x3000

-- `char::len_utf8`
unfoldable pub len_utf8 : ℕ → ℕ
len_utf8 c = if ltb c 0x80 then 1 else if ltb c 0x800 then 2 else if ltb c 0x10000 then 3 else 4

-- The tests of the loops of `scan_identifier` and `scan_number`.
unfoldable pub is_identifier_part : ℕ → Bool
unfolding is_ascii_alphanumeric
is_identifier_part c = is_ascii_alphanumeric c || c == b'_'

unfoldable pub is_number_part : ℕ → Bool
unfolding is_ascii_digit
is_number_part c = is_ascii_digit c || c == b'_'

unfoldable pub is_identifier_start : ℕ → Bool
unfolding is_ascii_alphabetic
is_identifier_start c = is_ascii_alphabetic c || c == b'_'
