-- ===== src/Parser/Types/Found.antt =====
-- What the methods of crates/plat-parser/src/lib.rs give where the token that they look for is there, or is
-- not; and the names with `::`.
use plat.Base.{
  ok, ℕ, zero, suc, ◌+◌, ◌≤◌, ◌<◌, ◌≡◌, refl, sym, ap, true, false, inl, inr, Bool-cases, ==_refl,
  ◌==◌, codes, List, [], ◌∷◌, some, Text, arith, length, get_elem?, lt_of_get_elem?,
}
use plat.Lexer.Token.{Token, TokenWithSpan}
use plat.Modules.Paths.{join}
use plat.Parser.State.{
  Env, Parse, ◌>>◌, discriminant, is_eof, peek, is_at_end, advance, previous, check, match_token,
}
use plat.Parser.Consume.{consume, consume_identifier, while_}
use plat.Parser.Types.{type_name}
use plat.Parser.Types.Grammar.{Has, IsPath, last_part, more_parts}

module _ {F : Type 0} (env : Env F) where
  -- A test of a token that is there passes it.
  check_found :
      (token : Token F) {c : ℕ}
      → Has env c token
      → is_eof token ≡ false
      → (check env token c ≡ ok (true, c)) × (advance env c ≡ ok (tt, suc c))
  unfolding check is_at_end peek advance previous
  check_found token (t, e, kind) inner =
      (rw (e, kind, inner, e, kind, ==_refl (discriminant token)) refl, rw (e, kind, inner, e) refl)

  check_missing :
      (token : Token F) {c : ℕ} {t : TokenWithSpan F}
      → get_elem? env.tokens c ≡ some t
      → (discriminant t.token == discriminant token) ≡ false
      → check env token c ≡ ok (false, c)
  unfolding check is_at_end peek
  check_missing token {c} {t} e differs = elim (Bool-cases (is_eof t.token)) [
    | inl end ↦ rw (e, end) refl
    | inr inner ↦ rw (e, inner, e, differs) refl
  ]

  pub match_token_found :
      (token : Token F) {c : ℕ}
      → Has env c token
      → is_eof token ≡ false
      → match_token env token c ≡ ok (true, suc c)
  unfolding match_token
  match_token_found token h inner = let (e, a) = check_found token h inner in rw (e, a) refl

  pub match_token_missing :
      (token : Token F) {c : ℕ} {t : TokenWithSpan F}
      → get_elem? env.tokens c ≡ some t
      → (discriminant t.token == discriminant token) ≡ false
      → match_token env token c ≡ ok (false, c)
  unfolding match_token
  match_token_missing token e differs = rw (check_missing token e differs) refl

  pub consume_found :
      (token : Token F) (message : Text) {c : ℕ}
      → Has env c token
      → is_eof token ≡ false
      → consume env token message c ≡ ok (tt, suc c)
  unfolding consume
  consume_found token message h inner = let (e, a) = check_found token h inner in rw (e, a) refl

  consume_identifier_found :
      (message name : Text) {c : ℕ} {t : TokenWithSpan F}
      → get_elem? env.tokens c ≡ some t
      → t.token ≡ Token.ident name
      → consume_identifier env message c ≡ ok (name, suc c)
  unfolding consume_identifier peek advance is_at_end previous discriminant
  consume_identifier_found message name e kind = rw (e, kind, e, kind, e) refl

  pub IsPath-lt : {names : List Text} {c d : ℕ} → IsPath env names c d → c < d
  IsPath-lt (last_part e kind) = omega arith
  IsPath-lt (more_parts e kind h p) = omega (arith, IsPath-lt p)

  -- `::` and a name
  abbrev next_name : Parse Text
  next_name = advance env >> consume_identifier env (codes "Expected type name after '::'")

  -- The first name of a path, and the loop behind it.
  path_found :
      {names : List Text} {c d : ℕ} {t : TokenWithSpan F} (fuel : ℕ)
      → IsPath env names c d
      → d ≤ fuel + c
      → get_elem? env.tokens d ≡ some t
      → (discriminant t.token == discriminant {F = F} Token.double_colon) ≡ false
      → (first : Text) × (rest : List Text) × (names ≡ first ∷ rest)
        × ((message : Text) → consume_identifier env message c ≡ ok (first, suc c))
        × (while_ env fuel (check env Token.double_colon) next_name (suc c) ≡ ok (rest, d))
  unfolding while_ discriminant
  path_found zero p fits at differs = absurd (omega (arith, IsPath-lt p))
  path_found (suc fuel) (last_part {name = name} e kind) fits at differs = (
    name,
    [],
    refl,
    λ message. consume_identifier_found message name e kind,
    rw (check_missing Token.double_colon at differs) refl,
  )
  path_found (suc fuel) (more_parts {name = name} {names = names} e kind h p) fits at differs =
      let (first, rest, same, taken, loop) =
        path_found fuel p (omega (arith, IsPath-lt p)) at differs in
      let (seen, passed) = check_found Token.double_colon h refl in
      (
        name,
        first ∷ rest,
        ap (λ ns. name ∷ ns) same,
        λ message. consume_identifier_found message name e kind,
        rw (seen, passed, taken (codes "Expected type name after '::'"), loop) refl,
      )

  pub type_name_found :
      {names : List Text} {c d : ℕ} {t : TokenWithSpan F}
      → IsPath env names c d
      → get_elem? env.tokens d ≡ some t
      → (discriminant t.token == discriminant {F = F} Token.double_colon) ≡ false
      → type_name env c ≡ ok (join names, d)
  unfolding type_name
  type_name_found {names} {c} {d} p at differs =
      let inside = lt_of_get_elem? env.tokens d at in
      let (first, rest, same, taken, loop) =
        path_found (length env.tokens) p (omega arith) at differs in
      rw (taken (codes "Expected type name"), loop) (ap (λ ns. ok (join ns, d)) (sym same))

  pub other_missing :
      (token other : Token F) {c : ℕ}
      → Has env c other
      → (discriminant other == discriminant token) ≡ false
      → match_token env token c ≡ ok (false, c)
  other_missing token other (t, e, kind) differs = match_token_missing token e (rw kind differs)
