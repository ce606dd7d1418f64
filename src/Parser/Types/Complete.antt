-- ===== src/Parser/Types/Complete.antt =====
-- `parse_type` of crates/plat-parser/src/lib.rs reads every type of the grammar.
use plat.Base.{
  ok, ℕ, zero, suc, ◌+◌, ◌≤◌, ◌<◌, ◌≡◌, refl, false, codes, List, Text, arith, length,
  lt_of_get_elem?,
}
use plat.Lexer.Token.{Token}
use plat.Ast.{Ty}
use plat.Parser.State.{Env, Parse, discriminant, match_token}
use plat.Parser.Consume.{if_matched, separated}
use plat.Parser.Types.{named_type, element_type, dict_type, type_level, type_on, parse_type}
use plat.Parser.Types.Grammar.{
  Has, IsPath, last_part, more_parts, IsType, list_square, list_angle, set_square, set_angle,
  dict_square, dict_angle, name_alone, applied, AreTypes, last_type, more_types,
}
use plat.Parser.Types.Found.{
  match_token_found, match_token_missing, consume_found, IsPath-lt, type_name_found, other_missing,
}

module _ {F : Type 0} (env : Env F) where
  module _ (type : Parse Ty) {t : Ty} {c d : ℕ} (inner : type (suc c) ≡ ok (t, d)) where
    element_square :
        (message : Text)
        → Has env c Token.left_bracket
        → Has env d Token.right_bracket
        → element_type env message type c ≡ ok (t, suc d)
    unfolding element_type discriminant
    element_square message left right =
        rw
          (
            other_missing env Token.less Token.left_bracket left refl,
            consume_found env Token.left_bracket message left refl,
            inner,
            consume_found env Token.right_bracket (codes "Expected ']' after element type") right
                refl,
          )
          refl

    element_angle :
        (message : Text)
        → Has env c Token.less
        → Has env d Token.greater
        → element_type env message type c ≡ ok (t, suc d)
    unfolding element_type discriminant
    element_angle message left right =
        rw
          (
            match_token_found env Token.less left refl,
            inner,
            consume_found env Token.greater (codes "Expected '>' after element type") right refl,
          )
          refl

    module _ {v : Ty} {e : ℕ} (second : type (suc d) ≡ ok (v, e))
        (comma : Has env d Token.comma) where
      dict_square_found :
          Has env c Token.left_bracket
          → Has env e Token.right_bracket
          → dict_type env type c ≡ ok (Ty.dict_ t v, suc e)
      unfolding dict_type discriminant
      dict_square_found left right =
          rw
            (
              other_missing env Token.less Token.left_bracket left refl,
              consume_found env Token.left_bracket (codes "Expected '[' or '<' after 'Dict'") left
                  refl,
              inner,
              consume_found env Token.comma (codes "Expected ',' after key type") comma refl,
              second,
              consume_found env Token.right_bracket (codes "Expected ']' after value type") right
                  refl,
            )
            refl

      dict_angle_found :
          Has env c Token.less
          → Has env e Token.greater
          → dict_type env type c ≡ ok (Ty.dict_ t v, suc e)
      unfolding dict_type discriminant
      dict_angle_found left right =
          rw
            (
              match_token_found env Token.less left refl,
              inner,
              consume_found env Token.comma (codes "Expected ',' after key type") comma refl,
              second,
              consume_found env Token.greater (codes "Expected '>' after value type") right refl,
            )
            refl

  mutual
    pub IsType-lt : {ty : Ty} {c d : ℕ} → IsType env ty c d → c < d
    IsType-lt (list_square k o h r) = omega (arith, IsType-lt h)
    IsType-lt (list_angle k o h r) = omega (arith, IsType-lt h)
    IsType-lt (set_square k o h r) = omega (arith, IsType-lt h)
    IsType-lt (set_angle k o h r) = omega (arith, IsType-lt h)
    IsType-lt (dict_square k o h m h' r) = omega (arith, IsType-lt h, IsType-lt h')
    IsType-lt (dict_angle k o h m h' r) = omega (arith, IsType-lt h, IsType-lt h')
    IsType-lt (name_alone p b) = IsPath-lt env p
    IsType-lt (applied p o hs r) = omega (arith, IsPath-lt env p, AreTypes-lt hs)

    AreTypes-lt : {ts : List Ty} {c d : ℕ} → AreTypes env ts c d → c < d
    AreTypes-lt (last_type h) = IsType-lt h
    AreTypes-lt (more_types h m hs) = omega (arith, IsType-lt h, AreTypes-lt hs)

  -- The first token of a path is none of the keywords.
  path_first :
      {names : List Text} {c d : ℕ}
      → IsPath env names c d
      → (match_token env Token.list_ c ≡ ok (false, c))
        × (match_token env Token.dict_ c ≡ ok (false, c))
        × (match_token env Token.set_ c ≡ ok (false, c))
  unfolding discriminant
  path_first (last_part e kind) = (
    match_token_missing env Token.list_ e (rw kind refl),
    match_token_missing env Token.dict_ e (rw kind refl),
    match_token_missing env Token.set_ e (rw kind refl),
  )
  path_first (more_parts e kind h p) = (
    match_token_missing env Token.list_ e (rw kind refl),
    match_token_missing env Token.dict_ e (rw kind refl),
    match_token_missing env Token.set_ e (rw kind refl),
  )

  mutual
    unfolding type_on type_level if_matched named_type separated discriminant

    type_on_found :
        {ty : Ty} {c d : ℕ} (fuel : ℕ)
        → IsType env ty c d
        → d ≤ fuel + c
        → type_on env fuel c ≡ ok (ty, d)
    type_on_found zero h fits = absurd (omega (arith, IsType-lt h))
    type_on_found (suc fuel) (list_square k o h r) fits =
        rw
          (
            match_token_found env Token.list_ k refl,
            element_square (type_on env fuel) (type_on_found fuel h (omega arith))
                (codes "Expected '[' or '<' after 'List'") o r,
          )
          refl
    type_on_found (suc fuel) (list_angle k o h r) fits =
        rw
          (
            match_token_found env Token.list_ k refl,
            element_angle (type_on env fuel) (type_on_found fuel h (omega arith))
                (codes "Expected '[' or '<' after 'List'") o r,
          )
          refl
    type_on_found (suc fuel) (set_square k o h r) fits =
        rw
          (
            other_missing env Token.list_ Token.set_ k refl,
            other_missing env Token.dict_ Token.set_ k refl,
            match_token_found env Token.set_ k refl,
            element_square (type_on env fuel) (type_on_found fuel h (omega arith))
                (codes "Expected '[' or '<' after 'Set'") o r,
          )
          refl
    type_on_found (suc fuel) (set_angle k o h r) fits =
        rw
          (
            other_missing env Token.list_ Token.set_ k refl,
            other_missing env Token.dict_ Token.set_ k refl,
            match_token_found env Token.set_ k refl,
            element_angle (type_on env fuel) (type_on_found fuel h (omega arith))
                (codes "Expected '[' or '<' after 'Set'") o r,
          )
          refl
    type_on_found (suc fuel) (dict_square k o h m h' r) fits =
        rw
          (
            other_missing env Token.list_ Token.dict_ k refl,
            match_token_found env Token.dict_ k refl,
            dict_square_found (type_on env fuel)
                (type_on_found fuel h (omega (arith, IsType-lt h')))
                (type_on_found fuel h' (omega (arith, IsType-lt h))) m o r,
          )
          refl
    type_on_found (suc fuel) (dict_angle k o h m h' r) fits =
        rw
          (
            other_missing env Token.list_ Token.dict_ k refl,
            match_token_found env Token.dict_ k refl,
            dict_angle_found (type_on env fuel) (type_on_found fuel h (omega (arith, IsType-lt h')))
                (type_on_found fuel h' (omega (arith, IsType-lt h))) m o r,
          )
          refl
    type_on_found (suc fuel) (name_alone p (t, e, no_path, no_args)) fits =
        let (l, d, s) = path_first p in
        rw (l, d, s, type_name_found env p e no_path, match_token_missing env Token.less e no_args)
          refl
    type_on_found (suc fuel) (applied {d = d} p (t, e, kind) hs r) fits =
        let (l, d', s) = path_first p in
        let inside = lt_of_get_elem? env.tokens d e in
        rw
          (
            l,
            d',
            s,
            type_name_found env p e (rw kind refl),
            match_token_found env Token.less (t, e, kind) refl,
          )
          (rw
            (
              types_found fuel (length env.tokens) hs (omega (arith, IsPath-lt env p))
                  (omega (arith, lt_of_get_elem? env.tokens _ r.1)) r,
              consume_found env Token.greater (codes "Expected '>' after type parameters") r refl,
            )
            refl)

    types_found :
        {ts : List Ty} {c d : ℕ} (fuel rounds : ℕ)
        → AreTypes env ts c d
        → d ≤ fuel + c
        → d ≤ rounds + c
        → Has env d Token.greater
        → separated env rounds Token.comma (type_on env fuel) c ≡ ok (ts, d)
    types_found fuel zero hs fits enough right = absurd (omega (arith, AreTypes-lt hs))
    types_found fuel (suc rounds) (last_type h) fits enough right =
        rw (type_on_found fuel h fits, other_missing env Token.comma Token.greater right refl) refl
    types_found fuel (suc rounds) (more_types h m hs) fits enough right =
        let lt = IsType-lt h in
        rw
          (
            type_on_found fuel h (omega (arith, AreTypes-lt hs)),
            match_token_found env Token.comma m refl,
            types_found fuel rounds hs (omega arith) (omega arith) right,
          )
          refl

  IsType-inside : {ty : Ty} {c d : ℕ} → IsType env ty c d → d ≤ length env.tokens
  IsType-inside (list_square k o h r) = lt_of_get_elem? env.tokens _ r.1
  IsType-inside (list_angle k o h r) = lt_of_get_elem? env.tokens _ r.1
  IsType-inside (set_square k o h r) = lt_of_get_elem? env.tokens _ r.1
  IsType-inside (set_angle k o h r) = lt_of_get_elem? env.tokens _ r.1
  IsType-inside (dict_square k o h m h' r) = lt_of_get_elem? env.tokens _ r.1
  IsType-inside (dict_angle k o h m h' r) = lt_of_get_elem? env.tokens _ r.1
  IsType-inside (name_alone p b) = omega (arith, lt_of_get_elem? env.tokens _ b.1)
  IsType-inside (applied p o hs r) = lt_of_get_elem? env.tokens _ r.1

  -- Where the tokens from one position to another spell a type by the grammar, whatever the nesting and
  -- the brackets, `parse_type` at the first position returns that type and stands at the second.
  pub parse_type-IsType : {ty : Ty} {c d : ℕ} → IsType env ty c d → parse_type env c ≡ ok (ty, d)
  unfolding parse_type
  parse_type-IsType h = type_on_found (length env.tokens) h (omega (arith, IsType-inside h))
