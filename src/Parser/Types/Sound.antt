-- ===== src/Parser/Types/Sound.antt =====
-- `parse_type` of crates/plat-parser/src/lib.rs gives only what the grammar has.
use plat.Base.{
  Ensures, returns, throws, ◌⟫◌, ok, ℕ, zero, suc, ◌+◌, ◌≤◌, ◌<◌, ◌≡◌, refl, ap, true, false, inl,
  inr, ◌⊎◌, Bool-cases, ==_iff, ◌==◌, codes, List, ◌∷◌, Option, none, some, Text, arith, length,
  get_elem?,
}
use plat.Lexer.Token.{Token, TokenWithSpan}
use plat.Lexer.State.{Result}
use plat.Modules.Paths.{join}
use plat.Ast.{Ty}
use plat.Parser.State.{
  Env, Parse, ◌>>◌, discriminant, is_eof, peek, is_at_end, advance, previous, current_span, check,
  match_token,
}
use plat.Parser.Consume.{
  name_of, take_name, consume, consume_identifier, if_matched, while_, separated,
}
use plat.Parser.Types.{
  type_name, named_type, element_type, dict_type, type_level, type_on, parse_type,
}
use plat.Parser.Types.Grammar.{
  Has, IsBehindType, IsPath, last_part, more_parts, IsType, list_square, list_angle, set_square,
  set_angle, dict_square, dict_angle, name_alone, applied, AreTypes, last_type, more_types,
}
use plat.Parser.Types.Complete.{IsType-lt}
use plat.Parser.Types.Found.{IsPath-lt}
use plat.Parser.Total.{IsStream}
use plat.Parser.Total.Tokens.{advance-ok}

module _ {F : Type 0} {env : Env F} (s : IsStream env) where
  -- The token at a position is of another kind.
  abbrev pub IsOther : ℕ → Token F → Type 0
  IsOther c token =
      (t : TokenWithSpan F) × (get_elem? env.tokens c ≡ some t)
      × ((discriminant t.token == discriminant token) ≡ false)

  other_than_eof : (m n : ℕ) → (m == 69) ≡ true → (n == 69) ≡ false → (m == n) ≡ false
  other_than_eof m n h k = ground arith

  pub check-Has :
      (token : Token F) (c : ℕ)
      → is_eof token ≡ false
      → c ≤ s.last
      → ((check env token c ≡ ok (true, c))
          × (advance env c ≡ ok (tt, suc c))
          × Has env c token
          × (c < s.last))
        ⊎ ((check env token c ≡ ok (false, c)) × IsOther c token)
  unfolding check is_at_end peek advance previous discriminant
  check-Has token c keep hi =
      let (t, e, parsed) = s.at c hi in
      elim (Bool-cases (is_eof t.token)) [
        | inl end ↦ inr (
          rw (e, end) refl,
          (t, e, other_than_eof (discriminant t.token) (discriminant token) end keep),
        )
        | inr inner ↦ elim (Bool-cases (discriminant t.token == discriminant token)) [
          | inl same ↦ inl (
            rw (e, inner, e, same) refl,
            rw (e, inner, e) refl,
            (t, e, (==_iff (discriminant t.token) (discriminant token)).0 same),
            s.inner c t hi e inner,
          )
          | inr differs ↦ inr (rw (e, inner, e, differs) refl, (t, e, differs))
        ]
      ]

  match_token-Has :
      (token : Token F) (c : ℕ)
      → is_eof token ≡ false
      → c ≤ s.last
      → ((match_token env token c ≡ ok (true, suc c)) × Has env c token × (c < s.last))
        ⊎ ((match_token env token c ≡ ok (false, c)) × IsOther c token)
  unfolding match_token
  match_token-Has token c keep hi = elim (check-Has token c keep hi) [
    | inl (e, a, has, lt) ↦ inl (rw (e, a) refl, has, lt)
    | inr (e, other) ↦ inr (rw e refl, other)
  ]

  -- A result that stands inside the tokens and has a property, or an error.
  abbrev Gives : {A : Type 0} → (A → ℕ → Type 0) → Result (A × ℕ) → Type 0
  Gives P r = Ensures (λ x. P x.0 x.1 × (x.1 ≤ s.last)) (λ _. Unit {0}) r

  consume-Has :
      (token : Token F) (message : Text) (c : ℕ)
      → is_eof token ≡ false
      → c ≤ s.last
      → Gives (λ u d. Has env c token × (d ≡ suc c)) (consume env token message c)
  unfolding consume peek
  consume-Has token message c keep hi = elim (check-Has token c keep hi) [
    | inl (e, a, has, lt) ↦ rw (e, a) (returns ((has, refl), lt))
    | inr (e, (t, at, differs)) ↦ rw (e, at) (throws tt)
  ]

  -- A name stands at the position.
  abbrev IsNameAt : ℕ → Text → Type 0
  IsNameAt c name =
      (t : TokenWithSpan F) × (get_elem? env.tokens c ≡ some t) × (t.token ≡ Token.ident name)

  ident_of_name : (t : Token F) (name : Text) → name_of t ≡ some name → t ≡ Token.ident name
  ident_of_name Token.eof name e = absurd (cc e)
  ident_of_name (Token.ident n) name e = cc e
  ident_of_name _ name e = absurd (cc e)

  span_at :
      (c : ℕ) (t : TokenWithSpan F)
      → get_elem? env.tokens c ≡ some t
      → current_span env c ≡ ok (t.span, c)
  unfolding current_span peek
  span_at c t e = rw e refl

  consume_identifier_lem :
      (message : Text) (c : ℕ) (t : TokenWithSpan F)
      → get_elem? env.tokens c ≡ some t
      → consume_identifier env message c ≡ take_name env (name_of t.token) message c
  unfolding consume_identifier peek
  consume_identifier_lem message c t e = rw e refl

  take_name-Gives :
      (o : Option Text) (message : Text) (c : ℕ) (t : TokenWithSpan F)
      → c ≤ s.last
      → get_elem? env.tokens c ≡ some t
      → name_of t.token ≡ o
      → Gives (λ name d. IsNameAt c name × (d ≡ suc c)) (take_name env o message c)
  unfolding discriminant
  take_name-Gives none message c t hi e kind = rw (span_at c t e) (throws tt)
  take_name-Gives (some name) message c t hi e kind =
      let k = ident_of_name t.token name kind in
      let inner : is_eof t.token ≡ false = ap is_eof k in
      rw (advance-ok s c t e inner) (returns (((t, e, k), refl), s.inner c t hi e inner))

  consume_identifier-Gives :
      (message : Text) (c : ℕ)
      → c ≤ s.last
      → Gives (λ name d. IsNameAt c name × (d ≡ suc c)) (consume_identifier env message c)
  consume_identifier-Gives message c hi =
      let (t, e, parsed) = s.at c hi in
      rw (consume_identifier_lem message c t e)
        (take_name-Gives (name_of t.token) message c t hi e refl)

  abbrev next_name : Parse Text
  next_name = advance env >> consume_identifier env (codes "Expected type name after '::'")

  names_loop-Gives :
      (fuel c : ℕ) (first : Text)
      → IsNameAt c first
      → suc c ≤ s.last
      → s.last < fuel + suc c
      → Gives
          (λ rest e. IsPath env (first ∷ rest) c e × IsOther e Token.double_colon)
          (while_ env fuel (check env Token.double_colon) next_name (suc c))
  unfolding while_ discriminant
  names_loop-Gives zero c first here hi fits = absurd (omega arith)
  names_loop-Gives (suc fuel) c first (t, e, k) hi fits =
      elim (check-Has Token.double_colon (suc c) refl hi) [
        | inl (seen, passed, has, lt) ↦
            rw (seen, passed)
              (consume_identifier-Gives _ (suc (suc c)) lt ⟫ λ (name, d) m. rw m.0.1 (
                names_loop-Gives fuel (suc (suc c)) name m.0.0 (omega arith) (omega arith)
                ⟫ λ (rest, e') m'. returns ((more_parts e k has m'.0.0, m'.0.1), m'.1)))
        | inr (missing, other) ↦ rw missing (returns ((last_part e k, other), hi))
      ]

  type_name-Gives :
      (c : ℕ)
      → c ≤ s.last
      → Gives
          (λ name e.
            (names : List Text) × (name ≡ join names)
            × IsPath env names c e
            × IsOther e Token.double_colon)
          (type_name env c)
  unfolding type_name
  type_name-Gives c hi = consume_identifier-Gives _ c hi ⟫ λ (first, d) m. rw m.0.1 (
      names_loop-Gives (length env.tokens) c first m.0.0 (omega arith) (omega (arith, s.size))
      ⟫ λ (rest, e) m'. returns ((first ∷ rest, refl, m'.0.0, m'.0.1), m'.1))

  both_other : (d : ℕ) → IsOther d Token.double_colon → IsOther d Token.less → IsBehindType env d
  both_other d (t, e, h) (t', e', h') = let same : t ≡ t' = cc (e, e') in (t, e, h, rw same h')

  module _ (type : Parse Ty) (c : ℕ)
      (inner : (d : ℕ) → c < d → d ≤ s.last → Gives (λ t e. IsType env t d e) (type d)) where
    abbrev IsElement : Ty → ℕ → Type 0
    IsElement t e =
        ((d : ℕ) × Has env (suc c) Token.left_bracket
          × IsType env t (suc (suc c)) d
          × Has env d Token.right_bracket
          × (e ≡ suc d))
        ⊎ ((d : ℕ) × Has env (suc c) Token.less
            × IsType env t (suc (suc c)) d
            × Has env d Token.greater
            × (e ≡ suc d))

    element_type-Gives :
        (message : Text) → suc c ≤ s.last → Gives IsElement (element_type env message type (suc c))
    unfolding element_type discriminant
    element_type-Gives message hi = elim (match_token-Has Token.less (suc c) refl hi) [
      | inl (found, has, lt) ↦ rw found (
          inner (suc (suc c)) (omega arith) lt ⟫ λ (t, d) m.
          consume-Has Token.greater _ d refl m.1 ⟫ λ (u, e) m'.
          returns (inr (d, has, m.0, m'.0.0, m'.0.1), m'.1))
      | inr (missing, other) ↦ rw missing (
          consume-Has Token.left_bracket _ (suc c) refl hi ⟫ λ (u, d₀) m₀. rw m₀.0.1 (
            inner (suc (suc c)) (omega arith) (omega arith) ⟫ λ (t, d) m.
            consume-Has Token.right_bracket _ d refl m.1 ⟫ λ (u', e) m'.
            returns (inl (d, m₀.0.0, m.0, m'.0.0, m'.0.1), m'.1)))
    ]

    dict_type-Gives :
        Has env c Token.dict_
        → suc c ≤ s.last
        → Gives (λ t e. IsType env t c e) (dict_type env type (suc c))
    unfolding dict_type discriminant
    dict_type-Gives kw hi = elim (match_token-Has Token.less (suc c) refl hi) [
      | inl (found, has, lt) ↦ rw found (
          inner (suc (suc c)) (omega arith) lt ⟫ λ (k, d) m.
          consume-Has Token.comma _ d refl m.1 ⟫ λ (u, d') n. rw n.0.1 (
            inner (suc d) (omega (arith, IsType-lt env m.0)) (omega (arith, n.0.1, n.1))
            ⟫ λ (v, e) m'. consume-Has Token.greater _ e refl m'.1 ⟫ λ (u', e') n'.
                rw n'.0.1
                  (returns (dict_angle kw has m.0 n.0.0 m'.0 n'.0.0, omega (arith, n'.0.1, n'.1)))))
      | inr (missing, other) ↦ rw missing (
          consume-Has Token.left_bracket _ (suc c) refl hi ⟫ λ (u₀, d₀) m₀. rw m₀.0.1 (
            inner (suc (suc c)) (omega arith) (omega (arith, m₀.0.1, m₀.1)) ⟫ λ (k, d) m.
            consume-Has Token.comma _ d refl m.1 ⟫ λ (u, d') n. rw n.0.1 (
              inner (suc d) (omega (arith, IsType-lt env m.0)) (omega (arith, n.0.1, n.1))
              ⟫ λ (v, e) m'. consume-Has Token.right_bracket _ e refl m'.1 ⟫ λ (u', e') n'.
                  rw n'.0.1 (
                    returns
                      (dict_square kw m₀.0.0 m.0 n.0.0 m'.0 n'.0.0, omega (arith, n'.0.1, n'.1))))))
    ]

    separated-Gives :
        (rounds d : ℕ)
        → c < d
        → d ≤ s.last
        → s.last < rounds + d
        → Gives (λ ts e. AreTypes env ts d e) (separated env rounds Token.comma type d)
    unfolding separated discriminant
    separated-Gives zero d lo hi fits = absurd (omega arith)
    separated-Gives (suc rounds) d lo hi fits = inner d lo hi ⟫ λ (t, e) m.
        elim (match_token-Has Token.comma e refl m.1) [
          | inl (found, has, lt) ↦ rw found (
              separated-Gives rounds (suc e) (omega (arith, IsType-lt env m.0)) lt
                (omega (arith, IsType-lt env m.0))
              ⟫ λ (ts, e') m'. returns (more_types m.0 has m'.0, m'.1))
          | inr (missing, other) ↦ rw missing (returns (last_type m.0, m.1))
        ]

    named_type-Gives : c ≤ s.last → Gives (λ t e. IsType env t c e) (named_type env type c)
    unfolding named_type if_matched discriminant
    named_type-Gives hi = type_name-Gives c hi ⟫ λ (name, d) (m, inside).
        rw m.1 (elim (match_token-Has Token.less d refl inside) [
          | inl (found, has, lt) ↦ rw found (
              separated-Gives (length env.tokens) (suc d) (omega (arith, IsPath-lt env m.2)) lt
                (omega (arith, s.size))
              ⟫ λ (ts, e) m'. consume-Has Token.greater _ e refl m'.1 ⟫ λ (u, e') n.
                  rw n.0.1 (returns (applied m.2 has m'.0 n.0.0, omega (arith, n.0.1, n.1))))
          | inr (missing, other) ↦
              rw missing (returns (name_alone m.2 (both_other d m.3 other), inside))
        ])

    -- One call of `parse_type`.
    type_level-Gives : c ≤ s.last → Gives (λ t e. IsType env t c e) (type_level env type c)
    unfolding type_level if_matched discriminant
    type_level-Gives hi = elim (match_token-Has Token.list_ c refl hi) [
      | inl (found, has, lt) ↦ rw found (
          element_type-Gives _ lt ⟫ λ (t, e) m. elim m.0 [
            | inl (d, left, h, right, same) ↦
                rw same (returns (list_square has left h right, omega (arith, same, m.1)))
            | inr (d, left, h, right, same) ↦
                rw same (returns (list_angle has left h right, omega (arith, same, m.1)))
          ])
      | inr (missing, other) ↦ rw missing (elim (match_token-Has Token.dict_ c refl hi) [
        | inl (found, has, lt) ↦ rw found (dict_type-Gives has lt)
        | inr (missing', other') ↦ rw missing' (elim (match_token-Has Token.set_ c refl hi) [
          | inl (found, has, lt) ↦ rw found (
              element_type-Gives _ lt ⟫ λ (t, e) m. elim m.0 [
                | inl (d, left, h, right, same) ↦
                    rw same (returns (set_square has left h right, omega (arith, same, m.1)))
                | inr (d, left, h, right, same) ↦
                    rw same (returns (set_angle has left h right, omega (arith, same, m.1)))
              ])
          | inr (missing'', other'') ↦ rw missing'' (named_type-Gives hi)
        ])
      ])
    ]

  type_on-Gives :
      (fuel c : ℕ)
      → c ≤ s.last
      → s.last < fuel + c
      → Gives (λ t e. IsType env t c e) (type_on env fuel c)
  unfolding type_on
  type_on-Gives zero c hi fits = absurd (omega arith)
  type_on-Gives (suc fuel) c hi fits =
      type_level-Gives (type_on env fuel) c (λ d lt le. type_on-Gives fuel d le (omega arith)) hi

  pub parse_type-Gives : (c : ℕ) → c ≤ s.last → Gives (λ t e. IsType env t c e) (parse_type env c)
  unfolding parse_type
  parse_type-Gives c hi = type_on-Gives (length env.tokens) c hi (omega (arith, s.size))
