-- ===== src/Parser/Total/Lookahead.antt =====
-- What the look ahead of `is_dict_literal` of crates/plat-parser/src/lib.rs answers.
use plat.Base.{
  Ensures, returns, ok, ℕ, suc, ◌≤◌, ◌≡◌, refl, Bool, true, false, ◌==◌, ==_iff, inl, inr, ◌⊎◌,
  Bool-cases, arith, some, [], get_elem?,
}
use plat.Lexer.Token.{Token, TokenWithSpan}
use plat.Parser.State.{Env, Parse, discriminant, is_eof, pure, ◌>>◌, is_at_end, advance, check}
use plat.Parser.Literals.{key_like, is_dict_literal}
use plat.Parser.Types.Grammar.{Has}
use plat.Parser.Types.Sound.{check-Has}
use plat.Parser.Total.{IsStream}
use plat.Parser.Total.Tokens.{peek-ok, advance-ok}

-- Behind a `{` there is a dict: nothing more, a `}`, or a key and a `:`.
pub data StartsDict {F : Type 0} (env : Env F) (c : ℕ) : Type 0 where
  at_eof : Has env c Token.eof → StartsDict env c
  closed_at : Has env c Token.right_brace → StartsDict env c
  text_key : Has env c (Token.string_literal []) → Has env (suc c) Token.colon → StartsDict env c
  name_key : Has env c (Token.ident []) → Has env (suc c) Token.colon → StartsDict env c

-- The answer is whether `P` holds.
abbrev pub Decides : Bool → Type 0 → Type 0
Decides true P = P
Decides false P = ¬ P

module _ {F : Type 0} (env : Env F) where
  -- A token of a kind is not one of another.
  Has-other :
      (c : ℕ) {t : TokenWithSpan F} (token : Token F)
      → get_elem? env.tokens c ≡ some t
      → (discriminant t.token == discriminant token) ≡ false
      → ¬ Has env c token
  Has-other c {t} token e other (u, at, kind) =
      ground (arith, e, other, at, kind, ==_iff (discriminant t.token) (discriminant token))

  abbrev IsKey : Token F → Type 0
  IsKey t =
      (discriminant t ≡ discriminant {F = F} (Token.string_literal []))
      ⊎ (discriminant t ≡ discriminant {F = F} (Token.ident []))

  key_like-cases :
      (t : Token F)
      → ((key_like env t ≡ (advance env >> check env Token.colon)) × IsKey t)
        ⊎ ((key_like env t ≡ pure false)
            × ((discriminant t == discriminant {F = F} (Token.string_literal [])) ≡ false)
            × ((discriminant t == discriminant {F = F} (Token.ident [])) ≡ false))
  unfolding discriminant
  key_like-cases (Token.string_literal s) = inl (refl, inl refl)
  key_like-cases (Token.ident s) = inl (refl, inr refl)
  key_like-cases _ = inr (refl, refl, refl)

  not_started :
      {c : ℕ}
      → ¬ Has env c Token.eof
      → ¬ Has env c Token.right_brace
      → (Has env c (Token.string_literal []) → ¬ Has env (suc c) Token.colon)
      → (Has env c (Token.ident []) → ¬ Has env (suc c) Token.colon)
      → ¬ StartsDict env c
  not_started end brace text name (at_eof h) = end h
  not_started end brace text name (closed_at h) = brace h
  not_started end brace text name (text_key h k) = text h k
  not_started end brace text name (name_key h k) = name h k

  key_started :
      {c : ℕ} {t : TokenWithSpan F}
      → get_elem? env.tokens c ≡ some t
      → IsKey t.token
      → Has env (suc c) Token.colon
      → StartsDict env c
  key_started {t = t} e (inl kind) colon = text_key (t, e, kind) colon
  key_started {t = t} e (inr kind) colon = name_key (t, e, kind) colon

  -- The answer of a look ahead, and that it is right.
  abbrev Answers : ℕ → Parse Bool → Type 0
  Answers c p = (b : Bool) × (d : ℕ) × (p c ≡ ok (b, d)) × Decides b (StartsDict env c)

module _ {F : Type 0} {env : Env F} (s : IsStream env) where
  -- The answer by the key and the `:`, where the braces are not empty.
  key_like-Answers :
      (c : ℕ) (t : TokenWithSpan F)
      → c ≤ s.last
      → get_elem? env.tokens c ≡ some t
      → is_eof t.token ≡ false
      → ¬ Has env c Token.right_brace
      → Answers env c (key_like env t.token)
  unfolding discriminant
  key_like-Answers c t hi e inner brace =
      let end : ¬ Has env c Token.eof = Has-other env c Token.eof e inner in
      elim (key_like-cases env t.token) [
        | inl (like, kind) ↦
            elim (check-Has s Token.colon (suc c) refl (omega (arith, s.inner c t hi e inner))) [
              | inl (answer, moved, colon, lt) ↦ (
                true,
                suc c,
                rw (like, advance-ok s c t e inner, answer) refl,
                key_started env e kind colon,
              )
              | inr (answer, (u, at, differs)) ↦
                  let no_colon : ¬ Has env (suc c) Token.colon =
                    Has-other env (suc c) Token.colon at differs in
                  (
                    false,
                    suc c,
                    rw (like, advance-ok s c t e inner, answer) refl,
                    not_started env end brace (λ _. no_colon) (λ _. no_colon),
                  )
            ]
        | inr (like, not_text, not_name) ↦ (
          false,
          c,
          rw like refl,
          not_started env end brace (λ h _. Has-other env c (Token.string_literal []) e not_text h)
              (λ h _. Has-other env c (Token.ident []) e not_name h),
        )
      ]

  -- `is_dict_literal` says at each token whether a dict starts there, and leaves the position.
  pub is_dict_literal-Decides :
      (c : ℕ)
      → c ≤ s.last
      → (b : Bool) × (is_dict_literal env c ≡ ok (b, c)) × Decides b (StartsDict env c)
  unfolding is_dict_literal is_at_end discriminant
  is_dict_literal-Decides c hi =
      let (t, at, e) = peek-ok s c hi in
      elim (check-Has s Token.right_brace c refl hi) [
        | inl (answer, moved, brace, lt) ↦ elim (Bool-cases (is_eof t.token)) [
          | inl end ↦ (true, rw (at, answer, end) refl, closed_at brace)
          | inr inner ↦ (true, rw (at, answer, inner) refl, closed_at brace)
        ]
        | inr (answer, (u, at', differs)) ↦
            let no_brace : ¬ Has env c Token.right_brace =
              Has-other env c Token.right_brace at' differs in
            elim (Bool-cases (is_eof t.token)) [
              | inl end ↦ (
                true,
                rw (at, answer, end) refl,
                at_eof (t, e, (==_iff (discriminant t.token) 69).0 end),
              )
              | inr inner ↦
                  let (b, d, like, right) = key_like-Answers c t hi e inner no_brace in
                  (b, rw (at, answer, inner, at, like) refl, right)
            ]
      ]

  -- The look ahead ends where it began.
  pub is_dict_literal-ok :
      (c : ℕ) → c ≤ s.last → Ensures (λ x. x.1 ≡ c) (λ _. Unit {0}) (is_dict_literal env c)
  is_dict_literal-ok c hi = let (b, e, right) = is_dict_literal-Decides c hi in rw e (returns refl)
