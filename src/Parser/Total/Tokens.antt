-- ===== src/Parser/Total/Tokens.antt =====
-- The methods on single tokens of crates/plat-parser/src/lib.rs return.
use plat.Base.{
  returns, bind, ok, ℕ, zero, suc, ◌≤◌, ◌<◌, ◌≡◌, refl, sym, subst, Bool, true, false, List, [],
  ◌∷◌, none, some, arith, get_elem?, inl, inr, ◌==◌, ◌⊎◌, Bool-cases, ap,
}
use plat.Lexer.Token.{Token, TokenWithSpan}
use plat.Parser.State.{
  Env, Parse, discriminant, pure, ◌>>=◌, lift, or_panic, is_eof, peek, previous, is_at_end,
  current_span, previous_span, advance, check, match_token, match_tokens,
}
use plat.Parser.Total.{IsStream, IsParsed, Lands, Lands-weaken, Stays, Passes, pure-Stays, ◌▹◌}

module _ {F : Type 0} {env : Env F} (s : IsStream env) where
  -- The token at a position of the stream.
  pub peek-ok :
      (c : ℕ)
      → c ≤ s.last
      → (t : TokenWithSpan F) × (peek env c ≡ ok (t, c)) × (get_elem? env.tokens c ≡ some t)
  unfolding peek
  peek-ok c h = let (t, e, parsed) = s.at c h in (t, ap (λ o. lift (or_panic o) c) e, e)

  module _ {b : ℕ} where
    pub peek-Stays : Stays s.last b (peek env)
    peek-Stays = record {
      lands = λ c lo hi.
          let (t, e, at) = peek-ok c hi in
          subst (Lands s.last c) (sym e) (returns (omega arith, hi));
    }

    pub current_span-Stays : Stays s.last b (current_span env)
    unfolding current_span
    current_span-Stays = peek-Stays ▹ λ t. pure-Stays t.span

    pub is_at_end-Stays : Stays s.last b (is_at_end env)
    unfolding is_at_end
    is_at_end-Stays = peek-Stays ▹ λ t. pure-Stays (is_eof t.token)

    pub previous_span-Stays : 1 ≤ b → Stays s.last b (previous_span env)
    unfolding previous_span previous
    previous_span-Stays h = record { lands = λ c lo hi. behind c (omega arith) hi }
      where
        behind : (c : ℕ) → 1 ≤ c → c ≤ s.last → Lands s.last c (previous_span env c)
        behind zero h hi = absurd (omega arith)
        behind (suc c) h hi =
            let (t, e, parsed) = s.at c (omega arith) in
            subst
              (λ o. Lands s.last (suc c) (bind (lift (or_panic o) (suc c)) λ (t, d). pure t.span d))
              (sym e) (returns (omega arith, hi))

  pub advance-ok :
      (c : ℕ) (t : TokenWithSpan F)
      → get_elem? env.tokens c ≡ some t
      → is_eof t.token ≡ false
      → advance env c ≡ ok (tt, suc c)
  unfolding advance is_at_end peek previous
  advance-ok c t e inner = rw (e, inner, e) refl

  advance-Lands : (c : ℕ) → 1 ≤ c → c ≤ s.last → Lands s.last c (advance env c)
  unfolding advance is_at_end peek previous
  advance-Lands zero h hi = absurd (omega arith)
  advance-Lands (suc c) h hi =
      let (t, e, parsed) = s.at (suc c) hi in
      let (u, e', _) = s.at c (omega arith) in
      elim (Bool-cases (is_eof t.token)) [
        | inl end ↦ rw (e, end, e') (returns (omega arith, hi))
        | inr inner ↦ rw (e, inner, e) (returns (omega arith, s.inner (suc c) t hi e inner))
      ]

  -- What `check` answers, and that it does not move.
  pub check-ok :
      (token : Token F) (c : ℕ)
      → c ≤ s.last
      → ((check env token c ≡ ok (true, c)) × (advance env c ≡ ok (tt, suc c)) × (c < s.last))
        ⊎ (check env token c ≡ ok (false, c))
  unfolding check is_at_end peek
  check-ok token c hi =
      let (t, e, parsed) = s.at c hi in
      elim (Bool-cases (is_eof t.token)) [
        | inl end ↦ inr (rw (e, end) refl)
        | inr inner ↦ elim (Bool-cases (discriminant t.token == discriminant token)) [
          | inl same ↦
              inl (rw (e, inner, e, same) refl, advance-ok c t e inner, s.inner c t hi e inner)
          | inr differs ↦ inr (rw (e, inner, e, differs) refl)
        ]
      ]

  pub match_token-ok :
      (token : Token F) (c : ℕ)
      → c ≤ s.last
      → ((match_token env token c ≡ ok (true, suc c)) × (c < s.last))
        ⊎ (match_token env token c ≡ ok (false, c))
  unfolding match_token
  match_token-ok token c hi = elim (check-ok token c hi) [
    | inl (e, a, h) ↦ inl (rw (e, a) refl, h)
    | inr e ↦ inr (rw e refl)
  ]

  -- A token that was read and is no `eof` is passed.
  pub advanced :
      {A : Type 0} {c : ℕ} {t : TokenWithSpan F} (f : Unit {0} → Parse A)
      → get_elem? env.tokens c ≡ some t
      → is_eof t.token ≡ false
      → c ≤ s.last
      → Stays s.last (suc c) (f tt)
      → Lands s.last (suc c) ((advance env >>= f) c)
  advanced {c = c} {t} f e inner hi h =
      subst (λ r. Lands s.last (suc c) (bind r λ (a, d). f a d)) (sym (advance-ok c t e inner))
        (h.lands (suc c) (omega arith) (s.inner c t hi e inner))

  pub match_tokens-ok :
      {A : Type 0} (ops : List (Token F × A)) (c : ℕ)
      → c ≤ s.last
      → ((a : A) × (match_tokens env ops c ≡ ok (some a, suc c)) × (c < s.last))
        ⊎ (match_tokens env ops c ≡ ok (none, c))
  unfolding match_tokens
  match_tokens-ok [] c hi = inr refl
  match_tokens-ok ((token, a) ∷ rest) c hi = elim (match_token-ok token c hi) [
    | inl (e, h) ↦ inl (a, rw e refl, h)
    | inr e ↦ elim (match_tokens-ok rest c hi) [
      | inl (a', e', h) ↦ inl (a', rw e e', h)
      | inr e' ↦ inr (rw e e')
    ]
  ]

  module _ {b : ℕ} where
    pub check-Stays : (token : Token F) → Stays s.last b (check env token)
    check-Stays token = record {
      lands = λ c lo hi. elim (check-ok token c hi) [
        | inl (e, a, h) ↦ subst (Lands s.last c) (sym e) (returns (omega arith, hi))
        | inr e ↦ subst (Lands s.last c) (sym e) (returns (omega arith, hi))
      ];
    }

    pub match_token-Stays : (token : Token F) → Stays s.last b (match_token env token)
    match_token-Stays token = record {
      lands = λ c lo hi. elim (match_token-ok token c hi) [
        | inl (e, h) ↦ subst (Lands s.last c) (sym e) (returns (omega arith, omega arith))
        | inr e ↦ subst (Lands s.last c) (sym e) (returns (omega arith, hi))
      ];
    }

    module _ {A : Type 0} (f : Bool → Parse A) where
      -- Behind the test of a token: where it was found, it was passed.
      pub matched :
          (token : Token F)
          → Stays s.last (suc b) (f true)
          → Stays s.last b (f false)
          → Stays s.last b (match_token env token >>= f)
      matched token h k = record {
        lands = λ c lo hi. elim (match_token-ok token c hi) [
          | inl (e, more) ↦
              subst (λ r. Lands s.last c (bind r λ (a, d). f a d)) (sym e)
                (Lands-weaken (omega arith) (h.lands (suc c) (omega arith) (omega arith)))
          | inr e ↦ subst (λ r. Lands s.last c (bind r λ (a, d). f a d)) (sym e) (k.lands c lo hi)
        ];
      }

      pub matched-Passes :
          (token : Token F)
          → Stays s.last (suc b) (f true)
          → Passes s.last b (f false)
          → Passes s.last b (match_token env token >>= f)
      matched-Passes token h k = record {
        lands = λ c lo hi. elim (match_token-ok token c hi) [
          | inl (e, more) ↦
              subst (λ r. Lands s.last (suc c) (bind r λ (a, d). f a d)) (sym e)
                (h.lands (suc c) (omega arith) (omega arith))
          | inr e ↦
              subst (λ r. Lands s.last (suc c) (bind r λ (a, d). f a d)) (sym e) (k.lands c lo hi)
        ];
      }

      -- Behind the look at a token: where it was found, `advance` passes it.
      pub checked :
          (token : Token F)
          → ((c : ℕ)
              → b ≤ c
              → c < s.last
              → advance env c ≡ ok (tt, suc c)
              → Lands s.last (suc c) (f true c))
          → Passes s.last b (f false)
          → Passes s.last b (check env token >>= f)
      checked token h k = record {
        lands = λ c lo hi. elim (check-ok token c hi) [
          | inl (e, a, more) ↦
              subst (λ r. Lands s.last (suc c) (bind r λ (a, d). f a d)) (sym e) (h c lo more a)
          | inr e ↦
              subst (λ r. Lands s.last (suc c) (bind r λ (a, d). f a d)) (sym e) (k.lands c lo hi)
        ];
      }

    -- The rule that the token at hand selects.
    pub peeked :
        {A : Type 0} {f : TokenWithSpan F → Parse A}
        → ((c : ℕ) (t : TokenWithSpan F)
            → b ≤ c
            → c ≤ s.last
            → get_elem? env.tokens c ≡ some t
            → IsParsed env t.token
            → Lands s.last (suc c) (f t c))
        → Passes s.last b (peek env >>= f)
    unfolding peek
    peeked {f = f} h = record {
      lands = λ c lo hi.
          let (t, e, parsed) = s.at c hi in
          subst (λ o. Lands s.last (suc c) (bind (lift (or_panic o) c) λ (a, d). f a d)) (sym e)
            (h c t lo hi e parsed);
    }

    pub advance-Stays : 1 ≤ b → Stays s.last b (advance env)
    advance-Stays h = record { lands = λ c lo hi. advance-Lands c (omega arith) hi }
