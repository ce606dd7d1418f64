-- ===== src/Parser/Total/Program.antt =====
-- `Parser::parse` of crates/plat-parser/src/lib.rs returns.
use plat.Base.{
  returns, ℕ, zero, suc, ◌+◌, ◌≤◌, ◌<◌, ◌≡◌, refl, Bool, true, false, some, Text, arith, length,
  get_elem?, Bool-cases, inl, inr,
}
use plat.Lexer.Token.{Token, TokenWithSpan}
use plat.Ast.{Program}
use plat.Parser.State.{Env, Parse, is_eof, is_at_end}
use plat.Parser.Literals.{Calls}
use plat.Parser.Program.{
  Item, push, unless_public, item_at, next_item, item_loop, declared, parse_program,
}
use plat.Parser.Total.{
  IsStream, Stays, Passes, Makes, made, ◌▹▹◌, ◌▸▹◌, weaken, pure-Stays, ◌▸◌, ◌▸▸◌,
}
use plat.Parser.Total.Tokens.{
  peek-ok, previous_span-Stays, check-Stays, match_token-Stays, matched-Passes,
}
use plat.Parser.Declarations.{parse_type_alias, parse_newtype}
use plat.Parser.Total.Rules.{optional-Stays, reject-Passes, if_next-Passes}
use plat.Parser.Total.Loops.{while-all}
use plat.Parser.Total.Literals.{Answers}
use plat.Parser.Total.Declarations.{
  parse_module_decl-Passes, parse_use_decl-Passes, parse_type_alias-Passes, parse_newtype-Passes,
  parse_test_block-Passes, parse_bench_block-Passes, parse_function-Passes, either_check-Stays,
  parse_enum-Passes, parse_class-Passes,
}

module _ {F : Type 0} {env : Env F} (s : IsStream env) {k : Calls F} (a : Answers k s.last 1) where
  unless_public-Passes :
      {b : ℕ} (message help : Text) {p : Parse (Item F)} (is_public : Bool)
      → (is_public ≡ true → 1 ≤ b)
      → Passes s.last b p
      → Passes s.last b (unless_public env k message help p is_public)
  unless_public-Passes message help true h k =
      previous_span-Stays s (h refl) ▸ λ span. reject-Passes s span _ _ _
  unless_public-Passes message help false h k = k

  item_at-Passes :
      {b : ℕ} (is_public : Bool)
      → (is_public ≡ true → 1 ≤ b)
      → Passes s.last b (item_at env k is_public)
  unfolding item_at
  item_at-Passes is_public h =
      if_next-Passes s _ (parse_enum-Passes s a is_public ▸▸ λ d. pure-Stays _) (
        if_next-Passes s _ (parse_class-Passes s a is_public ▸▸ λ d. pure-Stays _) (
          if_next-Passes s _ (parse_type_alias-Passes s is_public ▸▸ λ d. pure-Stays _) (
            if_next-Passes s _ (parse_newtype-Passes s is_public ▸▸ λ d. pure-Stays _) (
              if_next-Passes s _
                (unless_public-Passes _ _ is_public h
                  (parse_test_block-Passes s a ▸▸ λ d. pure-Stays _))
                (if_next-Passes s _
                  (unless_public-Passes _ _ is_public h
                    (parse_bench_block-Passes s a ▸▸ λ d. pure-Stays _))
                  (parse_function-Passes s a is_public ▸▸ λ f. pure-Stays _))))))

  -- `pub` ahead of an item gives `previous_span` a token.
  next_item-Passes : {b : ℕ} → Passes s.last b (next_item env k)
  next_item-Passes =
      matched-Passes s (item_at env k) Token.pub_ (weaken (item_at-Passes true λ _. omega arith))
        (item_at-Passes false λ e. absurd (cc e))

  declared-Passes :
      {A : Type 0} {b : ℕ} (p : Bool → Parse A)
      → ((is_public : Bool) → Passes s.last b (p is_public))
      → Passes s.last b (declared env k p)
  declared-Passes p h = match_token-Stays s _ ▸ h

  -- The token at the position is the end of the file.
  abbrev pub IsAtEof : Program F → ℕ → Type 0
  IsAtEof p c = (t : TokenWithSpan F) × (get_elem? env.tokens c ≡ some t) × (is_eof t.token ≡ true)

  item_loop-Makes :
      (fuel b : ℕ) (p : Program F)
      → s.last < fuel + b
      → Makes IsAtEof s.last b (item_loop env k fuel p)
  unfolding item_loop is_at_end
  item_loop-Makes zero b p fits = record { makes = λ c lo hi. absurd (omega arith) }
  item_loop-Makes (suc fuel) b p fits = record {
    makes = λ c lo hi.
        let (t, e, at) = peek-ok s c hi in
        elim (Bool-cases (is_eof t.token)) [
          | inl end ↦ rw (e, end) (returns ((t, at, end), omega arith, hi))
          | inr more ↦
              rw (e, more)
                ((next_item-Passes {b = b} ▸▹ λ i.
                    item_loop-Makes fuel (suc b) (push p i) (omega arith)).makes
                  c lo hi)
        ];
  }

  pub parse_program-Makes : {b : ℕ} → Makes IsAtEof s.last b (parse_program env k)
  unfolding parse_program
  parse_program-Makes {b} = check-Stays s _ ▹▹ λ is_module.
      optional-Stays s is_module (parse_module_decl-Passes s) ▹▹ λ module_decl.
      while-all s (check-Stays s _) (parse_use_decl-Passes s) ▹▹ λ use_decls.
      while-all s (either_check-Stays s _ _ _)
        (declared-Passes (parse_type_alias env) (parse_type_alias-Passes s))
      ▹▹ λ type_aliases.
          while-all s (either_check-Stays s _ _ _)
            (declared-Passes (parse_newtype env) (parse_newtype-Passes s))
          ▹▹ λ newtypes. item_loop-Makes (length env.tokens) b _ (omega (arith, s.size))

  pub parse_program-Stays : {b : ℕ} → Stays s.last b (parse_program env k)
  parse_program-Stays = made parse_program-Makes
