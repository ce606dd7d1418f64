-- ===== src/Parser/Total/Primary.antt =====
-- `parse_primary` of crates/plat-parser/src/lib.rs and the other expressions that begin with a keyword
-- return, where the calls they make do.
use plat.Base.{
  throws, ◌⟫◌, ℕ, zero, suc, ◌≤◌, ◌≡◌, refl, sym, subst, Bool, true, false, List, some, Text, codes,
  arith, get_elem?, if_intro, text_eq,
}
use plat.Diags.{Span}
use plat.Lexer.Token.{Token}
use plat.Parser.State.{Env, ◌>>=◌, discriminant}
use plat.Parser.Literals.{Calls, back, is_dict_literal}
use plat.Parser.Primary.{
  parameter_named, parse_cast_expression, parse_spawn_expression, super_call, enum_constructor,
  qualified, enum_or_name, path_expression, dict_or_block, primary_at, parse_primary,
}
use plat.Parser.Total.{
  IsStream, IsParsed, Lands, Stays, Passes, weaken, mono, pure-Stays, throw-Passes, ◌▸▸◌, ◌▹◌,
}
use plat.Parser.Total.Tokens.{previous_span-Stays, match_token-Stays, advanced, peeked}
use plat.Parser.Total.Rules.{
  consume-Passes, consume_identifier-Passes, consume_module_name-Passes, if_matched-Stays,
}
use plat.Parser.Total.Loops.{while-all}
use plat.Parser.Total.Types.{parse_type-Passes, one_token-Lands}
use plat.Parser.Total.Literals.{
  Answers, Answers-mono, parse_named_arguments-Stays, parse_interpolated_string-Stays,
  parse_dict_literal-Passes, parse_block-Passes, parse_set_literal-Stays, array_literal-Stays,
}
use plat.Parser.Total.Lookahead.{is_dict_literal-ok}
use plat.Parser.Total.Blocks.{parse_match_expression-Stays, parse_if_expression-Stays}

module _ {F : Type 0} {env : Env F} (s : IsStream env) {k : Calls F} {b : ℕ} (h : 1 ≤ b)
    (a : Answers k s.last b) where
  parameter_named-Stays :
      (expected message found : Text)
      → Stays s.last b (parameter_named env k expected message found)
  unfolding parameter_named
  parameter_named-Stays expected message found =
      if_intro (Stays s.last b) (text_eq found expected) (λ _. pure-Stays tt)
        (λ _. weaken (throw-Passes _))

  parse_cast_expression-Stays : Stays s.last b (parse_cast_expression env k)
  unfolding parse_cast_expression
  parse_cast_expression-Stays = previous_span-Stays s h ▹ λ start.
      weaken (consume-Passes s _ _) ▹ λ _. weaken (consume_identifier-Passes s _) ▹ λ first.
      parameter_named-Stays (codes "value") (codes "Expected 'value' as first parameter, found '")
        first
      ▹ λ _. weaken (consume-Passes s _ _) ▹ λ _. weaken a.expression ▹ λ value.
          weaken (consume-Passes s _ _) ▹ λ _. weaken (consume_identifier-Passes s _) ▹ λ second.
          parameter_named-Stays (codes "target")
            (codes "Expected 'target' as second parameter, found '") second
          ▹ λ _. weaken (consume-Passes s _ _) ▹ λ _. weaken (parse_type-Passes s) ▹ λ target_type.
              weaken (consume-Passes s _ _) ▹ λ _. previous_span-Stays s h ▹ λ end. pure-Stays _

  parse_spawn_expression-Stays : Stays s.last b (parse_spawn_expression env k)
  unfolding parse_spawn_expression
  parse_spawn_expression-Stays = previous_span-Stays s h ▹ λ start.
      weaken (parse_block-Passes s (Answers-mono (omega arith) a)) ▹ λ body. pure-Stays _

  super_call-Stays : Stays s.last b (super_call env k)
  unfolding super_call
  super_call-Stays = previous_span-Stays s h ▹ λ start. weaken (consume-Passes s _ _) ▹ λ _.
      if_matched-Stays s _ (pure-Stays _) (weaken (consume_identifier-Passes s _)) ▹ λ method.
      weaken (consume-Passes s _ _) ▹ λ _. parse_named_arguments-Stays s a ▹ λ args.
      weaken (consume-Passes s _ _) ▹ λ _. previous_span-Stays s h ▹ λ end. pure-Stays _

  enum_constructor-Stays :
      (start : ℕ) (name variant : Text) → Stays s.last b (enum_constructor env k start name variant)
  unfolding enum_constructor
  enum_constructor-Stays start name variant =
      if_matched-Stays s _
        (mono (omega arith) (parse_named_arguments-Stays s a) ▹ λ args.
          weaken (consume-Passes s _ _) ▹ λ _.
          previous_span-Stays s (omega arith) ▹ λ end. pure-Stays _)
        (previous_span-Stays s h ▹ λ end. pure-Stays _)

  enum_or_name-Stays :
      (start : ℕ) (name second : Text) (rest : List Text) (is_enum : Bool)
      → Stays s.last b (enum_or_name env k start name second rest is_enum)
  unfolding qualified
  enum_or_name-Stays start name second rest true = enum_constructor-Stays start name second
  enum_or_name-Stays start name second rest false = previous_span-Stays s h ▹ λ end. pure-Stays _

  path_expression-Stays :
      (start : ℕ) (name : Text) → Stays s.last b (path_expression env k start name)
  unfolding path_expression
  path_expression-Stays start name = weaken (consume_module_name-Passes s _) ▹ λ second.
      while-all s (match_token-Stays s _) (consume_module_name-Passes s _) ▹ λ rest.
      enum_or_name-Stays start name second rest _

module _ {F : Type 0} {env : Env F} (s : IsStream env) {k : Calls F} {b : ℕ}
    (a : Answers k s.last (suc b)) where
  -- Behind `{`, from where the literal or the block begins again.
  braces-Lands :
      (dict : Bool) (c : ℕ) → suc b ≤ c → c ≤ s.last → Lands s.last c (dict_or_block env k dict c)
  unfolding back
  braces-Lands dict zero lo hi = absurd (omega arith)
  braces-Lands true (suc c) lo hi =
      (parse_dict_literal-Passes s a).lands c (omega arith) (omega arith)
  braces-Lands false (suc c) lo hi =
      (parse_block-Passes s a ▸▸ λ body. pure-Stays _).lands c (omega arith) (omega arith)

  dict_or_block-Stays : Stays s.last (suc b) (is_dict_literal env >>= dict_or_block env k)
  dict_or_block-Stays = record {
    lands = λ c lo hi. is_dict_literal-ok s c hi ⟫ λ (dict, d) same.
        subst (λ d. Lands s.last c (dict_or_block env k dict d)) (sym same)
          (braces-Lands dict c lo hi);
  }

  primary_at-Lands :
      (c : ℕ) (t : Token F) (span : Span)
      → b ≤ c
      → c ≤ s.last
      → get_elem? env.tokens c ≡ some (record { token = t; span = span })
      → IsParsed env t
      → Lands s.last (suc c) (primary_at env k t c)
  unfolding discriminant
  primary_at-Lands c Token.match_ span lo hi e p =
      advanced s _ e refl hi
        (parse_match_expression-Stays s (omega arith) (Answers-mono (omega arith) a))
  primary_at-Lands c Token.if_ span lo hi e p =
      advanced s _ e refl hi
        (parse_if_expression-Stays s (omega arith) (Answers-mono (omega arith) a))
  primary_at-Lands c Token.cast_ span lo hi e p =
      advanced s _ e refl hi
        (parse_cast_expression-Stays s (omega arith) (Answers-mono (omega arith) a))
  primary_at-Lands c Token.spawn_ span lo hi e p =
      advanced s _ e refl hi
        (parse_spawn_expression-Stays s (omega arith) (Answers-mono (omega arith) a))
  primary_at-Lands c Token.true_ span lo hi e p = one_token-Lands s _ e refl hi
  primary_at-Lands c Token.false_ span lo hi e p = one_token-Lands s _ e refl hi
  primary_at-Lands c (Token.int_literal n ty) span lo hi e p = one_token-Lands s _ e refl hi
  primary_at-Lands c (Token.float_literal n ty) span lo hi e p = one_token-Lands s _ e refl hi
  primary_at-Lands c (Token.string_literal x) span lo hi e p = one_token-Lands s _ e refl hi
  primary_at-Lands c (Token.interpolated_string parts) span lo hi e p = advanced s _ e refl hi (
      previous_span-Stays s (omega arith) ▹ λ at.
      parse_interpolated_string-Stays s (Answers-mono (omega arith) a) parts p ▹ λ found.
      pure-Stays _)
  primary_at-Lands c Token.self_ span lo hi e p = one_token-Lands s _ e refl hi
  primary_at-Lands c Token.super_ span lo hi e p =
      advanced s _ e refl hi (super_call-Stays s (omega arith) (Answers-mono (omega arith) a))
  primary_at-Lands c (Token.ident name) span lo hi e p = advanced s _ e refl hi (
      previous_span-Stays s (omega arith) ▹ λ at.
      if_matched-Stays s _
        (path_expression-Stays s (omega arith) (Answers-mono (omega arith) a) at.start name)
        (pure-Stays _))
  primary_at-Lands c Token.set_ span lo hi e p =
      advanced s _ e refl hi
        (parse_set_literal-Stays s (omega arith) (Answers-mono (omega arith) a))
  primary_at-Lands c Token.left_paren span lo hi e p = advanced s _ e refl hi (
      mono (omega arith) (weaken a.expression) ▹ λ value.
      weaken (consume-Passes s _ _) ▹ λ _. pure-Stays value)
  primary_at-Lands c Token.left_brace span lo hi e p =
      advanced s _ e refl hi (mono (omega arith) dict_or_block-Stays)
  primary_at-Lands c Token.left_bracket span lo hi e p =
      advanced s _ e refl hi (array_literal-Stays s (omega arith) (Answers-mono (omega arith) a))
  primary_at-Lands c _ span lo hi e p = throws tt

  pub parse_primary-Passes : Passes s.last b (parse_primary env k)
  unfolding parse_primary
  parse_primary-Passes = peeked s λ c t lo hi e p. primary_at-Lands c t.token t.span lo hi e p
