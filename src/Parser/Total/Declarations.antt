-- ===== src/Parser/Total/Declarations.antt =====
-- The declarations of crates/plat-parser/src/lib.rs return, where the calls they make do.
use plat.Base.{
  returns, ℕ, suc, ◌≤◌, ◌≡◌, refl, Bool, true, false, ◌&&◌, ◌||◌, [], some, Text, arith, get_elem?,
}
use plat.Diags.{Span}
use plat.Lexer.Token.{Token}
use plat.Parser.State.{Env, discriminant, is_next}
use plat.Parser.Literals.{Calls}
use plat.Parser.Declarations.{
  module_path, parse_module_decl, parse_use_decl, parse_type_alias, parse_newtype, type_parameters,
  named_block, block_name, parameter, parse_parameters, function_name, parse_function,
  parse_test_block, parse_bench_block,
}
use plat.Parser.Classes.{
  enum_variant, field_keyword, class_field, either_check, enum_member, parse_enum, is_method,
  is_field, class_member, parse_class,
}
use plat.Parser.Total.{
  IsStream, Lands, Stays, Passes, weaken, mono, pure-Stays, throw-Passes, ◌▸◌, ◌▸▸◌, ◌▹◌,
}
use plat.Parser.Total.Tokens.{
  current_span-Stays, previous_span-Stays, check-Stays, match_token-Stays, advanced, peeked,
}
use plat.Parser.Total.Rules.{
  reject-Passes, consume-Passes, consume_identifier-Passes, consume_module_name-Passes,
  if_matched-Stays, if_matched-Passes, branch-Passes, when_matched-Stays,
}
use plat.Parser.Total.Loops.{separated-all, items-Stays, while-all, body_of-Stays}
use plat.Parser.Total.Types.{parse_type-Passes}
use plat.Parser.Total.Literals.{Answers, Answers-mono, parse_block-Passes}

module _ {F : Type 0} {env : Env F} (s : IsStream env) {b : ℕ} where
  module_path-Passes : Passes s.last b (module_path env)
  unfolding module_path
  module_path-Passes = consume_module_name-Passes s _ ▸▸ λ first.
      while-all s (match_token-Stays s _) (consume_module_name-Passes s _) ▹ λ rest. pure-Stays _

module _ {F : Type 0} {env : Env F} (s : IsStream env) {b : ℕ} where
  pub parse_module_decl-Passes : Passes s.last b (parse_module_decl env)
  unfolding parse_module_decl
  parse_module_decl-Passes = current_span-Stays s ▸ λ start. consume-Passes s _ _ ▸▸ λ _.
      weaken (module_path-Passes s) ▹ λ path.
      weaken (consume-Passes s _ _) ▹ λ _. previous_span-Stays s (omega arith) ▹ λ end. pure-Stays _

  pub parse_use_decl-Passes : Passes s.last b (parse_use_decl env)
  unfolding parse_use_decl
  parse_use_decl-Passes = current_span-Stays s ▸ λ start. consume-Passes s _ _ ▸▸ λ _.
      weaken (module_path-Passes s) ▹ λ path.
      weaken (consume-Passes s _ _) ▹ λ _. previous_span-Stays s (omega arith) ▹ λ end. pure-Stays _

  pub parse_type_alias-Passes :
      (is_public : Bool) → Passes s.last b (parse_type_alias env is_public)
  unfolding parse_type_alias
  parse_type_alias-Passes is_public = current_span-Stays s ▸ λ start. consume-Passes s _ _ ▸▸ λ _.
      weaken (consume_identifier-Passes s _) ▹ λ name. weaken (consume-Passes s _ _) ▹ λ _.
      weaken (parse_type-Passes s) ▹ λ ty.
      weaken (consume-Passes s _ _) ▹ λ _. previous_span-Stays s (omega arith) ▹ λ end. pure-Stays _

  pub parse_newtype-Passes : (is_public : Bool) → Passes s.last b (parse_newtype env is_public)
  unfolding parse_newtype
  parse_newtype-Passes is_public = current_span-Stays s ▸ λ start. consume-Passes s _ _ ▸▸ λ _.
      weaken (consume_identifier-Passes s _) ▹ λ name. weaken (consume-Passes s _ _) ▹ λ _.
      weaken (parse_type-Passes s) ▹ λ ty.
      weaken (consume-Passes s _ _) ▹ λ _. previous_span-Stays s (omega arith) ▹ λ end. pure-Stays _

  type_parameters-Stays : Stays s.last b (type_parameters env)
  unfolding type_parameters
  type_parameters-Stays =
      if_matched-Stays s _
        (weaken (separated-all s _ (consume_identifier-Passes s _)) ▹ λ names.
          weaken (consume-Passes s _ _) ▹ λ _. pure-Stays names)
        (pure-Stays [])

  named_block-Lands :
      (message help : Text) (c : ℕ) (t : Token F) (span : Span)
      → b ≤ c
      → c ≤ s.last
      → get_elem? env.tokens c ≡ some (record { token = t; span = span })
      → Lands s.last (suc c) (named_block env message help t c)
  unfolding discriminant
  named_block-Lands message help c (Token.ident name) span lo hi e =
      advanced s _ e refl hi (pure-Stays name)
  named_block-Lands message help c _ span lo hi e =
      (current_span-Stays s ▸ λ at. reject-Passes s at _ _ _).lands c lo hi

  block_name-Passes : (message help : Text) → Passes s.last b (block_name env message help)
  unfolding block_name
  block_name-Passes message help =
      peeked s λ c t lo hi e p. named_block-Lands message help c t.token t.span lo hi e

  -- The tests of several tokens do not move.
  is_next-Stays : (token : Token F) → Stays s.last b (is_next env token)
  unfolding is_next
  is_next-Stays token = record { lands = λ c lo hi. returns (omega arith, hi) }

module _ {F : Type 0} {env : Env F} (s : IsStream env) {b : ℕ} where
  pub either_check-Stays :
      (first before last : Token F) → Stays s.last b (either_check env first before last)
  unfolding either_check
  either_check-Stays first before last = check-Stays s _ ▹ λ found. check-Stays s _ ▹ λ other.
      is_next-Stays s last ▹ λ next. pure-Stays (found || (other && next))

  enum_variant-Passes : Passes s.last b (enum_variant env)
  unfolding enum_variant
  enum_variant-Passes = current_span-Stays s ▸ λ start. consume_identifier-Passes s _ ▸▸ λ name.
      if_matched-Stays s _
        (items-Stays s _ (parse_type-Passes s) ▹ λ types.
          weaken (consume-Passes s _ _) ▹ λ _. pure-Stays types)
        (pure-Stays [])
      ▹ λ fields.
          previous_span-Stays s (omega arith) ▹ λ end. match_token-Stays s _ ▹ λ _. pure-Stays _

  field_keyword-Stays : Stays s.last b (field_keyword env)
  unfolding field_keyword
  field_keyword-Stays =
      if_matched-Stays s _ (pure-Stays true) (weaken (consume-Passes s _ _) ▹ λ _. pure-Stays false)

  class_field-Passes : (is_public : Bool) → Passes s.last b (class_field env is_public)
  unfolding class_field
  class_field-Passes is_public = current_span-Stays s ▸ λ start. field_keyword-Stays ▸ λ is_mutable.
      consume_identifier-Passes s _ ▸▸ λ name. weaken (consume-Passes s _ _) ▹ λ _.
      weaken (parse_type-Passes s) ▹ λ ty.
      weaken (consume-Passes s _ _) ▹ λ _. previous_span-Stays s (omega arith) ▹ λ end. pure-Stays _

module _ {F : Type 0} {env : Env F} (s : IsStream env) {k : Calls F} (a : Answers k s.last 1) where
  parameter-Passes : {b : ℕ} → Passes s.last b (parameter env k)
  unfolding parameter
  parameter-Passes = current_span-Stays s ▸ λ start. consume_identifier-Passes s _ ▸▸ λ name.
      weaken (consume-Passes s _ _) ▹ λ _. weaken (parse_type-Passes s) ▹ λ ty.
      when_matched-Stays s _ (mono (omega arith) (weaken a.expression)) ▹ λ default_value.
      previous_span-Stays s (omega arith) ▹ λ end. pure-Stays _

  function_name-Passes : {b : ℕ} → Passes s.last b (function_name env k)
  unfolding function_name
  function_name-Passes =
      if_matched-Passes s _ (pure-Stays _)
        (consume-Passes s _ _ ▸▸ λ _. weaken (consume_identifier-Passes s _))

  pub parse_function-Passes :
      {b : ℕ} (is_public : Bool) → Passes s.last b (parse_function env k is_public)
  unfolding parse_function parse_parameters
  parse_function-Passes is_public = current_span-Stays s ▸ λ start.
      match_token-Stays s _ ▸ λ is_virtual. match_token-Stays s _ ▸ λ is_override.
      match_token-Stays s _ ▸ λ is_mutable. function_name-Passes ▸▸ λ name.
      type_parameters-Stays s ▹ λ type_params. weaken (consume-Passes s _ _) ▹ λ _.
      items-Stays s _ parameter-Passes ▹ λ params. weaken (consume-Passes s _ _) ▹ λ _.
      when_matched-Stays s _ (weaken (parse_type-Passes s)) ▹ λ return_type.
      weaken (parse_block-Passes s (Answers-mono (omega arith) a)) ▹ λ body. pure-Stays _

  pub parse_test_block-Passes : {b : ℕ} → Passes s.last b (parse_test_block env k)
  unfolding parse_test_block
  parse_test_block-Passes = current_span-Stays s ▸ λ start. consume-Passes s _ _ ▸▸ λ _.
      weaken (block_name-Passes s _ _) ▹ λ name. weaken (consume-Passes s _ _) ▹ λ _.
      body_of-Stays s (parse_function-Passes false) ▹ λ functions.
      weaken (consume-Passes s _ _) ▹ λ _. previous_span-Stays s (omega arith) ▹ λ end. pure-Stays _

  pub parse_bench_block-Passes : {b : ℕ} → Passes s.last b (parse_bench_block env k)
  unfolding parse_bench_block
  parse_bench_block-Passes = current_span-Stays s ▸ λ start. consume-Passes s _ _ ▸▸ λ _.
      weaken (block_name-Passes s _ _) ▹ λ name. weaken (consume-Passes s _ _) ▹ λ _.
      body_of-Stays s (parse_function-Passes false) ▹ λ functions.
      weaken (consume-Passes s _ _) ▹ λ _. previous_span-Stays s (omega arith) ▹ λ end. pure-Stays _

  enum_member-Passes : {b : ℕ} → Passes s.last b (enum_member env k)
  unfolding enum_member
  enum_member-Passes = either_check-Stays s _ _ _ ▸ λ found.
      branch-Passes s found (parse_function-Passes false ▸▸ λ f. pure-Stays _)
        (enum_variant-Passes s ▸▸ λ v. pure-Stays _)

  pub parse_enum-Passes : {b : ℕ} (is_public : Bool) → Passes s.last b (parse_enum env k is_public)
  unfolding parse_enum
  parse_enum-Passes is_public = current_span-Stays s ▸ λ start. consume-Passes s _ _ ▸▸ λ _.
      weaken (consume_identifier-Passes s _) ▹ λ name. type_parameters-Stays s ▹ λ type_params.
      weaken (consume-Passes s _ _) ▹ λ _. body_of-Stays s enum_member-Passes ▹ λ members.
      weaken (consume-Passes s _ _) ▹ λ _. previous_span-Stays s (omega arith) ▹ λ end. pure-Stays _

  is_method-Stays : {b : ℕ} → Stays s.last b (is_method env k)
  unfolding is_method
  is_method-Stays = check-Stays s _ ▹ λ is_init. check-Stays s _ ▹ λ is_virtual.
      check-Stays s _ ▹ λ is_override. either_check-Stays s _ _ _ ▹ λ other. pure-Stays _

  is_field-Stays : {b : ℕ} → Stays s.last b (is_field env k)
  unfolding is_field
  is_field-Stays = check-Stays s _ ▹ λ is_let. check-Stays s _ ▹ λ is_var. pure-Stays _

  class_member-Passes : {b : ℕ} → Passes s.last b (class_member env k)
  unfolding class_member
  class_member-Passes = match_token-Stays s _ ▸ λ is_public. is_method-Stays ▸ λ found.
      branch-Passes s found (parse_function-Passes is_public ▸▸ λ f. pure-Stays _) (
        is_field-Stays ▸ λ field.
        branch-Passes s field (class_field-Passes s is_public ▸▸ λ d. pure-Stays _)
          (throw-Passes _))

  pub parse_class-Passes :
      {b : ℕ} (is_public : Bool) → Passes s.last b (parse_class env k is_public)
  unfolding parse_class
  parse_class-Passes is_public = current_span-Stays s ▸ λ start. consume-Passes s _ _ ▸▸ λ _.
      weaken (consume_identifier-Passes s _) ▹ λ name. type_parameters-Stays s ▹ λ type_params.
      when_matched-Stays s _ (weaken (consume_identifier-Passes s _)) ▹ λ parent_class.
      weaken (consume-Passes s _ _) ▹ λ _. body_of-Stays s class_member-Passes ▹ λ members.
      weaken (consume-Passes s _ _) ▹ λ _. previous_span-Stays s (omega arith) ▹ λ end. pure-Stays _
