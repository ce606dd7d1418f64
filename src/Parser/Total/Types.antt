-- ===== src/Parser/Total/Types.antt =====
-- `parse_type` and `parse_pattern` of crates/plat-parser/src/lib.rs return.
use plat.Base.{
  throws, ℕ, zero, suc, ◌+◌, ◌≤◌, ◌<◌, ◌≡◌, refl, Bool, true, false, [], some, Text, arith, length,
  get_elem?,
}
use plat.Diags.{Span}
use plat.Lexer.Token.{Token, TokenWithSpan}
use plat.Parser.State.{Env, Parse, pure, ◌>>=◌, ◌>>◌, is_eof, discriminant, advance, previous_span}
use plat.Parser.Types.{
  open_bracket, close_bracket, element_type, dict_type, type_name, named_type, type_level, type_on,
  parse_type, binding, bindings, name_pattern, pattern_at, parse_pattern, builtin, type_of_name,
}
use plat.Ast.{Ty}
use plat.Parser.Total.{
  IsStream, Lands, Stays, Passes, weaken, mono-Passes, pure-Stays, ◌▸◌, ◌▸▸◌, ◌▹◌,
}
use plat.Parser.Total.Tokens.{
  current_span-Stays, previous_span-Stays, check-Stays, advance-Stays, match_token-Stays, advanced,
  peeked,
}
use plat.Parser.Total.Rules.{
  consume-Passes, consume_identifier-Passes, if_matched-Stays, if_matched-Passes,
}
use plat.Parser.Total.Loops.{separated-all, items-Stays, while-all}

module _ {F : Type 0} {env : Env F} (s : IsStream env) {b : ℕ} where
  open_bracket-Stays :
      (message : Text) (angle : Bool) → Stays s.last b (open_bracket env message angle)
  open_bracket-Stays message true = pure-Stays tt
  open_bracket-Stays message false = weaken (consume-Passes s _ message)

  close_bracket-Stays :
      (message message' : Text) (angle : Bool)
      → Stays s.last b (close_bracket env message message' angle)
  close_bracket-Stays message message' true = weaken (consume-Passes s _ message)
  close_bracket-Stays message message' false = weaken (consume-Passes s _ message')

  module _ {type : Parse Ty} (h : Passes s.last b type) where
    element_type-Stays : (message : Text) → Stays s.last b (element_type env message type)
    unfolding element_type
    element_type-Stays message = match_token-Stays s _ ▹ λ angle.
        open_bracket-Stays message angle ▹ λ _.
        weaken h ▹ λ element. close_bracket-Stays _ _ angle ▹ λ _. pure-Stays element

    dict_type-Stays : Stays s.last b (dict_type env type)
    unfolding dict_type
    dict_type-Stays = match_token-Stays s _ ▹ λ angle. open_bracket-Stays _ angle ▹ λ _.
        weaken h ▹ λ key_type. weaken (consume-Passes s _ _) ▹ λ _.
        weaken h ▹ λ value_type. close_bracket-Stays _ _ angle ▹ λ _. pure-Stays _

  type_name-Passes : Passes s.last b (type_name env)
  unfolding type_name
  type_name-Passes = consume_identifier-Passes s _ ▸▸ λ first.
      while-all s (check-Stays s _)
        (advance-Stays s (omega arith) ▸ λ _. consume_identifier-Passes s _)
      ▹ λ rest. pure-Stays _

  named_type-Passes :
      {type : Parse Ty} → Passes s.last (suc b) type → Passes s.last b (named_type env type)
  unfolding named_type
  named_type-Passes h = type_name-Passes ▸▸ λ name.
      if_matched-Stays s _
        (weaken (separated-all s _ (mono-Passes (omega arith) h)) ▹ λ type_params.
          weaken (consume-Passes s _ _) ▹ λ _. pure-Stays _)
        (pure-Stays (type_of_name name (builtin name)))

module _ {F : Type 0} {env : Env F} (s : IsStream env) {b : ℕ} where
  type_level-Passes :
      {type : Parse Ty} → Passes s.last (suc b) type → Passes s.last b (type_level env type)
  unfolding type_level
  type_level-Passes h = if_matched-Passes s _ (element_type-Stays s h _ ▹ λ element. pure-Stays _) (
      if_matched-Passes s _ (dict_type-Stays s h) (
        if_matched-Passes s _ (element_type-Stays s h _ ▹ λ element. pure-Stays _)
          (named_type-Passes s h)))

module _ {F : Type 0} {env : Env F} (s : IsStream env) where
  type_on-Passes : (fuel b : ℕ) → s.last < fuel + b → Passes s.last b (type_on env fuel)
  unfolding type_on
  type_on-Passes zero b fits = record { lands = λ c lo hi. absurd (omega arith) }
  type_on-Passes (suc fuel) b fits = record {
    lands =
        λ c lo hi. (type_level-Passes s (type_on-Passes fuel (suc b) (omega arith))).lands c lo hi;
  }

  pub parse_type-Passes : {b : ℕ} → Passes s.last b (parse_type env)
  unfolding parse_type
  parse_type-Passes {b} = type_on-Passes (length env.tokens) b (omega (arith, s.size))

module _ {F : Type 0} {env : Env F} (s : IsStream env) {b : ℕ} where
  binding-Passes : Passes s.last b (binding env)
  unfolding binding
  binding-Passes = consume_identifier-Passes s _ ▸▸ λ name. weaken (consume-Passes s _ _) ▹ λ _.
      weaken (parse_type-Passes s) ▹ λ ty. pure-Stays (name, ty)

module _ {F : Type 0} {env : Env F} (s : IsStream env) {b : ℕ} where
  bindings-Stays : Stays s.last b (bindings env)
  unfolding bindings
  bindings-Stays = items-Stays s _ (binding-Passes s) ▹ λ found.
      weaken (consume-Passes s _ _) ▹ λ _. pure-Stays found

module _ {F : Type 0} {env : Env F} (s : IsStream env) {b : ℕ} where
  name_pattern-Stays :
      1 ≤ b → (start : ℕ) (name : Text) → Stays s.last b (name_pattern env start name)
  unfolding name_pattern
  name_pattern-Stays h start name =
      if_matched-Stays s _
        (weaken (consume_identifier-Passes s _) ▹ λ variant.
          if_matched-Stays s _ (bindings-Stays s) (pure-Stays []) ▹ λ found.
          previous_span-Stays s (omega arith) ▹ λ end. pure-Stays _)
        (if_matched-Stays s _
          (bindings-Stays s ▹ λ found. previous_span-Stays s (omega arith) ▹ λ end. pure-Stays _)
          (previous_span-Stays s h ▹ λ end. pure-Stays _))

module _ {F : Type 0} {env : Env F} (s : IsStream env) where
  pub one_token-Lands :
      {A : Type 0} {c : ℕ} {t : TokenWithSpan F} (f : Span → A)
      → get_elem? env.tokens c ≡ some t
      → is_eof t.token ≡ false
      → c ≤ s.last
      → Lands s.last (suc c) ((do advance env; span ← previous_span env; pure (f span)) c)
  one_token-Lands f e inner hi =
      advanced s _ e inner hi (previous_span-Stays s (omega arith) ▹ λ span. pure-Stays _)

module _ {F : Type 0} {env : Env F} (s : IsStream env) where
  pattern_at-Lands :
      (start c : ℕ) (t : Token F) (span : Span)
      → get_elem? env.tokens c ≡ some (record { token = t; span = span })
      → c ≤ s.last
      → Lands s.last (suc c) (pattern_at env start t c)
  unfolding discriminant
  pattern_at-Lands start c Token.true_ span e hi = one_token-Lands s _ e refl hi
  pattern_at-Lands start c Token.false_ span e hi = one_token-Lands s _ e refl hi
  pattern_at-Lands start c (Token.int_literal n ty) span e hi = one_token-Lands s _ e refl hi
  pattern_at-Lands start c (Token.string_literal x) span e hi = one_token-Lands s _ e refl hi
  pattern_at-Lands start c (Token.ident name) span e hi =
      advanced s _ e refl hi (name_pattern-Stays s (omega arith) start name)
  pattern_at-Lands start c _ span e hi = throws tt

  pub parse_pattern-Passes : {b : ℕ} → Passes s.last b (parse_pattern env)
  unfolding parse_pattern
  parse_pattern-Passes = current_span-Stays s ▸ λ start.
      peeked s λ c t lo hi e p. pattern_at-Lands start.start c t.token t.span e hi
