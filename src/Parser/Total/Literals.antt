-- ===== src/Parser/Total/Literals.antt =====
-- The arguments, literals and blocks of crates/plat-parser/src/lib.rs return, where the calls they make do.
use plat.Base.{returns, ◌⟫◌, ℕ, suc, ◌≤◌, List, [], ◌∷◌, arith}
use plat.Lexer.Token.{Token, StringPart}
use plat.Ast.{Statement}
use plat.Parser.State.{Env}
use plat.Parser.Literals.{
  Calls, named_argument, parse_named_arguments, parse_interpolated_string, key_at, dict_pair,
  parse_dict_literal, parse_set_literal, array_literal, parse_block,
}
use plat.Parser.Total.{
  IsStream, AreParsed, Stays, Passes, Makes, weaken, mono, mono-Passes, pure-Stays, throw-Passes,
  ◌▸◌, ◌▸▸◌, ◌▹◌,
}
use plat.Parser.Total.Tokens.{peek-Stays, current_span-Stays, previous_span-Stays}
use plat.Parser.Total.Rules.{consume-Passes, consume_identifier-Passes}
use plat.Parser.Total.Loops.{items-Stays, body_of-Stays}

-- An `if` statement, the only one that `parse_if_statement` may give.
abbrev pub IsIf : {F : Type 0} → Statement F → ℕ → Type 0
IsIf (Statement.if_statement condition then_branch else_branch span) c = Unit {0}
IsIf _ c = ⊥

-- The calls return from each position in `b .. last`.
pub record Answers {F : Type 0} (k : Calls F) (last b : ℕ) : Type 0 where
  pub expression : Passes last b k.expression
  pub unary : Passes last b k.unary
  pub primary : Passes last b k.primary
  pub if_expression : Stays last b k.if_expression
  pub statement : Passes last b k.statement
  pub if_statement : Makes IsIf last b k.if_statement

pub Answers-mono :
    {F : Type 0} {k : Calls F} {last b b' : ℕ} → b ≤ b' → Answers k last b → Answers k last b'
Answers-mono h a = record {
  expression = mono-Passes h a.expression;
  unary = mono-Passes h a.unary;
  primary = mono-Passes h a.primary;
  if_expression = mono h a.if_expression;
  statement = mono-Passes h a.statement;
  if_statement = record { makes = λ c lo hi. a.if_statement.makes c (omega arith) hi };
}

module _ {F : Type 0} {env : Env F} (s : IsStream env) {k : Calls F} {b : ℕ}
    (a : Answers k s.last b) where
  named_argument-Passes : Passes s.last b (named_argument env k)
  unfolding named_argument
  named_argument-Passes = current_span-Stays s ▸ λ start. consume_identifier-Passes s _ ▸▸ λ name.
      weaken (consume-Passes s _ _) ▹ λ _. mono (omega arith) (weaken a.expression) ▹ λ value.
      previous_span-Stays s (omega arith) ▹ λ end. pure-Stays _

  pub parse_named_arguments-Stays : Stays s.last b (parse_named_arguments env k)
  unfolding parse_named_arguments
  parse_named_arguments-Stays = items-Stays s _ named_argument-Passes

  pub parse_interpolated_string-Stays :
      (parts : List StringPart)
      → AreParsed env parts
      → Stays s.last b (parse_interpolated_string env k parts)
  unfolding parse_interpolated_string
  parse_interpolated_string-Stays [] h = pure-Stays _
  parse_interpolated_string-Stays (StringPart.text x ∷ parts) h =
      parse_interpolated_string-Stays parts h ▹ λ rest. pure-Stays _
  parse_interpolated_string-Stays (StringPart.interpolation x ∷ parts) (h, hs) =
      record { lands = λ c lo hi. h ⟫ λ e _. returns (omega arith, hi) } ▹ λ e.
      parse_interpolated_string-Stays parts hs ▹ λ rest. pure-Stays _

  key_at-Passes : (t : Token F) → Passes s.last b (key_at env k t)
  key_at-Passes (Token.string_literal x) = a.primary
  key_at-Passes (Token.ident x) = consume_identifier-Passes s _ ▸▸ λ name.
      previous_span-Stays s (omega arith) ▹ λ span. pure-Stays _
  key_at-Passes _ = throw-Passes _

  dict_pair-Passes : Passes s.last b (dict_pair env k)
  unfolding dict_pair
  dict_pair-Passes = peek-Stays s ▸ λ t. key_at-Passes t.token ▸▸ λ key.
      weaken (consume-Passes s _ _) ▹ λ _.
      mono (omega arith) (weaken a.expression) ▹ λ value. pure-Stays _

module _ {F : Type 0} {env : Env F} (s : IsStream env) {k : Calls F} {b : ℕ}
    (a : Answers k s.last (suc b)) where
  pub parse_dict_literal-Passes : Passes s.last b (parse_dict_literal env k)
  unfolding parse_dict_literal
  parse_dict_literal-Passes = current_span-Stays s ▸ λ start. consume-Passes s _ _ ▸▸ λ _.
      items-Stays s _ (dict_pair-Passes s a) ▹ λ pairs.
      weaken (consume-Passes s _ _) ▹ λ _. previous_span-Stays s (omega arith) ▹ λ end. pure-Stays _

  pub parse_block-Passes : Passes s.last b (parse_block env k)
  unfolding parse_block
  parse_block-Passes = current_span-Stays s ▸ λ start. consume-Passes s _ _ ▸▸ λ _.
      body_of-Stays s a.statement ▹ λ statements.
      weaken (consume-Passes s _ _) ▹ λ _. previous_span-Stays s (omega arith) ▹ λ end. pure-Stays _

module _ {F : Type 0} {env : Env F} (s : IsStream env) {k : Calls F} {b : ℕ} (h : 1 ≤ b)
    (a : Answers k s.last b) where
  pub parse_set_literal-Stays : Stays s.last b (parse_set_literal env k)
  unfolding parse_set_literal
  parse_set_literal-Stays = previous_span-Stays s h ▹ λ start. weaken (consume-Passes s _ _) ▹ λ _.
      items-Stays s _ a.expression ▹ λ elements.
      weaken (consume-Passes s _ _) ▹ λ _. previous_span-Stays s h ▹ λ end. pure-Stays _

  pub array_literal-Stays : Stays s.last b (array_literal env k)
  unfolding array_literal
  array_literal-Stays = previous_span-Stays s h ▹ λ start.
      items-Stays s _ a.expression ▹ λ elements.
      weaken (consume-Passes s _ _) ▹ λ _. previous_span-Stays s h ▹ λ end. pure-Stays _
