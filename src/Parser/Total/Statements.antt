-- ===== src/Parser/Total/Statements.antt =====
-- The statements of crates/plat-parser/src/lib.rs return, where the calls they make do; and the calls do.
use plat.Base.{
  returns, ◌⟫◌, ℕ, zero, suc, ◌+◌, ◌≤◌, ◌<◌, sym, subst, none, some, Text, codes, arith, length,
  text_eq, if_intro,
}
use plat.Diags.{Span}
use plat.Ast.{Expression, Statement, Ty}
use plat.Parser.State.{Env}
use plat.Parser.Literals.{Calls}
use plat.Parser.Statements.{
  declaration, parse_return_statement, statement_end, else_if, parse_if_statement,
  parse_while_statement, parse_for_statement, print_name, parse_print_statement,
  parse_concurrent_statement, expression_statement, parse_statement, calls, all_calls,
  parse_expression,
}
use plat.Parser.Total.{
  IsStream, Lands, Stays, Passes, Makes, made, pure-Makes, ◌▹▹◌, ◌▸▹◌, weaken, pure-Stays, ◌▸▸◌,
  ◌▹◌,
}
use plat.Parser.Total.Tokens.{previous_span-Stays}
use plat.Parser.Total.Rules.{
  reject-Passes, consume-Passes, consume_identifier-Passes, if_matched-Stays, if_matched-Passes,
  if_next-Stays, when_matched-Stays,
}
use plat.Parser.Total.Types.{parse_type-Passes}
use plat.Parser.Total.Literals.{IsIf, Answers, Answers-mono, parse_block-Passes}
use plat.Parser.Total.Blocks.{parse_if_expression-Stays}
use plat.Parser.Total.Primary.{parse_primary-Passes}
use plat.Parser.Total.Operators.{parse_assignment-Passes, parse_unary-Passes}

module _ {F : Type 0} {env : Env F} (s : IsStream env) {k : Calls F} {b : ℕ} (h : 1 ≤ b)
    (a : Answers k s.last (suc b)) where
  declaration-Stays :
      (no_assign no_semicolon : Text) (f : Text → Ty → Expression F → Span → Statement F)
      → Stays s.last b (declaration env k no_assign no_semicolon f)
  unfolding declaration
  declaration-Stays no_assign no_semicolon f = previous_span-Stays s h ▹ λ start. weaken (
      consume_identifier-Passes s _ ▸▸ λ name. weaken (consume-Passes s _ _) ▹ λ _.
      weaken (parse_type-Passes s) ▹ λ ty. weaken (consume-Passes s _ _) ▹ λ _.
      weaken a.expression ▹ λ value. weaken (consume-Passes s _ _) ▹ λ _.
      previous_span-Stays s (omega arith) ▹ λ end. pure-Stays _)

  -- The value of a `return` may begin right behind the keyword.
  parse_return_statement-Stays : Answers k s.last b → Stays s.last b (parse_return_statement env k)
  unfolding parse_return_statement
  parse_return_statement-Stays a₀ = previous_span-Stays s h ▹ λ start.
      if_next-Stays s _ (pure-Stays none) (weaken a₀.expression ▹ λ value. pure-Stays (some value))
      ▹ λ value. weaken (consume-Passes s _ _) ▹ λ _. previous_span-Stays s h ▹ λ end. pure-Stays _

  statement_end-ok :
      (x : Statement F) (c : ℕ) → IsIf x c → c ≤ s.last → Lands s.last c (statement_end env k x c)
  statement_end-ok (Statement.if_statement condition then_branch else_branch span) c i hi =
      returns (omega arith, hi)
  statement_end-ok _ c i hi = absurd i

module _ {F : Type 0} {env : Env F} (s : IsStream env) {k : Calls F} {b : ℕ} (h : 1 ≤ b)
    (a : Answers k s.last b) where
  else_if-Stays : Stays s.last b (else_if env k)
  unfolding else_if
  else_if-Stays = previous_span-Stays s h ▹ λ start. record {
    lands = λ c lo hi. a.if_statement.makes c lo hi ⟫ λ (x, d) m.
        statement_end-ok s h (Answers-mono (omega arith) a) x d m.0 m.2 ⟫ λ (end, d') m'.
        returns (omega (arith, m.1, m'.0), m'.1);
  }

module _ {F : Type 0} {env : Env F} (s : IsStream env) {k : Calls F} {b : ℕ} (h : 1 ≤ b)
    (a : Answers k s.last (suc b)) where
  pub parse_if_statement-Makes : Makes IsIf s.last b (parse_if_statement env k)
  unfolding parse_if_statement
  parse_if_statement-Makes = previous_span-Stays s h ▹▹ λ start. consume-Passes s _ _ ▸▹ λ _.
      weaken a.expression ▹▹ λ condition. weaken (consume-Passes s _ _) ▹▹ λ _.
      weaken (parse_block-Passes s (Answers-mono (omega arith) a)) ▹▹ λ then_branch.
      when_matched-Stays s _ (
        if_matched-Stays s _ (else_if-Stays s (omega arith) (Answers-mono (omega arith) a))
          (weaken (parse_block-Passes s (Answers-mono (omega arith) a))))
      ▹▹ λ else_branch. pure-Makes _ (λ c. tt)

  parse_while_statement-Stays : Stays s.last b (parse_while_statement env k)
  unfolding parse_while_statement
  parse_while_statement-Stays = previous_span-Stays s h ▹ λ start. weaken (
      consume-Passes s _ _ ▸▸ λ _. weaken a.expression ▹ λ condition.
      weaken (consume-Passes s _ _) ▹ λ _.
      weaken (parse_block-Passes s (Answers-mono (omega arith) a)) ▹ λ body. pure-Stays _)

  parse_for_statement-Stays : Stays s.last b (parse_for_statement env k)
  unfolding parse_for_statement
  parse_for_statement-Stays = previous_span-Stays s h ▹ λ start. weaken (
      consume-Passes s _ _ ▸▸ λ _. weaken (consume_identifier-Passes s _) ▹ λ variable.
      weaken (consume-Passes s _ _) ▹ λ _. weaken (parse_type-Passes s) ▹ λ variable_type.
      weaken (consume-Passes s _ _) ▹ λ _. weaken a.expression ▹ λ iterable.
      weaken (consume-Passes s _ _) ▹ λ _.
      weaken (parse_block-Passes s (Answers-mono (omega arith) a)) ▹ λ body. pure-Stays _)

  print_name-Stays : {b' : ℕ} → 1 ≤ b' → (name : Text) → Stays s.last b' (print_name env k name)
  unfolding print_name
  print_name-Stays {b'} h' name = previous_span-Stays s h' ▹ λ span.
      if_intro (Stays s.last b') (text_eq name (codes "value")) (λ _. pure-Stays tt)
        (λ _. weaken (reject-Passes s _ _ _ _))

  parse_print_statement-Stays : Stays s.last b (parse_print_statement env k)
  unfolding parse_print_statement
  parse_print_statement-Stays = previous_span-Stays s h ▹ λ start. weaken (
      consume-Passes s _ _ ▸▸ λ _. weaken (consume_identifier-Passes s _) ▹ λ name.
      print_name-Stays (omega arith) name ▹ λ _. weaken (consume-Passes s _ _) ▹ λ _.
      weaken a.expression ▹ λ value. weaken (consume-Passes s _ _) ▹ λ _.
      weaken (consume-Passes s _ _) ▹ λ _.
      previous_span-Stays s (omega arith) ▹ λ end. pure-Stays _)

  parse_concurrent_statement-Stays : Stays s.last b (parse_concurrent_statement env k)
  unfolding parse_concurrent_statement
  parse_concurrent_statement-Stays =
      previous_span-Stays s h ▹ λ start. weaken (parse_block-Passes s a) ▹ λ body. pure-Stays _

module _ {F : Type 0} {env : Env F} (s : IsStream env) {k : Calls F} {b : ℕ}
    (a : Answers k s.last (suc b)) where
  expression_statement-Passes : Passes s.last b (expression_statement env k)
  unfolding expression_statement
  expression_statement-Passes =
      parse_assignment-Passes s a ▸▸ λ e. weaken (consume-Passes s _ _) ▹ λ _. pure-Stays _

  parse_statement-Passes : Passes s.last b (parse_statement env k)
  unfolding parse_statement
  parse_statement-Passes =
      let a' : Answers k s.last (suc (suc b)) = Answers-mono (omega arith) a in
      if_matched-Passes s _ (declaration-Stays s (omega arith) a' _ _ Statement.let_) (
        if_matched-Passes s _ (declaration-Stays s (omega arith) a' _ _ Statement.var_) (
          if_matched-Passes s _ (parse_return_statement-Stays s (omega arith) a' a) (
            if_matched-Passes s _ (made (parse_if_statement-Makes s (omega arith) a')) (
              if_matched-Passes s _ (parse_while_statement-Stays s (omega arith) a') (
                if_matched-Passes s _ (parse_for_statement-Stays s (omega arith) a') (
                  if_matched-Passes s _ (parse_print_statement-Stays s (omega arith) a') (
                    if_matched-Passes s _ (parse_concurrent_statement-Stays s (omega arith) a')
                      expression_statement-Passes)))))))

module _ {F : Type 0} {env : Env F} (s : IsStream env) where
  -- Fuel for the positions left is enough for the rules that call one another.
  calls-Answers : (fuel b : ℕ) → 1 ≤ b → s.last < fuel + b → Answers (calls env fuel) s.last b
  unfolding calls
  calls-Answers zero b h fits = record {
    expression = record { lands = λ c lo hi. absurd (omega arith) };
    unary = record { lands = λ c lo hi. absurd (omega arith) };
    primary = record { lands = λ c lo hi. absurd (omega arith) };
    if_expression = record { lands = λ c lo hi. absurd (omega arith) };
    statement = record { lands = λ c lo hi. absurd (omega arith) };
    if_statement = record { makes = λ c lo hi. absurd (omega arith) };
  }
  calls-Answers (suc fuel) b h fits =
      let a : Answers (calls env fuel) s.last (suc b) =
        calls-Answers fuel (suc b) (omega arith) (omega arith) in
      record {
        expression = parse_assignment-Passes s a;
        unary = parse_unary-Passes s a;
        primary = parse_primary-Passes s a;
        if_expression = parse_if_expression-Stays s h a;
        statement = parse_statement-Passes s a;
        if_statement = parse_if_statement-Makes s h a;
      }

  pub all_calls-Answers : {b : ℕ} → 1 ≤ b → Answers (all_calls env) s.last b
  all_calls-Answers {b} h = calls-Answers (length env.tokens) b h (omega (arith, s.size))

  pub parse_expression-Passes : Passes s.last 0 (parse_expression env)
  unfolding parse_expression calls
  parse_expression-Passes =
      subst (λ n. Passes s.last 0 (calls env n).expression) (sym s.size)
        (parse_assignment-Passes s (calls-Answers s.last 1 (omega arith) (omega arith)))
