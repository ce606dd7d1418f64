-- ===== src/Parser/Total/Operators.antt =====
-- The rules from `parse_call` to `parse_assignment` of crates/plat-parser/src/lib.rs return, where the calls
-- they make do.
use plat.Base.{
  ℕ, zero, suc, ◌+◌, ◌≤◌, ◌<◌, true, false, List, [], ◌∷◌, Option, none, some, Text, arith, length,
}
use plat.Lexer.Token.{Token}
use plat.Ast.{Expression, BinaryOp, UnaryOp}
use plat.Parser.State.{Env, Parse}
use plat.Parser.Literals.{Calls}
use plat.Parser.Operators.{
  called, indexed, method_of, accessed, dotted, tried, postfix, parse_call, unary_of, parse_unary,
  binary_step, binary_loop, binary_level, parse_factor, parse_term, range_of, parse_range,
  parse_comparison, parse_equality, parse_logical_and, parse_logical_or, assigned, parse_assignment,
}
use plat.Parser.Total.{IsStream, Stays, Passes, weaken, mono, mono-Passes, pure-Stays, ◌▸▸◌, ◌▹◌}
use plat.Parser.Total.Tokens.{previous_span-Stays, advance-Stays}
use plat.Parser.Total.Rules.{
  reject-Passes, consume-Passes, consume_identifier-Passes, if_matched-Stays, if_next-Stays,
  match_tokens-Stays, match_tokens-Passes,
}
use plat.Parser.Total.Literals.{Answers, Answers-mono, parse_named_arguments-Stays}
use plat.Parser.Total.Primary.{parse_primary-Passes}

module _ {F : Type 0} {env : Env F} (s : IsStream env) {k : Calls F} {b : ℕ} (h : 1 ≤ b)
    (a : Answers k s.last b) where
  called-Stays : (e : Expression F) → Stays s.last b (called env k e)
  called-Stays (Expression.identifier name span) = parse_named_arguments-Stays s a ▹ λ args.
      weaken (consume-Passes s _ _) ▹ λ _. previous_span-Stays s h ▹ λ end. pure-Stays _
  called-Stays _ = weaken (reject-Passes s _ _ _ _)

  indexed-Stays : (e : Expression F) → Stays s.last b (indexed env k e)
  unfolding indexed
  indexed-Stays e = weaken a.expression ▹ λ i.
      weaken (consume-Passes s _ _) ▹ λ _. previous_span-Stays s h ▹ λ end. pure-Stays _

  method_of-Stays :
      (e : Expression F) (member : Text) (o : Option (Text × ℕ))
      → Stays s.last b (method_of env k e member o)
  method_of-Stays e member (some (name, start)) = parse_named_arguments-Stays s a ▹ λ args.
      weaken (consume-Passes s _ _) ▹ λ _. previous_span-Stays s h ▹ λ end. pure-Stays _
  method_of-Stays e member none = parse_named_arguments-Stays s a ▹ λ args.
      weaken (consume-Passes s _ _) ▹ λ _. previous_span-Stays s h ▹ λ end. pure-Stays _

  accessed-Stays : (e : Expression F) (member : Text) → Stays s.last b (accessed env k e member)
  unfolding accessed
  accessed-Stays e member = previous_span-Stays s h ▹ λ end. pure-Stays _

  dotted-Stays : (e : Expression F) → Stays s.last b (dotted env k e)
  unfolding dotted
  dotted-Stays e =
      if_next-Stays s _ (advance-Stays s h ▹ λ _. pure-Stays _)
        (weaken (consume_identifier-Passes s _))
      ▹ λ member.
          if_matched-Stays s _ (mono (omega arith) (method_of-Stays e member _))
            (accessed-Stays e member)

  tried-Stays : (e : Expression F) → Stays s.last b (tried env k e)
  unfolding tried
  tried-Stays e = previous_span-Stays s h ▹ λ end. pure-Stays _

module _ {F : Type 0} {env : Env F} (s : IsStream env) {k : Calls F} where
  -- Each round passes the token that it begins with.
  postfix-Stays :
      (fuel b : ℕ) (e : Expression F)
      → Answers k s.last b
      → s.last < fuel + b
      → Stays s.last b (postfix env k fuel e)
  unfolding postfix
  postfix-Stays zero b e a fits = record { lands = λ c lo hi. absurd (omega arith) }
  postfix-Stays (suc fuel) b e a fits =
      let a' : Answers k s.last (suc b) = Answers-mono (omega arith) a in
      let more : (e' : Expression F) → Stays s.last (suc b) (postfix env k fuel e') =
        λ e'. postfix-Stays fuel (suc b) e' a' (omega arith) in
      record {
        lands =
            (if_matched-Stays s _ (called-Stays s (omega arith) a' e ▹ more) (
              if_matched-Stays s _ (indexed-Stays s (omega arith) a' e ▹ more) (
                if_matched-Stays s _ (dotted-Stays s (omega arith) a' e ▹ more) (
                  if_matched-Stays s _ (tried-Stays s (omega arith) a' e ▹ more)
                    (pure-Stays e))))).lands;
      }

module _ {F : Type 0} {env : Env F} (s : IsStream env) {k : Calls F} {b : ℕ}
    (a : Answers k s.last (suc b)) where
  parse_call-Passes : Passes s.last b (parse_call env k)
  unfolding parse_call
  parse_call-Passes = parse_primary-Passes s a ▸▸ λ e.
      postfix-Stays s (length env.tokens) (suc b) e a (omega (arith, s.size))

  pub parse_unary-Passes : Passes s.last b (parse_unary env k)
  unfolding parse_unary
  parse_unary-Passes =
      match_tokens-Passes s ((Token.not_, UnaryOp.not_) ∷ (Token.minus, UnaryOp.negate) ∷ [])
        (unary_of env k)
        (λ op. previous_span-Stays s (omega arith) ▹ λ start.
          weaken a.unary ▹ λ operand. previous_span-Stays s (omega arith) ▹ λ end. pure-Stays _)
        parse_call-Passes

module _ {F : Type 0} {env : Env F} (s : IsStream env) (k : Calls F) where
  binary_loop-Stays :
      (fuel b : ℕ) (ops : List (Token F × BinaryOp)) {next : Parse (Expression F)}
      (left : Expression F)
      → Passes s.last b next
      → s.last < fuel + b
      → Stays s.last b (binary_loop env k fuel ops next left)
  unfolding binary_loop
  binary_loop-Stays zero b ops left h fits = record { lands = λ c lo hi. absurd (omega arith) }
  binary_loop-Stays (suc fuel) b ops {next} left h fits =
      let h' : Passes s.last (suc b) next = mono-Passes (omega arith) h in
      record {
        lands =
            (match_tokens-Stays s ops
              (binary_step env k next (binary_loop env k fuel ops next) left)
              (λ op. weaken h' ▹ λ right. previous_span-Stays s (omega arith) ▹ λ end.
                binary_loop-Stays fuel (suc b) ops _ h' (omega arith))
              (pure-Stays left)).lands;
      }

  binary_level-Passes :
      {b : ℕ} (ops : List (Token F × BinaryOp)) {next : Parse (Expression F)}
      → Passes s.last b next
      → Passes s.last b (binary_level env k ops next)
  unfolding binary_level
  binary_level-Passes {b} ops h = h ▸▸ λ left.
      binary_loop-Stays (length env.tokens) (suc b) ops left (mono-Passes (omega arith) h)
        (omega (arith, s.size))

module _ {F : Type 0} {env : Env F} (s : IsStream env) {k : Calls F} {b : ℕ}
    (a : Answers k s.last (suc b)) where
  parse_term-Passes : Passes s.last b (parse_term env k)
  unfolding parse_term parse_factor
  parse_term-Passes = binary_level-Passes s k _ (binary_level-Passes s k _ (parse_unary-Passes s a))

module _ {F : Type 0} {env : Env F} (s : IsStream env) {k : Calls F} {b : ℕ}
    (a : Answers k s.last (suc b)) where
  parse_range-Passes : Passes s.last b (parse_range env k)
  unfolding parse_range
  parse_range-Passes = parse_term-Passes s a ▸▸ λ start.
      match_tokens-Stays s ((Token.dot_dot, false) ∷ (Token.dot_dot_eq, true) ∷ [])
        (range_of env k start)
        (λ inclusive. weaken (parse_term-Passes s (Answers-mono (omega arith) a)) ▹ λ end_expr.
          previous_span-Stays s (omega arith) ▹ λ end. pure-Stays _)
        (pure-Stays start)

  parse_logical_or-Passes : Passes s.last b (parse_logical_or env k)
  unfolding parse_logical_or parse_logical_and parse_equality parse_comparison
  parse_logical_or-Passes = binary_level-Passes s k _ (
      binary_level-Passes s k _
        (binary_level-Passes s k _ (binary_level-Passes s k _ parse_range-Passes)))

  assigned-Stays : (e : Expression F) → Stays s.last (suc b) (assigned env k e)
  assigned-Stays (Expression.identifier name span) =
      weaken a.expression ▹ λ value. previous_span-Stays s (omega arith) ▹ λ end. pure-Stays _
  assigned-Stays (Expression.member_access object member span) =
      weaken a.expression ▹ λ value. previous_span-Stays s (omega arith) ▹ λ end. pure-Stays _
  assigned-Stays _ = weaken (reject-Passes s _ _ _ _)

  pub parse_assignment-Passes : Passes s.last b (parse_assignment env k)
  unfolding parse_assignment
  parse_assignment-Passes = parse_logical_or-Passes ▸▸ λ e.
      if_matched-Stays s _ (mono (omega arith) (assigned-Stays e)) (pure-Stays e)
