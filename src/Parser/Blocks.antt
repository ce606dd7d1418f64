-- ===== src/Parser/Blocks.antt =====
-- `match` and `if` expressions, and the block expressions of their branches, in crates/plat-parser/src/lib.rs.
use plat.Base.{
  ℕ, zero, suc, Bool, true, false, ◌||◌, List, [], ◌∷◌, ◌++◌, Option, none, some, codes, panic,
  stuck, ok, err, length,
}
use plat.Diags.{Span, new}
use plat.Lexer.Token.{Token}
use plat.Lexer.State.{Result}
use plat.Ast.{Expression, Statement, block_of, Pattern}
use plat.Ast.Spans.{arms_of, statements_of, maybe_expression, get_expression_span}
use plat.Parser.State.{
  Env, Parse, pure, ◌>>=◌, ◌>>◌, check, match_token, current_span, previous_span, is_at_end,
}
use plat.Parser.Consume.{consume, if_matched, if_next, when_matched, body_of}
use plat.Parser.Types.{parse_pattern}
use plat.Parser.Literals.{Calls}

-- `if let Ok(a) = p`: an error is dropped, and `current` is put back.
abbrev pub attempted : {A : Type 0} → ℕ → Result (A × ℕ) → Result (Option A × ℕ)
attempted c (ok (a, d)) = ok (some a, d)
attempted c (err e) = ok (none, c)
attempted c stuck = stuck
attempted c panic = panic

unfoldable pub attempt : {A : Type 0} → Parse A → Parse (Option A)
attempt p c = attempted c (p c)

-- The parser put back to a checkpoint.
abbrev pub from : {A : Type 0} → ℕ → Parse A → Parse A
from c p d = p c

module _ {F : Type 0} (env : Env F) (k : Calls F) where
  unfoldable pub match_arm : Parse (Pattern F × Expression F × Span)
  unfolding current_span parse_pattern consume previous_span match_token
  match_arm = do
    start ← current_span env
    pattern_ ← parse_pattern env
    consume env Token.arrow (codes "Expected '=>' after pattern")
    body ← k.expression
    end ← previous_span env
    match_token env Token.comma
    pure (pattern_, body, new start.start end.end)

  -- Behind `match`.
  unfoldable pub parse_match_expression : Parse (Expression F)
  unfolding previous_span consume match_arm
  parse_match_expression = do
    start ← previous_span env
    value ← k.expression
    consume env Token.left_brace (codes "Expected '{' after match value")
    arms ← body_of env match_arm
    consume env Token.right_brace (codes "Expected '}' after match arms")
    end ← previous_span env
    pure (Expression.match_ value (arms_of arms) (new start.start end.end))

  -- The loop of `parse_block_expression`: the statements, and the final expression.
  abbrev pub Items : Type 0
  Items = List (Statement F) × Option (Expression F)

  abbrev pub then_more : Parse Items → Statement F → Parse Items
  then_more more s = do (ss, final) ← more; pure (s ∷ ss, final)

  abbrev pub as_statement : Parse Items → ℕ → Parse Items
  as_statement more checkpoint = from checkpoint do s ← k.statement; then_more more s

  abbrev pub after_attempt : Parse Items → ℕ → Option (Expression F) → Parse Items
  after_attempt more checkpoint none = as_statement more checkpoint
  after_attempt more checkpoint (some e) =
      if_matched env Token.semicolon (then_more more (Statement.expression e))
        (if_next env Token.right_brace (pure ([], some e)) (as_statement more checkpoint))

  abbrev pub block_step : Parse Items → Bool → Parse Items
  block_step more true c = ok (([], none), c)
  block_step more false c = (do e ← attempt k.expression; after_attempt more c e) c

  unfoldable pub block_items : ℕ → Parse Items
  unfolding check is_at_end attempt if_matched if_next
  block_items zero c = stuck
  block_items (suc fuel) c =
      let more = block_items fuel in
      (do
        closed ← check env Token.right_brace
        end ← is_at_end env
        block_step more (closed || end))
        c

  abbrev block_result : Items → Span → Expression F
  block_result (ss, none) span = Expression.block (block_of (statements_of ss) span)
  block_result ([], some e) span = e
  block_result (s ∷ ss, some e) span =
      Expression.block (block_of (statements_of (s ∷ (ss ++ Statement.expression e ∷ []))) span)

  -- Behind `{`.
  unfoldable pub parse_block_expression : Parse (Expression F)
  unfolding previous_span block_items consume
  parse_block_expression = do
    start ← previous_span env
    found ← block_items (length env.tokens)
    consume env Token.right_brace (codes "Expected '}' after block")
    end ← previous_span env
    pure (block_result found (new start.start end.end))

  -- `self.get_expression_span(b, 0).end`
  abbrev if_end : Expression F → Option (Expression F) → ℕ
  if_end then_branch none = (get_expression_span then_branch 0).end
  if_end then_branch (some e) = (get_expression_span e 0).end

  abbrev pub if_of : ℕ → Expression F → Expression F → Option (Expression F) → Expression F
  if_of start condition then_branch else_branch =
      Expression.if_ condition then_branch (maybe_expression else_branch)
        (new start (if_end then_branch else_branch))

  -- Behind `if`.
  unfoldable pub parse_if_expression : Parse (Expression F)
  unfolding previous_span consume parse_block_expression when_matched if_matched get_expression_span
  parse_if_expression = do
    start ← previous_span env
    consume env Token.left_paren (codes "Expected '(' after 'if'")
    condition ← k.expression
    consume env Token.right_paren (codes "Expected ')' after condition")
    consume env Token.left_brace (codes "Expected '{' for if-expression then branch")
    then_branch ← parse_block_expression
    else_branch ← when_matched env Token.else_ (
        if_matched env Token.if_ k.if_expression (do
          consume env Token.left_brace (codes "Expected '{' for if-expression else branch")
          parse_block_expression))
    pure (if_of start.start condition then_branch else_branch)
