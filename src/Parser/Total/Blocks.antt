-- ===== src/Parser/Total/Blocks.antt =====
-- The `match`, `if` and block expressions of crates/plat-parser/src/lib.rs return, where the calls they make
-- do.
use plat.Base.{
  Ensures, returns, throws, ◌⟫◌, ok, err, stuck, panic, ℕ, zero, suc, ◌+◌, ◌≤◌, ◌<◌, ◌≡◌, refl,
  Bool, true, false, ◌||◌, Option, none, some, arith, length, ◌⊎◌, inl, inr,
}
use plat.Lexer.Token.{Token}
use plat.Lexer.State.{Result}
use plat.Ast.{Statement, Expression}
use plat.Ast.Spans.{expr_span, get_expression_span}
use plat.Parser.State.{Env, Parse}
use plat.Parser.Consume.{if_matched, if_next}
use plat.Parser.Literals.{Calls}
use plat.Parser.Blocks.{
  attempted, attempt, match_arm, parse_match_expression, Items, then_more, as_statement,
  after_attempt, block_step, block_items, parse_block_expression, if_of, parse_if_expression,
}
use plat.Parser.Total.{
  IsStream, Lands, Lands-weaken, Stays, Passes, Makes, made, pure-Makes, ◌▹▹◌, ◌▸▹◌, weaken, mono,
  pure-Stays, ◌▸◌, ◌▸▸◌, ◌▹◌,
}
use plat.Parser.Total.Tokens.{
  current_span-Stays, previous_span-Stays, is_at_end-Stays, check-ok, match_token-ok, check-Stays,
  match_token-Stays,
}
use plat.Parser.Total.Rules.{consume-Passes, if_matched-Stays, when_matched-Stays}
use plat.Parser.Total.Loops.{body_of-Stays}
use plat.Parser.Total.Types.{parse_pattern-Passes}
use plat.Parser.Total.Literals.{Answers, Answers-mono}

module _ {F : Type 0} {env : Env F} (s : IsStream env) {k : Calls F} {b : ℕ}
    (a : Answers k s.last b) where
  match_arm-Passes : Passes s.last b (match_arm env k)
  unfolding match_arm
  match_arm-Passes = current_span-Stays s ▸ λ start. parse_pattern-Passes s ▸▸ λ pattern_.
      weaken (consume-Passes s _ _) ▹ λ _. mono (omega arith) (weaken a.expression) ▹ λ body.
      previous_span-Stays s (omega arith) ▹ λ end. match_token-Stays s _ ▹ λ _. pure-Stays _

module _ {F : Type 0} {env : Env F} (s : IsStream env) {k : Calls F} {b : ℕ} (h : 1 ≤ b)
    (a : Answers k s.last b) where
  pub parse_match_expression-Stays : Stays s.last b (parse_match_expression env k)
  unfolding parse_match_expression
  parse_match_expression-Stays = previous_span-Stays s h ▹ λ start. weaken a.expression ▹ λ value.
      weaken (consume-Passes s _ _) ▹ λ _. body_of-Stays s (match_arm-Passes s a) ▹ λ arms.
      weaken (consume-Passes s _ _) ▹ λ _. previous_span-Stays s h ▹ λ end. pure-Stays _

-- The span of an expression ends ahead of the input.
abbrev pub EndsAtZero : {F : Type 0} → Expression F → ℕ → Type 0
EndsAtZero e c = (expr_span e).end ≡ 0

-- An attempt lands further on or gives nothing, at the same position.
attempt-ok :
    {A : Type 0} {last b : ℕ} {p : Parse A} (c : ℕ)
    → Passes last b p
    → b ≤ c
    → c ≤ last
    → Ensures
        (λ x. (x.0 ≡ none × x.1 ≡ c) ⊎ ((c < x.1) × (x.1 ≤ last)))
        (λ _. Unit {0})
        (attempt p c)
unfolding attempt
attempt-ok {last = last} {p = p} c h lo hi = go (p c) (h.lands c lo hi)
  where
    go :
        {A : Type 0} (r : Result (A × ℕ))
        → Lands last (suc c) r
        → Ensures
            (λ x. (x.0 ≡ none × x.1 ≡ c) ⊎ ((c < x.1) × (x.1 ≤ last)))
            (λ _. Unit {0})
            (attempted c r)
    go (ok x) (returns m) = returns (inr m)
    go (err e) (throws m) = returns (inl (refl, refl))
    go stuck m = elim m [ ]
    go panic m = elim m [ ]

module _ {F : Type 0} {env : Env F} (s : IsStream env) (k : Calls F) where
  then_more-Stays :
      {b : ℕ} {more : Parse (Items env k)} (x : Statement F)
      → Stays s.last b more
      → Stays s.last b (then_more env k more x)
  then_more-Stays x h = h ▹ λ (ss, final). pure-Stays _

  as_statement-Lands :
      {b : ℕ} (more : Parse (Items env k)) (c d : ℕ)
      → Answers k s.last b
      → b ≤ c
      → c ≤ s.last
      → Stays s.last (suc b) more
      → Lands s.last c (as_statement env k more c d)
  as_statement-Lands more c d a lo hi rest =
      Lands-weaken (omega arith) ((a.statement ▸▸ λ x. then_more-Stays x rest).lands c lo hi)

  after_attempt-Lands :
      {b : ℕ} (more : Parse (Items env k)) (c d : ℕ) (o : Option (Expression F))
      → Answers k s.last b
      → b ≤ c
      → (o ≡ none × d ≡ c) ⊎ ((c < d) × (d ≤ s.last))
      → c ≤ s.last
      → Stays s.last (suc b) more
      → Lands s.last c (after_attempt env k more c o d)
  unfolding if_matched if_next
  after_attempt-Lands more c d none a lo m hi rest = as_statement-Lands more c d a lo hi rest
  after_attempt-Lands more c d (some e) a lo (inl (e', same)) hi rest = absurd (cc e')
  after_attempt-Lands more c d (some e) a lo (inr (lt, le)) hi rest =
      elim (match_token-ok s Token.semicolon d le) [
        | inl (found, inside) ↦ rw found (
            Lands-weaken (omega arith) (
              (then_more-Stays (Statement.expression e) rest).lands (suc d) (omega arith)
                (omega arith)))
        | inr missing ↦ rw missing (elim (check-ok s Token.right_brace d le) [
          | inl (found, _, inside) ↦ rw found (returns (omega arith, le))
          | inr e' ↦ rw e' (as_statement-Lands more c d a lo hi rest)
        ])
      ]

  block_step-Lands :
      {b : ℕ} (more : Parse (Items env k)) (done : Bool) (c : ℕ)
      → Answers k s.last b
      → b ≤ c
      → c ≤ s.last
      → Stays s.last (suc b) more
      → Lands s.last c (block_step env k more done c)
  block_step-Lands more true c a lo hi rest = returns (omega arith, hi)
  block_step-Lands more false c a lo hi rest =
      attempt-ok c a.expression lo hi ⟫ λ (o, d) m. after_attempt-Lands more c d o a lo m hi rest

  block_items-Stays :
      (fuel b : ℕ)
      → Answers k s.last b
      → s.last < fuel + b
      → Stays s.last b (block_items env k fuel)
  unfolding block_items
  block_items-Stays zero b a fits = record { lands = λ c lo hi. absurd (omega arith) }
  block_items-Stays (suc fuel) b a fits =
      let more = block_items-Stays fuel (suc b) (Answers-mono (omega arith) a) (omega arith) in
      record {
        lands = λ c lo hi.
            (check-Stays s Token.right_brace ▹ λ closed. is_at_end-Stays s ▹ λ end. record {
              lands = λ d lo' hi'. block_step-Lands _ (closed || end) d a lo' hi' more;
            }).lands
              c lo hi;
      }

module _ {F : Type 0} {env : Env F} (s : IsStream env) {k : Calls F} {b : ℕ} (h : 1 ≤ b)
    (a : Answers k s.last b) where
  parse_block_expression-Stays : Stays s.last b (parse_block_expression env k)
  unfolding parse_block_expression
  parse_block_expression-Stays = previous_span-Stays s h ▹ λ start.
      block_items-Stays s k (length env.tokens) b a (omega (arith, s.size)) ▹ λ found.
      weaken (consume-Passes s _ _) ▹ λ _. previous_span-Stays s h ▹ λ end. pure-Stays _

module _ {F : Type 0} {env : Env F} (s : IsStream env) {k : Calls F} {b : ℕ} (h : 1 ≤ b)
    (a : Answers k s.last (suc b)) where
  if_of-EndsAtZero :
      (start : ℕ) (condition then_branch : Expression F) (else_branch : Option (Expression F))
      (c : ℕ)
      → EndsAtZero (if_of env k start condition then_branch else_branch) c
  unfolding get_expression_span expr_span
  if_of-EndsAtZero start condition then_branch none c = refl
  if_of-EndsAtZero start condition then_branch (some e) c = refl

  pub parse_if_expression-Makes : Makes EndsAtZero s.last b (parse_if_expression env k)
  unfolding parse_if_expression
  parse_if_expression-Makes = previous_span-Stays s h ▹▹ λ start. consume-Passes s _ _ ▸▹ λ _.
      weaken a.expression ▹▹ λ condition. weaken (consume-Passes s _ _) ▹▹ λ _.
      weaken (consume-Passes s _ _) ▹▹ λ _.
      parse_block_expression-Stays s (omega arith) a ▹▹ λ then_branch.
      when_matched-Stays s _ (
        if_matched-Stays s _ (mono (omega arith) a.if_expression) (
          weaken (consume-Passes s _ _) ▹ λ _.
          mono (omega arith) (parse_block_expression-Stays s (omega arith) a)))
      ▹▹ λ else_branch.
          pure-Makes _ (if_of-EndsAtZero start.start condition then_branch else_branch)

  pub parse_if_expression-Stays : Stays s.last b (parse_if_expression env k)
  parse_if_expression-Stays = made parse_if_expression-Makes
