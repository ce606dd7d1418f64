-- ===== src/Parser/Consume.antt =====
-- The methods of crates/plat-parser/src/lib.rs that take a token or refuse it, and the loops that its
-- rules share. A loop runs on fuel: each round passes a token, so as many rounds as there are tokens are
-- enough.
use plat.Base.{
  ℕ, zero, suc, Bool, true, false, not, ◌||◌, List, [], ◌∷◌, ◌++◌, Option, none, some, Text, codes,
  length, stuck,
}
use plat.Diags.{Span, DiagnosticError, syntax_error, with_label, with_help, with_code}
use plat.Lexer.Token.{Token}
use plat.Lexer.State.{rich_error}
use plat.Parser.State.{
  Env, Parse, pure, ◌>>=◌, ◌>>◌, throw, decimal, peek, advance, check, match_token, current_span,
  is_at_end,
}

module _ {F : Type 0} where
  unfoldable pub help_message : Token F → Text
  help_message Token.semicolon = codes "Add ';' after this statement"
  help_message Token.right_paren = codes "Add ')' to close the parenthesis"
  help_message Token.right_brace = codes "Add '}' to close the block"
  help_message Token.colon = codes "Add ':' after the identifier"
  help_message _ = codes "Check the syntax"

  unfoldable pub error_code : Token F → Text
  error_code Token.semicolon = codes "E001"
  error_code Token.right_paren = codes "E002"
  error_code Token.right_brace = codes "E003"
  error_code Token.colon = codes "E004"
  error_code _ = codes "E000"

  abbrev pub name_of : Token F → Option Text
  name_of (Token.ident name) = some name
  name_of _ = none

  -- Names of modules may be keywords.
  unfoldable pub module_name_of : Token F → Option Text
  module_name_of (Token.ident name) = some name
  module_name_of Token.test_ = some (codes "test")
  module_name_of Token.mod_ = some (codes "mod")
  module_name_of Token.type_ = some (codes "type")
  module_name_of Token.bench_ = some (codes "bench")
  module_name_of Token.init_ = some (codes "init")
  module_name_of Token.list_ = some (codes "list")
  module_name_of Token.dict_ = some (codes "dict")
  module_name_of Token.set_ = some (codes "set")
  module_name_of Token.enum_ = some (codes "enum")
  module_name_of Token.class_ = some (codes "class")
  module_name_of Token.fn_ = some (codes "fn")
  module_name_of _ = none

module _ {F : Type 0} (env : Env F) where
  -- `Err(DiagnosticError::Syntax(..))`
  abbrev pub syntax : {A : Type 0} → Text → Parse A
  syntax message = throw (DiagnosticError.syntax message)

  -- `Err(DiagnosticError::Rich(..))`
  unfoldable pub reject : {A : Type 0} → Span → Text → Text → Text → Parse A
  unfolding rich_error
  reject span message label help = throw (rich_error env.filename span message label help)

  abbrev taken : Token F → Text → Bool → Parse (Unit {0})
  taken token message true = advance env
  taken token message false = do
    t ← peek env
    throw (
        DiagnosticError.rich (
          with_help (help_message token) (
            with_label (codes "found " ++ env.debug t.token ++ codes " here")
              (with_code (error_code token) (syntax_error env.filename t.span message)))))

  unfoldable pub consume : Token F → Text → Parse (Unit {0})
  unfolding check advance peek help_message error_code syntax_error with_label with_help with_code
  consume token message = do found ← check env token; taken token message found

  -- `format!("{} at position {}", message, self.current_span().start)`
  abbrev pub take_name : Option Text → Text → Parse Text
  take_name (some name) message = do advance env; pure name
  take_name none message = do
    span ← current_span env
    syntax (message ++ codes " at position " ++ decimal span.start)

  unfoldable pub consume_identifier : Text → Parse Text
  unfolding peek advance current_span decimal
  consume_identifier message = do t ← peek env; take_name (name_of t.token) message

  unfoldable pub consume_module_name : Text → Parse Text
  unfolding peek advance current_span decimal module_name_of
  consume_module_name message = do t ← peek env; take_name (module_name_of t.token) message

  abbrev pub optional : {A : Type 0} → Parse A → Bool → Parse (Option A)
  optional p true = do a ← p; pure (some a)
  optional p false = pure none

  -- `if self.match_token(token) { Some(p) } else { None }`
  unfoldable pub when_matched : {A : Type 0} → Token F → Parse A → Parse (Option A)
  unfolding match_token
  when_matched token p = do found ← match_token env token; optional p found

  abbrev pub branch : {A : Type 0} → Parse A → Parse A → Bool → Parse A
  branch p q true = p
  branch p q false = q

  -- `if self.match_token(token) { p } else { q }`
  unfoldable pub if_matched : {A : Type 0} → Token F → Parse A → Parse A → Parse A
  unfolding match_token
  if_matched token p q = do found ← match_token env token; branch p q found

  -- `if self.check(token) { p } else { q }`
  unfoldable pub if_next : {A : Type 0} → Token F → Parse A → Parse A → Parse A
  unfolding check
  if_next token p q = do found ← check env token; branch p q found

  abbrev and_more : {A : Type 0} → A → Parse (List A) → Bool → Parse (List A)
  and_more a more true = do rest ← more; pure (a ∷ rest)
  and_more a more false = pure (a ∷ [])

  -- `loop { items.push(p); if !self.match_token(token) { break; } }`
  unfoldable pub separated : {A : Type 0} → ℕ → Token F → Parse A → Parse (List A)
  unfolding match_token
  separated zero token p c = stuck
  separated (suc fuel) token p c =
      let more = separated fuel token p in
      (do a ← p; found ← match_token env token; and_more a more found) c

  abbrev pub unless_closed : {A : Type 0} → Parse (List A) → Bool → Parse (List A)
  unless_closed p true = pure []
  unless_closed p false = p

  -- `if !self.check(close) { loop { .. Comma .. } }`
  unfoldable pub items : {A : Type 0} → Token F → Parse A → Parse (List A)
  unfolding check separated
  items close p = do
    closed ← check env close
    unless_closed (separated (length env.tokens) Token.comma p) closed

  abbrev pub one_more : {A : Type 0} → Parse A → Parse (List A) → Bool → Parse (List A)
  one_more p more true = pure []
  one_more p more false = do a ← p; rest ← more; pure (a ∷ rest)

  -- `while !self.check(RightBrace) && !self.is_at_end() { items.push(p); }`
  unfoldable pub until_brace : {A : Type 0} → ℕ → Parse A → Parse (List A)
  unfolding check is_at_end
  until_brace zero p c = stuck
  until_brace (suc fuel) p c =
      let more = until_brace fuel p in
      (do
        closed ← check env Token.right_brace
        end ← is_at_end env
        one_more p more (closed || end))
        c

  abbrev pub body_of : {A : Type 0} → Parse A → Parse (List A)
  body_of p = until_brace (length env.tokens) p

  -- `while self.check(token) { items.push(p); }`, the test given
  unfoldable pub while_ : {A : Type 0} → ℕ → Parse Bool → Parse A → Parse (List A)
  while_ zero test p c = stuck
  while_ (suc fuel) test p c =
      let more = while_ fuel test p in (do found ← test; one_more p more (not found)) c
