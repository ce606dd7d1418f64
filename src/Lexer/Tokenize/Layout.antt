-- ===== src/Lexer/Tokenize/Layout.antt =====
-- What `tokenize` of crates/plat-lexer/src/lib.rs as a whole returns.
use plat.Base.{
  Ensures, returns, ◌⟫◌, ℕ, zero, suc, ◌+◌, ◌≤◌, ◌<◌, ◌≡◌, refl, sym, ◌∙◌, ap, inl, inr, Option,
  none, some, List, [], ◌∷◌, ◌++◌, Text, arith, length, le_of_get_elem?-none, subst, codes,
}
use plat.Diags.{new}
use plat.Lexer.Token.{Token, TokenWithSpan}
use plat.Lexer.State.{Result, Lexer, peek, advance, skip_whitespace, new_lexer}
use plat.Lexer.Tokenize.{scan_next, tokenize_loop, tokenize_text}
use plat.Lexer.Tokenize.Progress.{Scanned, scan_char-Scanned, skip_whitespace-Moved}
use plat.Lexer.Moves.{
  IsShort, IsErrorIn, Moved, Moved-trans, lt_of_peek, advance-Moved, inside_after,
}

-- The spans are not empty, none begins before the one ahead of it ends, and all lie in `lo .. hi`.
abbrev pub IsLaidOut : {F : Type 0} → ℕ → List (TokenWithSpan F) → ℕ → Type 0
IsLaidOut lo [] hi = lo ≤ hi
IsLaidOut lo (t ∷ ts) hi =
    (lo ≤ t.span.start) × (t.span.start < t.span.end) × IsLaidOut t.span.end ts hi

-- The text of each interpolation in the tokens has fewer than `n` characters.
abbrev pub AreShortIn : {F : Type 0} → ℕ → List (TokenWithSpan F) → Type 0
AreShortIn n [] = Unit {0}
AreShortIn n (t ∷ ts) = IsShort n t.token × AreShortIn n ts

module _ {F : Type 0} where
  AreShortIn-append :
      (n : ℕ) (ts : List (TokenWithSpan F)) (t : TokenWithSpan F)
      → AreShortIn n ts
      → IsShort n t.token
      → AreShortIn n (ts ++ t ∷ [])
  AreShortIn-append n [] t h k = (k, tt)
  AreShortIn-append n (u ∷ ts) t (h, hs) k = (h, AreShortIn-append n ts t hs k)

  IsLaidOut-weaken :
      (ts : List (TokenWithSpan F)) (lo : ℕ) {hi hi' : ℕ}
      → hi ≤ hi'
      → IsLaidOut lo ts hi
      → IsLaidOut lo ts hi'
  IsLaidOut-weaken [] lo h l = omega arith
  IsLaidOut-weaken (t ∷ ts) lo h (a, b, l) = (a, b, IsLaidOut-weaken ts _ h l)

  IsLaidOut-append :
      (ts : List (TokenWithSpan F)) (t : TokenWithSpan F) (lo : ℕ) {mid : ℕ}
      → IsLaidOut lo ts mid
      → mid ≤ t.span.start
      → t.span.start < t.span.end
      → IsLaidOut lo (ts ++ t ∷ []) t.span.end
  IsLaidOut-append [] t lo l h k = (omega arith, k, omega arith)
  IsLaidOut-append (u ∷ ts) t lo (a, b, l) h k = (a, b, IsLaidOut-append ts t _ l h k)

  -- The state between two rounds.
  record IsReady (l₀ l : Lexer F) : Type 0 where
    same_input : l.input ≡ l₀.input
    same_name : l.filename ≡ l₀.filename
    inside : l.current ≤ length l.input
    laid_out : IsLaidOut 0 l.tokens l.current
    short : AreShortIn (length l.input) l.tokens

  IsReady-Moved : {l₀ l l' : Lexer F} → IsReady l₀ l → Moved l l' → IsReady l₀ l'
  IsReady-Moved {l' = l'} r m = record {
    same_input = m.same_input ∙ r.same_input;
    same_name = m.same_name ∙ r.same_name;
    inside = inside_after m;
    laid_out =
        subst (λ ts. IsLaidOut 0 ts l'.current) (sym m.same_tokens)
          (IsLaidOut-weaken _ 0 m.forward r.laid_out);
    short = rw (m.same_tokens, m.same_input) r.short;
  }

  -- A round that began at the cursor `l.current` with `l'` behind one character.
  IsReady-Scanned :
      {l₀ l l' : Lexer F}
      → IsReady l₀ l
      → l.current < length l.input
      → Scanned l.current (advance l) l'
      → IsReady l₀ l' × (l.current < l'.current)
  IsReady-Scanned {l = l} {l' = l'} r h (inr m) =
      (IsReady-Moved r (Moved-trans (advance-Moved l h) m), omega (arith, m.forward))
  IsReady-Scanned {l = l} {l' = l'} r h (inl e) = (
    record {
      same_input = e.same_input ∙ r.same_input;
      same_name = e.same_name ∙ r.same_name;
      inside = ground (arith, e.inside, e.same_input);
      laid_out =
          subst (λ ts. IsLaidOut 0 ts l'.current) (sym e.one_more)
            (IsLaidOut-append l.tokens _ 0 r.laid_out (omega arith) (omega (arith, e.forward)));
      short = rw (e.one_more, e.same_input) (AreShortIn-append _ l.tokens _ r.short e.short);
    },
    omega (arith, e.forward),
  )

  Ensures-IsReady :
      {A : Type 0} {P : A → Type 0} {l₀ l : Lexer F} {r : Result A}
      → IsReady l₀ l
      → Ensures P (IsErrorIn l.filename l.input) r
      → Ensures P (IsErrorIn l₀.filename l₀.input) r
  Ensures-IsReady ready h = rw (ready.same_name, ready.same_input) at h

  -- What the main loop leaves: the cursor at the end, and the tokens in order.
  abbrev IsDone : Lexer F → Lexer F → Type 0
  IsDone l₀ l = IsReady l₀ l × (l.current ≡ length l₀.input)

  scan_next-IsDone :
      (parse_f64 : Text → Option F) (o : Option ℕ) (l₀ l : Lexer F)
      (next : Lexer F → Result (Lexer F))
      → peek l ≡ o
      → IsReady l₀ l
      → ((l' : Lexer F)
          → IsReady l₀ l'
          → l.current < l'.current
          → Ensures (IsDone l₀) (IsErrorIn l₀.filename l₀.input) (next l'))
      → Ensures (IsDone l₀) (IsErrorIn l₀.filename l₀.input) (scan_next parse_f64 o l next)
  scan_next-IsDone parse_f64 none l₀ l next e r k =
      returns (r, ground (arith, r.inside, r.same_input, le_of_get_elem?-none l.input l.current e))
  scan_next-IsDone parse_f64 (some c) l₀ l next e r k =
      let lt = lt_of_peek l e in
      Ensures-IsReady r
        (scan_char-Scanned parse_f64 c l.current (advance l) (omega arith) (omega arith))
      ⟫ λ l' s. let (r', lt') = IsReady-Scanned r lt s in k l' r' lt'

  tokenize_loop-IsDone :
      (parse_f64 : Text → Option F) (fuel : ℕ) (l₀ l : Lexer F)
      → IsReady l₀ l
      → length l.input < fuel + l.current
      → Ensures (IsDone l₀) (IsErrorIn l₀.filename l₀.input) (tokenize_loop parse_f64 fuel l)
  unfolding tokenize_loop
  tokenize_loop-IsDone parse_f64 zero l₀ l r h = absurd (omega (arith, r.inside))
  tokenize_loop-IsDone parse_f64 (suc fuel) l₀ l r h =
      let m = skip_whitespace-Moved l r.inside in
      scan_next-IsDone parse_f64 (peek (skip_whitespace l)) l₀ (skip_whitespace l) _ refl
        (IsReady-Moved r m)
        (λ l' r' lt.
          tokenize_loop-IsDone parse_f64 fuel l₀ l' r'
            (ground (arith, r.same_input, r'.same_input, m.forward)))

  -- The tokens of a whole input: in order, then one `eof` behind the last character.
  abbrev pub IsTokenized : ℕ → List (TokenWithSpan F) → Type 0
  IsTokenized n ts =
      (body : List (TokenWithSpan F)) × (ts
        ≡ body ++ record { token = Token.eof; span = new n n } ∷ [])
      × IsLaidOut 0 body n
      × AreShortIn n body

  -- For every input `tokenize` returns: tokens that lie in order in the input, with spans that are
  -- not empty and do not overlap, with texts of interpolations that are shorter than the input, and
  -- one `eof`, the last token, at the end of the input; or an error that names the
  -- file "<unknown>" and a span that begins inside the input. Neither loop runs out of fuel.
  pub tokenize_total :
      (parse_f64 : Text → Option F) (input : Text)
      → Ensures
          (IsTokenized (length input))
          (IsErrorIn (codes "<unknown>") input)
          (tokenize_text parse_f64 input)
  unfolding tokenize_text
  tokenize_total parse_f64 input =
      tokenize_loop-IsDone parse_f64 (suc (length input)) (new_lexer input) (new_lexer input)
        (record {
          same_input = refl;
          same_name = refl;
          inside = omega arith;
          laid_out = omega arith;
          short = tt;
        })
        (omega arith)
      ⟫ λ l done. returns (
        l.tokens,
        ap (λ n. l.tokens ++ record { token = Token.eof; span = new n n } ∷ []) done.1,
        subst (IsLaidOut 0 l.tokens) done.1 done.0.laid_out,
        rw (sym done.0.same_input) done.0.short,
      )
