-- ===== src/Lexer/Strings/Progress.antt =====
-- How `scan_string` of crates/plat-lexer/src/lib.rs moves the cursor.
use plat.Base.{
  leb, ◌^◌, if_intro, Ensures, returns, throws, ◌⟫◌, ℕ, zero, suc, ◌+◌, ◌≤◌, ◌<◌, ◌≡◌, refl, sym,
  true, ◌&&◌, if_intro, if◌then◌else◌, ltb, ◌++◌, and_true, List, [], ◌∷◌, Option, none, some, Text,
  arith, ◌==◌, length, length-drop, length-append,
}
use plat.Lexer.Token.{StringPart}
use plat.Lexer.State.{Result, Lexer, rest, is_at_end, peek, peek_next, advance, is_char}
use plat.Lexer.Strings.{
  Round, finished, again, failed, interpolation_loop, interpolation, escape_in, Scanned,
  after_round, round_at, string_loop, flush, string_token, finish_string, scan_string,
}
use plat.Lexer.Moves.{
  AreShort, AreShort-append, IsShort, IsErrorIn, Ensures-Moved, Moved, Moved-refl, Moved-trans,
  lt_of_peek, lt_of_is_char, advance-Moved, Emitted, add_token-Emitted, fail_after,
}

interpolation_loop-le :
    (cs : Text) (depth : ℕ) (expr : Text) → (interpolation_loop cs depth expr).0 ≤ length cs
unfolding interpolation_loop
interpolation_loop-le [] depth expr = omega arith
interpolation_loop-le (c ∷ cs) zero expr = omega arith
interpolation_loop-le (c ∷ cs) (suc d) expr =
    if_intro (λ (x : ℕ × ℕ × Text). x.0 ≤ length (c ∷ cs)) (leb (2 ^ 31) (suc d)) (λ _. omega arith)
      (λ _. omega (
        arith,
        interpolation_loop-le cs (if c == b'{' then suc (suc d) else if c == b'}' then d else suc d)
            (if c == b'}' then (if ltb 0 d then expr ++ c ∷ [] else expr) else expr ++ c ∷ []),
      ))

length-one_more :
    (c d : ℕ) (expr : Text)
    → length (if c == b'}' then (if ltb 0 d then expr ++ c ∷ [] else expr) else expr ++ c ∷ [])
      ≤ length expr + 1
length-one_more c d expr = ground (arith, length-append expr (c ∷ []))

-- The text of an interpolation has no more characters than the loop passed.
interpolation_loop-length :
    (cs : Text) (depth : ℕ) (expr : Text)
    → length (interpolation_loop cs depth expr).2
      ≤ length expr + (interpolation_loop cs depth expr).0
unfolding interpolation_loop
interpolation_loop-length [] depth expr = omega arith
interpolation_loop-length (c ∷ cs) zero expr = omega arith
interpolation_loop-length (c ∷ cs) (suc d) expr =
    if_intro (λ (x : ℕ × ℕ × Text). length x.2 ≤ length expr + x.0) (leb (2 ^ 31) (suc d))
      (λ _. omega arith)
      (λ _. omega (
        arith,
        interpolation_loop-length cs
            (if c == b'{' then suc (suc d) else if c == b'}' then d else suc d)
            (if c == b'}' then (if ltb 0 d then expr ++ c ∷ [] else expr) else expr ++ c ∷ []),
        length-one_more c d expr,
      ))

flush-AreShort :
    (n : ℕ) (text : Text) (parts : List StringPart)
    → AreShort n parts
    → AreShort n (flush text parts)
unfolding flush
flush-AreShort n [] parts h = h
flush-AreShort n (c ∷ cs) parts h = AreShort-append n parts (StringPart.text (c ∷ cs) ∷ []) h tt

module _ (F : Type 0) where
  string_token-IsShort :
      (n : ℕ) (parts : List StringPart) → AreShort n parts → IsShort {F = F} n (string_token parts)
  unfolding string_token
  string_token-IsShort n [] h = tt
  string_token-IsShort n (StringPart.text s ∷ []) h = tt
  string_token-IsShort n (StringPart.text s ∷ part ∷ parts) h = h
  string_token-IsShort n (StringPart.interpolation s ∷ parts) h = h

module _ {F : Type 0} where
  -- What a round may leave: nothing, a cursor that went on, or an error in the file.
  abbrev RoundFrom : Lexer F → Round F → Type 0
  RoundFrom l finished = Unit {0}
  RoundFrom l (again l' text parts) =
      Moved l l' × (l.current < l'.current) × AreShort (length l.input) parts
  RoundFrom l (failed e) = IsErrorIn l.filename l.input e

  interpolation_round :
      (start : ℕ) (l : Lexer F) (text : Text) (parts : List StringPart)
      → start ≤ l.current
      → l.current + 1 < length l.input
      → AreShort (length l.input) parts
      → RoundFrom l (interpolation start l text parts)
  unfolding interpolation
  interpolation_round start l text parts hs h short =
      let l₁ = record l { current = l.current + 1 + 1 } in
      let loop = interpolation_loop (rest l₁) 1 [] in
      let fits : l₁.current + loop.0 ≤ length l.input =
        omega
          (arith, interpolation_loop-le (rest l₁) 1 [], length-drop (l.current + 1 + 1) l.input) in
      let moved : Moved l (record l { current = l.current + 1 + 1 + loop.0 }) = record {
        same_input = refl;
        same_name = refl;
        same_tokens = refl;
        forward = omega arith;
        inside = fits;
      } in
      if_intro (RoundFrom l) (loop.1 == 0)
        (λ _. (
          moved,
          omega arith,
          AreShort-append (length l.input) (flush text parts) (StringPart.interpolation loop.2 ∷ [])
              (flush-AreShort _ text parts short)
              (omega (arith, fits, interpolation_loop-length (rest l₁) 1 []), tt),
        ))
        (λ _. (refl, omega arith, omega arith))

  lt_of_next_char :
      (l : Lexer F) (c : ℕ) → is_char (peek_next l) c ≡ true → l.current + 1 < length l.input
  lt_of_next_char l c h = lt_of_is_char (record l { current = l.current + 1 }) c h

  escape_round :
      (o : Option ℕ) (l : Lexer F) (text : Text)
      → peek l ≡ o
      → l.current ≤ length l.input
      → Moved l (escape_in o l text).0
  unfolding escape_in
  escape_round none l text e h = Moved-refl l h
  escape_round (some c) l text e h = advance-Moved l (lt_of_peek l e)

  round_at-RoundFrom :
      (o : Option ℕ) (start : ℕ) (l : Lexer F) (text : Text) (parts : List StringPart)
      → peek l ≡ o
      → start ≤ l.current
      → AreShort (length l.input) parts
      → RoundFrom l (round_at o start l text parts)
  unfolding round_at
  round_at-RoundFrom none start l text parts e h short = tt
  round_at-RoundFrom (some c) start l text parts e h short =
      let inside = lt_of_peek l e in
      let moved = advance-Moved l inside in
      if_intro (RoundFrom l) (c == b'"') (λ _. tt)
        λ _.
          if_intro (RoundFrom l) (c == b'$' && is_char (peek_next l) b'{')
            (λ t.
              interpolation_round start l text parts h (lt_of_next_char l b'{' (and_true t).1)
                short)
            λ _.
              if_intro (RoundFrom l) (c == b'\\')
                (λ _.
                  let m = escape_round (peek (advance l)) (advance l) text refl moved.inside in
                  (Moved-trans moved m, omega (arith, m.forward), short))
                λ _. (moved, omega arith, short)

  after_round-Ensures :
      {P : Scanned F → Type 0} (l : Lexer F) (r : Round F) {done : Result (Scanned F)}
      {next : Lexer F → Text → List StringPart → Result (Scanned F)}
      → RoundFrom l r
      → Ensures P (IsErrorIn l.filename l.input) done
      → ((l' : Lexer F) (text : Text) (parts : List StringPart)
          → Moved l l' × (l.current < l'.current) × AreShort (length l.input) parts
          → Ensures P (IsErrorIn l.filename l.input) (next l' text parts))
      → Ensures P (IsErrorIn l.filename l.input) (after_round r done next)
  after_round-Ensures l finished h d n = d
  after_round-Ensures l (again l' text parts) h d n = n l' text parts h
  after_round-Ensures l (failed e) h d n = throws h

  string_loop-Moved :
      (l₀ : Lexer F) (fuel start : ℕ) (l : Lexer F) (text : Text) (parts : List StringPart)
      → Moved l₀ l
      → start ≤ l.current
      → length l.input < fuel + l.current
      → AreShort (length l.input) parts
      → Ensures
          (λ s. Moved l₀ s.0 × AreShort (length l₀.input) s.2)
          (IsErrorIn l.filename l.input)
          (string_loop fuel start l text parts)
  unfolding string_loop
  string_loop-Moved l₀ zero start l text parts m hs hf short =
      absurd (ground (arith, m.inside, m.same_input))
  string_loop-Moved l₀ (suc fuel) start l text parts m hs hf short =
      after_round-Ensures l (round_at (peek l) start l text parts)
        (round_at-RoundFrom (peek l) start l text parts refl hs short)
        (returns (m, rw (sym m.same_input) short))
        (λ l' text' parts' step. Ensures-Moved step.0 (
          string_loop-Moved l₀ fuel start l' text' parts' (Moved-trans m step.0)
            (omega (arith, step.0.forward)) (ground (arith, step.0.same_input))
            (rw (step.0.same_input) step.2)))

  finish_string-Emitted :
      (start : ℕ) (l : Lexer F) (s : Scanned F)
      → start ≤ l.current
      → Moved l s.0
      → AreShort (length l.input) s.2
      → Ensures (Emitted start l) (IsErrorIn l.filename l.input) (finish_string start s)
  unfolding finish_string
  finish_string-Emitted start l (l', text, parts) hs m short =
      if_intro (Ensures (Emitted start l) (IsErrorIn l.filename l.input)) (is_at_end l')
        (λ _. fail_after start _ _ _ hs m)
        λ more. returns (
          add_token-Emitted (string_token (flush text parts)) start
            (string_token-IsShort F (length l.input) (flush text parts)
              (flush-AreShort _ text parts short))
            (Moved-trans m (advance-Moved l' (ground arith))))

  -- From behind the opening quote the scan returns with one string token, whose span begins at
  -- `start`, or with an error in the file: its loops do not run out of fuel.
  pub scan_string-Emitted :
      (start : ℕ) (l : Lexer F)
      → start ≤ l.current
      → l.current ≤ length l.input
      → Ensures (Emitted start l) (IsErrorIn l.filename l.input) (scan_string start l)
  unfolding scan_string
  scan_string-Emitted start l hs hi =
      string_loop-Moved l (suc (length (rest l))) start l [] [] (Moved-refl l hi) hs
        (omega (arith, length-drop l.current l.input)) tt
      ⟫ λ s m. finish_string-Emitted start l s hs m.0 m.1
