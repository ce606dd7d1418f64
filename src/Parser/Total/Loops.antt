-- ===== src/Parser/Total/Loops.antt =====
-- The loops that the rules of crates/plat-parser/src/lib.rs share return: fuel for the positions left is
-- enough.
use plat.Base.{ℕ, zero, suc, ◌+◌, ◌<◌, Bool, true, false, List, [], ◌∷◌, arith, length, not, ◌||◌}
use plat.Lexer.Token.{Token}
use plat.Parser.State.{Env, Parse}
use plat.Parser.Consume.{unless_closed, one_more, separated, items, until_brace, body_of, while_}
use plat.Parser.Total.{IsStream, Stays, Passes, weaken, mono, mono-Passes, pure-Stays, ◌▸▸◌, ◌▹◌}
use plat.Parser.Total.Tokens.{is_at_end-Stays, check-Stays, matched}

module _ {F : Type 0} {env : Env F} (s : IsStream env) {A : Type 0} where
  unless_closed-Stays :
      {b : ℕ} {q : Parse (List A)} (closed : Bool)
      → Stays s.last b q
      → Stays s.last b (unless_closed env q closed)
  unless_closed-Stays true h = pure-Stays []
  unless_closed-Stays false h = h

-- The loops: fuel for the positions left is enough.
module _ {F : Type 0} {env : Env F} (s : IsStream env) {A : Type 0} {p : Parse A} where
  separated-Passes :
      (token : Token F) (fuel b : ℕ)
      → Passes s.last b p
      → s.last < fuel + b
      → Passes s.last b (separated env fuel token p)
  unfolding separated
  separated-Passes token zero b h fits = record { lands = λ c lo hi. absurd (omega arith) }
  separated-Passes token (suc fuel) b h fits = record {
    lands = λ c lo hi.
        (h ▸▸ λ a.
        matched s _ token
          (weaken (
              separated-Passes token fuel (suc (suc b)) (mono-Passes (omega arith) h) (omega arith))
            ▹ λ rest. pure-Stays (a ∷ rest))
          (pure-Stays (a ∷ []))).lands
          c lo hi;
  }

  pub separated-all :
      (token : Token F) {b : ℕ}
      → Passes s.last b p
      → Passes s.last b (separated env (length env.tokens) token p)
  separated-all token {b} h = separated-Passes token (length env.tokens) b h (omega (arith, s.size))

  one_more-Stays :
      {b : ℕ} {more : Parse (List A)} (done : Bool)
      → Passes s.last b p
      → Stays s.last (suc b) more
      → Stays s.last b (one_more env p more done)
  one_more-Stays true h k = pure-Stays []
  one_more-Stays false h k = weaken (h ▸▸ λ a. k ▹ λ rest. pure-Stays (a ∷ rest))

  pub items-Stays :
      (close : Token F) {b : ℕ} → Passes s.last b p → Stays s.last b (items env close p)
  unfolding items
  items-Stays close h =
      check-Stays s close ▹ λ closed. unless_closed-Stays s closed (weaken (separated-all _ h))

  until_brace-Stays :
      (fuel b : ℕ) → Passes s.last b p → s.last < fuel + b → Stays s.last b (until_brace env fuel p)
  unfolding until_brace
  until_brace-Stays zero b h fits = record { lands = λ c lo hi. absurd (omega arith) }
  until_brace-Stays (suc fuel) b h fits =
      let more = until_brace-Stays fuel (suc b) (mono-Passes (omega arith) h) (omega arith) in
      record {
        lands = λ c lo hi.
            (check-Stays s Token.right_brace ▹ λ closed.
            is_at_end-Stays s ▹ λ end. one_more-Stays (closed || end) h more).lands
              c lo hi;
      }

  pub body_of-Stays : {b : ℕ} → Passes s.last b p → Stays s.last b (body_of env p)
  body_of-Stays {b} h = until_brace-Stays (length env.tokens) b h (omega (arith, s.size))

  while_-Stays :
      (fuel b : ℕ) {test : Parse Bool}
      → Stays s.last b test
      → Passes s.last b p
      → s.last < fuel + b
      → Stays s.last b (while_ env fuel test p)
  unfolding while_
  while_-Stays zero b t h fits = record { lands = λ c lo hi. absurd (omega arith) }
  while_-Stays (suc fuel) b t h fits =
      let more =
        while_-Stays fuel (suc b) (mono (omega arith) t) (mono-Passes (omega arith) h)
          (omega arith) in
      record { lands = λ c lo hi. (t ▹ λ found. one_more-Stays (not found) h more).lands c lo hi }

  pub while-all :
      {b : ℕ} {test : Parse Bool}
      → Stays s.last b test
      → Passes s.last b p
      → Stays s.last b (while_ env (length env.tokens) test p)
  while-all {b} t h = while_-Stays (length env.tokens) b t h (omega (arith, s.size))
