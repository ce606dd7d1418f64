-- ===== src/Parser/Total/Rules.antt =====
-- The methods and loops that the rules of crates/plat-parser/src/lib.rs share return.
use plat.Base.{
  returns, bind, ℕ, suc, ◌≤◌, ◌≡◌, refl, sym, subst, Bool, true, false, List, Option, none, some,
  Text, arith, get_elem?, inl, inr,
}
use plat.Diags.{Span}
use plat.Lexer.Token.{Token, TokenWithSpan}
use plat.Parser.State.{Env, Parse, discriminant, ◌>>=◌, is_eof, match_tokens}
use plat.Parser.Consume.{
  reject, consume, consume_identifier, consume_module_name, when_matched, if_matched, if_next,
  branch, optional, name_of, take_name, module_name_of,
}
use plat.Parser.Total.{
  IsStream, Lands, Lands-weaken, Stays, Passes, weaken, pure-Stays, throw-Passes, ◌▸◌, ◌▹◌,
}
use plat.Parser.Total.Tokens.{
  peek-Stays, current_span-Stays, check-Stays, matched, matched-Passes, checked, advanced, peeked,
  match_tokens-ok,
}

module _ {F : Type 0} where
  name-inner : (t : Token F) (name : Text) → name_of t ≡ some name → is_eof t ≡ false
  unfolding discriminant
  name-inner Token.eof name e = absurd (cc e)
  name-inner _ name e = refl

  module_name-inner : (t : Token F) (name : Text) → module_name_of t ≡ some name → is_eof t ≡ false
  unfolding module_name_of discriminant
  module_name-inner Token.eof name e = absurd (cc e)
  module_name-inner _ name e = refl

module _ {F : Type 0} {env : Env F} (s : IsStream env) {b : ℕ} where
  pub reject-Passes :
      {A : Type 0} (span : Span) (message label help : Text)
      → Passes s.last b (reject env {A = A} span message label help)
  unfolding reject
  reject-Passes span message label help = throw-Passes _

  pub consume-Passes :
      (token : Token F) (message : Text) → Passes s.last b (consume env token message)
  unfolding consume
  consume-Passes token message =
      checked s _ token
        (λ c lo h e. subst (Lands s.last (suc c)) (sym e) (returns (omega arith, omega arith)))
        (peek-Stays s ▸ λ t. throw-Passes _)

  take_name-Lands :
      (o : Option Text) (message : Text) (c : ℕ) (t : TokenWithSpan F)
      → b ≤ c
      → c ≤ s.last
      → get_elem? env.tokens c ≡ some t
      → ((name : Text) → o ≡ some name → is_eof t.token ≡ false)
      → Lands s.last (suc c) (take_name env o message c)
  take_name-Lands (some name) message c t lo hi e inner =
      advanced s _ e (inner name refl) hi (pure-Stays name)
  take_name-Lands none message c t lo hi e inner =
      (current_span-Stays s ▸ λ span. throw-Passes _).lands c lo hi

  pub consume_identifier-Passes :
      (message : Text) → Passes s.last b (consume_identifier env message)
  unfolding consume_identifier
  consume_identifier-Passes message =
      peeked s
        λ c t lo hi e p. take_name-Lands (name_of t.token) message c t lo hi e (name-inner t.token)

  pub consume_module_name-Passes :
      (message : Text) → Passes s.last b (consume_module_name env message)
  unfolding consume_module_name
  consume_module_name-Passes message = peeked s λ c t lo hi e p.
      take_name-Lands (module_name_of t.token) message c t lo hi e (module_name-inner t.token)

  module _ {A : Type 0} {p q : Parse A} where
    pub if_matched-Stays :
        (token : Token F)
        → Stays s.last (suc b) p
        → Stays s.last b q
        → Stays s.last b (if_matched env token p q)
    unfolding if_matched
    if_matched-Stays token h k = matched s _ token h k

    pub if_matched-Passes :
        (token : Token F)
        → Stays s.last (suc b) p
        → Passes s.last b q
        → Passes s.last b (if_matched env token p q)
    unfolding if_matched
    if_matched-Passes token h k = matched-Passes s _ token h k

    pub branch-Stays :
        (found : Bool) → Stays s.last b p → Stays s.last b q → Stays s.last b (branch env p q found)
    branch-Stays true h k = h
    branch-Stays false h k = k

    pub branch-Passes :
        (found : Bool)
        → Passes s.last b p
        → Passes s.last b q
        → Passes s.last b (branch env p q found)
    branch-Passes true h k = h
    branch-Passes false h k = k

    pub if_next-Stays :
        (token : Token F)
        → Stays s.last b p
        → Stays s.last b q
        → Stays s.last b (if_next env token p q)
    unfolding if_next
    if_next-Stays token h k = check-Stays s token ▹ λ found. branch-Stays found h k

    pub if_next-Passes :
        (token : Token F)
        → Passes s.last b p
        → Passes s.last b q
        → Passes s.last b (if_next env token p q)
    unfolding if_next
    if_next-Passes token h k = check-Stays s token ▸ λ found. branch-Passes found h k

  pub when_matched-Stays :
      {A : Type 0} {p : Parse A} (token : Token F)
      → Stays s.last (suc b) p
      → Stays s.last b (when_matched env token p)
  unfolding when_matched
  when_matched-Stays token h = matched s _ token (h ▹ λ a. pure-Stays (some a)) (pure-Stays none)

  pub optional-Stays :
      {A : Type 0} {p : Parse A} (found : Bool)
      → Passes s.last b p
      → Stays s.last b (optional env p found)
  optional-Stays true h = weaken h ▹ λ a. pure-Stays (some a)
  optional-Stays false h = pure-Stays none

  module _ {A B : Type 0} (ops : List (Token F × A)) (f : Option A → Parse B) where
    pub match_tokens-Stays :
        ((a : A) → Stays s.last (suc b) (f (some a)))
        → Stays s.last b (f none)
        → Stays s.last b (match_tokens env ops >>= f)
    match_tokens-Stays h k = record {
      lands = λ c lo hi. elim (match_tokens-ok s ops c hi) [
        | inl (a, e, more) ↦
            subst (λ r. Lands s.last c (bind r λ (a, d). f a d)) (sym e)
              (Lands-weaken (omega arith) ((h a).lands (suc c) (omega arith) (omega arith)))
        | inr e ↦ subst (λ r. Lands s.last c (bind r λ (a, d). f a d)) (sym e) (k.lands c lo hi)
      ];
    }

    pub match_tokens-Passes :
        ((a : A) → Stays s.last (suc b) (f (some a)))
        → Passes s.last b (f none)
        → Passes s.last b (match_tokens env ops >>= f)
    match_tokens-Passes h k = record {
      lands = λ c lo hi. elim (match_tokens-ok s ops c hi) [
        | inl (a, e, more) ↦
            subst (λ r. Lands s.last (suc c) (bind r λ (a, d). f a d)) (sym e)
              ((h a).lands (suc c) (omega arith) (omega arith))
        | inr e ↦
            subst (λ r. Lands s.last (suc c) (bind r λ (a, d). f a d)) (sym e) (k.lands c lo hi)
      ];
    }
