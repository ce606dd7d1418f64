-- ===== src/Parser/Types/Grammar.antt =====
-- The grammar that `parse_type` of crates/plat-parser/src/lib.rs reads: which tokens spell a type, and what
-- may follow them.
use plat.Base.{ℕ, suc, ◌≡◌, false, ◌==◌, List, [], ◌∷◌, some, Text, get_elem?}
use plat.Lexer.Token.{Token, TokenWithSpan}
use plat.Modules.Paths.{join}
use plat.Ast.{Ty}
use plat.Ast.Spans.{tys_of}
use plat.Parser.State.{Env, discriminant}
use plat.Parser.Types.{builtin, type_of_name}

module _ {F : Type 0} (env : Env F) where
  -- The token at a position is of the kind of `token`.
  abbrev pub Has : ℕ → Token F → Type 0
  Has c token =
      (t : TokenWithSpan F) × (get_elem? env.tokens c ≡ some t)
      × (discriminant t.token ≡ discriminant token)

  -- The token at a position goes on neither a name nor a type.
  abbrev pub IsBehindType : ℕ → Type 0
  IsBehindType c =
      (t : TokenWithSpan F) × (get_elem? env.tokens c ≡ some t)
      × ((discriminant t.token == discriminant {F = F} Token.double_colon) ≡ false)
      × ((discriminant t.token == discriminant {F = F} Token.less) ≡ false)

  -- `a::b::c`
  pub data IsPath : List Text → ℕ → ℕ → Type 0 where
    last_part :
        {c : ℕ} {name : Text} {t : TokenWithSpan F}
        → get_elem? env.tokens c ≡ some t
        → t.token ≡ Token.ident name
        → IsPath (name ∷ []) c (suc c)
    more_parts :
        {c d : ℕ} {name : Text} {names : List Text} {t : TokenWithSpan F}
        → get_elem? env.tokens c ≡ some t
        → t.token ≡ Token.ident name
        → Has (suc c) Token.double_colon
        → IsPath names (suc (suc c)) d
        → IsPath (name ∷ names) c d

  mutual
    -- The tokens from one position to another spell the type.
    pub data IsType : Ty → ℕ → ℕ → Type 0 where
      list_square :
          {c d : ℕ} {t : Ty}
          → Has c Token.list_
          → Has (suc c) Token.left_bracket
          → IsType t (suc (suc c)) d
          → Has d Token.right_bracket
          → IsType (Ty.list_ t) c (suc d)
      list_angle :
          {c d : ℕ} {t : Ty}
          → Has c Token.list_
          → Has (suc c) Token.less
          → IsType t (suc (suc c)) d
          → Has d Token.greater
          → IsType (Ty.list_ t) c (suc d)
      set_square :
          {c d : ℕ} {t : Ty}
          → Has c Token.set_
          → Has (suc c) Token.left_bracket
          → IsType t (suc (suc c)) d
          → Has d Token.right_bracket
          → IsType (Ty.set_ t) c (suc d)
      set_angle :
          {c d : ℕ} {t : Ty}
          → Has c Token.set_
          → Has (suc c) Token.less
          → IsType t (suc (suc c)) d
          → Has d Token.greater
          → IsType (Ty.set_ t) c (suc d)
      dict_square :
          {c d e : ℕ} {k v : Ty}
          → Has c Token.dict_
          → Has (suc c) Token.left_bracket
          → IsType k (suc (suc c)) d
          → Has d Token.comma
          → IsType v (suc d) e
          → Has e Token.right_bracket
          → IsType (Ty.dict_ k v) c (suc e)
      dict_angle :
          {c d e : ℕ} {k v : Ty}
          → Has c Token.dict_
          → Has (suc c) Token.less
          → IsType k (suc (suc c)) d
          → Has d Token.comma
          → IsType v (suc d) e
          → Has e Token.greater
          → IsType (Ty.dict_ k v) c (suc e)
      name_alone :
          {c d : ℕ} {names : List Text}
          → IsPath names c d
          → IsBehindType d
          → IsType (type_of_name (join names) (builtin (join names))) c d
      applied :
          {c d e : ℕ} {names : List Text} {ts : List Ty}
          → IsPath names c d
          → Has d Token.less
          → AreTypes ts (suc d) e
          → Has e Token.greater
          → IsType (Ty.named (join names) (tys_of ts)) c (suc e)

    -- Types with commas between them.
    pub data AreTypes : List Ty → ℕ → ℕ → Type 0 where
      last_type : {c d : ℕ} {t : Ty} → IsType t c d → AreTypes (t ∷ []) c d
      more_types :
          {c d e : ℕ} {t : Ty} {ts : List Ty}
          → IsType t c d
          → Has d Token.comma
          → AreTypes ts (suc d) e
          → AreTypes (t ∷ ts) c e
