-- ===== src/Modules/Names.antt =====
-- Files whose names are plain, in the parts of std::path and str that crates/plat-modules/src/lib.rs uses.
use plat.Base.{
  text_eq_iff, Bool-cases, inl, inr, sym, ℕ, false, List, [], ◌∷◌, ◌++◌, Option, none, some, Text,
  codes, text_eq, text_eq_refl, ◌==◌, ◌≡◌, refl, ap, ◌∙◌, All, append_assoc, append-nil,
}
use plat.Modules.Paths.{
  FilePath, strip_prefix, parent, is_special, file_name, file_stem, stem_of, before_last_dot,
  set_extension, starts_with, join, split, pieces, components, push, push_all,
}

-- None of '.', '/' and ':'.
abbrev pub IsNameChar : ℕ → Type 0
IsNameChar c = ((c == b'.') ≡ false) × ((c == b'/') ≡ false) × ((c == b':') ≡ false)

-- A name of a module, as the part of a path.
abbrev pub IsName : Text → Type 0
IsName [] = ⊥
IsName (c ∷ cs) = IsNameChar c × All IsNameChar cs

pub strip_prefix-append : (ps qs : FilePath) → strip_prefix ps (ps ++ qs) ≡ some qs
unfolding strip_prefix
strip_prefix-append [] qs = refl
strip_prefix-append (p ∷ ps) qs = rw (text_eq_refl p) (strip_prefix-append ps qs)

pub strip_prefix-some :
    (ps file relative : FilePath) → strip_prefix ps file ≡ some relative → file ≡ ps ++ relative
unfolding strip_prefix
strip_prefix-some [] file relative h = cc h
strip_prefix-some (p ∷ ps) [] relative h = absurd (cc h)
strip_prefix-some (p ∷ ps) (q ∷ qs) relative h = elim (Bool-cases (text_eq p q)) [
  | inl same ↦
      let tail : strip_prefix ps qs ≡ some relative = rw same at h in
      let heads = (text_eq_iff p q).0 same in cc (strip_prefix-some ps qs relative tail, heads)
  | inr differs ↦ let no : none ≡ some relative = rw differs at h in absurd (cc no)
]

-- The place of a file below a directory is the one that `strip_prefix` gives.
pub same_place :
    (dir file relative : FilePath) (o : Option FilePath)
    → strip_prefix dir file ≡ o
    → file ≡ dir ++ relative
    → o ≡ some relative
same_place dir file relative o e h =
    sym e ∙ ap (strip_prefix dir) h ∙ strip_prefix-append dir relative

pieces_one : (c : ℕ) (cs : Text) → IsName (c ∷ cs) → pieces (c ∷ cs) ≡ (c ∷ cs) ∷ []
unfolding pieces
pieces_one c [] (h, k) = rw (h.1) refl
pieces_one c (d ∷ ds) (h, k) = rw (h.1, pieces_one d ds k) refl

-- A plain name is one more component.
push-name : (path : FilePath) (p : Text) → IsName p → push path p ≡ path ++ p ∷ []
unfolding push starts_with components text_eq
push-name path [] h = elim h [ ]
push-name [] (c ∷ cs) h = rw (h.0.1, pieces_one c cs h, h.0.0) refl
push-name (d ∷ ds) (c ∷ cs) h = rw (h.0.1, pieces_one c cs h, h.0.0) refl

pub push_all-names : (path ps : FilePath) → All IsName ps → push_all path ps ≡ path ++ ps
unfolding push_all
push_all-names path [] h = rw (append-nil path) refl
push_all-names path (p ∷ ps) h =
    rw (push-name path p h.0)
      (push_all-names (path ++ p ∷ []) ps h.1 ∙ append_assoc path (p ∷ []) ps)

no_dot : (cs : Text) → All IsNameChar cs → before_last_dot cs ≡ none
unfolding before_last_dot
no_dot [] h = refl
no_dot (c ∷ cs) h = rw (no_dot cs h.1, h.0.0) refl

pub stem_of-name : (p : Text) → IsName p → stem_of p ≡ p
unfolding stem_of
stem_of-name [] h = elim h [ ]
stem_of-name (c ∷ cs) h = rw (no_dot (c ∷ cs) h) refl

is_special-name : (p : Text) → IsName p → is_special p ≡ false
unfolding text_eq
is_special-name [] h = elim h [ ]
is_special-name (c ∷ cs) h = rw (h.0.1, h.0.0) refl

-- The extension is put behind a plain name.
pub set_extension-name :
    (ext : Text) (dir : FilePath) (p : Text)
    → IsName p
    → set_extension ext (dir ++ p ∷ []) ≡ dir ++ (p ++ codes "." ++ ext) ∷ []
unfolding set_extension
set_extension-name ext [] p h = rw (is_special-name p h, stem_of-name p h) refl
set_extension-name ext (c ∷ []) p h = ap (λ t. c ∷ t) (set_extension-name ext [] p h)
set_extension-name ext (c ∷ d ∷ cs) p h = ap (λ t. c ∷ t) (set_extension-name ext (d ∷ cs) p h)

pub parent-append : (dir : FilePath) (p : Text) → parent (dir ++ p ∷ []) ≡ dir
unfolding parent
parent-append [] p = refl
parent-append (c ∷ []) p = refl
parent-append (c ∷ d ∷ cs) p = ap (λ t. c ∷ t) (parent-append (d ∷ cs) p)

file_name-append :
    (dir : FilePath) (p : Text) → is_special p ≡ false → file_name (dir ++ p ∷ []) ≡ some p
unfolding file_name
file_name-append [] p h = rw h refl
file_name-append (c ∷ []) p h = file_name-append [] p h
file_name-append (c ∷ d ∷ cs) p h = file_name-append (d ∷ cs) p h

before_last_dot-file : (p : Text) → All IsNameChar p → before_last_dot (p ++ codes ".plat") ≡ some p
unfolding before_last_dot
before_last_dot-file [] h = refl
before_last_dot-file (c ∷ cs) h = rw (before_last_dot-file cs h.1) refl

is_special-file : (p : Text) → IsName p → is_special (p ++ codes ".plat") ≡ false
unfolding text_eq
is_special-file [] h = elim h [ ]
is_special-file (c ∷ cs) h = rw (h.0.1, h.0.0) refl

stem_of-file : (p : Text) → IsName p → stem_of (p ++ codes ".plat") ≡ p
unfolding stem_of
stem_of-file [] h = elim h [ ]
stem_of-file (c ∷ cs) h = rw (before_last_dot-file (c ∷ cs) h) refl

-- The stem of a file of a plain name is the name.
pub file_stem-file :
    (dir : FilePath) (p : Text) → IsName p → file_stem (dir ++ (p ++ codes ".plat") ∷ []) ≡ some p
unfolding file_stem
file_stem-file dir p h =
    rw (file_name-append dir (p ++ codes ".plat") (is_special-file p h), file_stem)
      (ap some (stem_of-file p h))

-- A text of plain characters up to "::" is the first part.
split-name :
    (c : ℕ) (cs rest : Text)
    → IsName (c ∷ cs)
    → split ((c ∷ cs) ++ codes "::" ++ rest) ≡ (c ∷ cs) ∷ split rest
unfolding split
split-name c [] rest h = rw (h.0.2) refl
split-name c (d ∷ ds) rest (h, k) = rw (h.2, split-name d ds rest k) refl

split-one : (c : ℕ) (cs : Text) → IsName (c ∷ cs) → split (c ∷ cs) ≡ (c ∷ cs) ∷ []
unfolding split
split-one c [] h = refl
split-one c (d ∷ ds) (h, k) = rw (h.2, split-one d ds k) refl

-- A module path has its parts back.
pub split-join : (p : Text) (ps : List Text) → All IsName (p ∷ ps) → split (join (p ∷ ps)) ≡ p ∷ ps
unfolding join
split-join [] ps (h, k) = elim h [ ]
split-join (c ∷ cs) [] (h, k) = split-one c cs h
split-join (c ∷ cs) (p ∷ ps) (h, k) =
    split-name c cs (join (p ∷ ps)) h ∙ ap (λ t. (c ∷ cs) ∷ t) (split-join p ps k)
