-- ===== src/Modules/Paths.antt =====
-- The parts of std::path that crates/plat-modules/src/lib.rs uses. A path is the list of its
-- components, as `Path::components` gives them: the root is "/" and no other component has a '/'.
use plat.Base.{
  ℕ, Bool, true, false, ◌&&◌, ◌||◌, List, [], ◌∷◌, ◌++◌, Option, none, some, Text, codes, ◌==◌,
  text_eq, if◌then◌else◌,
}

abbrev pub FilePath : Type 0
FilePath = List Text

-- `Path::strip_prefix`, whose error carries nothing
unfoldable pub strip_prefix : FilePath → FilePath → Option FilePath
strip_prefix [] path = some path
strip_prefix (p ∷ ps) [] = none
strip_prefix (p ∷ ps) (q ∷ qs) = if text_eq p q then strip_prefix ps qs else none

-- The components of `path.parent().unwrap_or(Path::new(""))`.
unfoldable pub parent : FilePath → FilePath
parent [] = []
parent (c ∷ []) = []
parent (c ∷ d ∷ cs) = c ∷ parent (d ∷ cs)

-- The components that are no names: the root, "." and "..".
abbrev pub is_special : Text → Bool
is_special c = text_eq c (codes "/") || text_eq c (codes ".") || text_eq c (codes "..")

unfoldable pub file_name : FilePath → Option Text
file_name [] = none
file_name (c ∷ []) = if is_special c then none else some c
file_name (c ∷ d ∷ cs) = file_name (d ∷ cs)

-- The text before its last '.', if it has one.
unfoldable pub before_last_dot : Text → Option Text
before_last_dot [] = none
before_last_dot (c ∷ cs) = elim (before_last_dot cs) [
  | some stem ↦ some (c ∷ stem)
  | none ↦ if c == b'.' then some [] else none
]

abbrev stem_or : Text → Option Text → Text
stem_or name none = name
stem_or name (some []) = name
stem_or name (some (c ∷ cs)) = c ∷ cs

-- The stem of a file name: what stands before its last '.', unless that is nothing.
unfoldable pub stem_of : Text → Text
unfolding before_last_dot
stem_of name = stem_or name (before_last_dot name)

-- `Path::file_stem`; a path with no file name has none
unfoldable pub file_stem : FilePath → Option Text
unfolding file_name stem_of
file_stem path = elim (file_name path) [ none ↦ none | some name ↦ some (stem_of name) ]

-- `PathBuf::set_extension`: it replaces what stands behind the last '.' of the file name, if there is one.
unfoldable pub set_extension : Text → FilePath → FilePath
unfolding stem_of
set_extension ext [] = []
set_extension ext (c ∷ []) = (if is_special c then c else stem_of c ++ codes "." ++ ext) ∷ []
set_extension ext (c ∷ d ∷ cs) = c ∷ set_extension ext (d ∷ cs)

unfoldable pub starts_with : Text → Text → Bool
starts_with s [] = true
starts_with [] (p ∷ ps) = false
starts_with (c ∷ cs) (p ∷ ps) = (c == p) && starts_with cs ps

-- `components.join("::")`
unfoldable pub join : List Text → Text
join [] = []
join (c ∷ []) = c
join (c ∷ d ∷ cs) = c ++ codes "::" ++ join (d ∷ cs)

-- Puts a character in front of the first part.
abbrev extend : ℕ → List Text → List Text
extend c [] = (c ∷ []) ∷ []
extend c (part ∷ parts) = (c ∷ part) ∷ parts

-- The text cut at each '/'.
unfoldable pub pieces : Text → List Text
pieces [] = [] ∷ []
pieces (c ∷ cs) = let rest = pieces cs in if c == b'/' then [] ∷ rest else extend c rest

-- The pieces that are components: an empty one is none, and nor is ".".
unfoldable pub components : List Text → FilePath
components [] = []
components (p ∷ ps) =
    let rest = components ps in if text_eq p [] || text_eq p (codes ".") then rest else p ∷ rest

-- A "." at the beginning of a path is a component.
abbrev pub relative_components : FilePath → List Text → FilePath
relative_components [] [] = []
relative_components [] (p ∷ ps) =
    if text_eq p (codes ".") then p ∷ components ps else components (p ∷ ps)
relative_components (c ∷ cs) ps = components ps

-- `PathBuf::push`: an absolute path replaces the path, another one is put behind it.
unfoldable pub push : FilePath → Text → FilePath
unfolding starts_with
push path part =
    if starts_with part (codes "/")
    then codes "/" ∷ components (pieces part)
    else path ++ relative_components path (pieces part)

-- `for part in &parts { file_path.push(part); }`
unfoldable pub push_all : FilePath → List Text → FilePath
unfolding push
push_all path [] = path
push_all path (part ∷ parts) = push_all (push path part) parts

-- `module_path.split("::")`
unfoldable pub split : Text → List Text
split [] = [] ∷ []
split (c ∷ []) = (c ∷ []) ∷ []
split (c ∷ d ∷ cs) =
    let parts = split cs in
    let more = split (d ∷ cs) in if (c == b':') && (d == b':') then [] ∷ parts else extend c more
