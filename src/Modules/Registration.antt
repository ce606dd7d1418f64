-- ===== src/Modules/Registration.antt =====
-- Which files `register_module` of crates/plat-modules/src/lib.rs accepts, and what their paths resolve to.
use plat.Base.{
  Bool, true, false, not, ◌&&◌, List, [], ◌∷◌, ◌++◌, Option, none, some, Text, codes, text_eq,
  text_eq_refl, text_eq_iff, ◌≡◌, ◌≢◌, refl, ap, ◌∙◌, arith, if◌then◌else◌, if_intro, Bool-cases,
  inl, inr, ◌⊎◌, Result, ok, err, ◌>>=◌, Ensures, returns, throws,
}
use plat.Modules.Sets.{contains, get, put, keys, get-put}
use plat.Modules.Paths.{FilePath, strip_prefix, starts_with}
use plat.Modules.Names.{strip_prefix-some, same_place}
use plat.Modules.Resolver.{
  ModuleId, ModuleError, path_mismatch, ModuleResolver, insert_module, check_stdlib_path,
  register_stdlib_module, module_path_of, is_empty, file_path_to_module_path, path_below,
  register_module, resolve_module,
}

contains-keys-put :
    {V : Type 0} (k : Text) (v : V) (m : List (Text × V)) → contains (keys (put k v m)) k ≡ true
unfolding contains keys put
contains-keys-put k v [] = rw (text_eq_refl k) refl
contains-keys-put k v ((j, w) ∷ m) = ground (arith, text_eq_refl k, contains-keys-put k v m)

pub get-put_same :
    {V : Type 0} (k : Text) (v : V) (m : List (Text × V)) → get k (put k v m) ≡ some v
get-put_same k v m = get-put k k v m ∙ ap (λ b. if b then some v else get k m) (text_eq_refl k)

-- The module that was inserted is the one that its path resolves to.
resolve-insert_module :
    (exists : FilePath → Bool) (r : ModuleResolver) (file_path : FilePath) (path : Text)
    → resolve_module exists (insert_module r file_path path).0 path
      ≡ ok (insert_module r file_path path)
unfolding resolve_module insert_module
resolve-insert_module exists r file_path path =
    let id : ModuleId = record { path = path; file_path = file_path } in
    rw (contains-keys-put path id r.modules) (rw (get-put_same path id r.modules) refl)

-- A refusal to register a file.
abbrev pub IsMismatch : FilePath → ModuleError → Type 0
IsMismatch file_path e =
    (declared : Text) × (expected : Text) × (e ≡ path_mismatch declared expected file_path)

abbrev pub Resolves : (FilePath → Bool) → FilePath → Text → ModuleResolver × ModuleId → Type 0
Resolves exists file_path path (r, id) =
    (resolve_module exists r path ≡ ok (r, id)) × (id.file_path ≡ file_path) × (id.path ≡ path)

-- The file belongs to the module path: it lies below the directory that the path is of, at the place that
-- the path says. A file of the project may have no path.
pub data Belongs (r : ModuleResolver) (file_path : FilePath) (path : Text) : Type 0 where
  in_stdlib :
      (relative : FilePath)
      → starts_with path (codes "std::") ≡ true
      → file_path ≡ r.stdlib_dir ++ relative
      → path ≡ module_path_of relative
      → Belongs r file_path path
  in_project :
      (relative : FilePath)
      → starts_with path (codes "std::") ≡ false
      → file_path ≡ r.root_dir ++ relative
      → path ≡ module_path_of relative
      → Belongs r file_path path
  without_path :
      (relative : FilePath)
      → file_path ≡ r.root_dir ++ relative
      → path ≡ []
      → Belongs r file_path path

-- What a registration does: it accepts the file, or refuses it, and each for a reason.
abbrev pub IsRegistered :
    (FilePath → Bool)
    → ModuleResolver
    → FilePath
    → Text
    → Result ModuleError (ModuleResolver × ModuleId)
    → Type 0
IsRegistered exists r file_path path =
    Ensures (λ x. Belongs r file_path path × Resolves exists file_path path x)
      (λ e. (¬ Belongs r file_path path) × IsMismatch file_path e)

inserted :
    (exists : FilePath → Bool) (r : ModuleResolver) (file_path : FilePath) (path : Text)
    → Belongs r file_path path
    → IsRegistered exists r file_path path (ok (insert_module r file_path path))
unfolding insert_module
inserted exists r file_path path h =
    returns (h, (resolve-insert_module exists r file_path path, refl, refl))

some_injective : {x y : FilePath} → some x ≡ some y → x ≡ y
some_injective h = cc h

empty_lem : (s : Text) → is_empty s ≡ true → s ≡ []
unfolding is_empty
empty_lem [] h = refl
empty_lem (c ∷ cs) h = absurd (cc h)

-- The test refuses a path that is not the expected one, nor empty.
refused_lem :
    (path expected place : Text)
    → expected ≡ place
    → (not (text_eq path expected) && not (is_empty path)) ≡ true
    → (path ≢ place) × (path ≢ [])
unfolding is_empty
refused_lem path expected place e h = (
  (λ p. ground (arith, h, text_eq_iff path expected, e, p)),
  (λ p.
      let refused : (not (text_eq [] expected) && false) ≡ true = rw p at h in
      ground (arith, refused)),
)

-- What it accepts.
accepted_lem :
    (path expected : Text)
    → (not (text_eq path expected) && not (is_empty path)) ≡ false
    → (path ≡ expected) ⊎ (path ≡ [])
accepted_lem path expected h = elim (Bool-cases (text_eq path expected)) [
  | inl same ↦ inl ((text_eq_iff path expected).0 same)
  | inr differs ↦ inr (empty_lem path (ground (arith, differs, h)))
]

module _ (r : ModuleResolver) (file_path : FilePath) (path : Text) where
  not_in_stdlib :
      starts_with path (codes "std::") ≡ true
      → ((relative : FilePath)
          → file_path ≡ r.stdlib_dir ++ relative
          → path ≢ module_path_of relative)
      → ¬ Belongs r file_path path
  unfolding starts_with
  not_in_stdlib std h (in_stdlib relative s f p) = h relative f p
  not_in_stdlib std h (in_project relative s f p) = cc (std, s)
  not_in_stdlib std h (without_path relative f p) = cc (p, std)

  not_in_project :
      starts_with path (codes "std::") ≡ false
      → ((relative : FilePath)
          → file_path ≡ r.root_dir ++ relative
          → (path ≢ module_path_of relative) × (path ≢ []))
      → ¬ Belongs r file_path path
  not_in_project std h (in_stdlib relative s f p) = cc (std, s)
  not_in_project std h (in_project relative s f p) = (h relative f).0 p
  not_in_project std h (without_path relative f p) = (h relative f).1 p

  check_stdlib_path-IsRegistered :
      (exists : FilePath → Bool) (o : Option FilePath)
      → starts_with path (codes "std::") ≡ true
      → strip_prefix r.stdlib_dir file_path ≡ o
      → IsRegistered exists r file_path path (check_stdlib_path r file_path path o)
  check_stdlib_path-IsRegistered exists none std e = throws (
    not_in_stdlib std (λ relative f _. cc (same_place r.stdlib_dir file_path relative none e f)),
    (path, codes "std::*", refl),
  )
  check_stdlib_path-IsRegistered exists (some relative) std e =
      if_intro (IsRegistered exists r file_path path) (text_eq path (module_path_of relative))
        (λ same. inserted exists r file_path path (
          in_stdlib relative std (strip_prefix-some r.stdlib_dir file_path relative e)
            ((text_eq_iff path (module_path_of relative)).0 same)))
        (λ differs. throws (
          not_in_stdlib std (λ other f p.
              let at = same_place r.stdlib_dir file_path other (some relative) e f in
              cc (at, p, differs, text_eq_refl path)),
          (path, module_path_of relative, refl),
        ))

  -- The checks of a file of the project.
  project_path-IsRegistered :
      (exists : FilePath → Bool) (o : Option FilePath)
      → starts_with path (codes "std::") ≡ false
      → strip_prefix r.root_dir file_path ≡ o
      → IsRegistered exists r file_path path (
          path_below file_path o >>= λ expected.
          if not (text_eq path expected) && not (is_empty path)
          then err (path_mismatch path expected file_path)
          else ok (insert_module r file_path path))
  project_path-IsRegistered exists none std e = throws (
    not_in_project std
        (λ relative f. absurd (cc (same_place r.root_dir file_path relative none e f))),
    ([], [], refl),
  )
  project_path-IsRegistered exists (some relative) std e =
      let below = strip_prefix-some r.root_dir file_path relative e in
      if_intro (IsRegistered exists r file_path path)
        (not (text_eq path (module_path_of relative)) && not (is_empty path))
        (λ refused. throws (
          not_in_project std (λ other f.
              let at = same_place r.root_dir file_path other (some relative) e f in
              refused_lem path (module_path_of relative) (module_path_of other)
                (ap module_path_of (some_injective at)) refused),
          (path, module_path_of relative, refl),
        ))
        (λ accepted.
          inserted exists r file_path path
            (elim (accepted_lem path (module_path_of relative) accepted) [
              | inl same ↦ in_project relative std below same
              | inr empty ↦ without_path relative below empty
            ]))

-- `register_module` registers a file just where the file belongs to the module path, and the path then
-- resolves to this file whatever is on the disk; else it refuses it with a path mismatch that names the file.
pub register_module-IsRegistered :
    (exists : FilePath → Bool) (r : ModuleResolver) (file_path : FilePath) (path : Text)
    → IsRegistered exists r file_path path (register_module r file_path path)
unfolding register_module register_stdlib_module file_path_to_module_path
register_module-IsRegistered exists r file_path path =
    if_intro (IsRegistered exists r file_path path) (starts_with path (codes "std::"))
      (λ std.
        check_stdlib_path-IsRegistered r file_path path exists (strip_prefix r.stdlib_dir file_path)
          std refl)
      (λ std.
        project_path-IsRegistered r file_path path exists (strip_prefix r.root_dir file_path) std
          refl)
