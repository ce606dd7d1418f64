-- ===== src/Modules/Resolver.antt =====
-- The struct `ModuleResolver` of crates/plat-modules/src/lib.rs, with the registration and the
-- resolution of modules. `exists` is `Path::exists` on the file system.
use plat.Base.{
  Bool, true, false, not, ◌&&◌, List, [], ◌∷◌, ◌++◌, Option, none, some, Text, codes, text_eq,
  if◌then◌else◌, Result, ok, err, ◌>>=◌,
}
use plat.Modules.Sets.{contains, get, put, keys}
use plat.Modules.Paths.{
  FilePath, strip_prefix, parent, file_stem, set_extension, starts_with, join, split, push_all,
}

pub record ModuleId : Type 0 where
  pub path : Text
  pub file_path : FilePath

pub data ModuleError : Type 0 where
  path_mismatch : Text → Text → FilePath → ModuleError
  circular_dependency : List Text → ModuleError
  module_not_found : Text → List FilePath → ModuleError
  duplicate_definition : Text → Text → List FilePath → ModuleError

pub record ModuleResolver : Type 0 where
  pub root_dir : FilePath
  pub stdlib_dir : FilePath
  pub modules : List (Text × ModuleId)
  pub dependencies : List (Text × List Text)

unfoldable pub new : FilePath → FilePath → ModuleResolver
new root_dir stdlib_dir = record {
  root_dir = root_dir;
  stdlib_dir = stdlib_dir;
  modules = [];
  dependencies = [];
}

-- The last component of a module path: the file's stem, unless it is "main".
unfoldable pub stem_component : Option Text → List Text
stem_component none = []
stem_component (some name) = if text_eq name (codes "main") then [] else name ∷ []

-- The module path of a file below a root.
unfoldable pub module_path_of : FilePath → Text
unfolding parent file_stem stem_component join
module_path_of relative = join (parent relative ++ stem_component (file_stem relative))

abbrev pub path_below : FilePath → Option FilePath → Result ModuleError Text
path_below file_path none = err (path_mismatch [] [] file_path)
path_below file_path (some relative) = ok (module_path_of relative)

unfoldable pub file_path_to_module_path : ModuleResolver → FilePath → Result ModuleError Text
unfolding strip_prefix module_path_of
file_path_to_module_path r file_path = path_below file_path (strip_prefix r.root_dir file_path)

-- `self.modules.insert(declared_path, module_id)`, with the module's id returned
unfoldable pub insert_module : ModuleResolver → FilePath → Text → ModuleResolver × ModuleId
unfolding put
insert_module r file_path declared_path =
    let id : ModuleId = record { path = declared_path; file_path = file_path } in
    (record r { modules = put declared_path id r.modules }, id)

abbrev pub check_stdlib_path :
    ModuleResolver
    → FilePath
    → Text
    → Option FilePath
    → Result ModuleError (ModuleResolver × ModuleId)
check_stdlib_path r file_path declared_path none =
    err (path_mismatch declared_path (codes "std::*") file_path)
check_stdlib_path r file_path declared_path (some relative) =
    if text_eq declared_path (module_path_of relative)
    then ok (insert_module r file_path declared_path)
    else err (path_mismatch declared_path (module_path_of relative) file_path)

unfoldable pub register_stdlib_module :
    ModuleResolver → FilePath → Text → Result ModuleError (ModuleResolver × ModuleId)
unfolding strip_prefix module_path_of insert_module
register_stdlib_module r file_path declared_path =
    check_stdlib_path r file_path declared_path (strip_prefix r.stdlib_dir file_path)

unfoldable pub is_empty : Text → Bool
is_empty [] = true
is_empty (c ∷ cs) = false

unfoldable pub register_module :
    ModuleResolver → FilePath → Text → Result ModuleError (ModuleResolver × ModuleId)
unfolding starts_with register_stdlib_module file_path_to_module_path is_empty insert_module
register_module r file_path declared_path =
    if starts_with declared_path (codes "std::")
    then register_stdlib_module r file_path declared_path
    else file_path_to_module_path r file_path >>= λ expected_path.
        if not (text_eq declared_path expected_path) && not (is_empty declared_path)
        then err (path_mismatch declared_path expected_path file_path)
        else ok (insert_module r file_path declared_path)

unfoldable pub add_dependencies : ModuleResolver → Text → List Text → ModuleResolver
unfolding put
add_dependencies r module_path imports = record r {
  dependencies = put module_path imports r.dependencies;
}

-- The file of a stdlib module: "std::json" is "std/json.plat" below `stdlib_dir`.
unfoldable pub stdlib_file : ModuleResolver → Text → FilePath
unfolding split push_all set_extension
stdlib_file r module_path = set_extension (codes "plat") (push_all r.stdlib_dir (split module_path))

unfoldable pub discover_stdlib_module :
    (FilePath → Bool) → ModuleResolver → Text → Result ModuleError (ModuleResolver × ModuleId)
unfolding starts_with stdlib_file register_stdlib_module
discover_stdlib_module exists r module_path =
    if not (starts_with module_path (codes "std::"))
    then err (module_not_found module_path (r.root_dir ∷ []))
    else if not (exists (stdlib_file r module_path))
    then err (module_not_found module_path (r.stdlib_dir ∷ stdlib_file r module_path ∷ []))
    else register_stdlib_module r (stdlib_file r module_path) module_path

-- `self.modules.get(module_path).ok_or_else(..)`
abbrev pub found :
    ModuleResolver → Text → Option ModuleId → Result ModuleError (ModuleResolver × ModuleId)
found r module_path none = err (module_not_found module_path (r.root_dir ∷ []))
found r module_path (some id) = ok (r, id)

unfoldable pub resolve_module :
    (FilePath → Bool) → ModuleResolver → Text → Result ModuleError (ModuleResolver × ModuleId)
unfolding contains keys get starts_with discover_stdlib_module
resolve_module exists r module_path =
    if not (contains (keys r.modules) module_path) && starts_with module_path (codes "std::")
    then (discover_stdlib_module exists r module_path >>= λ done.
        found done.0 module_path (get module_path done.0.modules))
    else found r module_path (get module_path r.modules)
