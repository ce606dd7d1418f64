-- ===== src/Modules/Discovery.antt =====
-- The discovery of standard-library modules in crates/plat-modules/src/lib.rs.
use plat.Base.{
  ok, if◌then◌else◌, true, ◌≢◌, text_eq_iff, some, Bool, false, [], ◌∷◌, ◌++◌, Text, codes, text_eq,
  text_eq_refl, ◌≡◌, refl, sym, ap, append_assoc, arith, All, ◌∙◌, Result, err, ◌>>=◌, Bool-cases,
  inl, inr,
}
use plat.Modules.Sets.{contains, keys, get}
use plat.Modules.Paths.{
  FilePath, strip_prefix, parent, file_name, file_stem, stem_of, before_last_dot, set_extension,
  starts_with, join,
}
use plat.Modules.Names.{
  IsName, strip_prefix-append, push_all-names, set_extension-name, split-join, parent-append,
  file_stem-file,
}
use plat.Modules.Registration.{get-put_same}
use plat.Modules.Resolver.{
  insert_module, module_not_found, ModuleError, path_mismatch, ModuleResolver, ModuleId,
  module_path_of, stem_component, stdlib_file, register_stdlib_module, check_stdlib_path,
  discover_stdlib_module, resolve_module, found,
}

All-last : (dir : FilePath) (name : Text) → All IsName (dir ++ name ∷ []) → IsName name
All-last [] name h = h.0
All-last (d ∷ ds) name h = All-last ds name h.1

-- The file of the module "std::a::b", whose names are plain, is std/a/b.plat in the standard library.
stdlib_file-join :
    (r : ModuleResolver) (dir : FilePath) (name : Text)
    → All IsName (codes "std" ∷ dir ++ name ∷ [])
    → stdlib_file r (join (codes "std" ∷ dir ++ name ∷ []))
      ≡ r.stdlib_dir ++ (codes "std" ∷ dir ++ (name ++ codes ".plat") ∷ [])
unfolding stdlib_file
stdlib_file-join r dir name h =
    ap (set_extension (codes "plat")) (
      rw (split-join (codes "std") (dir ++ name ∷ []) h) (
        push_all-names r.stdlib_dir (codes "std" ∷ dir ++ name ∷ []) h
        ∙ sym (append_assoc r.stdlib_dir (codes "std" ∷ dir) (name ∷ []))))
    ∙ set_extension-name (codes "plat") (r.stdlib_dir ++ codes "std" ∷ dir) name
        (All-last dir name h.1)
    ∙ rw (append_assoc name (codes ".") (codes "plat"))
        (append_assoc r.stdlib_dir (codes "std" ∷ dir) ((name ++ codes ".plat") ∷ []))

abbrev pub std_main : Text
std_main = codes "std::main"

abbrev main_file : FilePath
main_file = codes "std" ∷ codes "main.plat" ∷ []

main_stdlib_file : (r : ModuleResolver) → stdlib_file r std_main ≡ r.stdlib_dir ++ main_file
unfolding join
main_stdlib_file r = stdlib_file-join r [] (codes "main") (ground arith)

-- The file's own module path is "std".
main_refused :
    (r : ModuleResolver) (file : FilePath)
    → check_stdlib_path r file std_main (some main_file)
      ≡ err (path_mismatch std_main (codes "std") file)
unfolding module_path_of parent file_stem file_name stem_of before_last_dot stem_component join
    text_eq
main_refused r file = refl

register_main :
    (r : ModuleResolver)
    → register_stdlib_module r (stdlib_file r std_main) std_main
      ≡ err (path_mismatch std_main (codes "std") (stdlib_file r std_main))
unfolding register_stdlib_module
register_main r =
    ap (check_stdlib_path r (stdlib_file r std_main) std_main) (
      ap (strip_prefix r.stdlib_dir) (main_stdlib_file r)
      ∙ strip_prefix-append r.stdlib_dir main_file)
    ∙ main_refused r (stdlib_file r std_main)

-- The result is an error.
abbrev pub IsRefused : Result ModuleError (ModuleResolver × ModuleId) → Type 0
IsRefused x = (e : ModuleError) × (x ≡ err e)

discover_main :
    (exists : FilePath → Bool) (r : ModuleResolver)
    → IsRefused (discover_stdlib_module exists r std_main)
unfolding discover_stdlib_module starts_with
discover_main exists r = elim (Bool-cases (exists (stdlib_file r std_main))) [
  | inl there ↦ rw there (_, register_main r)
  | inr absent ↦ rw absent (_, refl)
]

-- Whatever files the standard library has, the module path "std::main" is refused unless it is registered
-- already: a file std/main.plat has the module path "std".
pub resolve_module-std_main :
    (exists : FilePath → Bool) (r : ModuleResolver)
    → contains (keys r.modules) std_main ≡ false
    → IsRefused (resolve_module exists r std_main)
unfolding resolve_module starts_with
resolve_module-std_main exists r h =
    let (e, refused) = discover_main exists r in
    rw h (e, ap (λ x. x >>= λ done. found done.0 std_main (get std_main done.0.modules)) refused)

starts_with-std :
    (dir : FilePath) (name : Text)
    → starts_with (join (codes "std" ∷ dir ++ name ∷ [])) (codes "std::") ≡ true
unfolding starts_with join
starts_with-std [] name = refl
starts_with-std (d ∷ ds) name = refl

text_eq-false : (s t : Text) → s ≢ t → text_eq s t ≡ false
text_eq-false s t h = elim (Bool-cases (text_eq s t)) [
  | inl same ↦ absurd (h ((text_eq_iff s t).0 same))
  | inr differs ↦ differs
]

-- The file of a module has the module's path.
module_path_of-file :
    (dir : FilePath) (name : Text)
    → IsName name
    → name ≢ codes "main"
    → module_path_of (dir ++ (name ++ codes ".plat") ∷ []) ≡ join (dir ++ name ∷ [])
unfolding module_path_of stem_component
module_path_of-file dir name h other =
    rw
      (
        parent-append dir (name ++ codes ".plat"),
        file_stem-file dir name h,
        text_eq-false name (codes "main") other,
      )
      refl

register_discovered :
    (r : ModuleResolver) (dir : FilePath) (name : Text)
    → IsName name
    → name ≢ codes "main"
    → let file = r.stdlib_dir ++ (codes "std" ∷ dir ++ (name ++ codes ".plat") ∷ []) in
      let path = join (codes "std" ∷ dir ++ name ∷ []) in
      register_stdlib_module r file path ≡ ok (insert_module r file path)
unfolding register_stdlib_module
register_discovered r dir name h other =
    rw
      (
        strip_prefix-append r.stdlib_dir (codes "std" ∷ dir ++ (name ++ codes ".plat") ∷ []),
        module_path_of-file (codes "std" ∷ dir) name h other,
        text_eq_refl (join (codes "std" ∷ dir ++ name ∷ [])),
      )
      refl

found_inserted :
    (r : ModuleResolver) (file : FilePath) (path : Text)
    → found (insert_module r file path).0 path (get path (insert_module r file path).0.modules)
      ≡ ok (insert_module r file path)
unfolding insert_module
found_inserted r file path =
    let id : ModuleId = record { path = path; file_path = file } in
    rw (get-put_same path id r.modules) refl

-- `resolve_module` of a module std::a::b that is not registered, with plain names of which the last is not
-- "main", registers the file std/a/b.plat of the standard library if it exists, and refuses it if not.
pub resolve_module-discovers :
    (exists : FilePath → Bool) (r : ModuleResolver) (dir : FilePath) (name : Text)
    → All IsName (codes "std" ∷ dir ++ name ∷ [])
    → name ≢ codes "main"
    → contains (keys r.modules) (join (codes "std" ∷ dir ++ name ∷ [])) ≡ false
    → let file = r.stdlib_dir ++ (codes "std" ∷ dir ++ (name ++ codes ".plat") ∷ []) in
      let path = join (codes "std" ∷ dir ++ name ∷ []) in
      resolve_module exists r path ≡ (
        if exists file
        then ok (insert_module r file path)
        else err (module_not_found path (r.stdlib_dir ∷ file ∷ [])))
unfolding resolve_module discover_stdlib_module
resolve_module-discovers exists r dir name h other new =
    let file = r.stdlib_dir ++ (codes "std" ∷ dir ++ (name ++ codes ".plat") ∷ []) in
    let path = join (codes "std" ∷ dir ++ name ∷ []) in
    let plain = All-last dir name h.1 in
    let std = starts_with-std dir name in
    let place = stdlib_file-join r dir name h in
    let registered = register_discovered r dir name plain other in
    elim (Bool-cases (exists file)) [
      | inl there ↦ rw (new, std, place, there, registered) (found_inserted r file path)
      | inr absent ↦ rw (new, std, place, absent) refl
    ]
