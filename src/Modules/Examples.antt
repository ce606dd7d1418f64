-- ===== src/Modules/Examples.antt =====
-- A project of three modules, and the theorems on dependency graphs at it.
use plat.Base.{
  arith, text_eq_iff, true, Bool, false, [], ◌∷◌, ◌++◌, Text, text_eq, codes, ◌≡◌, ◌≢◌, refl,
  Ensures, ok,
}
use plat.Modules.Sets.{contains, keys}
use plat.Modules.Resolver.{register_module, resolve_module, ModuleResolver, ModuleId, insert_module}
use plat.Modules.Paths.{FilePath, join}
use plat.Modules.Discovery.{IsRefused, std_main, resolve_module-std_main, resolve_module-discovers}
use plat.Modules.Registration.{IsRegistered, register_module-IsRegistered}
use plat.Modules.Graph.{compilation_order, check_circular_dependencies, imports_of, Search}
use plat.Modules.Graph.Spec.{IsWalk}
use plat.Modules.Graph.Order.{
  IsCompilationOrder, ShowsCycle, compilation_order_total, check_circular_dependencies_sound,
}

abbrev id_of : Text → ModuleId
id_of path = record { path = path; file_path = path ∷ [] }

-- "a" imports "b" and "c", "b" imports "c".
abbrev project : ModuleResolver
project = record {
  root_dir = [];
  stdlib_dir = [];
  modules =
      (codes "a", id_of (codes "a"))
      ∷ (codes "b", id_of (codes "b"))
      ∷ (codes "c", id_of (codes "c"))
      ∷ [];
  dependencies = (codes "a", codes "b" ∷ codes "c" ∷ []) ∷ (codes "b", codes "c" ∷ []) ∷ [];
}

order_lem : compilation_order project ≡ ok (codes "c" ∷ codes "b" ∷ codes "a" ∷ [])
unfolding compilation_order text_eq
order_lem = refl

compilation_order_total_example :
    Ensures (IsCompilationOrder project) (ShowsCycle project) (compilation_order project)
compilation_order_total_example = compilation_order_total project

abbrev visited_all : Search
visited_all = record { visited = codes "c" ∷ codes "b" ∷ codes "a" ∷ []; rec_stack = []; path = [] }

check_circular_dependencies_sound_example :
    ¬ IsWalk (imports_of project.dependencies) (codes "a" ∷ (codes "b" ∷ []) ++ codes "a" ∷ [])
unfolding check_circular_dependencies contains keys text_eq
check_circular_dependencies_sound_example =
    check_circular_dependencies_sound project {s = visited_all} (codes "a") (codes "b" ∷ []) refl
      refl

-- An empty disk.
abbrev no_file : FilePath → Bool
no_file path = false

register_module-IsRegistered_example :
    IsRegistered no_file project
      (codes "d.plat" ∷ [])
      (codes "d")
      (register_module project (codes "d.plat" ∷ []) (codes "d"))
register_module-IsRegistered_example =
    register_module-IsRegistered no_file project (codes "d.plat" ∷ []) (codes "d")

distinct_name : codes "file" ≢ codes "main"
unfolding text_eq
distinct_name e = let h : false ≡ true = (text_eq_iff (codes "file") (codes "main")).1 e in cc h

-- A disk with every file.
abbrev every_file : FilePath → Bool
every_file path = true

resolve_module-std_main_example : IsRefused (resolve_module every_file project std_main)
unfolding contains keys text_eq
resolve_module-std_main_example = resolve_module-std_main every_file project refl

resolve_module-discovers_example :
    resolve_module every_file project (codes "std::io::file")
    ≡ ok (
        insert_module project
          (codes "std" ∷ codes "io" ∷ codes "file.plat" ∷ [])
          (codes "std::io::file"))
unfolding contains keys text_eq join
resolve_module-discovers_example =
    resolve_module-discovers every_file project (codes "io" ∷ []) (codes "file") (ground arith)
      distinct_name refl
