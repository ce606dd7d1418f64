-- ===== src/Modules/Graph.antt =====
-- The dependency graph of crates/plat-modules/src/lib.rs: the search for cycles and the order of
-- compilation. The recursion of both runs on fuel, one more than there are names: a call marks one
-- name that was not marked before.
pub mod Spec
pub mod Lockstep
pub mod Recursion
pub mod Order
use plat.Base.{
  ℕ, zero, suc, Bool, true, false, List, [], ◌∷◌, ◌++◌, Option, none, some, Text, text_eq, length,
  if◌then◌else◌, Result, ok, err, stuck, panic, ◌>>=◌,
}
use plat.Modules.Sets.{contains, insert, remove, get, keys}
use plat.Modules.Resolver.{ModuleError, circular_dependency, ModuleResolver}

-- The locals of `check_circular_dependencies`.
pub record Search : Type 0 where
  pub visited : List Text
  pub rec_stack : List Text
  pub path : List Text

-- `Vec::pop`
unfoldable pub pop : List Text → List Text
pop [] = []
pop (x ∷ []) = []
pop (x ∷ y ∷ xs) = x ∷ pop (y ∷ xs)

-- `path[path.iter().position(|m| m == dep)..]`, if `dep` is there
unfoldable pub from_position : Text → List Text → Option (List Text)
from_position dep [] = none
from_position dep (m ∷ ms) = if text_eq m dep then some (m ∷ ms) else from_position dep ms

-- The imports of a module: nothing if it has no entry.
abbrev pub or_empty : Option (List Text) → List Text
or_empty none = []
or_empty (some deps) = deps

unfoldable pub imports_of : List (Text × List Text) → Text → List Text
unfolding get
imports_of dependencies m = or_empty (get m dependencies)

-- The cycle that is reported: `position(..).unwrap()` panics if there is none.
abbrev pub report_cycle : Text → Option (List Text) → Result ModuleError Search
report_cycle dep none = panic
report_cycle dep (some cycle) = err (circular_dependency (cycle ++ dep ∷ []))

abbrev pub enter : Text → Search → Search
enter m s = record {
  visited = insert m s.visited;
  rec_stack = insert m s.rec_stack;
  path = s.path ++ m ∷ [];
}

abbrev pub leave : Text → Search → Search
leave m s = record s { path = pop s.path; rec_stack = remove m s.rec_stack }

-- The loop over the imports of a module, given the recursive call.
unfoldable pub visit_imports :
    (Text → Search → Result ModuleError Search) → List Text → Search → Result ModuleError Search
unfolding contains from_position
visit_imports visit [] s = ok s
visit_imports visit (dep ∷ deps) s =
    let next = visit_imports visit deps in
    if contains s.visited dep
    then (if contains s.rec_stack dep then report_cycle dep (from_position dep s.path) else next s)
    else visit dep s >>= next

unfoldable pub dfs_cycle_check : (Text → List Text) → ℕ → Text → Search → Result ModuleError Search
unfolding insert remove pop visit_imports
dfs_cycle_check imports zero m s = stuck
dfs_cycle_check imports (suc fuel) m s =
    visit_imports (dfs_cycle_check imports fuel) (imports m) (enter m s) >>= λ s'. ok (leave m s')

-- The loop of `check_circular_dependencies` over the modules.
unfoldable pub check_modules :
    (Text → List Text) → ℕ → List Text → Search → Result ModuleError Search
unfolding contains dfs_cycle_check
check_modules imports fuel [] s = ok s
check_modules imports fuel (m ∷ ms) s =
    let next = check_modules imports fuel ms in
    if contains s.visited m then next s else dfs_cycle_check imports fuel m s >>= next

-- Every name that the maps hold.
unfoldable pub imported : List (Text × List Text) → List Text
imported [] = []
imported ((m, deps) ∷ rest) = deps ++ imported rest

unfoldable pub all_names : ModuleResolver → List Text
unfolding keys imported
all_names r = keys r.modules ++ imported r.dependencies

unfoldable pub check_circular_dependencies : ModuleResolver → Result ModuleError Search
unfolding check_modules imports_of all_names keys
check_circular_dependencies r =
    check_modules (imports_of r.dependencies) (suc (length (all_names r))) (keys r.modules)
      (record { visited = []; rec_stack = []; path = [] })

-- The arguments of `topological_sort` that it changes.
pub record Sorting : Type 0 where
  pub visited : List Text
  pub order : List Text

unfoldable pub sort_imports :
    (Text → Sorting → Result ModuleError Sorting) → List Text → Sorting → Result ModuleError Sorting
unfolding contains
sort_imports visit [] s = ok s
sort_imports visit (dep ∷ deps) s =
    let next = sort_imports visit deps in
    if contains s.visited dep then next s else visit dep s >>= next

unfoldable pub topological_sort :
    (Text → List Text) → ℕ → Text → Sorting → Result ModuleError Sorting
unfolding insert sort_imports
topological_sort imports zero m s = stuck
topological_sort imports (suc fuel) m s =
    sort_imports (topological_sort imports fuel) (imports m)
      (record s { visited = insert m s.visited })
    >>= λ s'. ok (record s' { order = s'.order ++ m ∷ [] })

-- The loop of `compilation_order` over the modules.
unfoldable pub sort_modules :
    (Text → List Text) → ℕ → List Text → Sorting → Result ModuleError Sorting
unfolding contains topological_sort
sort_modules imports fuel [] s = ok s
sort_modules imports fuel (m ∷ ms) s =
    let next = sort_modules imports fuel ms in
    if contains s.visited m then next s else topological_sort imports fuel m s >>= next

unfoldable pub compilation_order : ModuleResolver → Result ModuleError (List Text)
unfolding check_circular_dependencies sort_modules
compilation_order r = check_circular_dependencies r >>= λ _.
    sort_modules (imports_of r.dependencies) (suc (length (all_names r))) (keys r.modules)
      (record { visited = []; order = [] })
    >>= λ s. ok s.order
