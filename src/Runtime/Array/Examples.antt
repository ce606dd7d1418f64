-- ===== src/Runtime/Array/Examples.antt =====
-- The theorems on arrays at arrays of i64.
use plat.Base.{List, [], ◌∷◌, none, some, true, ◌≡◌, ◌≢◌, refl, arith, not, ◌==◌, ◌^◌}
use plat.Runtime.Buffer.{write}
use plat.Runtime.Array.{
  RuntimeArray, i64, i8, store, load, append, pop, insert_at, remove_at, set_element,
  create_typed_array,
}
use plat.Runtime.Array.Queries.{
  plat_array_index_of, plat_array_contains, plat_array_count, plat_array_slice, plat_array_concat,
}
use plat.Runtime.Array.Growth.{IsValid, Holds, append-Holds, insert_at-Holds}
use plat.Runtime.Array.Edits.{set_element-Holds, remove_at-Holds, pop-Holds, pop-append}
use plat.Runtime.Array.Runs.{Op, append_, remove_, insert_, pop_, clear_, run_all, run_all-IsValid}
use plat.Runtime.Array.Search.{IsIndexOf, plat_array_index_of-IsIndexOf, contains-count}
use plat.Runtime.Array.Copies.{
  HoldsSome, create_typed_array-HoldsSome, slice-HoldsSome, concat-HoldsSome,
}

-- A full array of two elements.
abbrev pair : RuntimeArray
pair = record {
  data_ptr = some (5 ∷ 7 ∷ []);
  length_ = 2;
  capacity = 2;
  element_size = 8;
  element_type = i64;
}

-- An array that was created empty.
abbrev blank : RuntimeArray
blank = record { data_ptr = none; length_ = 0; capacity = 0; element_size = 8; element_type = i64 }

pair-IsValid : IsValid pair
pair-IsValid = (refl, omega arith)

distinct_types : i64 ≢ i8
distinct_types e = cc

append-Holds_example : Holds (append pair 9).0 i64 (5 ∷ 7 ∷ 9 ∷ []) × ((append pair 9).1 ≡ true)
unfolding store
append-Holds_example = append-Holds pair 9 9 pair-IsValid refl

insert_at-Holds_example :
    Holds (insert_at pair (some 1) 9).0 i64 (5 ∷ 9 ∷ 7 ∷ [])
    × ((insert_at pair (some 1) 9).1 ≡ true)
unfolding store
insert_at-Holds_example = insert_at-Holds pair 1 9 9 pair-IsValid (omega arith) refl

remove_at-Holds_example :
    Holds (remove_at pair (some 0)).0 i64 (7 ∷ [])
    × ((remove_at pair (some 0)).1 ≡ true)
    × ((remove_at pair (some 0)).2 ≡ 5)
unfolding load
remove_at-Holds_example = remove_at-Holds pair 0 5 pair-IsValid (omega arith) refl

set_element-Holds_example :
    Holds (set_element pair (some 1) 9).0 i64 (5 ∷ 9 ∷ [])
    × ((set_element pair (some 1) 9).1 ≡ true)
unfolding store write
set_element-Holds_example = set_element-Holds pair 1 9 9 pair-IsValid (omega arith) refl

pop-Holds_example : Holds (pop pair).0 i64 (5 ∷ []) × ((pop pair).1 ≡ 7)
unfolding load
pop-Holds_example = pop-Holds pair 7 pair-IsValid (omega arith) refl

-- What `pop` returns of an array of i64 may be the number that stands for no element.
pop-append_example :
    Holds (pop (append pair (2 ^ 32)).0).0 i64 (5 ∷ 7 ∷ [])
    × ((pop (append pair (2 ^ 32)).0).1 ≡ 2 ^ 32)
unfolding store
pop-append_example = pop-append pair (2 ^ 32) (2 ^ 32) pair-IsValid refl

plat_array_index_of-IsIndexOf_example :
    IsIndexOf i64 7 (5 ∷ 7 ∷ []) (plat_array_index_of (some pair) 7)
plat_array_index_of-IsIndexOf_example = plat_array_index_of-IsIndexOf pair 7

contains-count_example :
    plat_array_contains (some pair) 7 ≡ not (plat_array_count (some pair) 7 == 0)
contains-count_example = contains-count (some pair) 7 (omega arith)

create_typed_array-HoldsSome_example :
    HoldsSome i64 (5 ∷ []) (create_typed_array (some (5 ∷ 7 ∷ [])) 1 i64)
create_typed_array-HoldsSome_example = create_typed_array-HoldsSome i64 1 (5 ∷ 7 ∷ []) (omega arith)

slice-HoldsSome_example : HoldsSome i64 (7 ∷ []) (plat_array_slice (some pair) (some 1) (some 2))
slice-HoldsSome_example =
    slice-HoldsSome pair 1 2 pair-IsValid distinct_types (omega arith) (omega arith) (omega arith)

concat-HoldsSome_example :
    HoldsSome i64 (5 ∷ 7 ∷ 5 ∷ 7 ∷ []) (plat_array_concat (some pair) (some pair))
concat-HoldsSome_example = concat-HoldsSome pair pair pair-IsValid pair-IsValid refl refl refl

-- A growth, a failure, and an array that becomes empty.
abbrev calls : List Op
calls = append_ 9 ∷ remove_ (some 5) ∷ insert_ (some 0) 1 ∷ pop_ ∷ clear_ ∷ []

run_all-IsValid_example : IsValid (run_all calls pair)
run_all-IsValid_example = run_all-IsValid calls pair pair-IsValid
