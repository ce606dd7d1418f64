-- ===== src/Runtime/Dict/Examples.antt =====
-- The theorems on dicts at a dict of two entries.
use plat.Base.{[], ◌∷◌, some, text_eq, codes, ◌≡◌, refl, arith}
use plat.Runtime.Dict.{RuntimeDict, view, lookup, entry_of, set, remove, plat_dict_get}
use plat.Runtime.Dict.Entries.{put}
use plat.Runtime.Dict.Laws.{IsValid, Maps, set-Maps}
use plat.Runtime.Dict.Removal.{without, remove-Maps}

abbrev ages : RuntimeDict
ages = record {
  entries = some (entry_of (codes "ann") 31 0 ∷ entry_of (codes "bob") 27 0 ∷ []);
  length_ = 2;
  capacity = 2;
}

ages-IsValid : IsValid ages
unfolding lookup text_eq
ages-IsValid = (((codes "ann", refl, refl), ((codes "bob", refl, refl), tt)), omega arith, refl)

set-Maps_example :
    Maps
      (put (codes "cid") (entry_of (codes "cid") 5 0) (λ j. lookup j (view ages)))
      (set ages (codes "cid") 5 0)
set-Maps_example = set-Maps ages (codes "cid") 5 0 ages-IsValid

remove-Maps_example :
    Maps (without (codes "ann") (λ j. lookup j (view ages))) (remove ages (codes "ann")).0
    × ((remove ages (codes "ann")).1 ≡ plat_dict_get (some ages) (some (codes "ann")))
remove-Maps_example = remove-Maps ages (codes "ann") ages-IsValid
