-- ===== src/Runtime/Dict/Merge.antt =====
-- What `plat_dict_merge` of crates/plat-runtime/src/ffi/dict.rs does to the map from keys to values. The
-- two dicts are different ones.
use plat.Base.{List, [], ◌∷◌, Option, none, some, Text}
use plat.Runtime.Dict.{Entry, entry_of}
use plat.Runtime.Dict.Entries.{put}

-- The map after one entry more: an entry with a null key changes nothing.
abbrev pub put_entry : Option Text → Entry → (Text → Option Entry) → Text → Option Entry
put_entry none e m = m
put_entry (some k) e m = put k (entry_of k e.value e.value_type) m

-- The map after a list of entries, of which the last ones win.
abbrev pub put_all : List Entry → (Text → Option Entry) → Text → Option Entry
put_all [] m = m
put_all (e ∷ es) m = put_all es (put_entry e.key e m)
