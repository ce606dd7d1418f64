-- ===== src/Runtime/Dict/Laws.antt =====
-- What `plat_dict_set` of crates/plat-runtime/src/ffi/dict.rs does to the map from keys to values.
use plat.Base.{
  ℕ, zero, suc, ◌≤◌, ◌<◌, ◌≡◌, refl, ap, sym, ◌∙◌, subst, List, [], ◌∷◌, ◌++◌, Option, none, some,
  Text, arith, ltb, leb, if◌then◌else◌, if_intro, length, take, length-append,
}
use plat.Runtime.Buffer.{
  copy_to, write, take-copy_to, length-copy_to, length-replicate, length-take_le, length-write,
  take-write_end, take-write,
}
use plat.Runtime.Dict.{
  Entry, RuntimeDict, slots_of, view, alloc, lookup, find_from, entry_of, grown_capacity, grow,
  pushed, updated, set_at, set,
}
use plat.Runtime.Dict.Entries.{put, lookup-push, Distinct-push, lookup-replace, Distinct-replace}
use plat.Runtime.Dict.Lookup.{
  Distinct, IsFound, found, missing, find_from-IsFound, matches-true, write-before,
}

-- No key stands twice or is null, and the buffers have the size that the dict says.
abbrev pub IsValid : RuntimeDict → Type 0
IsValid d =
    Distinct (view d) × (d.length_ ≤ d.capacity) × (length (slots_of d.entries) ≡ d.capacity)

pub length-view : (d : RuntimeDict) → IsValid d → length (view d) ≡ d.length_
length-view d (p, h, k) = length-take_le d.length_ (slots_of d.entries) (omega arith)

-- What growth keeps, and the room it makes.
pub data Grown (d : RuntimeDict) : RuntimeDict → Type 0 where
  grown :
      {e : RuntimeDict}
      → length (slots_of e.entries) ≡ e.capacity
      → view e ≡ view d
      → e.length_ ≡ d.length_
      → d.length_ < e.capacity
      → Grown d e

more_room : (n l : ℕ) → l ≤ n → l < grown_capacity n
more_room n l h = ground arith

take-zero : (n : ℕ) (xs ys : List Entry) → n ≡ 0 → take n xs ≡ take n ys
take-zero zero xs ys h = refl
take-zero (suc n) xs ys h = absurd (omega arith)

abbrev IsMoved : RuntimeDict → ℕ → List Entry → Type 0
IsMoved d size xs = (length xs ≡ size) × (take d.length_ xs ≡ view d)

grow-IsMoved :
    (d : RuntimeDict) (size : ℕ)
    → d.length_ ≤ length (slots_of d.entries)
    → d.length_ < size
    → IsMoved d size (
        if ltb 0 d.length_ then copy_to (slots_of d.entries) d.length_ (alloc size) else alloc size)
unfolding alloc
grow-IsMoved d size h room =
    let fits : length (alloc size) ≡ size = length-replicate size _ in
    if_intro (IsMoved d size) (ltb 0 d.length_)
      (λ used. (
        length-copy_to (slots_of d.entries) d.length_ (alloc size) h (omega arith) ∙ fits,
        take-copy_to (slots_of d.entries) d.length_ (alloc size) h,
      ))
      (λ unused. (fits, take-zero d.length_ (alloc size) (slots_of d.entries) (ground arith)))

grow_lem : (d : RuntimeDict) → IsValid d → Grown d (grow d)
unfolding grow
grow_lem d (p, h, k) =
    if_intro (Grown d) (leb d.capacity d.length_)
      (λ full.
        let room = more_room d.capacity d.length_ h in
        let (size, same) = grow-IsMoved d (grown_capacity d.capacity) (omega arith) room in
        grown size same refl room)
      (λ free. grown k refl refl (ground arith))

-- The dict is valid and maps each key to the entry that `m` says.
abbrev pub Maps : (Text → Option Entry) → RuntimeDict → Type 0
Maps m d = IsValid d × ((j : Text) → lookup j (view d) ≡ m j)

pushed_lem :
    (d g : RuntimeDict) (k : Text) (e : Entry)
    → IsValid d
    → Grown d g
    → e.key ≡ some k
    → lookup k (view d) ≡ none
    → Maps (put k e (λ j. lookup j (view d))) (pushed e g)
pushed_lem d g k e (p, h, c) (grown size same len room) key new =
    let shape : view (pushed e g) ≡ view d ++ e ∷ [] =
      take-write_end g.length_ e (slots_of g.entries) (omega arith) ∙ ap (λ t. t ++ e ∷ []) same in
    (
      (
        subst (λ xs. Distinct xs) (sym shape) (Distinct-push k e (view d) key p new),
        omega arith,
        length-write g.length_ e (slots_of g.entries) ∙ size,
      ),
      λ j. ap (lookup j) shape ∙ lookup-push k j e (view d) key new,
    )

updated_lem :
    (d : RuntimeDict) (i : ℕ) (k : Text) (x e : Entry) (before after : List Entry)
    → IsValid d
    → view d ≡ before ++ x ∷ after
    → i ≡ length before
    → x.key ≡ some k
    → e.key ≡ some k
    → lookup k before ≡ none
    → Maps (put k e (λ j. lookup j (view d))) (updated i e d)
updated_lem d i k x e before after (p, h, c) shape at_i old new out =
    let size : suc (length before) ≤ d.length_ = omega (
      arith,
      length-view d (p, h, c),
      ap (λ t. length t) shape,
      length-append before (x ∷ after),
    ) in
    let shape' : view (updated i e d) ≡ before ++ e ∷ after =
      take-write d.length_ i e (slots_of d.entries) (omega arith)
      ∙ ap (write i e) shape
      ∙ ap (λ n. write n e (before ++ x ∷ after)) at_i
      ∙ write-before before after x e in
    (
      (
        subst (λ xs. Distinct xs) (sym shape')
            (Distinct-replace x e before after (old ∙ sym new) (subst (λ xs. Distinct xs) shape p)),
        h,
        length-write i e (slots_of d.entries) ∙ c,
      ),
      λ j.
          ap (lookup j) shape'
          ∙ lookup-replace k j x e before after old new out
          ∙ ap (λ xs. put k e (λ i. lookup i xs) j) (sym shape),
    )

set_at-Maps :
    (d : RuntimeDict) (k : Text) (e : Entry) (o : Option ℕ)
    → IsValid d
    → e.key ≡ some k
    → IsFound k 0 (view d) o
    → Maps (put k e (λ j. lookup j (view d))) (set_at o e d)
set_at-Maps d k e none v key (missing new) = pushed_lem d (grow d) k e v (grow_lem d v) key new
set_at-Maps d k e (some i) v key (found before x after shape at_i m out) =
    updated_lem d i k x e before after v shape (omega arith) (matches-true k x.key m) key out

-- `plat_dict_set` of a valid dict leaves a valid dict in which the key has the value, with its type cut
-- to a byte, and every other key has what it had.
pub set-Maps :
    (d : RuntimeDict) (k : Text) (v t : ℕ)
    → IsValid d
    → Maps (put k (entry_of k v t) (λ j. lookup j (view d))) (set d k v t)
unfolding set
set-Maps d k v t valid =
    set_at-Maps d k (entry_of k v t) (find_from k 0 (view d)) valid refl
      (find_from-IsFound k 0 (view d))
