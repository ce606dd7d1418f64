-- ===== src/Runtime/Array/Runs.antt =====
-- Sequences of the operations of crates/plat-runtime/src/ffi/array.rs that change an array.
use plat.Base.{
  ℕ, ◌-◌, ◌≤◌, ◌<◌, ◌∙◌, Bool, ◌||◌, List, [], ◌∷◌, Option, none, some, ltb, leb, ◌==◌, if_intro,
  arith,
}
use plat.Runtime.Buffer.{write, length-write}
use plat.Runtime.Array.{
  RuntimeArray, slots_of, is_null, store, element, grow, append, append_slot, insert_at,
  insert_slot, remove_at, remove_slot, set_element, write_slot, pop, pop_value, clear,
}
use plat.Runtime.Array.Growth.{IsValid, grown, grow_lem, append_slot_lem, insert_slot_lem}
use plat.Runtime.Array.Edits.{remove_slot_lem}

-- A call of the compiled program; an index that is negative is `none`.
pub data Op : Type 0 where
  append_ : ℕ → Op
  insert_ : Option ℕ → ℕ → Op
  remove_ : Option ℕ → Op
  set_ : Option ℕ → ℕ → Op
  pop_ clear_ : Op

unfoldable pub run : Op → RuntimeArray → RuntimeArray
unfolding append insert_at remove_at set_element pop clear
run (append_ v) a = (append a v).0
run (insert_ i v) a = (insert_at a i v).0
run (remove_ i) a = (remove_at a i).0
run (set_ i v) a = (set_element a i v).0
run pop_ a = (pop a).0
run clear_ a = clear a

unfoldable pub run_all : List Op → RuntimeArray → RuntimeArray
unfolding run
run_all [] a = a
run_all (op ∷ ops) a = run_all ops (run op a)

grow-IsValid : (a : RuntimeArray) → IsValid a → IsValid (grow a)
grow-IsValid a v = elim (grow_lem a v) [ grown v' same type len room ↦ v' ]

append_slot-IsValid :
    (o : Option ℕ) (a : RuntimeArray) → IsValid a → IsValid (append_slot o (grow a)).0
append_slot-IsValid none a v = grow-IsValid a v
append_slot-IsValid (some x) a v = (append_slot_lem a (grow a) x (grow_lem a v)).0

insert_slot-IsValid :
    (o : Option ℕ) (i : ℕ) (a : RuntimeArray)
    → IsValid a
    → i ≤ a.length_
    → IsValid (insert_slot i o (grow a)).0
insert_slot-IsValid none i a v h = grow-IsValid a v
insert_slot-IsValid (some x) i a v h = (insert_slot_lem a (grow a) i x h (grow_lem a v)).0

remove_slot-IsValid :
    (o : Option ℕ) (i : ℕ) (a : RuntimeArray)
    → IsValid a
    → i < a.length_
    → IsValid (remove_slot i o a).0
remove_slot-IsValid none i a v h = v
remove_slot-IsValid (some x) i a v h = (remove_slot_lem a i x v h).0

write_slot-IsValid :
    (o : Option ℕ) (i : ℕ) (a : RuntimeArray) → IsValid a → IsValid (write_slot i o a).0
unfolding write
write_slot-IsValid none i a v = v
write_slot-IsValid (some x) i a (h, k) = (length-write i x (slots_of a.data_ptr) ∙ h, k)

pop_value-IsValid : (o : Option ℕ) (a : RuntimeArray) → IsValid a → IsValid (pop_value o a).0
pop_value-IsValid none a v = v
pop_value-IsValid (some x) a (h, k) = (h, omega arith)

run-IsValid : (op : Op) (a : RuntimeArray) → IsValid a → IsValid (run op a)
unfolding run append insert_at remove_at set_element pop clear
run-IsValid (append_ v) a valid = append_slot-IsValid (store a.element_type v) a valid
run-IsValid (insert_ none v) a valid = valid
run-IsValid (insert_ (some i) v) a valid =
    if_intro (λ (r : RuntimeArray × Bool). IsValid r.0) (ltb a.length_ i) (λ out. valid)
      (λ inside. insert_slot-IsValid (store a.element_type v) i a valid (ground arith))
run-IsValid (remove_ none) a valid = valid
run-IsValid (remove_ (some i)) a valid =
    if_intro (λ (r : RuntimeArray × Bool × ℕ). IsValid r.0) (leb a.length_ i || is_null a.data_ptr)
      (λ out. valid) (λ inside. remove_slot-IsValid (element a i) i a valid (ground arith))
run-IsValid (set_ none v) a valid = valid
run-IsValid (set_ (some i) v) a valid =
    if_intro (λ (r : RuntimeArray × Bool). IsValid r.0) (leb a.length_ i || is_null a.data_ptr)
      (λ out. valid) (λ inside. write_slot-IsValid (store a.element_type v) i a valid)
run-IsValid pop_ a valid =
    if_intro (λ (r : RuntimeArray × ℕ). IsValid r.0) (a.length_ == 0) (λ empty. valid)
      (λ more. pop_value-IsValid (element a (a.length_ - 1)) a valid)
run-IsValid clear_ a (h, k) = (h, omega arith)

-- Whatever a program does with a valid array, of any element type and with any indices, in range or
-- not, the array stays valid: the buffer has as many slots as the capacity says, and the elements in
-- use are among them.
pub run_all-IsValid : (ops : List Op) (a : RuntimeArray) → IsValid a → IsValid (run_all ops a)
unfolding run_all
run_all-IsValid [] a v = v
run_all-IsValid (op ∷ ops) a v = run_all-IsValid ops (run op a) (run-IsValid op a v)
