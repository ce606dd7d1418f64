-- ===== src/Runtime/Array/Edits.antt =====
-- What `remove_at`, `set`, `pop` and the reads of crates/plat-runtime/src/ffi/array.rs do on the
-- sequence of the slots in use.
use plat.Base.{
  ℕ, zero, suc, ◌-◌, ◌%◌, ◌^◌, ◌<◌, ◌≡◌, refl, ap, sym, ◌∙◌, true, false, ◌||◌, List, [], ◌∷◌, ◌++◌,
  some, leb, ◌==◌, if◌then◌else◌, if_intro, arith, length, length-append, take, drop, get_elem?,
}
use plat.Runtime.Buffer.{
  write, length-write, take-take_le, take-write, take-remove, length-copy_within, get_elem?-take,
}
use plat.Runtime.Array.{
  RuntimeArray, ElementType, append, i32, i64, bool, string, class, i8, sign_extend, slots_of,
  store, load, load_at, element, remove_at, remove_slot, set_element, is_null, pop,
}
use plat.Runtime.Array.Growth.{view, IsValid, Holds, length-view, is_null-false, append-Holds}

-- The element that the runtime reads at an index in use is the slot there, widened to an i64.
pub element-view :
    (a : RuntimeArray) (i : ℕ)
    → i < a.length_
    → element a i ≡ load_at a.element_type (get_elem? (view a) i)
unfolding load
element-view a i h =
    ap (λ o. load_at a.element_type o) (sym (get_elem?-take a.length_ i (slots_of a.data_ptr) h))

-- An array with an element is not null.
not_null : (a : RuntimeArray) (i : ℕ) → IsValid a → i < a.length_ → is_null a.data_ptr ≡ false
not_null a i (h, k) lt = is_null-false a.data_ptr (omega arith)

in_range :
    (a : RuntimeArray) (i : ℕ)
    → IsValid a
    → i < a.length_
    → (leb a.length_ i || is_null a.data_ptr) ≡ false
in_range a i h lt = ground (arith, not_null a i h lt)

suc_pred : (n : ℕ) → 0 < n → suc (n - 1) ≡ n
suc_pred n h = omega arith

pub remove_slot_lem :
    (a : RuntimeArray) (i v : ℕ)
    → IsValid a
    → i < a.length_
    → Holds (remove_slot i (some v) a).0 a.element_type (take i (view a) ++ drop (suc i) (view a))
remove_slot_lem a i v (h, k) lt = (
  (
    length-copy_within (suc i) i (a.length_ - i - 1) (slots_of a.data_ptr) (omega arith)
          (omega arith)
        ∙ h,
    omega arith,
  ),
  take-remove (a.length_ - 1) i (a.length_ - i - 1) (slots_of a.data_ptr) (omega arith)
        (omega arith)
      ∙ ap
          (λ n.
            take i (take n (slots_of a.data_ptr)) ++ drop (suc i) (take n (slots_of a.data_ptr)))
          (suc_pred a.length_ (omega arith)),
  refl,
)

-- `plat_array_remove_at` of a valid array, at an index in use whose element can be read, takes that
-- element out, keeps the others in order, reports success and returns the element.
pub remove_at-Holds :
    (a : RuntimeArray) (i v : ℕ)
    → IsValid a
    → i < a.length_
    → element a i ≡ some v
    → Holds (remove_at a (some i)).0 a.element_type (take i (view a) ++ drop (suc i) (view a))
      × ((remove_at a (some i)).1 ≡ true)
      × ((remove_at a (some i)).2 ≡ v)
unfolding remove_at load
remove_at-Holds a i v h lt e =
    rw (in_range a i h lt) (rw e (remove_slot_lem a i v h lt, refl, refl))

-- `plat_array_set` of a valid array, at an index in use, of a value that the element type can store,
-- overwrites that element and no other and reports success.
pub set_element-Holds :
    (a : RuntimeArray) (i value x : ℕ)
    → IsValid a
    → i < a.length_
    → store a.element_type value ≡ some x
    → Holds (set_element a (some i) value).0 a.element_type (write i x (view a))
      × ((set_element a (some i) value).1 ≡ true)
unfolding set_element write store
set_element-Holds a i value x (h, k) lt e = rw (in_range a i (h, k) lt) (
    rw e (
      (
        (length-write i x (slots_of a.data_ptr) ∙ h, k),
        take-write a.length_ i x (slots_of a.data_ptr) lt,
        refl,
      ),
      refl,
    ))

-- `plat_array_pop` of an array with an element that can be read takes the last one off and returns it.
pub pop-Holds :
    (a : RuntimeArray) (v : ℕ)
    → IsValid a
    → 0 < a.length_
    → element a (a.length_ - 1) ≡ some v
    → Holds (pop a).0 a.element_type (take (a.length_ - 1) (view a)) × ((pop a).1 ≡ v)
unfolding pop load
pop-Holds a v (h, k) lt e =
    if_intro
      (λ (r : RuntimeArray × ℕ).
        Holds r.0 a.element_type (take (a.length_ - 1) (view a)) × (r.1 ≡ v))
      (a.length_ == 0) (λ empty. absurd (ground arith))
      (λ some_left. rw e (
        (
          (h, omega arith),
          sym (take-take_le (a.length_ - 1) a.length_ (slots_of a.data_ptr) (omega arith)),
          refl,
        ),
        refl,
      ))

-- An i64 as an array of the given type gives it back: the low 32 bits, sign-extended, in an array
-- of i32, 0 or 1 in one of bool.
abbrev pub normal : ElementType → ℕ → ℕ
normal i32 v = sign_extend (v % 2 ^ 32)
normal i64 v = v
normal bool v = if v == 0 then 0 else 1
normal string v = v
normal class v = v
normal i8 v = v

abbrev truth : ℕ → ℕ
truth v = if v == 0 then 0 else 1

truth_lem : (v x : ℕ) → store bool v ≡ some x → truth x ≡ truth v
unfolding store
truth_lem v x e = ground arith

pub load-store : (ty : ElementType) (v x : ℕ) → store ty v ≡ some x → load ty x ≡ some (normal ty v)
unfolding load store
load-store i32 v x e = cc
load-store i64 v x e = sym e
load-store bool v x e = ap (λ t. some t) (truth_lem v x e)
load-store string v x e = sym e
load-store class v x e = sym e
load-store i8 v x e = cc

-- The last slot of an array that was appended to.
get_elem?-end : (n x : ℕ) (xs : List ℕ) → length xs ≡ n → get_elem? (xs ++ x ∷ []) n ≡ some x
get_elem?-end zero x [] h = refl
get_elem?-end (suc n) x [] h = absurd (omega arith)
get_elem?-end zero x (y ∷ ys) h = absurd (omega arith)
get_elem?-end (suc n) x (y ∷ ys) h = get_elem?-end n x ys (omega arith)

take-end : (n : ℕ) (xs ys : List ℕ) → length xs ≡ n → take n (xs ++ ys) ≡ xs
take-end zero [] ys h = refl
take-end (suc n) [] ys h = absurd (omega arith)
take-end zero (y ∷ xs) ys h = absurd (omega arith)
take-end (suc n) (y ∷ xs) ys h = ap (λ t. y ∷ t) (take-end n xs ys (omega arith))

-- An array of at least one slot whose last one is `x`.
pop-pushed :
    (a b : RuntimeArray) (value x : ℕ)
    → IsValid a
    → store a.element_type value ≡ some x
    → Holds b a.element_type (view a ++ x ∷ [])
    → Holds (pop b).0 a.element_type (view a) × ((pop b).1 ≡ normal a.element_type value)
pop-pushed a b value x h e (valid, same, type) =
    let more : b.length_ ≡ suc (length (view a)) =
      omega
        (arith, length-view b valid, ap (λ t. length t) same, length-append (view a) (x ∷ [])) in
    let last : length (view a) ≡ b.length_ - 1 = omega arith in
    let read : element b (b.length_ - 1) ≡ some (normal a.element_type value) =
      element-view b (b.length_ - 1) (omega arith)
      ∙ ap (λ ty. load_at ty (get_elem? (view b) (b.length_ - 1))) type
      ∙ ap (λ t. load_at a.element_type (get_elem? t (b.length_ - 1))) same
      ∙ ap (λ o. load_at a.element_type o) (get_elem?-end (b.length_ - 1) x (view a) last)
      ∙ load-store a.element_type value x e in
    let ((valid', left, type'), value') =
      pop-Holds b (normal a.element_type value) valid (omega arith) read in
    (
      (
        valid',
        left
            ∙ ap (λ t. take (b.length_ - 1) t) same
            ∙ take-end (b.length_ - 1) (view a) (x ∷ []) last,
        type' ∙ type,
      ),
      value',
    )

-- `plat_array_pop` undoes `plat_array_append` to a valid array of a value that the element type can
-- store: it returns the value, as the element type keeps it, and leaves the elements that were there.
pub pop-append :
    (a : RuntimeArray) (value x : ℕ)
    → IsValid a
    → store a.element_type value ≡ some x
    → Holds (pop (append a value).0).0 a.element_type (view a)
      × ((pop (append a value).0).1 ≡ normal a.element_type value)
pop-append a value x h e =
    pop-pushed a (append a value).0 value x h e (append-Holds a value x h e).0
