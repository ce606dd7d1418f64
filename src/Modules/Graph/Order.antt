-- ===== src/Modules/Graph/Order.antt =====
-- What `compilation_order` and `check_circular_dependencies` of crates/plat-modules/src/lib.rs
-- return.
use plat.Base.{
  suc, true, false, List, [], ◌∷◌, ◌++◌, Text, text_eq, ◌≡◌, refl, subst, arith, All, All-mono,
  text_eq_iff, if_intro, Bool-cases, inl, inr, Result, ok, length, Ensures, returns, throws, ◌>>=◌,
}
use plat.Modules.Sets.{
  contains, get, keys, contains-append, contains-nil, contains-cons, All-contains,
  missing-le-length,
}
use plat.Modules.Resolver.{ModuleError, circular_dependency, ModuleResolver}
use plat.Modules.Graph.{
  Search, Sorting, or_empty, imports_of, imported, all_names, sort_modules,
  check_circular_dependencies, compilation_order,
}
use plat.Modules.Graph.Spec.{IsWalk, IsCycle, IsOrdered}
use plat.Modules.Graph.Lockstep.{Follows, both, cycle}
use plat.Modules.Graph.Recursion.{check_modules-Follows}

-- What the entry of a module lists is among the names.
imports_of-names :
    (deps : List (Text × List Text)) (m : Text)
    → All (λ d. contains (imported deps) d ≡ true) (imports_of deps m)
unfolding imports_of imported get
imports_of-names [] m = tt
imports_of-names ((k, ds) ∷ deps) m =
    if_intro (λ o. All (λ d. contains (ds ++ imported deps) d ≡ true) (or_empty o)) (text_eq k m)
      (λ _.
        All-mono ds (λ d h. ground (arith, contains-append ds (imported deps) d)) (All-contains ds))
      (λ _.
        All-mono (imports_of deps m) (λ d h. ground (arith, contains-append ds (imported deps) d))
          (imports_of-names deps m))

-- What holds of all members holds of each.
All-at :
    (xs ys : List Text) (a : Text)
    → All (λ d. contains ys d ≡ true) xs
    → contains xs a ≡ true
    → contains ys a ≡ true
All-at [] ys a h m = absurd (cc (contains-nil a))
All-at (x ∷ xs) ys a (p, h) m = elim (Bool-cases (text_eq x a)) [
  | inl e ↦ subst (λ (d : Text). contains ys d ≡ true) ((text_eq_iff x a).0 e) p
  | inr e ↦ All-at xs ys a h (ground (arith, contains-cons x xs a))
]

module _ (imports : Text → List Text) where
  IsClosed : List Text → Type 0
  IsClosed done =
      (x : Text) → contains done x ≡ true → All (λ d. contains done d ≡ true) (imports x)

  IsClosed-nil : IsClosed []
  unfolding IsClosed
  IsClosed-nil x h = absurd (cc (contains-nil x))

  -- A module may join a closed set that holds its imports.
  IsClosed-cons :
      (done : List Text) (x : Text)
      → IsClosed done
      → All (λ d. contains done d ≡ true) (imports x)
      → IsClosed (x ∷ done)
  unfolding IsClosed
  IsClosed-cons done x c a y h = elim (Bool-cases (text_eq x y)) [
    | inl e ↦
        subst (λ z. All (λ d. contains (x ∷ done) d ≡ true) (imports z)) ((text_eq_iff x y).0 e)
          (All-mono (imports x) weaken a)
    | inr e ↦ All-mono (imports y) weaken (c y (ground (arith, contains-cons x done y)))
  ]
    where
      weaken : (d : Text) → contains done d ≡ true → contains (x ∷ done) d ≡ true
      weaken d k = rw (contains-cons, k) (ground arith)

  -- A walk does not leave a closed set.
  walk_stays :
      (done ms : List Text) (n m : Text)
      → IsClosed done
      → IsWalk imports (n ∷ ms ++ m ∷ [])
      → contains done n ≡ true
      → contains done m ≡ true
  unfolding IsClosed
  walk_stays done [] n m c (e, _) h = All-at (imports n) done m (c n h) e
  walk_stays done (x ∷ ms) n m c (e, w) h =
      walk_stays done ms x m c w (All-at (imports n) done x (c n h) e)

  step_into :
      (done mid : List Text) (m : Text)
      → IsClosed done
      → All (λ d. contains done d ≡ true) (imports m)
      → IsWalk imports (m ∷ mid ++ m ∷ [])
      → contains done m ≡ true
  step_into done [] m c a (e, _) = All-at (imports m) done m a e
  step_into done (x ∷ mid) m c a (e, w) =
      walk_stays done mid x m c w (All-at (imports m) done x a e)

  -- No module of an ordered list lies on a cycle.
  no_cycle :
      (done ms mid : List Text) (m : Text)
      → IsClosed done
      → IsOrdered imports done ms
      → contains ms m ≡ true
      → IsWalk imports (m ∷ mid ++ m ∷ [])
      → ⊥
  no_cycle done [] mid m c o h w = cc (contains-nil m)
  no_cycle done (x ∷ ms) mid m c (fresh, a, o) h w = elim (Bool-cases (text_eq x m)) [
    | inl e ↦
        let same : x ≡ m = (text_eq_iff x m).0 e in
        let a' : All (λ d. contains done d ≡ true) (imports m) = rw same at a in
        let fresh' : contains done m ≡ false = rw same at fresh in cc (step_into done mid m c a' w)
    | inr e ↦
        no_cycle (x ∷ done) ms mid m (IsClosed-cons done x c a) o
          (ground (arith, contains-cons x ms m)) w
  ]

-- The two loops of `compilation_order` on a resolver.
loops :
    (r : ModuleResolver)
    → Follows
        (imports_of r.dependencies)
        (λ o. All (λ m. contains o m ≡ true) (keys r.modules))
        (record { visited = []; rec_stack = []; path = [] })
        (record { visited = []; order = [] })
        (check_circular_dependencies r)
        (sort_modules
          (imports_of r.dependencies)
          (suc (length (all_names r)))
          (keys r.modules)
          (record { visited = []; order = [] }))
unfolding check_circular_dependencies all_names
loops r =
    check_modules-Follows (imports_of r.dependencies) (all_names r)
      (λ m _.
        All-mono (imports_of r.dependencies m)
          (λ d h. ground (arith, contains-append (keys r.modules) (imported r.dependencies) d))
          (imports_of-names r.dependencies m))
      (suc (length (all_names r))) (keys r.modules) _ _
      (record {
        same_marks = refl;
        marked = λ a. ground (arith, contains-nil a);
        stacked = λ a. refl;
        apart = λ a h. contains-nil a;
        ordered = tt;
      })
      refl
      (All-mono (keys r.modules)
        (λ d h. ground (arith, contains-append (keys r.modules) (imported r.dependencies) d))
        (All-contains (keys r.modules)))
      (omega (arith, missing-le-length (all_names r) []))

-- What an order of compilation has to be.
abbrev pub IsCompilationOrder : ModuleResolver → List Text → Type 0
IsCompilationOrder r order =
    IsOrdered (imports_of r.dependencies) [] order
    × All (λ m. contains order m ≡ true) (keys r.modules)

-- An error shows a cycle of imports.
abbrev pub ShowsCycle : ModuleResolver → ModuleError → Type 0
ShowsCycle r e =
    (c : List Text) × (e ≡ circular_dependency c) × IsCycle (imports_of r.dependencies) c

finish :
    (r : ModuleResolver) {s : Search} {t : Sorting} {x : Result ModuleError Search}
    {y : Result ModuleError Sorting}
    → Follows
        (imports_of r.dependencies)
        (λ o. All (λ m. contains o m ≡ true) (keys r.modules))
        s
        t
        x
        y
    → Ensures (IsCompilationOrder r) (ShowsCycle r) (x >>= λ _. y >>= λ s'. ok s'.order)
finish r (both c e g q) = returns (c.ordered, q)
finish r (cycle z) = throws (_, refl, z)

-- A search that found nothing leaves an order.
order_of_ok :
    (r : ModuleResolver) {s s' : Search} {t : Sorting} {x : Result ModuleError Search}
    {y : Result ModuleError Sorting}
    → Follows
        (imports_of r.dependencies)
        (λ o. All (λ m. contains o m ≡ true) (keys r.modules))
        s
        t
        x
        y
    → x ≡ ok s'
    → (order : List Text) × IsCompilationOrder r order
order_of_ok r (both {t' = t'} c e g q) h = (t'.order, (c.ordered, q))
order_of_ok r (cycle z) h = cc

-- For every resolver, and every order in which its maps are iterated, `compilation_order` returns:
-- either an order in which each registered module stands, no module stands twice, and each stands
-- behind all the modules that it imports; or the error of a circular dependency, whose list is a
-- closed walk of at least one import. The recursion has enough fuel and no `unwrap` panics.
pub compilation_order_total :
    (r : ModuleResolver) → Ensures (IsCompilationOrder r) (ShowsCycle r) (compilation_order r)
unfolding compilation_order
compilation_order_total r = finish r (loops r)

-- Where `check_circular_dependencies` finds nothing wrong, no registered module lies on a cycle of
-- imports.
pub check_circular_dependencies_sound :
    (r : ModuleResolver) {s : Search} (m : Text) (mid : List Text)
    → check_circular_dependencies r ≡ ok s
    → contains (keys r.modules) m ≡ true
    → ¬ IsWalk (imports_of r.dependencies) (m ∷ mid ++ m ∷ [])
check_circular_dependencies_sound r m mid h k w =
    let (order, good) = order_of_ok r (loops r) h in
    no_cycle (imports_of r.dependencies) [] order mid m (IsClosed-nil (imports_of r.dependencies))
      good.0 (All-at (keys r.modules) order m good.1 k) w
