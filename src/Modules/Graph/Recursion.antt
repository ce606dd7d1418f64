-- ===== src/Modules/Graph/Recursion.antt =====
-- The searches of crates/plat-modules/src/lib.rs side by side: the loop over the imports, the
-- recursive functions and the loop over the modules.
use plat.Base.{
  ℕ, zero, suc, ◌<◌, true, false, List, [], ◌∷◌, ◌++◌, Text, ◌≡◌, refl, ap, ◌∙◌, arith, All,
  Bool-cases, inl, inr, Result,
}
use plat.Modules.Sets.{
  contains, insert, contains-nil, All-contains, missing, missing_mono, missing-insert,
}
use plat.Modules.Resolver.{ModuleError}
use plat.Modules.Graph.{
  Search, Sorting, enter, visit_imports, sort_imports, dfs_cycle_check, topological_sort,
  check_modules, sort_modules,
}
use plat.Modules.Graph.Spec.{IsWalk, IsWalk-append}
use plat.Modules.Graph.Lockstep.{
  IsConsistent, Follows, both, marks_grow, enter-IsConsistent, extend, follows_bind, marked_import,
  leave-Follows,
}

module _ (imports : Text → List Text) (names : List Text)
    (closed : (m : Text)
      → contains names m ≡ true
      → All (λ d. contains names d ≡ true) (imports m)) where
  -- What a recursive call is asked, and what it gives.
  abbrev Visits :
      ℕ
      → (Text → Search → Result ModuleError Search)
      → (Text → Sorting → Result ModuleError Sorting)
      → Type 0
  Visits fuel visit sort =
      (m : Text) (s : Search) (t : Sorting)
      → IsConsistent imports s t
      → contains s.visited m ≡ false
      → IsWalk imports (s.path ++ m ∷ [])
      → contains names m ≡ true
      → missing names s.visited < fuel
      → Follows imports (λ o. contains o m ≡ true) s t (visit m s) (sort m t)

  visit_imports-Follows :
      (fuel : ℕ) (visit : Text → Search → Result ModuleError Search)
      (sort : Text → Sorting → Result ModuleError Sorting)
      → Visits fuel visit sort
      → (m : Text) (p deps : List Text) (s : Search) (t : Sorting) → IsConsistent imports s t
      → s.path ≡ p ++ m ∷ []
      → IsWalk imports (p ++ m ∷ [])
      → All (λ d. contains (imports m) d ≡ true) deps
      → All (λ d. contains names d ≡ true) deps
      → missing names s.visited < fuel
      → Follows imports
          (λ o. All (λ d. contains o d ≡ true) deps)
          s
          t
          (visit_imports visit deps s)
          (sort_imports sort deps t)
  unfolding visit_imports sort_imports
  visit_imports-Follows fuel visit sort v m p [] s t c e w a n lt = both c refl (λ _ h. h) tt
  visit_imports-Follows fuel visit sort v m p (d ∷ deps) s t c e w (edge, a) (named, n) lt =
      let same : contains t.visited d ≡ contains s.visited d =
        ap (λ v. contains v d) c.same_marks in
      let walk : IsWalk imports (s.path ++ d ∷ []) = rw e (IsWalk-append imports p m d w edge) in
      elim (Bool-cases (contains s.visited d)) [
        | inl marked ↦
            rw (same, marked)
              (marked_import imports d s t (visit_imports visit deps) (sort_imports sort deps t) c
                marked walk
                (λ listed.
                  extend imports refl (λ _ h. h) (λ o h y. (h d listed, y))
                    (visit_imports-Follows fuel visit sort v m p deps s t c e w a n lt)))
        | inr fresh ↦
            rw (same, fresh)
              (follows_bind imports (v d s t c fresh walk named lt) (λ o o' h x y. (h d x, y))
                (λ s' t' c' e' g x.
                  visit_imports-Follows fuel visit sort v m p deps s' t' c' (e' ∙ e) w a n (
                    omega (
                      arith,
                      missing_mono names s.visited s'.visited (marks_grow imports c c' e' g),
                    ))))
      ]

  -- The two recursive functions, with enough fuel for the modules that are not marked.
  pub dfs_cycle_check-Follows :
      (fuel : ℕ) → Visits fuel (dfs_cycle_check imports fuel) (topological_sort imports fuel)
  unfolding dfs_cycle_check topological_sort
  dfs_cycle_check-Follows zero m s t c h w n lt = absurd (omega arith)
  dfs_cycle_check-Follows (suc fuel) m s t c h w n lt = leave-Follows imports m s t c h (
      visit_imports-Follows fuel (dfs_cycle_check imports fuel) (topological_sort imports fuel)
        (dfs_cycle_check-Follows fuel) m s.path (imports m) (enter m s)
        (record t { visited = insert m t.visited }) (enter-IsConsistent imports m s t c h) refl w
        (All-contains (imports m)) (closed m n)
        (omega (arith, missing-insert names s.visited m n h)))

  -- The two loops over the modules, with nothing on the path.
  pub check_modules-Follows :
      (fuel : ℕ) (ms : List Text) (s : Search) (t : Sorting)
      → IsConsistent imports s t
      → s.path ≡ []
      → All (λ m. contains names m ≡ true) ms
      → missing names s.visited < fuel
      → Follows imports
          (λ o. All (λ m. contains o m ≡ true) ms)
          s
          t
          (check_modules imports fuel ms s)
          (sort_modules imports fuel ms t)
  unfolding check_modules sort_modules
  check_modules-Follows fuel [] s t c e n lt = both c refl (λ _ h. h) tt
  check_modules-Follows fuel (m ∷ ms) s t c e (named, n) lt =
      let same : contains t.visited m ≡ contains s.visited m =
        ap (λ v. contains v m) c.same_marks in
      let idle : contains s.path m ≡ false = rw e (contains-nil m) in
      elim (Bool-cases (contains s.visited m)) [
        | inl marked ↦
            rw (same, marked)
              (extend imports refl (λ _ h. h) (λ o h y. (h m (ground (arith, c.marked m)), y))
                (check_modules-Follows fuel ms s t c e n lt))
        | inr fresh ↦
            rw (same, fresh)
              (follows_bind imports (dfs_cycle_check-Follows fuel m s t c fresh (rw e tt) named lt)
                (λ o o' h x y. (h m x, y))
                (λ s' t' c' e' g x. check_modules-Follows fuel ms s' t' c' (e' ∙ e) n (
                  omega (
                    arith,
                    missing_mono names s.visited s'.visited (marks_grow imports c c' e' g),
                  ))))
      ]
