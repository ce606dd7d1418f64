-- ===== src/Modules/Graph/Lockstep.antt =====
-- The search for cycles and the topological sort of crates/plat-modules/src/lib.rs, step by step side
-- by side: the relation between their states, and the steps that keep it.
use plat.Base.{
  true, false, ◌||◌, List, [], ◌∷◌, ◌++◌, Text, ◌≡◌, sym, ap, ◌∙◌, arith, All, All-mono,
  text_eq_iff, text_eq_refl, Bool-cases, inl, inr, if◌then◌else◌, Result, ok, err, ◌>>=◌,
}
use plat.Modules.Sets.{
  contains, insert, contains-insert, contains-remove, contains-push, contains-nil,
}
use plat.Modules.Resolver.{ModuleError, circular_dependency}
use plat.Modules.Graph.{Search, Sorting, enter, leave, report_cycle, from_position, pop}
use plat.Modules.Graph.Spec.{
  IsWalk, IsCycle, IsOrdered, from_position-IsCycle, IsOrdered-append, pop-append,
}

module _ (imports : Text → List Text) where
  -- A module is marked if it is on the path or already listed, never both.
  pub record IsConsistent (s : Search) (t : Sorting) : Type 0 where
    pub same_marks : t.visited ≡ s.visited
    pub marked : (a : Text) → contains s.visited a ≡ (contains t.order a || contains s.path a)
    pub stacked : (a : Text) → contains s.rec_stack a ≡ contains s.path a
    pub apart : (a : Text) → contains t.order a ≡ true → contains s.path a ≡ false
    pub ordered : IsOrdered imports [] t.order

  -- The search found a cycle; or both went on, the path is back, and `Q` holds of the order.
  pub data Follows (Q : List Text → Type 0) (s : Search) (t : Sorting)
      : Result ModuleError Search → Result ModuleError Sorting → Type 0 where
    both :
        {s' : Search} {t' : Sorting}
        → IsConsistent s' t'
        → s'.path ≡ s.path
        → ((a : Text) → contains t.order a ≡ true → contains t'.order a ≡ true)
        → Q t'.order
        → Follows Q s t (ok s') (ok t')
    cycle :
        {c : List Text} {q : Result ModuleError Sorting}
        → IsCycle imports c
        → Follows Q s t (err (circular_dependency c)) q

  -- The marks grow with the order, since the path is the same.
  pub marks_grow :
      {s s' : Search} {t t' : Sorting}
      → IsConsistent s t
      → IsConsistent s' t'
      → s'.path ≡ s.path
      → ((a : Text) → contains t.order a ≡ true → contains t'.order a ≡ true)
      → (a : Text) → contains s.visited a ≡ true
      → contains s'.visited a ≡ true
  marks_grow {s} {s'} {t} {t'} c c' e k a h =
      ground (arith, c.marked a, c'.marked a, k a, ap (λ p. contains p a) e)

  -- A module that is neither marked nor on the path may be entered.
  pub enter-IsConsistent :
      (m : Text) (s : Search) (t : Sorting)
      → IsConsistent s t
      → contains s.visited m ≡ false
      → IsConsistent (enter m s) (record t { visited = insert m t.visited })
  enter-IsConsistent m s t c h = record {
    same_marks = ap (insert m) c.same_marks;
    marked =
        λ a. ground (arith, contains-insert m s.visited a, contains-push s.path m a, c.marked a);
    stacked =
        λ a. ground (arith, contains-insert m s.rec_stack a, contains-push s.path m a, c.stacked a);
    apart =
        λ a o. ground (arith, contains-push s.path m a, c.apart a o, c.marked m, text_eq_iff m a);
    ordered = c.ordered;
  }

  -- A module may be left when all that it imports is listed.
  leave-IsConsistent :
      (m : Text) (p : List Text) (s : Search) (t : Sorting)
      → IsConsistent s t
      → s.path ≡ p ++ m ∷ []
      → contains p m ≡ false
      → All (λ d. contains t.order d ≡ true) (imports m)
      → IsConsistent (leave m s) (record t { order = t.order ++ m ∷ [] })
  leave-IsConsistent m p s t c e h a =
      let back : pop s.path ≡ p = ap pop e ∙ pop-append p m in
      let path = λ (b : Text). ap (λ q. contains q b) e ∙ contains-push p m b in
      let listed = λ (b : Text). contains-push t.order m b in
      record {
        same_marks = c.same_marks;
        marked = λ b. rw back (ground (arith, path b, listed b, c.marked b));
        stacked = λ b.
            rw back (
              ground
                (arith, path b, c.stacked b, contains-remove m s.rec_stack b, text_eq_iff m b));
        apart = λ b o. rw back (ground (arith, path b, listed b, c.apart b, text_eq_iff m b));
        ordered =
            IsOrdered-append imports [] t.order m c.ordered (contains-nil m)
              (ground (arith, path m, c.apart m, text_eq_refl m))
              (All-mono (imports m) (λ d k. rw contains-nil k) a);
      }

  -- A module that is marked and not on the path is listed.
  listed_of_marked :
      (d : Text) {s : Search} {t : Sorting}
      → IsConsistent s t
      → contains s.visited d ≡ true
      → contains s.rec_stack d ≡ false
      → contains t.order d ≡ true
  listed_of_marked d c h k = ground (arith, c.marked d, c.stacked d)

  -- One pair of steps behind another.
  pub extend :
      {Q Q' : List Text → Type 0} {s s' : Search} {t t' : Sorting} {r : Result ModuleError Search}
      {q : Result ModuleError Sorting}
      → s'.path ≡ s.path
      → ((a : Text) → contains t.order a ≡ true → contains t'.order a ≡ true)
      → ((o : List Text)
          → ((a : Text) → contains t'.order a ≡ true → contains o a ≡ true)
          → Q o
          → Q' o)
      → Follows Q s' t' r q
      → Follows Q' s t r q
  extend e g k (cycle z) = cycle z
  extend e g k (both c e' g' x) = both c (e' ∙ e) (λ a h. g' a (g a h)) (k _ g' x)

  pub follows_bind :
      {Q Q' Q'' : List Text → Type 0} {s : Search} {t : Sorting} {r : Result ModuleError Search}
      {q : Result ModuleError Sorting} {f : Search → Result ModuleError Search}
      {g : Sorting → Result ModuleError Sorting}
      → Follows Q s t r q
      → ((o o' : List Text)
          → ((a : Text) → contains o a ≡ true → contains o' a ≡ true)
          → Q o
          → Q' o'
          → Q'' o')
      → ((s' : Search) (t' : Sorting)
          → IsConsistent s' t'
          → s'.path ≡ s.path
          → ((a : Text) → contains t.order a ≡ true → contains t'.order a ≡ true)
          → Q t'.order
          → Follows Q' s' t' (f s') (g t'))
      → Follows Q'' s t (r >>= f) (q >>= g)
  follows_bind (cycle z) k n = cycle z
  follows_bind (both c e g x) k n = extend e g (λ o h y. k _ o h x y) (n _ _ c e g x)

  -- A marked import closes a cycle, or is listed.
  pub marked_import :
      {Q : List Text → Type 0} (d : Text) (s : Search) (t : Sorting)
      (next : Search → Result ModuleError Search) (q : Result ModuleError Sorting)
      → IsConsistent s t
      → contains s.visited d ≡ true
      → IsWalk imports (s.path ++ d ∷ [])
      → (contains t.order d ≡ true → Follows Q s t (next s) q)
      → Follows Q s t
          (if contains s.rec_stack d then report_cycle d (from_position d s.path) else next s)
          q
  marked_import d s t next q c h w k = elim (Bool-cases (contains s.rec_stack d)) [
    | inl on ↦
        let (found, e, z) = from_position-IsCycle imports d s.path (sym (c.stacked d) ∙ on) w in
        rw (on, e) (cycle z)
    | inr off ↦ rw off (k (listed_of_marked d c h off))
  ]

  -- A call, behind its loop over the imports.
  pub leave-Follows :
      (m : Text) (s : Search) (t : Sorting) {r : Result ModuleError Search}
      {q : Result ModuleError Sorting}
      → IsConsistent s t
      → contains s.visited m ≡ false
      → Follows
          (λ o. All (λ d. contains o d ≡ true) (imports m))
          (enter m s)
          (record t { visited = insert m t.visited })
          r
          q
      → Follows
          (λ o. contains o m ≡ true)
          s
          t
          (r >>= λ s'. ok (leave m s'))
          (q >>= λ t'. ok (record t' { order = t'.order ++ m ∷ [] }))
  leave-Follows m s t c h (cycle z) = cycle z
  leave-Follows m s t c h (both {s' = s'} {t' = t'} c' e g a) =
      both (leave-IsConsistent m s.path s' t' c' e (ground (arith, c.marked m)) a)
        (ap pop e ∙ pop-append s.path m) (λ b k. ground (arith, g b k, contains-push t'.order m b))
        (ground (arith, contains-push t'.order m m, text_eq_refl m))
