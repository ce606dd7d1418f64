-- ===== src/Modules/Graph/Spec.antt =====
-- What a cycle of imports and an order of compilation are, independent of the searches.
use plat.Base.{
  true, false, ◌||◌, List, [], ◌∷◌, ◌++◌, some, All-mono, Text, text_eq, ◌≡◌, refl, arith, All,
  text_eq_iff, Bool-cases, inl, inr,
}
use plat.Modules.Sets.{contains}
use plat.Modules.Graph.{from_position, pop}

-- Each module but the last imports the one behind it.
abbrev pub IsWalk : (Text → List Text) → List Text → Type 0
IsWalk imports [] = Unit
IsWalk imports (m ∷ []) = Unit
IsWalk imports (m ∷ n ∷ ms) = (contains (imports m) n ≡ true) × IsWalk imports (n ∷ ms)

-- A walk of at least one step that ends where it begins.
abbrev pub IsCycle : (Text → List Text) → List Text → Type 0
IsCycle imports cycle =
    (m : Text) × (mid : List Text) × (cycle ≡ m ∷ mid ++ m ∷ []) × IsWalk imports cycle

-- Behind the modules `done` the list holds each module once, and behind all that it imports.
abbrev pub IsOrdered : (Text → List Text) → List Text → List Text → Type 0
IsOrdered imports done [] = Unit
IsOrdered imports done (m ∷ ms) =
    (contains done m ≡ false)
    × All (λ d. contains done d ≡ true) (imports m)
    × IsOrdered imports (m ∷ done) ms

module _ (imports : Text → List Text) where
  pub IsWalk-append :
      (p : List Text) (m d : Text)
      → IsWalk imports (p ++ m ∷ [])
      → contains (imports m) d ≡ true
      → IsWalk imports ((p ++ m ∷ []) ++ d ∷ [])
  IsWalk-append [] m d w e = (e, tt)
  IsWalk-append (x ∷ []) m d (a, w) e = (a, (e, tt))
  IsWalk-append (x ∷ y ∷ p) m d (a, w) e = (a, IsWalk-append (y ∷ p) m d w e)

  pub IsWalk-tail : (x : Text) (p : List Text) → IsWalk imports (x ∷ p) → IsWalk imports p
  IsWalk-tail x [] w = tt
  IsWalk-tail x (y ∷ p) (a, w) = w

  -- A module that the path holds closes a cycle, if the end of the path imports it.
  pub from_position-IsCycle :
      (dep : Text) (path : List Text)
      → contains path dep ≡ true
      → IsWalk imports (path ++ dep ∷ [])
      → (cycle : List Text) × (from_position dep path ≡ some cycle)
        × IsCycle imports (cycle ++ dep ∷ [])
  unfolding from_position contains
  from_position-IsCycle dep [] h w = absurd (cc)
  from_position-IsCycle dep (m ∷ ms) h w = elim (Bool-cases (text_eq m dep)) [
    | inl e ↦ let same : m ≡ dep = (text_eq_iff m dep).0 e in (m ∷ ms, rw e, (dep, ms, rw same, w))
    | inr e ↦
        let (cycle, found, closed) =
          from_position-IsCycle dep ms (rw e at h) (IsWalk-tail m (ms ++ dep ∷ []) w) in
        (cycle, rw e found, closed)
  ]

  -- A module may be added when all that it imports is there.
  pub IsOrdered-append :
      (done ms : List Text) (m : Text)
      → IsOrdered imports done ms
      → contains done m ≡ false
      → contains ms m ≡ false
      → All (λ d. (contains done d || contains ms d) ≡ true) (imports m)
      → IsOrdered imports done (ms ++ m ∷ [])
  unfolding contains
  IsOrdered-append done [] m o hd hm a = (hd, All-mono (imports m) (λ d h. ground arith) a, tt)
  IsOrdered-append done (x ∷ ms) m (p, q, o) hd hm a = (
    p,
    q,
    IsOrdered-append (x ∷ done) ms m o (ground arith) (ground arith)
        (All-mono (imports m) (λ d h. ground arith) a),
  )

pub pop-append : (p : List Text) (m : Text) → pop (p ++ m ∷ []) ≡ p
unfolding pop
pop-append [] m = refl
pop-append (x ∷ []) m = refl
pop-append (x ∷ y ∷ p) m = rw (pop-append (y ∷ p) m)
