-- ===== src/Gates/Cycle/Walks.antt =====
-- What the depth-first walk keeps: black gates are grounded, grey gates are on the path, and a walk
-- with enough fuel ends. `universe` holds every name that a walk can meet.
use convergence.Prelude.{
  ℕ, zero, suc, ◌<◌, String, ◌≡◌, refl, subst, inl, inr, true, Option, none, some, ◌∷◌, ◌++◌, List,
  [], arith, contains, contains-append, eq_iff, lookup, insert, lookup-insert, ◌==◌, Bool-cases,
}
use convergence.Gates.Cycle.{
  Mark, grey, black, Marks, Edges, successors, Walked, found, finished, exhausted, close, scan,
  blacken, walk,
}
use convergence.Gates.Cycle.Links.{Linked, IsCycle, Grounded, grounded, Linked-snoc, close-IsCycle}
use convergence.Gates.Cycle.White.{is_marked, is_marked-insert, white, white-le, white-insert}

module _ (edges : Edges) (universe : List String) where
  pub record IsSane (marks : Marks) (path : List String) : Type 0 where
    pub black_grounded : (n : String) → lookup n marks ≡ some black → Grounded edges n
    pub grey_on_path : (n : String) → lookup n marks ≡ some grey → contains path n ≡ true

  -- What a walk from `marks` may end with; `Done` is what holds beside when no cycle was found.
  abbrev pub Ensures : List String → Type 0 → Marks → Walked → Type 0
  Ensures path Done marks (found cycle) = IsCycle edges cycle
  Ensures path Done marks (finished after) =
      Done
      × IsSane after path
      × ((n : String) → is_marked marks n ≡ true → is_marked after n ≡ true)
  Ensures path Done marks exhausted = ⊥

  module _ (visit : String → Marks → Walked) (path : List String) (n : String) (rest : List String)
      (marks : Marks) where
    scan-found :
        (c : List String)
        → lookup n marks ≡ none
        → visit n marks ≡ found c
        → scan visit path (n ∷ rest) marks ≡ found c
    unfolding scan
    scan-found c e v = ground arith

    scan-finished :
        (after : Marks)
        → lookup n marks ≡ none
        → visit n marks ≡ finished after
        → scan visit path (n ∷ rest) marks ≡ scan visit path rest after
    unfolding scan
    scan-finished after e v = ground arith

    scan-grey : lookup n marks ≡ some grey → scan visit path (n ∷ rest) marks ≡ found (close path n)
    unfolding scan
    scan-grey e = ground arith

    scan-black :
        lookup n marks ≡ some black → scan visit path (n ∷ rest) marks ≡ scan visit path rest marks
    unfolding scan
    scan-black e = ground arith

  grey-IsCycle :
      (xs : List String) (gate n : String)
      → Linked edges (xs ++ (gate ∷ []))
      → contains (successors edges gate) n ≡ true
      → contains (xs ++ (gate ∷ [])) n ≡ true
      → IsCycle edges (close (xs ++ (gate ∷ [])) n)
  grey-IsCycle xs gate n l e h =
      rw h (close-IsCycle edges (xs ++ (gate ∷ [])) n h (Linked-snoc edges xs gate n l e))

  -- What the recursive call is known to do.
  abbrev Visits : ℕ → List String → String → (String → Marks → Walked) → Type 0
  Visits k path gate visit =
      (n : String) (marks : Marks)
      → contains (successors edges gate) n ≡ true
      → lookup n marks ≡ none
      → IsSane marks path
      → white universe marks < k
      → Ensures path (Grounded edges n) marks (visit n marks)

  abbrev pub AllGrounded : List String → Type 0
  AllGrounded ns = (n : String) → contains ns n ≡ true → Grounded edges n

  pub AllGrounded-cons :
      (n : String) (ns : List String) → Grounded edges n → AllGrounded ns → AllGrounded (n ∷ ns)
  AllGrounded-cons n ns g all m h = elim (Bool-cases (n == m)) [
    | inl e ↦ subst (Grounded edges) ((eq_iff n m).0 e) g
    | inr e ↦ all m (ground arith)
  ]

  pub Ensures-cons :
      (path : List String) (n : String) (ns : List String) (before marks : Marks) (w : Walked)
      → ((a : String) → is_marked before a ≡ true → is_marked marks a ≡ true)
      → Grounded edges n
      → Ensures path (AllGrounded ns) marks w
      → Ensures path (AllGrounded (n ∷ ns)) before w
  Ensures-cons path n ns before marks (found c) keeps g h = h
  Ensures-cons path n ns before marks (finished after) keeps g (all, sane, grew) =
      (AllGrounded-cons n ns g all, sane, λ a m. grew a (keeps a m))
  Ensures-cons path n ns before marks exhausted keeps g h = h

  -- The rest of the loop over `next`, as it is known by the induction.
  abbrev Continues : ℕ → List String → List String → (String → Marks → Walked) → Type 0
  Continues k path ns visit =
      (m : Marks)
      → IsSane m path
      → white universe m < k
      → Ensures path (AllGrounded ns) m (scan visit path ns m)

  module _ (visit : String → Marks → Walked) (k : ℕ) (path : List String) (n : String)
      (ns : List String) (marks : Marks) where
    scan_after-Ensures :
        Continues k path ns visit
        → white universe marks < k
        → lookup n marks ≡ none
        → (w : Walked) → visit n marks ≡ w
        → Ensures path (Grounded edges n) marks w
        → Ensures path (AllGrounded (n ∷ ns)) marks (scan visit path (n ∷ ns) marks)
    scan_after-Ensures on room e (found c) v h = rw (scan-found visit path n ns marks c e v) h
    scan_after-Ensures on room e (finished after) v (g, sane, grew) =
        rw (scan-finished visit path n ns marks after e v) (
          Ensures-cons path n ns marks after _ grew g
            (on after sane (omega (arith, white-le universe marks after grew))))
    scan_after-Ensures on room e exhausted v h = absurd h

    scan_cons-Ensures :
        Continues k path ns visit
        → (lookup n marks ≡ none → Ensures path (Grounded edges n) marks (visit n marks))
        → (contains path n ≡ true → IsCycle edges (close path n))
        → IsSane marks path
        → white universe marks < k
        → (o : Option Mark) → lookup n marks ≡ o
        → Ensures path (AllGrounded (n ∷ ns)) marks (scan visit path (n ∷ ns) marks)
    scan_cons-Ensures on visits cycle sane room none e =
        scan_after-Ensures on room e (visit n marks) refl (visits e)
    scan_cons-Ensures on visits cycle sane room (some grey) e =
        rw (scan-grey visit path n ns marks e) (cycle (sane.grey_on_path n e))
    scan_cons-Ensures on visits cycle sane room (some black) e =
        rw (scan-black visit path n ns marks e) (
          Ensures-cons path n ns marks marks _ (λ a h. h) (sane.black_grounded n e)
            (on marks sane room))

  scan-Ensures :
      (visit : String → Marks → Walked) (k : ℕ) (xs : List String) (gate : String)
      (ns : List String) (marks : Marks)
      → Visits k (xs ++ (gate ∷ [])) gate visit
      → Linked edges (xs ++ (gate ∷ []))
      → ((n : String) → contains ns n ≡ true → contains (successors edges gate) n ≡ true)
      → IsSane marks (xs ++ (gate ∷ []))
      → white universe marks < k
      → Ensures (xs ++ (gate ∷ [])) (AllGrounded ns) marks (scan visit (xs ++ (gate ∷ [])) ns marks)
  scan-Ensures visit k xs gate [] marks hv l sub sane room =
      unfold scan in ((λ n h. cc), sane, (λ n h. h))
  scan-Ensures visit k xs gate (n ∷ ns) marks hv l sub sane room =
      let edge : contains (successors edges gate) n ≡ true = sub n (ground (arith, eq_iff n n)) in
      scan_cons-Ensures visit k (xs ++ (gate ∷ [])) n ns marks
        (λ m s r. scan-Ensures visit k xs gate ns m hv l (λ a h. sub a (ground arith)) s r)
        (λ e. hv n marks edge e sane room) (grey-IsCycle xs gate n l edge) sane room
        (lookup n marks) refl

  IsSane-grey :
      (marks : Marks) (path : List String) (gate : String)
      → IsSane marks path
      → IsSane (insert gate grey marks) (path ++ (gate ∷ []))
  IsSane-grey marks path gate s = record {
    black_grounded = λ n h. s.black_grounded n (ground (arith, lookup-insert gate n grey marks));
    grey_on_path = λ n h. ground (
      arith,
      lookup-insert gate n grey marks,
      contains-append path (gate ∷ []) n,
      s.grey_on_path n,
    );
  }

  IsSane-black :
      (marks : Marks) (path : List String) (gate : String)
      → Grounded edges gate
      → IsSane marks (path ++ (gate ∷ []))
      → IsSane (insert gate black marks) path
  IsSane-black marks path gate g s = record {
    black_grounded = λ n h. elim (Bool-cases (gate == n)) [
      | inl e ↦ subst (Grounded edges) ((eq_iff gate n).0 e) g
      | inr e ↦ s.black_grounded n (ground (arith, lookup-insert gate n black marks))
    ];
    grey_on_path = λ n h. ground (
      arith,
      lookup-insert gate n black marks,
      contains-append path (gate ∷ []) n,
      s.grey_on_path n,
    );
  }

  blacken-Ensures :
      (path : List String) (gate : String) (marks : Marks) (w : Walked)
      → Ensures
          (path ++ (gate ∷ []))
          (AllGrounded (successors edges gate))
          (insert gate grey marks)
          w
      → Ensures path (Grounded edges gate) marks (blacken gate w)
  blacken-Ensures path gate marks (found c) h = h
  blacken-Ensures path gate marks (finished after) (all, sane, grew) = (
    grounded all,
    IsSane-black after path gate (grounded all) sane,
    λ n m. is_marked-insert after gate black n (grew n (is_marked-insert marks gate grey n m)),
  )
  blacken-Ensures path gate marks exhausted h = h

  -- Every name that an edge leads to is in the universe.
  abbrev pub Covers : Type 0
  Covers = (g n : String) → contains (successors edges g) n ≡ true → contains universe n ≡ true

  pub walk-Ensures :
      (fuel : ℕ) (path : List String) (gate : String) (marks : Marks)
      → Covers
      → contains universe gate ≡ true
      → Linked edges (path ++ (gate ∷ []))
      → lookup gate marks ≡ none
      → IsSane marks path
      → white universe marks < fuel
      → Ensures path (Grounded edges gate) marks (walk fuel edges path gate marks)
  unfolding walk
  walk-Ensures zero path gate marks cov u l e s room = absurd (omega arith)
  walk-Ensures (suc fuel) path gate marks cov u l e s room = blacken-Ensures path gate marks _ (
      scan-Ensures (walk fuel edges (path ++ (gate ∷ []))) fuel path gate (successors edges gate)
        (insert gate grey marks)
        (λ n m edge w sane r.
          walk-Ensures fuel (path ++ (gate ∷ [])) n m cov (cov gate n edge)
            (Linked-snoc edges path gate n l edge) w sane r)
        l (λ n h. h) (IsSane-grey marks path gate s)
        (omega (arith, white-insert universe marks gate grey u e)))
