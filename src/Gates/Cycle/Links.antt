-- ===== src/Gates/Cycle/Links.antt =====
-- Walks along upstreams: cycles, and gates from which every walk ends.
use convergence.Prelude.{
  String, ◌≡◌, inl, inr, true, ◌∷◌, ◌++◌, List, [], arith, contains, eq_iff, ◌==◌, Bool-cases,
}
use convergence.Gates.Cycle.{Edges, successors, suffix_from}

-- Each name but the last lists the next one as an upstream.
abbrev pub Linked : Edges → List String → Type 0
Linked edges [] = Unit
Linked edges (x ∷ []) = Unit
Linked edges (x ∷ y ∷ rest) = (contains (successors edges x) y ≡ true) × Linked edges (y ∷ rest)

-- A closed walk along upstreams: it ends with the gate that it begins with.
abbrev pub IsCycle : Edges → List String → Type 0
IsCycle edges c = (n : String) × (body : List String) × (c ≡ n ∷ (body ++ n ∷ [])) × Linked edges c

-- Every walk along upstreams from the gate comes to an end.
pub data Grounded (edges : Edges) : String → Type 0 where
  grounded :
      {n : String}
      → ((m : String) → contains (successors edges n) m ≡ true → Grounded edges m)
      → Grounded edges n

module _ (edges : Edges) where
  pub Linked-snoc :
      (xs : List String) (g n : String)
      → Linked edges (xs ++ (g ∷ []))
      → contains (successors edges g) n ≡ true
      → Linked edges ((xs ++ (g ∷ [])) ++ (n ∷ []))
  Linked-snoc [] g n h e = (e, tt)
  Linked-snoc (x ∷ []) g n h e = (h.0, (e, tt))
  Linked-snoc (x ∷ y ∷ xs) g n h e = (h.0, Linked-snoc (y ∷ xs) g n h.1 e)

  Linked-tail : (x : String) (xs : List String) → Linked edges (x ∷ xs) → Linked edges xs
  Linked-tail x [] h = tt
  Linked-tail x (y ∷ xs) h = h.1

  -- From a name on the path to the end of the path, and back to it: a cycle.
  pub close-IsCycle :
      (path : List String) (n : String)
      → contains path n ≡ true
      → Linked edges (path ++ (n ∷ []))
      → (n' : String) × (body : List String) × (suffix_from n path ++ (n ∷ [])
          ≡ n' ∷ (body ++ n' ∷ []))
        × Linked edges (suffix_from n path ++ (n ∷ []))
  close-IsCycle [] n h l = cc
  close-IsCycle (x ∷ path) n h l = elim (Bool-cases (x == n)) [
    | inl e ↦ rw e (x, path, ground (arith, eq_iff x n), l)
    | inr e ↦ rw e (close-IsCycle path n (ground arith) (Linked-tail x (path ++ (n ∷ [])) l))
  ]

  data Leads : String → String → Type 0 where
    step : {a b : String} → contains (successors edges a) b ≡ true → Leads a b
    more : {a m b : String} → contains (successors edges a) m ≡ true → Leads m b → Leads a b

  Leads-snoc : {a b c : String} → Leads a b → contains (successors edges b) c ≡ true → Leads a c
  Leads-snoc (step e) f = more e (step f)
  Leads-snoc (more e r) f = more e (Leads-snoc r f)

  -- A gate on a closed walk is not grounded.
  Grounded-not-Leads : {n : String} → Grounded edges n → ¬ (Leads n n)
  Grounded-not-Leads (grounded next) (step e) = Grounded-not-Leads (next _ e) (step e)
  Grounded-not-Leads (grounded next) (more e r) = Grounded-not-Leads (next _ e) (Leads-snoc r e)

  Leads-Linked :
      (x : String) (body : List String) (n : String)
      → Linked edges (x ∷ (body ++ n ∷ []))
      → Leads x n
  Leads-Linked x [] n h = step h.0
  Leads-Linked x (y ∷ body) n h = more h.0 (Leads-Linked y body n h.1)

  pub Grounded-not-IsCycle :
      (n : String) (body : List String) → Linked edges (n ∷ (body ++ n ∷ [])) → ¬ (Grounded edges n)
  Grounded-not-IsCycle n body l g = Grounded-not-Leads g (Leads-Linked n body n l)
