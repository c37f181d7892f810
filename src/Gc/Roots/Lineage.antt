-- ===== src/Gc/Roots/Lineage.antt =====
-- The walk over the lineage of a head passes every snap that the head descends from.
use convergence.Prelude.{
  ℕ, zero, suc, String, ◌≡◌, refl, sym, subst, ◌∙◌, ◌⊎◌, inl, inr, true, false, Option, none, some,
  List, [], ◌∷◌, ◌++◌, In, here, there, In-cons, In-contains, contains, arith, Bool-cases,
}
use convergence.Records.{ObjectId, SnapRecord}
use convergence.Engine.Lanes.{extend, parents_of}
use convergence.Engine.Lanes.Stack.{In-extend, In-extend_stack}
use convergence.Engine.Lanes.Ancestors.{Descends, itself, parent}
use convergence.Gc.Roots.{lineage, snap_root}
use convergence.Gc.Roots.Members.{append_right}

module _ (record_of : String → Option SnapRecord) where
  -- A snap that the walk has passed: its tree is among the roots, and its parents are passed too.
  record Passed (roots : List ObjectId) (passed : List String) (x : String) : Type 0 where
    root : (s : SnapRecord) → record_of x ≡ some s → In s.root_manifest roots
    parents : (p : String) → In p (parents_of (record_of x)) → In p passed

  -- What a walk from a stack has passed when it ends
  record Walked (stack seen : List String) (roots : List ObjectId) : Type 0 where
    passed : List String
    kept : (x : String) → In x seen → In x passed
    stacked : (x : String) → In x stack → In x passed
    new : (x : String) → In x passed → In x seen ⊎ Passed roots passed x

  Walked-old :
      (id : String) (stack seen : List String) (roots : List ObjectId)
      → In id seen
      → Walked stack seen roots
      → Walked (id ∷ stack) seen roots
  Walked-old id stack seen roots at w = record {
    passed = w.passed;
    kept = w.kept;
    stacked = λ x m. elim (In-cons m) [
      | inl same ↦ subst (λ y. In y w.passed) (sym same) (w.kept id at)
      | inr later ↦ w.stacked x later
    ];
    new = w.new;
  }

  Walked-new :
      (id : String) (stack seen : List String) (roots : List ObjectId)
      → Walked (extend (parents_of (record_of id)) stack) (id ∷ seen) roots
      → Walked (id ∷ stack) seen (snap_root (record_of id) ++ roots)
  Walked-new id stack seen roots w = record {
    passed = w.passed;
    kept = λ x m. w.kept x (there m);
    stacked = λ x m. elim (In-cons m) [
      | inl same ↦ subst (λ y. In y w.passed) (sym same) (w.kept id here)
      | inr later ↦ w.stacked x (In-extend_stack (parents_of (record_of id)) stack x later)
    ];
    new = λ x m. elim (w.new x m) [
      | inl e ↦ elim (In-cons e) [
        | inl same ↦
            inr (subst (Passed (snap_root (record_of id) ++ roots) w.passed) (sym same) own)
        | inr later ↦ inl later
      ]
      | inr p ↦ inr (record {
        root = λ s e. append_right s.root_manifest (snap_root (record_of id)) roots (p.root s e);
        parents = p.parents;
      })
    ];
  }
    where
      rooted :
          (s : SnapRecord)
          → record_of id ≡ some s
          → In s.root_manifest (snap_root (record_of id) ++ roots)
      rooted s e = rw e here

      own : Passed (snap_root (record_of id) ++ roots) w.passed id
      own = record {
        root = rooted;
        parents = λ p m. w.stacked p (In-extend (parents_of (record_of id)) stack p m);
      }

  lineage-Walked :
      (fuel : ℕ) (stack seen : List String) (roots : List ObjectId)
      → lineage fuel record_of stack seen ≡ some roots
      → Walked stack seen roots
  unfolding lineage
  lineage-Walked zero stack seen roots h = cc
  lineage-Walked (suc fuel) [] seen roots h = record {
    passed = seen;
    kept = λ x m. m;
    stacked = λ x m. elim m [ ];
    new = λ x m. inl m;
  }
  lineage-Walked (suc fuel) (id ∷ stack) seen roots h =
      let rest = lineage-Walked fuel in
      elim (Bool-cases (contains seen id)) [
        | inl e ↦
            Walked-old id stack seen roots (In-contains seen id e) (rest stack seen roots (old e h))
        | inr e ↦
            let (more, walk, joined) =
              fresh (lineage fuel record_of (extend (parents_of (record_of id)) stack) (id ∷ seen))
                (new_step e h) in
            subst (Walked (id ∷ stack) seen) joined (
              Walked-new id stack seen more
                (rest (extend (parents_of (record_of id)) stack) (id ∷ seen) more walk))
      ]
    where
      old :
          contains seen id ≡ true
          → lineage (suc fuel) record_of (id ∷ stack) seen ≡ some roots
          → lineage fuel record_of stack seen ≡ some roots
      old e k = sym (rw e refl) ∙ k

      joins : Option (List ObjectId) → Option (List ObjectId)
      joins = λ o. elim o [ none ↦ none | some more ↦ some (snap_root (record_of id) ++ more) ]

      new_step :
          contains seen id ≡ false
          → lineage (suc fuel) record_of (id ∷ stack) seen ≡ some roots
          → joins (lineage fuel record_of (extend (parents_of (record_of id)) stack) (id ∷ seen))
            ≡ some roots
      new_step e k = sym (rw e refl) ∙ k

      fresh :
          (o : Option (List ObjectId))
          → joins o ≡ some roots
          → (more : List ObjectId) × (o ≡ some more) × (snap_root (record_of id) ++ more ≡ roots)
      fresh none k = cc
      fresh (some more) k = (more, refl, ground arith)

  -- Every snap that the head descends from has its tree among the roots.
  pub lineage_complete :
      (fuel : ℕ) (head : String) (roots : List ObjectId)
      → lineage fuel record_of (head ∷ []) [] ≡ some roots
      → (x : String) → Descends record_of head x
      → (s : SnapRecord) → record_of x ≡ some s
      → In s.root_manifest roots
  lineage_complete fuel head roots h x d s e = (passes x (reached x d)).root s e
    where
      walked : Walked (head ∷ []) [] roots
      walked = lineage-Walked fuel (head ∷ []) [] roots h

      passes : (x : String) → In x walked.passed → Passed roots walked.passed x
      passes x m = elim (walked.new x m) [ inl e ↦ elim e [ ] | inr p ↦ p ]

      reached : (x : String) → Descends record_of head x → In x walked.passed
      reached _ itself = walked.stacked head here
      reached p (parent {x = y} up m) = (passes y (reached y up)).parents p m
