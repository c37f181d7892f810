-- ===== src/Gc/Sweep/Kept.antt =====
-- What a collection keeps.
use convergence.Prelude.{
  ◌≡◌, ◌≢◌, refl, sym, ap, subst, ◌∙◌, inl, inr, true, false, List, [], ◌∷◌, In, here, there,
  In-cons, leb, arith, Bool-cases,
}
use convergence.Records.{ObjectId}
use convergence.Objects.{ObjectKind, Store}
use convergence.Meta.{Meta}
use convergence.Meta.Objects.{is_object_pinned, remove_object_associations}
use convergence.Engine.{Answer, ok, refuse, ◌>>=◌, out_of_fuel}
use convergence.Engine.Answers.{bind-ok}
use convergence.Gc.{Marked, no_marks, mark_roots}
use convergence.Gc.References.{InTree}
use convergence.Gc.Closed.{mark_roots-InTree}
use convergence.Gc.Ends.{mark_roots-ends}
use convergence.Gc.Sweep.{StoredObject, Limits, Swept, is_garbage, sweep, expire, mark_and_sweep}

module _ (limits : Limits) (mk : Marked) where
  -- Removing the associations of an object does not touch the pins.
  garbage-removed :
      (kind : ObjectKind) (id : ObjectId) (m : Meta) (o : StoredObject)
      → is_garbage limits mk (remove_object_associations kind id m) o ≡ is_garbage limits mk m o
  unfolding is_garbage is_object_pinned remove_object_associations
  garbage-removed kind id m o = refl

  sweep-kept :
      (objects : List StoredObject) (m : Meta) (o : StoredObject)
      → In o objects
      → is_garbage limits mk m o ≡ false
      → In o (sweep limits mk objects m).objects
  unfolding sweep
  sweep-kept [] m o at h = elim at [ ]
  sweep-kept (first ∷ objects) m o at h =
      let later = sweep-kept objects in
      elim (Bool-cases (is_garbage limits mk m first)) [
        | inr e ↦ rw e (onwards later m at)
        | inl e ↦ elim (Bool-cases limits.dry_run) [
          | inl dry ↦ rw (e, dry) (onwards later m at)
          | inr wet ↦ rw (e, wet) (behind later e at)
        ]
      ]
    where
      clash : true ≡ false → ⊥
      clash k = cc

      onwards :
          ((t : Meta) (x : StoredObject)
            → In x objects
            → is_garbage limits mk t x ≡ false
            → In x (sweep limits mk objects t).objects)
          → (t : Meta) → In o (first ∷ objects)
          → In o (first ∷ (sweep limits mk objects m).objects)
      onwards later t q = elim (In-cons q) [
        | inl same ↦ subst (λ x. In x (first ∷ (sweep limits mk objects m).objects)) (sym same) here
        | inr rest ↦ there (later m o rest h)
      ]

      behind :
          ((t : Meta) (x : StoredObject)
            → In x objects
            → is_garbage limits mk t x ≡ false
            → In x (sweep limits mk objects t).objects)
          → is_garbage limits mk m first ≡ true
          → In o (first ∷ objects)
          → In o
              (sweep limits mk objects (remove_object_associations first.kind first.id m)).objects
      behind later e q = elim (In-cons q) [
        | inl same ↦ absurd (clash (sym (ap (is_garbage limits mk m) same ∙ e) ∙ h))
        | inr rest ↦
            later (remove_object_associations first.kind first.id m) o rest
              (garbage-removed first.kind first.id m o ∙ h)
      ]

  sweep-dry :
      (objects : List StoredObject) (m : Meta)
      → limits.dry_run ≡ true
      → ((sweep limits mk objects m).objects ≡ objects) × ((sweep limits mk objects m).tables ≡ m)
  unfolding sweep
  sweep-dry [] m dry = (refl, refl)
  sweep-dry (o ∷ objects) m dry =
      let rest = sweep-dry objects m dry in
      elim (Bool-cases (is_garbage limits mk m o)) [
        | inl e ↦ rw (e, dry) (ap (λ os. o ∷ os) rest.0, rest.1)
        | inr e ↦ rw e (ap (λ os. o ∷ os) rest.0, rest.1)
      ]

-- Why an object of the store is not to be collected
pub data Protected (limits : Limits) (store : Store) (roots : List ObjectId) (m : Meta)
    (o : StoredObject) : Type 0 where
  in_tree :
      (root : ObjectId)
      → In root roots
      → InTree store root (o.kind, o.id)
      → Protected limits store roots m o
  pinned : is_object_pinned m o.kind o.id limits.pins ≡ true → Protected limits store roots m o
  fresh : leb o.mtime limits.cutoff ≡ false → Protected limits store roots m o

Protected-kept :
    (limits : Limits) (store : Store) (roots : List ObjectId) (mk : Marked) (m : Meta)
    (o : StoredObject)
    → mark_roots store roots no_marks ≡ ok mk
    → Protected limits store roots m o
    → is_garbage limits mk m o ≡ false
unfolding is_garbage
Protected-kept limits store roots mk m o marks (in_tree root at tree) =
    rw (mark_roots-InTree store roots mk marks root at o.kind o.id tree) refl
Protected-kept limits store roots mk m o marks (pinned h) = ground (arith, h)
Protected-kept limits store roots mk m o marks (fresh h) = ground (arith, h)

-- A collection ends, and when it answers it has kept every object that stands in the tree of a root, every
-- object with a pin that counts, and every object that is younger than the grace window; a dry run keeps
-- every object and leaves the tables as they were.
pub mark_and_sweep-Protected :
    (limits : Limits) (store : Store) (roots : List ObjectId) (objects : List StoredObject)
    (m : Meta)
    → (mark_and_sweep limits store roots objects m ≢ refuse out_of_fuel)
      × ((out : Swept)
          → mark_and_sweep limits store roots objects m ≡ ok out
          → ((o : StoredObject)
              → In o objects
              → Protected limits store roots m o
              → In o out.objects)
            × (limits.dry_run ≡ true → (out.objects ≡ objects) × (out.tables ≡ m)))
unfolding mark_and_sweep
mark_and_sweep-Protected limits store roots objects m =
    (ends (mark_roots store roots no_marks) (mark_roots-ends store roots no_marks), answered)
  where
    finish : Marked → Answer Swept
    finish = λ mk. ok (expire limits (sweep limits mk objects m))

    ends : (a : Answer Marked) → a ≢ refuse out_of_fuel → (a >>= finish) ≢ refuse out_of_fuel
    ends (ok mk) h k = cc
    ends (refuse r) h k = h (refused k)
      where
        refused :
            ◌≡◌ {A = Answer Swept} (refuse r) (refuse out_of_fuel)
            → ◌≡◌ {A = Answer Marked} (refuse r) (refuse out_of_fuel)
        refused q = ground arith

    expired : (out : Swept) → (expire limits out).objects ≡ out.objects
    expired out = elim (Bool-cases limits.dry_run) [ inl e ↦ rw e refl | inr e ↦ rw e refl ]

    undisturbed : (out : Swept) → limits.dry_run ≡ true → expire limits out ≡ out
    undisturbed out e = rw e refl

    answered :
        (out : Swept)
        → (mark_roots store roots no_marks >>= finish) ≡ ok out
        → ((o : StoredObject) → In o objects → Protected limits store roots m o → In o out.objects)
          × (limits.dry_run ≡ true → (out.objects ≡ objects) × (out.tables ≡ m))
    answered out h =
        let (mk, marks, last) = bind-ok (mark_roots store roots no_marks) finish out h in
        subst
          (λ x.
            ((o : StoredObject) → In o objects → Protected limits store roots m o → In o x.objects)
            × (limits.dry_run ≡ true → (x.objects ≡ objects) × (x.tables ≡ m)))
          (ok_inj mk last)
          (
            λ o at why. subst (In o) (sym (expired (sweep limits mk objects m))) (
                sweep-kept limits mk objects m o at
                  (Protected-kept limits store roots mk m o marks why)),
            λ dry.
                let same = undisturbed (sweep limits mk objects m) dry in
                let (os, ts) = sweep-dry limits mk objects m dry in
                (ap (λ x. x.objects) same ∙ os, ap (λ x. x.tables) same ∙ ts),
          )
      where
        ok_inj :
            (mk : Marked) → finish mk ≡ ok out → expire limits (sweep limits mk objects m) ≡ out
        ok_inj mk k = ground arith
