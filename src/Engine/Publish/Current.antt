-- ===== src/Engine/Publish/Current.antt =====
-- What `publish` commits is built over the window that the tables then hold.
use convergence.Prelude.{
  ℕ, zero, suc, String, ◌≡◌, refl, sym, ap, subst, ◌∙◌, inl, inr, true, false, Option, none, some,
  List, [], ◌∷◌, ◌++◌, any, opt_eq_iff, eqb→eq, ◌==◌, arith, Bool-cases,
}
use convergence.Gates.{GateGraph}
use convergence.Records.{ObjectId, StoredCandidate, PublicationRecord, PartitionState}
use convergence.Meta.{
  Meta, PublicationRow, get_gate_graph, get_partition_state, list_publications_after,
  add_publication, next_seq, put_candidate, add_event,
}
use convergence.Meta.Batch.{state_eq}
use convergence.Authz.{AuthzContext}
use convergence.Engine.{Answer, ok, ◌>>=◌, ◌>>>◌, ok_or, no_graph, find_gate}
use convergence.Engine.Answers.{bind-ok, >>>-ok, >>>-after}
use convergence.Engine.Pins.{unpin_tree}
use convergence.Engine.Pins.Ends.{unpin_tree-ends}
use convergence.Engine.Publish.{PublishInput, World}
use convergence.Engine.Publish.Build.{
  first_seq, last_seq, ids_of, strategy_of, base_root, merge_inputs, merged_window, built,
  build_candidate,
}
use convergence.Engine.Publish.Handler.{
  publication_of, partition_of, open_window, expected_seq, tried_window, tried_candidate, Outcome,
  won, lost, gave_up, attempt, settle, publish_loop,
}
use convergence.Engine.Publish.Window.{
  IsOrdered, next_seq-expected_seq, list_publications-append, extended_same,
}
use convergence.Engine.Publish.Folds.{Fold, build_candidate-Fold}
use convergence.Engine.Publish.Guarded.{committed_tables, Wins, attempt-won, attempt-lost}

-- The candidate is the fold of the open window of the partition as the tables hold it, the trees of bases read
-- from `seen`: its inputs are the window's publications in order, its range that of their numbers, and its
-- base the partition's. The last of them is the publication of the request's snap.
pub record Current (world : World) (ctx : AuthzContext) (input : PublishInput) (seen : Meta)
    (c : StoredCandidate) (m : Meta) : Type 0 where
  pub inputs : c.inputs ≡ ids_of (open_window ctx input (partition_of ctx input m).window_floor m)
  pub range : c.window ≡ (
    first_seq (open_window ctx input (partition_of ctx input m).window_floor m),
    last_seq (open_window ctx input (partition_of ctx input m).window_floor m),
  )
  pub base : c.base_candidate_id ≡ (partition_of ctx input m).base_candidate_id
  pub before : List PublicationRow
  pub own : PublicationRow
  pub ends : open_window ctx input (partition_of ctx input m).window_floor m ≡ before ++ (own ∷ [])
  pub of_snap : own.publication.snap_id ≡ input.snap.id
  pub folds :
      Fold world ctx.repo_id input.gate_id
        (partition_of ctx input m).base_candidate_id
        seen
        (open_window ctx input (partition_of ctx input m).window_floor m)
        c

-- The tables that the attempts of `publish` read: those at the start, and after each attempt that is lost those
-- that other requests left.
pub data Met (others : ℕ → Meta → Meta) : ℕ → Meta → Meta → Type 0 where
  at_start : (left : ℕ) (m : Meta) → Met others (suc left) m m
  after_loss :
      (left : ℕ) (m seen : Meta)
      → Met others left (others left m) seen
      → Met others (suc left) m seen

built-facts :
    (world : World) (ctx : AuthzContext) (gate : String) (p : PartitionState)
    (window : List PublicationRow) (at : String) (m : Meta) (c : StoredCandidate)
    → build_candidate world ctx gate p window at m ≡ ok c
    → (c.inputs ≡ ids_of window)
      × (c.window ≡ (first_seq window, last_seq window))
      × (c.base_candidate_id ≡ p.base_candidate_id)
unfolding build_candidate built
built-facts world ctx gate p window at m c h =
    let (graph, found, h1) =
      bind-ok (ok_or no_graph (get_gate_graph m ctx.repo_id)) with_base c h in
    let (w_root, based, h2) = bind-ok (base_root m p.base_candidate_id) (finish graph) c h1 in
    let same = ok_inj (made graph w_root) h2 in
    (
      ap (λ d. d.inputs) (sym same),
      ap (λ d. d.window) (sym same),
      ap (λ d. d.base_candidate_id) (sym same),
    )
  where
    made : GateGraph → Option ObjectId → StoredCandidate
    made graph w_root =
        built world ctx gate p window (strategy_of (find_gate graph gate)) w_root at
          (merged_window world w_root (strategy_of (find_gate graph gate)) (merge_inputs m window))

    finish : GateGraph → Option ObjectId → Answer StoredCandidate
    finish = λ graph w_root. ok (made graph w_root)

    with_base : GateGraph → Answer StoredCandidate
    with_base = λ graph. base_root m p.base_candidate_id >>= finish graph

    ok_inj : (d : StoredCandidate) → ok d ≡ ok c → d ≡ c
    ok_inj d k = ground arith

added_row :
    (p : PublicationRecord) (m between : Meta)
    → add_publication p m ≡ some between
    → between ≡ record m {
      publications =
          m.publications
          ++ (record { seq = next_seq m p.repo_id p.scope_id p.target_gate_id; publication = p }
              ∷ []);
    }
unfolding add_publication
added_row p m between h =
    elim (Bool-cases
      (any (λ row. row.publication.publication_id == p.publication_id) m.publications)) [
        | inl e ↦ absurd (none_some (sym (taken e) ∙ h))
        | inr e ↦ sym (some_inj (sym (free e) ∙ h))
      ]
  where
    after : Meta
    after = record m {
      publications =
          m.publications
          ++ (record { seq = next_seq m p.repo_id p.scope_id p.target_gate_id; publication = p }
              ∷ []);
    }

    taken :
        any (λ row. row.publication.publication_id == p.publication_id) m.publications ≡ true
        → add_publication p m ≡ none
    taken e = rw e refl

    free :
        any (λ row. row.publication.publication_id == p.publication_id) m.publications ≡ false
        → add_publication p m ≡ some after
    free e = rw e refl

    none_some : none ≡ some between → ⊥
    none_some k = cc

    some_inj : some after ≡ some between → after ≡ between
    some_inj k = ground arith

module _ (world : World) (ctx : AuthzContext) (input : PublishInput) (lane : String) where
  unfoldable pub Ordered : Meta → Type 0
  Ordered m = IsOrdered ctx.repo_id ctx.scope_id input.gate_id m

  -- Other requests only append to the open window of a partition, unless they move its state.
  unfoldable pub Grows : Meta → Meta → Type 0
  Grows m after =
      (extra : List PublicationRow) × (open_window ctx input (partition_of ctx input m).window_floor
          after
        ≡ open_window ctx input (partition_of ctx input m).window_floor m ++ extra)

  same_floor :
      (a b : PartitionState)
      → state_eq a b ≡ true
      → (a.window_floor ≡ b.window_floor) × (a.base_candidate_id ≡ b.base_candidate_id)
  same_floor a b h = (
    ground (arith, h, eqb→eq a.window_floor b.window_floor),
    (opt_eq_iff a.base_candidate_id b.base_candidate_id).0 (ground (arith, h)),
  )

  abbrev pub new_row : String → ℕ → PublicationRow
  new_row at n = record { seq = n; publication = publication_of world ctx input lane at }

  -- The tables that meet an attempt which commits, with the publication's row
  abbrev pub joined : String → Meta → Meta
  joined at m = record m {
    publications =
        m.publications ++ (new_row at (next_seq m ctx.repo_id ctx.scope_id input.gate_id) ∷ []);
  }

  -- The floor and the window that the attempt read are those of the tables that it meets.
  met_window :
      (at : String) (seen m : Meta) (c : StoredCandidate) (after : Meta)
      → Grows seen m
      → Wins world ctx input lane at seen m c after
      → ((partition_of ctx input m).window_floor ≡ (partition_of ctx input seen).window_floor)
        × (open_window ctx input (partition_of ctx input seen).window_floor m
            ≡ open_window ctx input (partition_of ctx input seen).window_floor seen)
  unfolding Grows
  met_window at seen m c after (extra, grown) wins = (
    (same_floor (partition_of ctx input m) (partition_of ctx input seen) wins.unmoved).0,
    extended_same (open_window ctx input (partition_of ctx input seen).window_floor seen) extra
        (open_window ctx input (partition_of ctx input seen).window_floor m) grown
        (eqb→eq _ _ wins.counted),
  )

  joined_window :
      (at : String) (seen m : Meta) (c : StoredCandidate) (after : Meta)
      → Grows seen m
      → Ordered m
      → Wins world ctx input lane at seen m c after
      → open_window ctx input (partition_of ctx input m).window_floor (joined at m)
        ≡ tried_window world ctx input lane at seen
  unfolding Ordered publication_of next_seq
  joined_window at seen m c after grows order wins =
      let (floors, windows) = met_window at seen m c after grows wins in
      let row =
        list_publications-append m (partition_of ctx input m).window_floor
          (new_row at (next_seq m ctx.repo_id ctx.scope_id input.gate_id)) (omega arith) in
      let open_same : open_window ctx input (partition_of ctx input m).window_floor m
          ≡ open_window ctx input (partition_of ctx input seen).window_floor seen =
        ap (λ floor. open_window ctx input floor m) floors ∙ windows in
      let seqs =
        next_seq-expected_seq ctx.repo_id ctx.scope_id input.gate_id m order
        ∙ ap (λ w. expected_seq w (partition_of ctx input m).window_floor) open_same
        ∙ ap (expected_seq (open_window ctx input (partition_of ctx input seen).window_floor seen))
            floors in
      row
      ∙ ap (λ w. w ++ (new_row at (next_seq m ctx.repo_id ctx.scope_id input.gate_id) ∷ []))
          open_same
      ∙ ap
          (λ n.
            open_window ctx input (partition_of ctx input seen).window_floor seen
            ++ (new_row at n ∷ []))
          seqs

  won-Current :
      (at : String) (seen m : Meta) (c : StoredCandidate) (after : Meta)
      → Grows seen m
      → Ordered m
      → Wins world ctx input lane at seen m c after
      → Current world ctx input seen c after
  unfolding tried_candidate put_candidate add_event publication_of get_partition_state
      list_publications_after
  won-Current at seen m c after grows order wins =
      let window = joined_window at seen m c after grows order wins in
      let (ids, range, base) =
        built-facts world ctx input.gate_id (partition_of ctx input seen)
          (tried_window world ctx input lane at seen) at seen c wins.tried in
      let bases =
        (same_floor (partition_of ctx input m) (partition_of ctx input seen) wins.unmoved).1 in
      let settled : after ≡ committed_tables ctx c at (joined at m) =
        wins.leaves
        ∙ ap (committed_tables ctx c at)
            (added_row (publication_of world ctx input lane at) m wins.between wins.row) in
      subst (Current world ctx input seen c) (sym settled) (record {
        inputs = ids ∙ ap ids_of (sym window);
        range = range ∙ ap (λ w. (first_seq w, last_seq w)) (sym window);
        base = base ∙ sym bases;
        before = open_window ctx input (partition_of ctx input seen).window_floor seen;
        own = new_row at (
            expected_seq (open_window ctx input (partition_of ctx input seen).window_floor seen)
              (partition_of ctx input seen).window_floor);
        ends = window;
        of_snap = refl;
        folds =
            subst
              (λ b.
                Fold world ctx.repo_id input.gate_id b seen
                  (open_window ctx input (partition_of ctx input m).window_floor (joined at m)) c)
              (sym bases)
              (subst
                (λ w.
                  Fold world ctx.repo_id input.gate_id
                    (partition_of ctx input seen).base_candidate_id seen w c)
                (sym window)
                (build_candidate-Fold world ctx input.gate_id (partition_of ctx input seen)
                  (tried_window world ctx input lane at seen) at seen c wins.tried));
      })

  -- The pins of a tree are no part of a window.
  unpinned-Current :
      (seen : Meta) (c d : StoredCandidate) (m : Meta)
      → Current world ctx input seen c m
      → (unpin_tree world.objects ctx.repo_id input.snap.root_manifest m >>> λ u m'. (ok c, m')).0
        ≡ ok d
      → Current world ctx input seen d
          (unpin_tree world.objects ctx.repo_id input.snap.root_manifest m >>> λ u m'. (ok c, m')).1
  unfolding get_partition_state list_publications_after
  unpinned-Current seen c d m current h =
      let unpinned = unpin_tree world.objects ctx.repo_id input.snap.root_manifest m in
      let (u, done, last) = >>>-ok unpinned (λ u m'. (ok c, m')) d h in
      let ((pins, e), fuelled) =
        unpin_tree-ends world.objects ctx.repo_id input.snap.root_manifest m in
      let after : (unpinned >>> λ v m'. (ok c, m')).1 ≡ record m { object_pins = pins } =
        ap (λ out. out.1) (>>>-after unpinned (λ v m'. (ok c, m')) u done) ∙ e in
      subst (Current world ctx input seen d) (sym after) (
        subst (λ x. Current world ctx input seen x (record m { object_pins = pins })) (ok_inj last)
          (record {
            inputs = current.inputs;
            range = current.range;
            base = current.base;
            before = current.before;
            own = current.own;
            ends = current.ends;
            of_snap = current.of_snap;
            folds = current.folds;
          }))
    where
      ok_inj : ok c ≡ ok d → c ≡ d
      ok_inj k = ground arith

  -- What other requests do between the reads of an attempt and its commit keeps the order of the
  -- partition's publications and only appends to its open window.
  unfoldable pub Appends : (ℕ → Meta → Meta) → Type 0
  Appends others =
      (turn : ℕ) (m : Meta) → Ordered m → Ordered (others turn m) × Grows m (others turn m)

  pub publish_loop-Current :
      (left : ℕ) (at : ℕ → String) (others : ℕ → Meta → Meta) (m : Meta) (c : StoredCandidate)
      → Appends others
      → Ordered m
      → (publish_loop left world ctx input lane at others m).0 ≡ ok c
      → (seen : Meta) × Met others left m seen
        × Current world ctx input seen c (publish_loop left world ctx input lane at others m).1
  unfolding publish_loop Appends
  publish_loop-Current zero at others m c appends order h = cc
  publish_loop-Current (suc left) at others m c appends order h =
      let again = publish_loop-Current left at others in
      turn again (attempt world ctx input lane (at left) m (others left m)) refl h
    where
      next : Meta → Answer StoredCandidate × Meta
      next = publish_loop left world ctx input lane at others

      turn :
          ((t : Meta) (d : StoredCandidate)
            → Appends others
            → Ordered t
            → (next t).0 ≡ ok d
            → (seen : Meta) × Met others left t seen × Current world ctx input seen d (next t).1)
          → (out : Outcome × Meta) → attempt world ctx input lane (at left) m (others left m) ≡ out
          → (settle world ctx input out next).0 ≡ ok c
          → (seen : Meta) × Met others (suc left) m seen
            × Current world ctx input seen c (settle world ctx input out next).1
      turn again (won d, m') e k = (
        m,
        at_start left m,
        unpinned-Current m d c m'
            (subst (Current world ctx input m d) (ap (λ out. out.1) e) (
              won-Current (at left) m (others left m) d _ (appends left m order).1
                (appends left m order).0
                (attempt-won world ctx input lane (at left) m (others left m) d
                  (ap (λ out. out.0) e))))
            k,
      )
      turn again (lost, m') e k =
          let same : others left m ≡ m' =
            sym
              (attempt-lost world ctx input lane (at left) m (others left m) (ap (λ out. out.0) e))
            ∙ ap (λ out. out.1) e in
          let (seen, met, current) =
            again m' c appends (subst Ordered same (appends left m order).0) k in
          (
            seen,
            after_loss left m seen (subst (λ t. Met others left t seen) (sym same) met),
            current,
          )
      turn again (gave_up r, m') e k = cc
