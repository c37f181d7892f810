-- ===== src/Gc/Closed.antt =====
-- What is marked is closed under the references of objects.
use convergence.Prelude.{
  ℕ, zero, suc, ◌+◌, ◌≡◌, refl, sym, ap, subst, ◌∙◌, ◌⊎◌, inl, inr, true, false, ◌||◌, List, [],
  ◌∷◌, ◌++◌, In, here, there, In-cons, length, contains, ◌==◌, eq_iff, eq_refl, arith, Bool-cases,
}
use convergence.Records.{ObjectId}
use convergence.Objects.{
  ObjectKind, blob, manifest, recipe, SuperpositionVariantKind, SuperpositionVariant,
  ManifestEntryKind, ManifestEntry, Manifest, FileRecipeChunk, FileRecipe, Read, missing, garbled,
  decoded, Store, get_manifest, get_recipe,
}
use convergence.Engine.{Answer, ok}
use convergence.Engine.Answers.{bind-ok}
use convergence.Gc.References.{
  Object, chunk_refs, recipe_refs, variant_refs, variants_refs, entry_refs, entries_refs,
  manifest_refs, references, InTree, at_root, below,
}
use convergence.Gc.{
  Marked, add_mark, mark_blob, mark_chunks, mark_recipe_read, mark_recipe, mark_variant,
  mark_variants, mark_entry, mark_entries, mark_read, mark_manifest, mark_roots, no_marks,
  is_marked,
}

module _ (store : Store) where
  unfoldable pub Has : Marked → Object → Type 0
  Has mk (kind, id) = is_marked kind id mk ≡ true

  -- From `mk` to `after` nothing is lost, the targets are marked, and whatever is new has all that it names marked.
  pub record Grown (mk after : Marked) (targets : List Object) : Type 0 where
    pub stays : (o : Object) → Has mk o → Has after o
    pub hits : (o : Object) → In o targets → Has after o
    pub closed :
        (o : Object)
        → Has after o
        → Has mk o ⊎ ((p : Object) → In p (references store o) → Has after p)

  In-split : (xs ys : List Object) (o : Object) → In o (xs ++ ys) → In o xs ⊎ In o ys
  In-split [] ys o m = inr m
  In-split (x ∷ xs) ys o m = elim (In-cons m) [
    | inl e ↦ inl (subst (λ z. In z (x ∷ xs)) (sym e) here)
    | inr later ↦ elim (In-split xs ys o later) [ inl at ↦ inl (there at) | inr at ↦ inr at ]
  ]

  Grown-none : (mk : Marked) → Grown mk mk []
  Grown-none mk = record { stays = λ o h. h; hits = λ o m. elim m [ ]; closed = λ o h. inl h }

  Grown-then :
      (a b c : Marked) (xs ys : List Object) → Grown a b xs → Grown b c ys → Grown a c (xs ++ ys)
  Grown-then a b c xs ys first second = record {
    stays = λ o h. second.stays o (first.stays o h);
    hits = λ o m. elim (In-split xs ys o m) [
      | inl at ↦ second.stays o (first.hits o at)
      | inr at ↦ second.hits o at
    ];
    closed = λ o h. elim (second.closed o h) [
      | inr done ↦ inr done
      | inl old ↦ elim (first.closed o old) [
        | inl older ↦ inl older
        | inr done ↦ inr (λ p m. second.stays p (done p m))
      ]
    ];
  }

  -- An object that is marked before what it names
  Grown-open :
      (o : Object) (mk opened after : Marked)
      → ((p : Object) → Has mk p → Has opened p)
      → Has opened o
      → ((p : Object) → Has opened p → (p ≡ o) ⊎ Has mk p)
      → Grown opened after (references store o)
      → Grown mk after (o ∷ [])
  Grown-open o mk opened after keeps own only grown = record {
    stays = λ p h. grown.stays p (keeps p h);
    hits = λ p m. elim (In-cons m) [
      | inl e ↦ subst (Has after) (sym e) (grown.stays o own)
      | inr gone ↦ elim gone [ ]
    ];
    closed = λ p h. elim (grown.closed p h) [
      | inr done ↦ inr done
      | inl old ↦ elim (only p old) [
        | inl e ↦ inr (λ q m. grown.hits q (subst (λ z. In q (references store z)) e m))
        | inr older ↦ inl older
      ]
    ];
  }

  -- An object that is marked already
  Grown-again : (o : Object) (mk : Marked) → Has mk o → Grown mk mk (o ∷ [])
  Grown-again o mk own = record {
    stays = λ p h. h;
    hits =
        λ p m. elim (In-cons m) [ inl e ↦ subst (Has mk) (sym e) own | inr gone ↦ elim gone [ ] ];
    closed = λ p h. inl h;
  }

  contains-add_mark :
      (id x : ObjectId) (ids : List ObjectId)
      → contains (add_mark id ids) x ≡ (id == x || contains ids x)
  contains-add_mark id x ids = elim (Bool-cases (contains ids id)) [
    | inl e ↦ rw e (elim (Bool-cases (id == x)) [
      | inl same ↦ rw same (ap (contains ids) (sym ((eq_iff id x).0 same)) ∙ e)
      | inr other ↦ rw other refl
    ])
    | inr e ↦ rw e refl
  ]

  mark_blob-Grown : (b : ObjectId) (mk : Marked) → Grown mk (mark_blob b mk) ((blob, b) ∷ [])
  unfolding Has is_marked references
  mark_blob-Grown b mk =
      Grown-open (blob, b) mk (mark_blob b mk) (mark_blob b mk) keeps own only
        (Grown-none (mark_blob b mk))
    where
      keeps : (p : Object) → Has mk p → Has (mark_blob b mk) p
      keeps (blob, id) h = contains-add_mark b id mk.blobs ∙ ground (arith, h)
      keeps (manifest, id) h = h
      keeps (recipe, id) h = h

      own : contains (add_mark b mk.blobs) b ≡ true
      own = contains-add_mark b b mk.blobs ∙ ground (arith, eq_refl b)

      only : (p : Object) → Has (mark_blob b mk) p → (p ≡ (blob, b)) ⊎ Has mk p
      only (manifest, id) h = inr h
      only (recipe, id) h = inr h
      only (blob, id) h = elim (Bool-cases (b == id)) [
        | inl same ↦ inl (λ i. (blob, sym ((eq_iff b id).0 same) i))
        | inr other ↦ inr (ground (arith, other, sym (contains-add_mark b id mk.blobs) ∙ h))
      ]

  mark_chunks-Grown :
      (chunks : List FileRecipeChunk) (mk : Marked)
      → Grown mk (mark_chunks chunks mk) (chunk_refs chunks)
  mark_chunks-Grown [] mk = Grown-none mk
  mark_chunks-Grown (c ∷ chunks) mk =
      Grown-then mk (mark_blob c.blob mk) (mark_chunks chunks (mark_blob c.blob mk))
        ((blob, c.blob) ∷ []) (chunk_refs chunks) (mark_blob-Grown c.blob mk)
        (mark_chunks-Grown chunks (mark_blob c.blob mk))

  pub mark_recipe-Grown :
      (id : ObjectId) (mk after : Marked)
      → mark_recipe store id mk ≡ ok after
      → Grown mk after ((recipe, id) ∷ [])
  unfolding mark_recipe Has is_marked references
  mark_recipe-Grown id mk after h = elim (Bool-cases (contains mk.recipes id)) [
    | inl e ↦
        subst (λ x. Grown mk x ((recipe, id) ∷ []))
          (ok_inj mk (subst (λ a. a ≡ ok after) (known e) h)) (Grown-again (recipe, id) mk e)
    | inr e ↦
        Grown-open (recipe, id) mk opened after keeps own only
          (reading (get_recipe store id) (subst (λ a. a ≡ ok after) (unknown e) h))
  ]
    where
      opened : Marked
      opened = record mk { recipes = id ∷ mk.recipes }

      ok_inj : (x : Marked) → ok x ≡ ok after → x ≡ after
      ok_inj x k = ground arith

      known : contains mk.recipes id ≡ true → mark_recipe store id mk ≡ ok mk
      known e = rw e refl

      unknown :
          contains mk.recipes id ≡ false
          → mark_recipe store id mk ≡ mark_recipe_read (get_recipe store id) opened
      unknown e = rw e refl

      keeps : (p : Object) → Has mk p → Has opened p
      keeps (blob, x) k = k
      keeps (manifest, x) k = k
      keeps (recipe, x) k = ground (arith, k)

      own : (id == id || contains mk.recipes id) ≡ true
      own = ground (arith, eq_refl id)

      only : (p : Object) → Has opened p → (p ≡ (recipe, id)) ⊎ Has mk p
      only (blob, x) k = inr k
      only (manifest, x) k = inr k
      only (recipe, x) k = elim (Bool-cases (id == x)) [
        | inl same ↦ inl (λ i. (recipe, sym ((eq_iff id x).0 same) i))
        | inr other ↦ inr (ground (arith, other, k))
      ]

      reading :
          (r : Read FileRecipe)
          → mark_recipe_read r opened ≡ ok after
          → Grown opened after (recipe_refs r)
      reading missing k = subst (λ x. Grown opened x []) (ok_inj opened k) (Grown-none opened)
      reading garbled k = cc
      reading (decoded r) k =
          subst (λ x. Grown opened x (chunk_refs r.chunks)) (ok_inj (mark_chunks r.chunks opened) k)
            (mark_chunks-Grown r.chunks opened)

  -- What the visit of a directory is to do
  unfoldable pub Visits : (ObjectId → Marked → Answer Marked) → Type 0
  Visits visit =
      (id : ObjectId) (mk after : Marked)
      → visit id mk ≡ ok after
      → Grown mk after ((manifest, id) ∷ [])

  Grown-same : (mk after : Marked) → ok mk ≡ ok after → Grown mk after []
  Grown-same mk after h = subst (λ x. Grown mk x []) (ok_inj h) (Grown-none mk)
    where
      ok_inj : ok mk ≡ ok after → mk ≡ after
      ok_inj k = ground arith

  Grown-blob :
      (b : ObjectId) (mk after : Marked)
      → ok (mark_blob b mk) ≡ ok after
      → Grown mk after ((blob, b) ∷ [])
  Grown-blob b mk after h =
      subst (λ x. Grown mk x ((blob, b) ∷ [])) (ok_inj h) (mark_blob-Grown b mk)
    where
      ok_inj : ok (mark_blob b mk) ≡ ok after → mark_blob b mk ≡ after
      ok_inj k = ground arith

  module _ (visit : ObjectId → Marked → Answer Marked) (visits : Visits visit) where
    pub mark_variant-Grown :
        (kind : SuperpositionVariantKind) (mk after : Marked)
        → mark_variant visit store kind mk ≡ ok after
        → Grown mk after (variant_refs kind)
    unfolding mark_variant Visits
    mark_variant-Grown (SuperpositionVariantKind.file b mode size) mk after h =
        Grown-blob b mk after h
    mark_variant-Grown (SuperpositionVariantKind.file_chunks r mode size) mk after h =
        mark_recipe-Grown r mk after h
    mark_variant-Grown (SuperpositionVariantKind.sub_dir id) mk after h = visits id mk after h
    mark_variant-Grown (SuperpositionVariantKind.symlink target) mk after h = Grown-same mk after h
    mark_variant-Grown SuperpositionVariantKind.tombstone mk after h = Grown-same mk after h

    mark_variants-Grown :
        (variants : List SuperpositionVariant) (mk after : Marked)
        → mark_variants visit store variants mk ≡ ok after
        → Grown mk after (variants_refs variants)
    unfolding mark_variants
    mark_variants-Grown [] mk after h = Grown-same mk after h
    mark_variants-Grown (v ∷ variants) mk after h =
        let rest = mark_variants-Grown variants in
        let (mid, first, second) =
          bind-ok (mark_variant visit store v.kind mk) (mark_variants visit store variants) after
            h in
        Grown-then mk mid after (variant_refs v.kind) (variants_refs variants)
          (mark_variant-Grown v.kind mk mid first) (rest mid after second)

    pub mark_entry-Grown :
        (kind : ManifestEntryKind) (mk after : Marked)
        → mark_entry visit store kind mk ≡ ok after
        → Grown mk after (entry_refs kind)
    unfolding mark_entry Visits
    mark_entry-Grown (ManifestEntryKind.file b mode size) mk after h = Grown-blob b mk after h
    mark_entry-Grown (ManifestEntryKind.file_chunks r mode size) mk after h =
        mark_recipe-Grown r mk after h
    mark_entry-Grown (ManifestEntryKind.sub_dir id) mk after h = visits id mk after h
    mark_entry-Grown (ManifestEntryKind.symlink target) mk after h = Grown-same mk after h
    mark_entry-Grown (ManifestEntryKind.superposition variants) mk after h =
        mark_variants-Grown variants mk after h

    mark_entries-Grown :
        (entries : List ManifestEntry) (mk after : Marked)
        → mark_entries visit store entries mk ≡ ok after
        → Grown mk after (entries_refs entries)
    unfolding mark_entries
    mark_entries-Grown [] mk after h = Grown-same mk after h
    mark_entries-Grown (e ∷ entries) mk after h =
        let rest = mark_entries-Grown entries in
        let (mid, first, second) =
          bind-ok (mark_entry visit store e.kind mk) (mark_entries visit store entries) after h in
        Grown-then mk mid after (entry_refs e.kind) (entries_refs entries)
          (mark_entry-Grown e.kind mk mid first) (rest mid after second)

    mark_read-Grown :
        (r : Read Manifest) (mk after : Marked)
        → mark_read visit store r mk ≡ ok after
        → Grown mk after (manifest_refs r)
    mark_read-Grown missing mk after h = Grown-same mk after h
    mark_read-Grown garbled mk after h = cc
    mark_read-Grown (decoded d) mk after h = mark_entries-Grown d.entries mk after h

  pub mark_manifest-Visits : (fuel : ℕ) → Visits (mark_manifest fuel store)
  unfolding mark_manifest Visits Has is_marked references
  mark_manifest-Visits zero id mk after h = cc
  mark_manifest-Visits (suc fuel) id mk after h =
      let visits = mark_manifest-Visits fuel in
      elim (Bool-cases (contains mk.manifests id)) [
        | inl e ↦
            subst (λ x. Grown mk x ((manifest, id) ∷ []))
              (ok_inj (subst (λ a. a ≡ ok after) (known e) h)) (Grown-again (manifest, id) mk e)
        | inr e ↦
            Grown-open (manifest, id) mk opened after keeps own only
              (mark_read-Grown (mark_manifest fuel store) visits (get_manifest store id) opened
                after (subst (λ a. a ≡ ok after) (unknown e) h))
      ]
    where
      opened : Marked
      opened = record mk { manifests = id ∷ mk.manifests }

      ok_inj : ok mk ≡ ok after → mk ≡ after
      ok_inj k = ground arith

      known : contains mk.manifests id ≡ true → mark_manifest (suc fuel) store id mk ≡ ok mk
      known e = rw e refl

      unknown :
          contains mk.manifests id ≡ false
          → mark_manifest (suc fuel) store id mk
            ≡ mark_read (mark_manifest fuel store) store (get_manifest store id) opened
      unknown e = rw e refl

      keeps : (p : Object) → Has mk p → Has opened p
      keeps (blob, x) k = k
      keeps (recipe, x) k = k
      keeps (manifest, x) k = ground (arith, k)

      own : (id == id || contains mk.manifests id) ≡ true
      own = ground (arith, eq_refl id)

      only : (p : Object) → Has opened p → (p ≡ (manifest, id)) ⊎ Has mk p
      only (blob, x) k = inr k
      only (recipe, x) k = inr k
      only (manifest, x) k = elim (Bool-cases (id == x)) [
        | inl same ↦ inl (λ i. (manifest, sym ((eq_iff id x).0 same) i))
        | inr other ↦ inr (ground (arith, other, k))
      ]

  abbrev root_objects : List ObjectId → List Object
  root_objects [] = []
  root_objects (root ∷ roots) = (manifest, root) ∷ root_objects roots

  mark_roots-Grown :
      (roots : List ObjectId) (mk after : Marked)
      → mark_roots store roots mk ≡ ok after
      → Grown mk after (root_objects roots)
  unfolding mark_roots Visits
  mark_roots-Grown [] mk after h = Grown-same mk after h
  mark_roots-Grown (root ∷ roots) mk after h =
      let rest = mark_roots-Grown roots in
      let (mid, first, second) =
        bind-ok (mark_manifest (length store.manifests + 1) store root mk) (mark_roots store roots)
          after h in
      Grown-then mk mid after ((manifest, root) ∷ []) (root_objects roots)
        (mark_manifest-Visits (length store.manifests + 1) root mk mid first)
        (rest mid after second)

  In-root_objects :
      (root : ObjectId) (roots : List ObjectId)
      → In root roots
      → In (manifest, root) (root_objects roots)
  In-root_objects root _ here = here
  In-root_objects root _ (there {x = x} {xs = xs} m) = there (In-root_objects root xs m)

-- When the mark phase answers, every object of the tree of every root is marked: the root manifests, the
-- manifests, recipes and blobs that they name, superpositions included, down to the chunks of recipes.
pub mark_roots-InTree :
    (store : Store) (roots : List ObjectId) (after : Marked)
    → mark_roots store roots no_marks ≡ ok after
    → (root : ObjectId) → In root roots
    → (kind : ObjectKind) (id : ObjectId) → InTree store root (kind, id)
    → is_marked kind id after ≡ true
unfolding Has is_marked
mark_roots-InTree store roots after h root at kind id tree = reached (kind, id) tree
  where
    grown : Grown store no_marks after (root_objects store roots)
    grown = mark_roots-Grown store roots no_marks after h

    unmarked : (o : Object) → Has store no_marks o → ⊥
    unmarked (blob, x) k = cc
    unmarked (manifest, x) k = cc
    unmarked (recipe, x) k = cc

    reached : (o : Object) → InTree store root o → Has store after o
    reached o at_root = grown.hits (manifest, root) (In-root_objects store root roots at)
    reached o (below {o = p} under m) = elim (grown.closed p (reached p under)) [
      | inl none_yet ↦ absurd (unmarked p none_yet)
      | inr done ↦ done o m
    ]
