-- ===== src/Gc/Ends.antt =====
-- The mark phase ends.
use convergence.Prelude.{
  ℕ, zero, suc, ◌+◌, ◌≤◌, ◌<◌, ◌≡◌, ◌≢◌, refl, sym, ap, subst, ◌∙◌, inl, inr, true, false, List, [],
  ◌∷◌, length, contains, lookup, ◌==◌, eq_iff, if◌then◌else◌, arith, Bool-cases,
}
use convergence.Records.{ObjectId}
use convergence.Objects.{
  manifest, SuperpositionVariantKind, SuperpositionVariant, ManifestEntryKind, ManifestEntry,
  Manifest, FileRecipe, Read, missing, garbled, decoded, read_at, Store, get_manifest, get_recipe,
}
use convergence.Engine.{Answer, ok, refuse, ◌>>=◌, out_of_fuel}
use convergence.Gc.{
  Marked, mark_recipe_read, mark_recipe, mark_variant, mark_variants, mark_entry, mark_entries,
  mark_read, mark_manifest, mark_roots, is_marked,
}
use convergence.Gc.References.{Object}
use convergence.Gc.Closed.{
  Has, Grown, Visits, mark_variant-Grown, mark_entry-Grown, mark_manifest-Visits,
}

-- The manifests of the store that are not marked
left : List (ObjectId × Read Manifest) → List ObjectId → ℕ
left [] ids = 0
left ((id, r) ∷ rows) ids = let rest = left rows ids in if contains ids id then rest else suc rest

left-length :
    (rows : List (ObjectId × Read Manifest)) (ids : List ObjectId) → left rows ids ≤ length rows
unfolding left
left-length [] ids = omega arith
left-length ((id, r) ∷ rows) ids = ground (arith, left-length rows ids)

left_mono :
    (rows : List (ObjectId × Read Manifest)) (fewer more : List ObjectId)
    → ((id : ObjectId) → contains fewer id ≡ true → contains more id ≡ true)
    → left rows more ≤ left rows fewer
unfolding left
left_mono [] fewer more h = omega arith
left_mono ((id, r) ∷ rows) fewer more h = ground (arith, left_mono rows fewer more h, h id)

left_open :
    (rows : List (ObjectId × Read Manifest)) (id : ObjectId) (ids : List ObjectId) (d : Manifest)
    → read_at (lookup id rows) ≡ decoded d
    → contains ids id ≡ false
    → left rows (id ∷ ids) < left rows ids
unfolding left
left_open [] id ids d h e = cc
left_open ((key, r) ∷ rows) id ids d h e =
    let rest = left_open rows id ids d in
    let fewer = left_mono rows ids (id ∷ ids) (λ x k. ground (arith, k)) in
    elim (Bool-cases (key == id)) [
      | inl own ↦ rw (named own, fresh own) (omega (arith, fewer))
      | inr other ↦ strict other (rest (subst (λ o. read_at o ≡ decoded d) (skipped other) h) e)
    ]
  where
    named : key == id ≡ true → id == key ≡ true
    named own = (eq_iff id key).1 (sym ((eq_iff key id).0 own))

    fresh : key == id ≡ true → contains ids key ≡ false
    fresh own = ap (contains ids) ((eq_iff key id).0 own) ∙ e

    skipped : key == id ≡ false → lookup id ((key, r) ∷ rows) ≡ lookup id rows
    skipped other = rw other refl

    unnamed : key == id ≡ false → id == key ≡ false
    unnamed other = ground (arith, eq_iff key id, eq_iff id key, other)

    strict :
        key == id ≡ false
        → left rows (id ∷ ids) < left rows ids
        → left ((key, r) ∷ rows) (id ∷ ids) < left ((key, r) ∷ rows) ids
    strict other lt = rw (unnamed other) (ground (arith, lt))

module _ (store : Store) where
  abbrev unmarked : Marked → ℕ
  unmarked mk = left store.manifests mk.manifests

  Fuelled : Answer Marked → Type 0
  Fuelled a = a ≢ refuse out_of_fuel

  Grown-unmarked :
      (mk after : Marked) (targets : List Object)
      → Grown store mk after targets
      → unmarked after ≤ unmarked mk
  unfolding Has is_marked
  Grown-unmarked mk after targets grown =
      left_mono store.manifests mk.manifests after.manifests (λ id h. grown.stays (manifest, id) h)

  -- A step, and then another that has fuel on whatever the first leaves
  Fuelled-then :
      (a : Answer Marked) (f : Marked → Answer Marked)
      → Fuelled a
      → ((mid : Marked) → a ≡ ok mid → Fuelled (f mid))
      → Fuelled (a >>= f)
  unfolding Fuelled
  Fuelled-then (ok mid) f first second = second mid refl
  Fuelled-then (refuse r) f first second = first

  mark_recipe-Fuelled : (id : ObjectId) (mk : Marked) → Fuelled (mark_recipe store id mk)
  unfolding Fuelled mark_recipe
  mark_recipe-Fuelled id mk = elim (Bool-cases (contains mk.recipes id)) [
    | inl e ↦ rw e (λ h. cc h)
    | inr e ↦ rw e (reading (get_recipe store id) (record mk { recipes = id ∷ mk.recipes }))
  ]
    where
      reading : (r : Read FileRecipe) (x : Marked) → mark_recipe_read r x ≢ refuse out_of_fuel
      reading missing x h = cc
      reading garbled x h = cc
      reading (decoded r) x h = cc

  module _ (n : ℕ) (visit : ObjectId → Marked → Answer Marked) (visits : Visits store visit)
      (bounded : (id : ObjectId) (mk : Marked) → unmarked mk ≤ n → Fuelled (visit id mk)) where
    mark_variant-Fuelled :
        (kind : SuperpositionVariantKind) (mk : Marked)
        → unmarked mk ≤ n
        → Fuelled (mark_variant visit store kind mk)
    unfolding mark_variant Fuelled
    mark_variant-Fuelled (SuperpositionVariantKind.file b mode size) mk le = λ h. cc h
    mark_variant-Fuelled (SuperpositionVariantKind.file_chunks r mode size) mk le =
        mark_recipe-Fuelled r mk
    mark_variant-Fuelled (SuperpositionVariantKind.sub_dir id) mk le = bounded id mk le
    mark_variant-Fuelled (SuperpositionVariantKind.symlink target) mk le = λ h. cc h
    mark_variant-Fuelled SuperpositionVariantKind.tombstone mk le = λ h. cc h

    mark_variants-Fuelled :
        (variants : List SuperpositionVariant) (mk : Marked)
        → unmarked mk ≤ n
        → Fuelled (mark_variants visit store variants mk)
    unfolding mark_variants Fuelled
    mark_variants-Fuelled [] mk le = λ h. cc h
    mark_variants-Fuelled (v ∷ variants) mk le =
        let rest = mark_variants-Fuelled variants in
        Fuelled-then (mark_variant visit store v.kind mk) (mark_variants visit store variants)
          (mark_variant-Fuelled v.kind mk le)
          (λ mid e. rest mid (
            omega (
              arith,
              le,
              Grown-unmarked mk mid _ (mark_variant-Grown store visit visits v.kind mk mid e),
            )))

    mark_entry-Fuelled :
        (kind : ManifestEntryKind) (mk : Marked)
        → unmarked mk ≤ n
        → Fuelled (mark_entry visit store kind mk)
    unfolding mark_entry Fuelled
    mark_entry-Fuelled (ManifestEntryKind.file b mode size) mk le = λ h. cc h
    mark_entry-Fuelled (ManifestEntryKind.file_chunks r mode size) mk le = mark_recipe-Fuelled r mk
    mark_entry-Fuelled (ManifestEntryKind.sub_dir id) mk le = bounded id mk le
    mark_entry-Fuelled (ManifestEntryKind.symlink target) mk le = λ h. cc h
    mark_entry-Fuelled (ManifestEntryKind.superposition variants) mk le =
        mark_variants-Fuelled variants mk le

    mark_entries-Fuelled :
        (entries : List ManifestEntry) (mk : Marked)
        → unmarked mk ≤ n
        → Fuelled (mark_entries visit store entries mk)
    unfolding mark_entries Fuelled
    mark_entries-Fuelled [] mk le = λ h. cc h
    mark_entries-Fuelled (e ∷ entries) mk le =
        let rest = mark_entries-Fuelled entries in
        Fuelled-then (mark_entry visit store e.kind mk) (mark_entries visit store entries)
          (mark_entry-Fuelled e.kind mk le)
          (λ mid k. rest mid (
            omega (
              arith,
              le,
              Grown-unmarked mk mid _ (mark_entry-Grown store visit visits e.kind mk mid k),
            )))

  mark_manifest-Fuelled :
      (fuel : ℕ) (id : ObjectId) (mk : Marked)
      → unmarked mk < fuel
      → Fuelled (mark_manifest fuel store id mk)
  unfolding mark_manifest Fuelled get_manifest
  mark_manifest-Fuelled zero id mk lt = λ h. omega (arith, lt)
  mark_manifest-Fuelled (suc fuel) id mk lt =
      let again = mark_manifest-Fuelled fuel in
      elim (Bool-cases (contains mk.manifests id)) [
        | inl e ↦ rw e (λ h. cc h)
        | inr e ↦ rw e (reading again e (get_manifest store id) refl)
      ]
    where
      opened : Marked
      opened = record mk { manifests = id ∷ mk.manifests }

      reading :
          ((x : ObjectId) (y : Marked) → unmarked y < fuel → Fuelled (mark_manifest fuel store x y))
          → contains mk.manifests id ≡ false
          → (r : Read Manifest) → read_at (lookup id store.manifests) ≡ r
          → mark_read (mark_manifest fuel store) store r opened ≢ refuse out_of_fuel
      reading again e missing k = λ h. cc h
      reading again e garbled k = λ h. cc h
      reading again e (decoded d) k =
          let less = left_open store.manifests id mk.manifests d k e in
          mark_entries-Fuelled (unmarked opened) (mark_manifest fuel store)
            (mark_manifest-Visits store fuel) (λ x y le. again x y (omega (arith, le, less, lt)))
            d.entries opened (omega arith)

-- The mark phase ends for every store and every list of roots, one whose directories form a cycle too:
-- it never runs out of the fuel that is made from the number of stored manifests.
pub mark_roots-ends :
    (store : Store) (roots : List ObjectId) (mk : Marked)
    → mark_roots store roots mk ≢ refuse out_of_fuel
unfolding mark_roots Fuelled
mark_roots-ends store [] mk = λ h. cc h
mark_roots-ends store (root ∷ roots) mk =
    let rest = mark_roots-ends store roots in
    Fuelled-then store (mark_manifest (length store.manifests + 1) store root mk)
      (mark_roots store roots)
      (mark_manifest-Fuelled store (length store.manifests + 1) root mk
        (omega (arith, left-length store.manifests mk.manifests)))
      (λ mid e. rest mid)
