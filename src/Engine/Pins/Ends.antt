-- ===== src/Engine/Pins/Ends.antt =====
-- `unpin_tree` ends, and it writes nothing but the pins.
use convergence.Prelude.{
  ℕ, zero, suc, ◌+◌, ◌≤◌, ◌<◌, String, ◌≡◌, ◌≢◌, refl, ◌∙◌, sym, ap, subst, inl, inr, List, [], ◌∷◌,
  length, contains, arith, Bool-cases,
}
use convergence.Records.{ObjectId}
use convergence.Objects.{
  blob, recipe, manifest, SuperpositionVariantKind, SuperpositionVariant, ManifestEntryKind,
  ManifestEntry, Manifest, FileRecipeChunk, FileRecipe, Read, missing, garbled, decoded, Store,
  get_manifest, get_recipe,
}
use convergence.Meta.{Meta, PinRow}
use convergence.Meta.Objects.{unpin_object}
use convergence.Engine.{Answer, ok, refuse, ◌>>>◌, internal, out_of_fuel}
use convergence.Engine.Pins.{
  unpin_chunks, unpin_read, unpin_recipe, unpin_variant, unpin_variants, unpin_entry, unpin_entries,
  unpin_manifest, unpin_turn, unpin_walk, variant_dirs, entry_dirs, entries_dirs, read_dirs,
  all_dirs, unpin_tree,
}
use convergence.Engine.Pins.Weight.{weight, weight-nil, weight-new}

-- A step over a stack pushes at most `n` manifests and, from tables that differ from `m` in the pins
-- alone, leads to such tables; if it stops, it is for an object that does not decode.
Pushes : ℕ → List ObjectId → Meta → Answer (List ObjectId) × Meta → Type 0
Pushes n stack m out =
    ((pins : List PinRow) × (out.1 ≡ record m { object_pins = pins }))
    × ((after : List ObjectId) → out.0 ≡ ok after → length after ≤ n + length stack)
    × (out.0 ≢ refuse out_of_fuel)

Pushes-then :
    (n k : ℕ) (stack : List ObjectId) (m : Meta) (r : Answer (List ObjectId) × Meta)
    (f : List ObjectId → Meta → Answer (List ObjectId) × Meta)
    → Pushes n stack m r
    → ((stack' : List ObjectId) (m' : Meta) → Pushes k stack' m' (f stack' m'))
    → Pushes (n + k) stack m (r >>> f)
unfolding Pushes
Pushes-then n k stack m (refuse x, m1) f ((pins, same), fits, fuelled) rest =
    ((pins, same), λ after h. absurd (clash after h), fuelled)
  where
    clash : (after : List ObjectId) → refuse x ≡ ok after → ⊥
    clash after h = cc
Pushes-then n k stack m (ok stack', m1) f ((pins, same), fits, fuelled) rest =
    let ((pins', same'), fits', fuelled') = rest stack' m1 in
    (
      (pins', same' ∙ repinned pins pins' same),
      λ after h. omega (arith, fits' after h, fits stack' refl),
      fuelled',
    )
  where
    repinned :
        (pins pins' : List PinRow)
        → m1 ≡ record m { object_pins = pins }
        → record m1 { object_pins = pins' } ≡ record m { object_pins = pins' }
    repinned pins pins' e i = record (e i) { object_pins = pins' }

-- A step that only writes pins and pushes nothing
Pushes-none :
    (stack : List ObjectId) (m : Meta) (pins : List PinRow)
    → Pushes 0 stack m (ok stack, record m { object_pins = pins })
unfolding Pushes
Pushes-none stack m pins =
    ((pins, refl), λ after h. (ground (arith, ap length (ok_inj after h))), λ h. cc h)
  where
    ok_inj : (after : List ObjectId) → ok stack ≡ ok after → stack ≡ after
    ok_inj after h = ground arith

Pushes-one :
    (stack : List ObjectId) (id : ObjectId) (m : Meta) → Pushes 1 stack m (ok (id ∷ stack), m)
unfolding Pushes
Pushes-one stack id m =
    ((m.object_pins, refl), λ after h. (ground (arith, ap length (ok_inj after h))), λ h. cc h)
  where
    ok_inj : (after : List ObjectId) → ok (id ∷ stack) ≡ ok after → id ∷ stack ≡ after
    ok_inj after h = ground arith

unpin_chunks-pins :
    (repo : String) (chunks : List FileRecipeChunk) (m : Meta)
    → (pins : List PinRow) × (unpin_chunks repo chunks m ≡ record m { object_pins = pins })
unfolding unpin_object
unpin_chunks-pins repo [] m = (m.object_pins, refl)
unpin_chunks-pins repo (c ∷ chunks) m =
    unpin_chunks-pins repo chunks (unpin_object repo blob c.blob m)

unpin_recipe-Pushes :
    (store : Store) (repo : String) (id : ObjectId) (stack : List ObjectId) (m : Meta)
    → Pushes 0 stack m (unpin_recipe store repo id m >>> λ u m'. (ok stack, m'))
unfolding unpin_recipe unpin_object Pushes
unpin_recipe-Pushes store repo id stack m = known (get_recipe store id)
  where
    known :
        (r : Read FileRecipe)
        → Pushes 0 stack m
            (unpin_read repo r (unpin_object repo recipe id m) >>> λ u m'. (ok stack, m'))
    known missing = Pushes-none stack m _
    known garbled = ((_, refl), λ after h. absurd (clash after h), λ h. cc h)
      where
        clash : (after : List ObjectId) → refuse internal ≡ ok after → ⊥
        clash after h = cc
    known (decoded r) =
        let (pins, e) = unpin_chunks-pins repo r.chunks (unpin_object repo recipe id m) in
        subst (λ t. Pushes 0 stack m (ok stack, t)) (sym e) (Pushes-none stack m pins)

variant_size : SuperpositionVariantKind → ℕ
variant_size (SuperpositionVariantKind.sub_dir id) = 1
variant_size _ = 0

unpin_variant-Pushes :
    (store : Store) (repo : String) (kind : SuperpositionVariantKind) (stack : List ObjectId)
    (m : Meta)
    → Pushes (variant_size kind) stack m (unpin_variant store repo kind stack m)
unfolding unpin_variant unpin_object variant_size
unpin_variant-Pushes store repo (SuperpositionVariantKind.file b mode size) stack m =
    Pushes-none stack m _
unpin_variant-Pushes store repo (SuperpositionVariantKind.file_chunks r mode size) stack m =
    unpin_recipe-Pushes store repo r stack m
unpin_variant-Pushes store repo (SuperpositionVariantKind.sub_dir id) stack m =
    Pushes-one stack id m
unpin_variant-Pushes store repo (SuperpositionVariantKind.symlink target) stack m =
    Pushes-none stack m m.object_pins
unpin_variant-Pushes store repo SuperpositionVariantKind.tombstone stack m =
    Pushes-none stack m m.object_pins

variant_dirs-size :
    (v : SuperpositionVariant) (variants : List SuperpositionVariant)
    → variant_dirs (v ∷ variants) ≡ variant_size v.kind + variant_dirs variants
unfolding variant_size
variant_dirs-size v variants = sized v.kind
  where
    sized :
        (kind : SuperpositionVariantKind)
        → elim kind [
          | SuperpositionVariantKind.sub_dir id ↦ suc (variant_dirs variants)
          | _ ↦ variant_dirs variants
        ]
          ≡ variant_size kind + variant_dirs variants
    sized (SuperpositionVariantKind.file b mode size) = omega arith
    sized (SuperpositionVariantKind.file_chunks r mode size) = omega arith
    sized (SuperpositionVariantKind.sub_dir id) = omega arith
    sized (SuperpositionVariantKind.symlink target) = omega arith
    sized SuperpositionVariantKind.tombstone = omega arith

unpin_variants-Pushes :
    (store : Store) (repo : String) (variants : List SuperpositionVariant) (stack : List ObjectId)
    (m : Meta)
    → Pushes (variant_dirs variants) stack m (unpin_variants store repo variants stack m)
unfolding unpin_variants
unpin_variants-Pushes store repo [] stack m = Pushes-none stack m m.object_pins
unpin_variants-Pushes store repo (v ∷ variants) stack m =
    let rest = unpin_variants-Pushes store repo variants in
    subst (λ n. Pushes n stack m (unpin_variants store repo (v ∷ variants) stack m))
      (sym (variant_dirs-size v variants))
      (Pushes-then (variant_size v.kind) (variant_dirs variants) stack m
        (unpin_variant store repo v.kind stack m)
        (λ stack' m'. unpin_variants store repo variants stack' m')
        (unpin_variant-Pushes store repo v.kind stack m) rest)

unpin_entry-Pushes :
    (store : Store) (repo : String) (kind : ManifestEntryKind) (stack : List ObjectId) (m : Meta)
    → Pushes (entry_dirs kind) stack m (unpin_entry store repo kind stack m)
unfolding unpin_entry unpin_object
unpin_entry-Pushes store repo (ManifestEntryKind.file b mode size) stack m = Pushes-none stack m _
unpin_entry-Pushes store repo (ManifestEntryKind.file_chunks r mode size) stack m =
    unpin_recipe-Pushes store repo r stack m
unpin_entry-Pushes store repo (ManifestEntryKind.sub_dir id) stack m = Pushes-one stack id m
unpin_entry-Pushes store repo (ManifestEntryKind.symlink target) stack m =
    Pushes-none stack m m.object_pins
unpin_entry-Pushes store repo (ManifestEntryKind.superposition variants) stack m =
    unpin_variants-Pushes store repo variants stack m

unpin_entries-Pushes :
    (store : Store) (repo : String) (entries : List ManifestEntry) (stack : List ObjectId)
    (m : Meta)
    → Pushes (entries_dirs entries) stack m (unpin_entries store repo entries stack m)
unfolding unpin_entries
unpin_entries-Pushes store repo [] stack m = Pushes-none stack m m.object_pins
unpin_entries-Pushes store repo (e ∷ entries) stack m =
    let rest = unpin_entries-Pushes store repo entries in
    Pushes-then (entry_dirs e.kind) (entries_dirs entries) stack m
      (unpin_entry store repo e.kind stack m)
      (λ stack' m'. unpin_entries store repo entries stack' m')
      (unpin_entry-Pushes store repo e.kind stack m) rest

unpin_turn-Pushes :
    (store : Store) (repo : String) (id : ObjectId) (stack : List ObjectId) (m : Meta)
    → Pushes (read_dirs (get_manifest store id)) stack m (unpin_turn store repo id stack m)
unfolding unpin_object Pushes
unpin_turn-Pushes store repo id stack m = known (get_manifest store id)
  where
    known :
        (r : Read Manifest)
        → Pushes
            (read_dirs r)
            stack
            m
            (unpin_manifest store repo r stack (unpin_object repo manifest id m))
    known missing = Pushes-none stack m _
    known garbled = ((_, refl), λ after h. absurd (clash after h), λ h. cc h)
      where
        clash : (after : List ObjectId) → refuse internal ≡ ok after → ⊥
        clash after h = cc
    known (decoded d) =
        let ((pins, same), fits, fuelled) =
          unpin_entries-Pushes store repo d.entries stack (unpin_object repo manifest id m) in
        ((pins, same), fits, fuelled)

-- Enough fuel is more than the stack and what it can grow by.
Walks : Meta → Answer Unit × Meta → Type 0
Walks m out =
    ((pins : List PinRow) × (out.1 ≡ record m { object_pins = pins }))
    × (out.0 ≢ refuse out_of_fuel)

Walks-then :
    (n : ℕ) (stack : List ObjectId) (m : Meta) (r : Answer (List ObjectId) × Meta)
    (f : List ObjectId → Meta → Answer Unit × Meta)
    → Pushes n stack m r
    → ((stack' : List ObjectId) (m' : Meta)
        → length stack' ≤ n + length stack
        → Walks m' (f stack' m'))
    → Walks m (r >>> f)
unfolding Pushes Walks
Walks-then n stack m (refuse x, m1) f ((pins, same), fits, fuelled) rest =
    ((pins, same), λ h. fuelled (refused h))
  where
    refused :
        ◌≡◌ {A = Answer Unit} (refuse x) (refuse out_of_fuel)
        → ◌≡◌ {A = Answer (List ObjectId)} (refuse x) (refuse out_of_fuel)
    refused h = ground arith
Walks-then n stack m (ok stack', m1) f ((pins, same), fits, fuelled) rest =
    let ((pins', same'), fuelled') = rest stack' m1 (fits stack' refl) in
    ((pins', same' ∙ repinned pins pins' same), fuelled')
  where
    repinned :
        (pins pins' : List PinRow)
        → m1 ≡ record m { object_pins = pins }
        → record m1 { object_pins = pins' } ≡ record m { object_pins = pins' }
    repinned pins pins' e i = record (e i) { object_pins = pins' }

unpin_walk-Walks :
    (fuel : ℕ) (store : Store) (repo : String) (stack seen : List ObjectId) (m : Meta)
    → length stack + weight store.manifests seen < fuel
    → Walks m (unpin_walk fuel store repo stack seen m)
unfolding unpin_walk Walks get_manifest
unpin_walk-Walks zero store repo stack seen m h = absurd (omega (arith, h))
unpin_walk-Walks (suc fuel) store repo [] seen m h = ((m.object_pins, refl), λ e. cc e)
unpin_walk-Walks (suc fuel) store repo (id ∷ stack) seen m h =
    let again = unpin_walk-Walks fuel store repo in
    elim (Bool-cases (contains seen id)) [
      | inl e ↦ rw e (again stack seen m (omega (arith, h)))
      | inr e ↦ rw e (
          Walks-then (read_dirs (get_manifest store id)) stack m (unpin_turn store repo id stack m)
            (λ stack' m'. unpin_walk fuel store repo stack' (id ∷ seen) m')
            (unpin_turn-Pushes store repo id stack m)
            (λ stack' m' le.
              again stack' (id ∷ seen) m'
                (omega (arith, le, h, weight-new store.manifests id seen e))))
    ]

-- Releasing the pins of a tree ends for every store, one whose directories form a cycle too: it does not
-- run out of its fuel, and the tables it leaves differ from those it met in the pins alone.
pub unpin_tree-ends :
    (store : Store) (repo : String) (root : ObjectId) (m : Meta)
    → ((pins : List PinRow) × ((unpin_tree store repo root m).1 ≡ record m { object_pins = pins }))
      × ((unpin_tree store repo root m).0 ≢ refuse out_of_fuel)
unfolding unpin_tree Walks
unpin_tree-ends store repo root m =
    unpin_walk-Walks (all_dirs store.manifests + 2) store repo (root ∷ []) [] m
      (omega (arith, weight-nil store.manifests))
