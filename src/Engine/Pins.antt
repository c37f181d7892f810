-- ===== src/Engine/Pins.antt =====
-- `unpin_tree` of crates/converge-server/src/engine/publish.rs: the pins of an uploaded tree are released, as
-- far as its objects can be read. The top of the stack is the head of the list.
pub mod Weight
pub mod Ends
use convergence.Prelude.{
  ℕ, zero, suc, ◌+◌, String, Bool, true, false, List, [], ◌∷◌, length, contains, if◌then◌else◌,
}
use convergence.Records.{ObjectId}
use convergence.Objects.{
  blob, manifest, recipe, SuperpositionVariantKind, SuperpositionVariant, ManifestEntryKind,
  ManifestEntry, Manifest, FileRecipeChunk, FileRecipe, Read, missing, garbled, decoded, Store,
  get_manifest, get_recipe,
}
use convergence.Meta.{Meta}
use convergence.Meta.Objects.{unpin_object}
use convergence.Engine.{Answer, ok, refuse, ◌>>>◌, internal, out_of_fuel}

abbrev pub unpin_chunks : String → List FileRecipeChunk → Meta → Meta
unpin_chunks repo [] m = m
unpin_chunks repo (c ∷ chunks) m = unpin_chunks repo chunks (unpin_object repo blob c.blob m)

abbrev pub unpin_read : String → Read FileRecipe → Meta → Answer Unit × Meta
unpin_read repo missing m = (ok tt, m)
unpin_read repo garbled m = (refuse internal, m)
unpin_read repo (decoded r) m = (ok tt, unpin_chunks repo r.chunks m)

unfoldable pub unpin_recipe : Store → String → ObjectId → Meta → Answer Unit × Meta
unfolding unpin_object
unpin_recipe store repo id m = unpin_read repo (get_recipe store id) (unpin_object repo recipe id m)

unfoldable pub unpin_variant :
    Store → String → SuperpositionVariantKind → List ObjectId → Meta → Answer (List ObjectId) × Meta
unfolding unpin_recipe
unpin_variant store repo (SuperpositionVariantKind.file b mode size) stack m =
    (ok stack, unpin_object repo blob b m)
unpin_variant store repo (SuperpositionVariantKind.file_chunks r mode size) stack m =
    unpin_recipe store repo r m >>> λ u m'. (ok stack, m')
unpin_variant store repo (SuperpositionVariantKind.sub_dir id) stack m = (ok (id ∷ stack), m)
unpin_variant store repo (SuperpositionVariantKind.symlink target) stack m = (ok stack, m)
unpin_variant store repo SuperpositionVariantKind.tombstone stack m = (ok stack, m)

unfoldable pub unpin_variants :
    Store
    → String
    → List SuperpositionVariant
    → List ObjectId
    → Meta
    → Answer (List ObjectId) × Meta
unfolding unpin_variant
unpin_variants store repo [] stack m = (ok stack, m)
unpin_variants store repo (v ∷ variants) stack m =
    unpin_variant store repo v.kind stack m >>> λ stack' m'.
    unpin_variants store repo variants stack' m'

unfoldable pub unpin_entry :
    Store → String → ManifestEntryKind → List ObjectId → Meta → Answer (List ObjectId) × Meta
unfolding unpin_recipe unpin_variants
unpin_entry store repo (ManifestEntryKind.file b mode size) stack m =
    (ok stack, unpin_object repo blob b m)
unpin_entry store repo (ManifestEntryKind.file_chunks r mode size) stack m =
    unpin_recipe store repo r m >>> λ u m'. (ok stack, m')
unpin_entry store repo (ManifestEntryKind.sub_dir id) stack m = (ok (id ∷ stack), m)
unpin_entry store repo (ManifestEntryKind.symlink target) stack m = (ok stack, m)
unpin_entry store repo (ManifestEntryKind.superposition variants) stack m =
    unpin_variants store repo variants stack m

unfoldable pub unpin_entries :
    Store → String → List ManifestEntry → List ObjectId → Meta → Answer (List ObjectId) × Meta
unfolding unpin_entry
unpin_entries store repo [] stack m = (ok stack, m)
unpin_entries store repo (e ∷ entries) stack m =
    unpin_entry store repo e.kind stack m >>> λ stack' m'.
    unpin_entries store repo entries stack' m'

abbrev pub unpin_manifest :
    Store → String → Read Manifest → List ObjectId → Meta → Answer (List ObjectId) × Meta
unpin_manifest store repo missing stack m = (ok stack, m)
unpin_manifest store repo garbled stack m = (refuse internal, m)
unpin_manifest store repo (decoded d) stack m = unpin_entries store repo d.entries stack m

-- One turn for a manifest that was not seen
abbrev pub unpin_turn :
    Store → String → ObjectId → List ObjectId → Meta → Answer (List ObjectId) × Meta
unpin_turn store repo id stack m =
    unpin_manifest store repo (get_manifest store id) stack (unpin_object repo manifest id m)

-- The loop of `unpin_tree`
unfoldable pub unpin_walk :
    ℕ → Store → String → List ObjectId → List ObjectId → Meta → Answer Unit × Meta
unfolding unpin_entries
unpin_walk zero store repo stack seen m = (refuse out_of_fuel, m)
unpin_walk (suc fuel) store repo [] seen m = (ok tt, m)
unpin_walk (suc fuel) store repo (id ∷ stack) seen m =
    let skipped = unpin_walk fuel store repo stack seen m in
    if contains seen id
    then skipped
    else unpin_turn store repo id stack m >>> λ stack' m'.
        unpin_walk fuel store repo stack' (id ∷ seen) m'

-- The directories that a manifest names, which bounds what the loop can push
abbrev pub variant_dirs : List SuperpositionVariant → ℕ
variant_dirs [] = 0
variant_dirs (v ∷ variants) =
    let rest = variant_dirs variants in
    elim v.kind [ SuperpositionVariantKind.sub_dir id ↦ suc rest | _ ↦ rest ]

abbrev pub entry_dirs : ManifestEntryKind → ℕ
entry_dirs (ManifestEntryKind.sub_dir id) = 1
entry_dirs (ManifestEntryKind.superposition variants) = variant_dirs variants
entry_dirs _ = 0

abbrev pub entries_dirs : List ManifestEntry → ℕ
entries_dirs [] = 0
entries_dirs (e ∷ entries) = entry_dirs e.kind + entries_dirs entries

abbrev pub read_dirs : Read Manifest → ℕ
read_dirs (decoded d) = entries_dirs d.entries
read_dirs _ = 0

abbrev pub all_dirs : List (ObjectId × Read Manifest) → ℕ
all_dirs [] = 0
all_dirs ((id, r) ∷ rows) = read_dirs r + all_dirs rows

unfoldable pub unpin_tree : Store → String → ObjectId → Meta → Answer Unit × Meta
unfolding unpin_walk
unpin_tree store repo root m = unpin_walk (all_dirs store.manifests + 2) store repo (root ∷ []) [] m
