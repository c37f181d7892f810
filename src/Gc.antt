-- ===== src/Gc.antt =====
-- The mark phase of crates/converge-server/src/gc.rs: `mark_manifest` and `mark_recipe`. The set of marked
-- pairs is three lists, one for each kind of object, without repetition.
pub mod References
pub mod Closed
pub mod Ends
pub mod Sweep
pub mod Roots
pub mod Handler
pub mod Examples
use convergence.Prelude.{
  ℕ, zero, suc, ◌+◌, String, Bool, true, false, List, [], ◌∷◌, length, contains, if◌then◌else◌,
}
use convergence.Records.{ObjectId}
use convergence.Objects.{
  ObjectKind, blob, manifest, recipe, SuperpositionVariantKind, SuperpositionVariant,
  ManifestEntryKind, ManifestEntry, Manifest, FileRecipeChunk, FileRecipe, Read, missing, garbled,
  decoded, Store, get_manifest, get_recipe,
}
use convergence.Engine.{Answer, ok, refuse, ◌>>=◌, internal, out_of_fuel}

pub record Marked : Type 0 where
  pub blobs : List ObjectId
  pub manifests : List ObjectId
  pub recipes : List ObjectId

abbrev pub add_mark : ObjectId → List ObjectId → List ObjectId
add_mark id ids = if contains ids id then ids else id ∷ ids

abbrev pub mark_blob : ObjectId → Marked → Marked
mark_blob id mk = record mk { blobs = add_mark id mk.blobs }

abbrev pub mark_chunks : List FileRecipeChunk → Marked → Marked
mark_chunks [] mk = mk
mark_chunks (c ∷ chunks) mk = mark_chunks chunks (mark_blob c.blob mk)

abbrev pub mark_recipe_read : Read FileRecipe → Marked → Answer Marked
mark_recipe_read missing mk = ok mk
mark_recipe_read garbled mk = refuse internal
mark_recipe_read (decoded r) mk = ok (mark_chunks r.chunks mk)

unfoldable pub mark_recipe : Store → ObjectId → Marked → Answer Marked
mark_recipe store id mk =
    if contains mk.recipes id
    then ok mk
    else mark_recipe_read (get_recipe store id) (record mk { recipes = id ∷ mk.recipes })

-- `visit` is the recursive call on a directory.
unfoldable pub mark_variant :
    (ObjectId → Marked → Answer Marked) → Store → SuperpositionVariantKind → Marked → Answer Marked
unfolding mark_recipe
mark_variant visit store (SuperpositionVariantKind.file b mode size) mk = ok (mark_blob b mk)
mark_variant visit store (SuperpositionVariantKind.file_chunks r mode size) mk =
    mark_recipe store r mk
mark_variant visit store (SuperpositionVariantKind.sub_dir id) mk = visit id mk
mark_variant visit store (SuperpositionVariantKind.symlink target) mk = ok mk
mark_variant visit store SuperpositionVariantKind.tombstone mk = ok mk

unfoldable pub mark_variants :
    (ObjectId → Marked → Answer Marked) → Store → List SuperpositionVariant → Marked → Answer Marked
unfolding mark_variant
mark_variants visit store [] mk = ok mk
mark_variants visit store (v ∷ variants) mk =
    mark_variant visit store v.kind mk >>= mark_variants visit store variants

unfoldable pub mark_entry :
    (ObjectId → Marked → Answer Marked) → Store → ManifestEntryKind → Marked → Answer Marked
unfolding mark_recipe mark_variants
mark_entry visit store (ManifestEntryKind.file b mode size) mk = ok (mark_blob b mk)
mark_entry visit store (ManifestEntryKind.file_chunks r mode size) mk = mark_recipe store r mk
mark_entry visit store (ManifestEntryKind.sub_dir id) mk = visit id mk
mark_entry visit store (ManifestEntryKind.symlink target) mk = ok mk
mark_entry visit store (ManifestEntryKind.superposition variants) mk =
    mark_variants visit store variants mk

unfoldable pub mark_entries :
    (ObjectId → Marked → Answer Marked) → Store → List ManifestEntry → Marked → Answer Marked
unfolding mark_entry
mark_entries visit store [] mk = ok mk
mark_entries visit store (e ∷ entries) mk =
    mark_entry visit store e.kind mk >>= mark_entries visit store entries

abbrev pub mark_read :
    (ObjectId → Marked → Answer Marked) → Store → Read Manifest → Marked → Answer Marked
mark_read visit store missing mk = ok mk
mark_read visit store garbled mk = refuse internal
mark_read visit store (decoded d) mk = mark_entries visit store d.entries mk

unfoldable pub mark_manifest : ℕ → Store → ObjectId → Marked → Answer Marked
unfolding mark_entries
mark_manifest zero store id mk = refuse out_of_fuel
mark_manifest (suc fuel) store id mk =
    let visit = mark_manifest fuel store in
    if contains mk.manifests id
    then ok mk
    else mark_read visit store (get_manifest store id) (record mk { manifests = id ∷ mk.manifests })

-- The trees of some roots, one after the other, with fuel for the manifests of the store
unfoldable pub mark_roots : Store → List ObjectId → Marked → Answer Marked
unfolding mark_manifest
mark_roots store [] mk = ok mk
mark_roots store (root ∷ roots) mk =
    mark_manifest (length store.manifests + 1) store root mk >>= mark_roots store roots

abbrev pub no_marks : Marked
no_marks = record { blobs = []; manifests = []; recipes = [] }

unfoldable pub is_marked : ObjectKind → ObjectId → Marked → Bool
is_marked blob id mk = contains mk.blobs id
is_marked manifest id mk = contains mk.manifests id
is_marked recipe id mk = contains mk.recipes id
