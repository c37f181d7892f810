-- ===== src/Gc/References.antt =====
-- The objects that manifests and recipes name, superpositions included, and the tree of a root.
use convergence.Prelude.{List, [], ◌∷◌, ◌++◌, In}
use convergence.Records.{ObjectId}
use convergence.Objects.{
  ObjectKind, blob, manifest, recipe, SuperpositionVariantKind, SuperpositionVariant,
  ManifestEntryKind, ManifestEntry, Manifest, FileRecipeChunk, FileRecipe, Read, decoded, Store,
  get_manifest, get_recipe,
}

abbrev pub Object : Type 0
Object = ObjectKind × ObjectId

-- The objects that an object names
abbrev pub chunk_refs : List FileRecipeChunk → List Object
chunk_refs [] = []
chunk_refs (c ∷ chunks) = (blob, c.blob) ∷ chunk_refs chunks

abbrev pub recipe_refs : Read FileRecipe → List Object
recipe_refs (decoded r) = chunk_refs r.chunks
recipe_refs _ = []

abbrev pub variant_refs : SuperpositionVariantKind → List Object
variant_refs (SuperpositionVariantKind.file b mode size) = (blob, b) ∷ []
variant_refs (SuperpositionVariantKind.file_chunks r mode size) = (recipe, r) ∷ []
variant_refs (SuperpositionVariantKind.sub_dir id) = (manifest, id) ∷ []
variant_refs (SuperpositionVariantKind.symlink target) = []
variant_refs SuperpositionVariantKind.tombstone = []

abbrev pub variants_refs : List SuperpositionVariant → List Object
variants_refs [] = []
variants_refs (v ∷ variants) = variant_refs v.kind ++ variants_refs variants

abbrev pub entry_refs : ManifestEntryKind → List Object
entry_refs (ManifestEntryKind.file b mode size) = (blob, b) ∷ []
entry_refs (ManifestEntryKind.file_chunks r mode size) = (recipe, r) ∷ []
entry_refs (ManifestEntryKind.sub_dir id) = (manifest, id) ∷ []
entry_refs (ManifestEntryKind.symlink target) = []
entry_refs (ManifestEntryKind.superposition variants) = variants_refs variants

abbrev pub entries_refs : List ManifestEntry → List Object
entries_refs [] = []
entries_refs (e ∷ entries) = entry_refs e.kind ++ entries_refs entries

abbrev pub manifest_refs : Read Manifest → List Object
manifest_refs (decoded d) = entries_refs d.entries
manifest_refs _ = []

unfoldable pub references : Store → Object → List Object
references store (blob, id) = []
references store (manifest, id) = manifest_refs (get_manifest store id)
references store (recipe, id) = recipe_refs (get_recipe store id)

-- An object of the tree below a root: the root manifest, or what an object of the tree names
pub data InTree (store : Store) (root : ObjectId) : Object → Type 0 where
  at_root : InTree store root (manifest, root)
  below : {o p : Object} → InTree store root o → In p (references store o) → InTree store root p
