-- ===== src/Objects.antt =====
-- What the object store holds: the kinds of object of crates/converge-server/src/storage.rs, and the
-- manifests and recipes of crates/converge-model/src/manifest.rs and snap.rs. Bytes are read through a
-- store, which answers with the decoded object, or that there is none, or that it does not decode.
use convergence.Prelude.{ℕ, String, Bool, true, false, Option, none, some, List, lookup}
use convergence.Records.{ObjectId}

pub data ObjectKind : Type 0 where
  blob manifest recipe : ObjectKind

-- `ObjectKind::dir`
unfoldable pub dir : ObjectKind → String
dir blob = "blobs"
dir manifest = "manifests"
dir recipe = "recipes"

pub data SuperpositionVariantKind : Type 0 where
  file : ObjectId → ℕ → ℕ → SuperpositionVariantKind
  file_chunks : ObjectId → ℕ → ℕ → SuperpositionVariantKind
  sub_dir : ObjectId → SuperpositionVariantKind
  symlink : String → SuperpositionVariantKind
  tombstone : SuperpositionVariantKind

pub record SuperpositionVariant : Type 0 where
  pub source : String
  pub kind : SuperpositionVariantKind

pub data ManifestEntryKind : Type 0 where
  file : ObjectId → ℕ → ℕ → ManifestEntryKind
  file_chunks : ObjectId → ℕ → ℕ → ManifestEntryKind
  sub_dir : ObjectId → ManifestEntryKind
  symlink : String → ManifestEntryKind
  superposition : List SuperpositionVariant → ManifestEntryKind

pub record ManifestEntry : Type 0 where
  pub name : String
  pub kind : ManifestEntryKind

pub record Manifest : Type 0 where
  pub version : ℕ
  pub entries : List ManifestEntry

pub record FileRecipeChunk : Type 0 where
  pub blob : ObjectId
  pub size : ℕ

pub record ChunkParams : Type 0 where
  pub min_size : ℕ
  pub avg_size : ℕ
  pub max_size : ℕ

pub record FileRecipe : Type 0 where
  pub version : ℕ
  pub size : ℕ
  pub params : Option ChunkParams
  pub chunks : List FileRecipeChunk

pub data Read (A : Type 0) : Type 0 where
  missing : Read A
  garbled : Read A
  decoded : A → Read A

-- The manifests and the recipes of a store, by their ids
pub record Store : Type 0 where
  pub manifests : List (ObjectId × Read Manifest)
  pub recipes : List (ObjectId × Read FileRecipe)

abbrev pub read_at : {A : Type 0} → Option (Read A) → Read A
read_at none = missing
read_at (some r) = r

-- `objects.get`, and the decoding of what it returns
unfoldable pub get_manifest : Store → ObjectId → Read Manifest
get_manifest store id = read_at (lookup id store.manifests)

unfoldable pub get_recipe : Store → ObjectId → Read FileRecipe
get_recipe store id = read_at (lookup id store.recipes)

abbrev pub is_there : {A : Type 0} → Read A → Bool
is_there missing = false
is_there garbled = true
is_there (decoded a) = true

-- `objects.has(ObjectKind::Manifest, id)`
unfoldable pub has_manifest : Store → ObjectId → Bool
unfolding get_manifest
has_manifest store id = is_there (get_manifest store id)
