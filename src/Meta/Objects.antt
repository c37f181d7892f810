-- ===== src/Meta/Objects.antt =====
-- Which repo holds which object, and the pins of uploads: the statements on `object_repos` and
-- `object_pins` in crates/converge-server/src/meta_sqlite.rs. The time of `pin_object` is the one that
-- `unix_now()` returned.
use convergence.Prelude.{
  ℕ, String, Bool, not, ◌&&◌, [], ◌∷◌, ◌++◌, any, keep, length, ltb, leb, ◌==◌, if◌then◌else◌,
}
use convergence.Records.{ObjectId}
use convergence.Objects.{ObjectKind, dir}
use convergence.Meta.{Meta, ObjectRow}

abbrev pub same_row : ObjectRow → ObjectRow → Bool
same_row a b = a.repo_id == b.repo_id && a.kind == b.kind && a.object_id == b.object_id

unfoldable pub object_row : String → ObjectKind → ObjectId → ObjectRow
unfolding dir
object_row repo kind id = record { repo_id = repo; kind = dir kind; object_id = id }

unfoldable pub associate_object : String → ObjectKind → ObjectId → Meta → Meta
unfolding object_row
associate_object repo kind id m =
    if any (same_row (object_row repo kind id)) m.object_repos
    then m
    else record m { object_repos = m.object_repos ++ (object_row repo kind id ∷ []) }

unfoldable pub object_in_repo : Meta → String → ObjectKind → ObjectId → Bool
unfolding object_row
object_in_repo m repo kind id = any (same_row (object_row repo kind id)) m.object_repos

unfoldable pub remove_object_associations : ObjectKind → ObjectId → Meta → Meta
unfolding dir
remove_object_associations kind id m = record m {
  object_repos = keep (λ row. not (row.kind == dir kind && row.object_id == id)) m.object_repos;
}

-- `INSERT OR IGNORE`: a pin that is there keeps its time.
unfoldable pub pin_object : String → ObjectKind → ObjectId → ℕ → Meta → Meta
unfolding object_row
pin_object repo kind id at m =
    if any (λ pin. same_row (object_row repo kind id) pin.object) m.object_pins
    then m
    else record m {
      object_pins =
          m.object_pins ++ (record { object = object_row repo kind id; pinned_at = at } ∷ []);
    }

unfoldable pub unpin_object : String → ObjectKind → ObjectId → Meta → Meta
unfolding object_row
unpin_object repo kind id m = record m {
  object_pins = keep (λ pin. not (same_row (object_row repo kind id) pin.object)) m.object_pins;
}

unfoldable pub sweep_stale_pins : ℕ → Meta → ℕ × Meta
sweep_stale_pins cutoff m = (
  length (keep (λ pin. ltb pin.pinned_at cutoff) m.object_pins),
  record m { object_pins = keep (λ pin. not (ltb pin.pinned_at cutoff)) m.object_pins },
)

unfoldable pub is_object_pinned : Meta → ObjectKind → ObjectId → ℕ → Bool
unfolding dir
is_object_pinned m kind id cutoff =
    any
      (λ pin. pin.object.kind == dir kind && pin.object.object_id == id && leb cutoff pin.pinned_at)
      m.object_pins
