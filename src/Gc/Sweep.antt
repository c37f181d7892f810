-- ===== src/Gc/Sweep.antt =====
-- The sweep of crates/converge-server/src/gc.rs, behind the mark phase from a list of roots.
pub mod Kept
use convergence.Prelude.{
  ℕ, ◌+◌, String, Bool, true, false, not, ◌&&◌, ◌||◌, List, [], ◌∷◌, length, leb, if◌then◌else◌,
}
use convergence.Records.{ObjectId}
use convergence.Objects.{ObjectKind, Store}
use convergence.Meta.{Meta}
use convergence.Meta.Objects.{is_object_pinned, remove_object_associations, sweep_stale_pins}
use convergence.Engine.{Answer, ok, refuse, ◌>>=◌}
use convergence.Gc.{Marked, no_marks, mark_roots, is_marked}

-- What `objects.list` answers for an object, the kinds one after the other
pub record StoredObject : Type 0 where
  pub kind : ObjectKind
  pub id : ObjectId
  pub bytes : ℕ
  pub mtime : ℕ

-- `pins` is the time that a pin must have to count, `cutoff` the time behind the grace window.
pub record Limits : Type 0 where
  pub pins : ℕ
  pub cutoff : ℕ
  pub dry_run : Bool

-- The objects that are left and the tables, with the numbers of the report
pub record Swept : Type 0 where
  pub objects : List StoredObject
  pub tables : Meta
  pub reachable_objects : ℕ
  pub swept_objects : ℕ
  pub swept_bytes : ℕ
  pub expired_pins : ℕ

unfoldable pub is_garbage : Limits → Marked → Meta → StoredObject → Bool
unfolding is_marked is_object_pinned
is_garbage limits mk m o =
    if is_marked o.kind o.id mk
    then false
    else if is_object_pinned m o.kind o.id limits.pins
    then false
    else leb o.mtime limits.cutoff

abbrev pub counted : StoredObject → Swept → Swept
counted o out = record out {
  swept_objects = 1 + out.swept_objects;
  swept_bytes = o.bytes + out.swept_bytes;
}

abbrev pub and_kept : StoredObject → Swept → Swept
and_kept o out = record out { objects = o ∷ out.objects }

abbrev pub reachable : Marked → ℕ
reachable mk = length mk.blobs + (length mk.manifests + length mk.recipes)

unfoldable pub sweep : Limits → Marked → List StoredObject → Meta → Swept
unfolding is_garbage remove_object_associations
sweep limits mk [] m = record {
  objects = [];
  tables = m;
  reachable_objects = reachable mk;
  swept_objects = 0;
  swept_bytes = 0;
  expired_pins = 0;
}
sweep limits mk (o ∷ objects) m =
    let rest = sweep limits mk objects m in
    let after = sweep limits mk objects (remove_object_associations o.kind o.id m) in
    if is_garbage limits mk m o
    then (if limits.dry_run then and_kept o (counted o rest) else counted o after)
    else and_kept o rest

abbrev pub expire : Limits → Swept → Swept
expire limits out = if limits.dry_run then out else record out {
  tables = (sweep_stale_pins limits.pins out.tables).1;
  expired_pins = (sweep_stale_pins limits.pins out.tables).0;
}

unfoldable pub mark_and_sweep :
    Limits → Store → List ObjectId → List StoredObject → Meta → Answer Swept
unfolding mark_roots sweep sweep_stale_pins
mark_and_sweep limits store roots objects m = do
  mk ← mark_roots store roots no_marks
  ok (expire limits (sweep limits mk objects m))
