-- ===== src/Gc/Handler/Keeps.antt =====
-- What a run of garbage collection keeps.
use convergence.Prelude.{ℕ, String, ◌≡◌, true, false, Option, List, In, leb, contains}
use convergence.Records.{ObjectId}
use convergence.Objects.{Store}
use convergence.Meta.{Meta}
use convergence.Authz.{AuthzContext, admin, as_str, has_grant}
use convergence.Engine.{ok}
use convergence.Gc.Sweep.{StoredObject, Limits}
use convergence.Gc.Roots.{Drops}
use convergence.Gc.References.{InTree}
use convergence.Gc.Roots.Complete.{Rooted}
use convergence.Gc.Handler.Spared.{Based}
use convergence.Gc.Handler.Leaves.{Leaves}
use convergence.Meta.Objects.{is_object_pinned}
use convergence.Gc.Handler.{planned}

-- Why an object is not to be collected, by the tables that the deletions leave
pub data Live (limits : Limits) (store : Store) (drops : Drops) (left : Meta) (o : StoredObject)
    : Type 0 where
  in_tree :
      (repo : String) (root : ObjectId)
      → In repo left.repos
      → Rooted drops left repo root
      → InTree store root (o.kind, o.id)
      → Live limits store drops left o
  pinned : is_object_pinned left o.kind o.id limits.pins ≡ true → Live limits store drops left o
  fresh : leb o.mtime limits.cutoff ≡ false → Live limits store drops left o

-- What a run that answers has done: what retention drops, what the deletions leave, and what the sweep keeps
pub record Collects (age : String → ℕ → Option String) (ctx : AuthzContext) (limits : Limits)
    (store : Store) (objects : List StoredObject) (now : String) (m : Meta)
    (kept : List StoredObject) : Type 0 where
  pub granted : has_grant m ctx.subject ctx.repo_id "*" (as_str admin) ≡ true
  pub drops : Drops
  pub plans : planned age ctx.repo_id now m ≡ ok drops
  pub of_repo : drops.repo ≡ ctx.repo_id
  pub spares : (id : String) → Based drops m ctx.repo_id id → contains drops.candidates id ≡ false
  pub left : Meta
  pub leaves : Leaves drops m left
  pub keeps : (o : StoredObject) → In o objects → Live limits store drops left o → In o kept
  pub dry : limits.dry_run ≡ true → kept ≡ objects
