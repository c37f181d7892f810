-- ===== src/Engine/Release/Examples.antt =====
-- Versions that are numbers in tally marks, a release and a yank, and the theorems at them.
use Prim.Native.Char.{Char, code}
use convergence.Prelude.{
  ℕ, zero, suc, String, ◌≡◌, refl, ap, true, false, Option, none, some, [], ◌∷◌, eqb, leb,
  if◌then◌else◌, arith,
}
use convergence.Records.{ReleaseRecord}
use convergence.Meta.{
  Meta, get_release, list_promotions, get_gate_graph, list_releases, set_release_yanked,
}
use convergence.Authz.{Capability, AuthzContext, as_str, same_capability}
use convergence.Releases.{Semver, parse_version, bare, refuse_version}
use convergence.Engine.{
  ok, require, get_candidate, resolve_candidate_prefix, ensure_partition, check_promotable,
  reached_gates,
}
use convergence.Engine.Examples.{tables, context}
use convergence.Engine.Release.{release, release_record, may_release_from, yank}
use convergence.Engine.Release.Unique.{Prints, Released, release-Released}
use convergence.Engine.Release.Yank.{Marks, yank-Marks}

abbrev mark_then : Char → Option ℕ → Option ℕ
mark_then c none = none
mark_then c (some n) = if eqb (code c) 49 then some (suc n) else none

abbrev read_tally : String → Option ℕ
read_tally String.[] = some 0
read_tally (String.◌∷◌ c rest) = mark_then c (read_tally rest)

abbrev print_tally : ℕ → String
print_tally zero = ""
print_tally (suc n) = String.◌∷◌ "1" (print_tally n)

abbrev tallied : Semver
tallied = record {
  Version = ℕ;
  parse = read_tally;
  print = print_tally;
  same = eqb;
  below = leb;
  is_final = λ v. true;
  parse_range = λ text. none;
}

read-print_tally : (n : ℕ) → read_tally (print_tally n) ≡ some n
read-print_tally zero = refl
read-print_tally (suc n) = ap (mark_then "1") (read-print_tally n)

parse-print_tally : (n : ℕ) → parse_version tallied (print_tally n) ≡ some n
unfolding parse_version bare
parse-print_tally zero = refl
parse-print_tally (suc n) = read-print_tally (suc n)

eqb_refl : (n : ℕ) → eqb n n ≡ true
eqb_refl n = ground arith

tallied-Prints : Prints tallied
tallied-Prints = record { parse_print = parse-print_tally; same_refl = eqb_refl }

-- The candidate has been promoted to the gate that may release.
abbrev reached : Meta
reached = record tables {
  promotions =
      record { candidate_id = "c1"; from_gate = "intake"; to_gate = "review"; promoted_at = "t1" }
      ∷ (record { candidate_id = "c1"; from_gate = "intake"; to_gate = "out"; promoted_at = "t2" }
          ∷ []);
}

abbrev releaser : AuthzContext
releaser = context Capability.release

abbrev record_of : ReleaseRecord
record_of = record {
  version = "111";
  yanked = false;
  yank_reason = none;
  repo_id = "repo";
  scope_id = "main";
  candidate_id = "c1";
  released_by = "ben";
  notes = none;
  created_at = "t3";
}

releases : (release tallied releaser "c1" "v111" none "t3" reached).0 ≡ ok record_of
unfolding release release_record require same_capability as_str get_candidate
    resolve_candidate_prefix ensure_partition check_promotable get_gate_graph may_release_from
    reached_gates list_promotions parse_version bare refuse_version list_releases
releases = refl

release-Released_example :
    Released tallied releaser "c1" "v111" reached record_of
    × (get_release reached "repo" "111" ≡ none)
    × (get_release (release tallied releaser "c1" "v111" none "t3" reached).1 "repo" "111"
        ≡ some record_of)
release-Released_example =
    release-Released tallied tallied-Prints releaser "c1" "v111" none "t3" reached record_of
      releases

abbrev with_release : Meta
with_release = record reached { releases = record_of ∷ [] }

yanks : (yank tallied releaser "v111" "broken" "t4" with_release).0 ≡ ok tt
unfolding yank require same_capability as_str parse_version bare set_release_yanked get_release
yanks = refl

yank-Marks_example :
    (version : ℕ) × (parse_version tallied "v111" ≡ some version)
    × Marks tallied "repo" version "broken" with_release
        (yank tallied releaser "v111" "broken" "t4" with_release).1
yank-Marks_example = yank-Marks tallied releaser "v111" "broken" "t4" with_release yanks
