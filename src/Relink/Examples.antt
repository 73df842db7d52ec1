-- ===== src/Relink/Examples.antt =====
-- The theorems on relinking at a scan with a right record, a moved one, a missing one and a copy.
use gooru.Prelude.{
  ◌≤◌, ◌≡◌, refl, String, true, some, List, [], ◌∷◌, arith, All, count_where, if◌then◌else◌,
}
use gooru.Prelude.Int.{pos}
use gooru.Relink.Plan.{LocationInfo, PlanInput, look_up, is_some, keys, plan}
use gooru.Relink.Maps.{IsOwn, occurrences}
use gooru.Relink.Records.{is_right, removals, plan-removals}
use gooru.Relink.Targets.{targets, plan-targets}
use gooru.Relink.Untouched.{plan-IsRight}

abbrev location : String → String → LocationInfo
location path hash = record {
  path = path;
  storage_path = "";
  hash = hash;
  size = pos 1;
  mod_time = pos 0;
  added_at = pos 0;
  extension = "";
  tags_cache = "";
}

abbrev entry : String → String → String × LocationInfo
entry path hash = (path, location path hash)

abbrev scan : PlanInput
scan = record {
  db_locations = entry "a" "h1" ∷ entry "b" "h2" ∷ entry "c" "h3" ∷ [];
  fs_locations = entry "a" "h1" ∷ entry "d" "h2" ∷ entry "e" "h4" ∷ [];
  known_paths_by_hash = ("h1", "a" ∷ []) ∷ ("h4", "z" ∷ []) ∷ [];
  missing_known_path = ("z", true) ∷ [];
  files_scanned = 3;
}

abbrev whole : String → String → List String
whole text separator = text ∷ []

scan-IsOwn : All IsOwn scan.fs_locations
scan-IsOwn = (refl, (refl, (refl, tt)))

b-held : is_some (look_up "b" scan.db_locations) ≡ true
unfolding look_up
b-held = refl

b-single : occurrences "b" (keys scan.db_locations) ≡ 1
unfolding count_where
b-single = refl

plan-removals_example :
    removals "b" (plan whole scan).proposed_moves (plan whole scan).proposed_deletes
    ≡ (if is_right scan "b" then 0 else 1)
plan-removals_example = plan-removals whole scan "b" b-held b-single

d-single : occurrences "d" (keys scan.fs_locations) ≤ 1
unfolding count_where
d-single = omega arith

plan-targets_example :
    targets "d" (plan whole scan).proposed_moves (plan whole scan).proposed_adds ≤ 1
plan-targets_example = plan-targets whole scan "d" scan-IsOwn d-single

a-held : look_up "a" scan.db_locations ≡ some (location "a" "h1")
unfolding look_up
a-held = refl

a-single : occurrences "a" (keys scan.db_locations) ≡ 1
unfolding count_where
a-single = refl

a-scanned : occurrences "a" (keys scan.fs_locations) ≤ 1
unfolding count_where
a-scanned = omega arith

a-right : is_right scan "a" ≡ true
unfolding look_up
a-right = refl

plan-IsRight_example :
    targets "a" (plan whole scan).proposed_moves (plan whole scan).proposed_adds ≡ 0
    × removals "a" (plan whole scan).proposed_moves (plan whole scan).proposed_deletes ≡ 0
plan-IsRight_example =
    plan-IsRight whole scan "a" (location "a" "h1") a-held a-single a-scanned scan-IsOwn a-right
