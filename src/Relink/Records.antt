-- ===== src/Relink/Records.antt =====
-- How often each record of the database is proposed for a move or a delete.
use gooru.Prelude.{
  ℕ, ◌+◌, ◌≡◌, ◌≢◌, refl, ap, ◌∙◌, sym, String, ◌==◌, Bool, true, false, not, Option, none, some,
  List, [], ◌∷◌, arith, Bool-cases, Option-cases, inl, inr, count_where, bit, if◌then◌else◌, ◌&&◌,
}
use gooru.Prelude.Rows.{find_where-selected}
use gooru.Relink.Plan.{
  same_content, LocationInfo, FileInfo, MoveInfo, PlanInput, Planning, look_up, or_zero, is_some,
  mem, keys, nothing_planned, plan_missing, plan_record, plan_records, plan_known, plan_content,
  plan_file, plan_files, planned, plan, sorted_location_keys, first_move_target,
  first_missing_old_path, is_missing_old_path, locations_by_hash, file_info, sort_by,
}
use gooru.Relink.Maps.{occurrences, occurrences-sorted, count-reversed, equal-path}

-- the file at a record's path has the record's content
abbrev pub is_right : PlanInput → String → Bool
is_right input path =
    same_content (or_zero (look_up path input.db_locations)) (look_up path input.fs_locations)

-- how often a path is proposed as the old path of a move, or as a delete
abbrev pub removals : String → List MoveInfo → List FileInfo → ℕ
removals p moves deletes =
    count_where (λ (m : MoveInfo). m.old_path == p) moves
    + count_where (λ (d : FileInfo). d.path == p) deletes

module _ (split : String → String → List String) (input : PlanInput) (p : String) where
  abbrev removed : Planning → ℕ
  removed s = removals p s.moves s.deletes

  removed-plan_missing :
      (k : String) (o : Option LocationInfo) (s : Planning)
      → removed (plan_missing split input k o s) ≡ bit (k == p) + removed s
  unfolding plan_missing count_where file_info
  removed-plan_missing k none s = omega arith
  removed-plan_missing k (some t) s = omega arith

  removed-plan_record :
      (k : String) (s : Planning)
      → removed (plan_record split input k (look_up k input.fs_locations) s)
        ≡ (if is_right input k then 0 else bit (k == p)) + removed s
  unfolding plan_record count_where file_info
  removed-plan_record k s = elim (Option-cases (look_up k input.fs_locations)) [
    | inl e ↦ rw e (
        removed-plan_missing k
          (first_move_target
            (locations_by_hash input.fs_locations (or_zero (look_up k input.db_locations)).hash)
            input.db_locations s.handled)
          s)
    | inr (f, e) ↦ elim (Bool-cases (f.hash == (or_zero (look_up k input.db_locations)).hash)) [
      | inl same ↦ rw (e, same) (omega arith)
      | inr other ↦ rw (e, other) (omega arith)
    ]
  ]

  same_right :
      (k : String)
      → (if is_right input k then 0 else bit (k == p))
        ≡ (if is_right input p then 0 else bit (k == p))
  same_right k = elim (Bool-cases (k == p)) [
    | inl e ↦ ap (λ q. if is_right input q then 0 else bit (k == p)) (equal-path k p e)
    | inr e ↦ rw e (never (is_right input k) (is_right input p))
  ]
    where
      never : (a b : Bool) → ◌≡◌ {A = ℕ} (if a then 0 else 0) (if b then 0 else 0)
      never true true = refl
      never true false = refl
      never false true = refl
      never false false = refl

  removed-plan_records :
      (ks : List String) (s : Planning)
      → removed (plan_records split input ks s)
        ≡ (if is_right input p then 0 else occurrences p ks) + removed s
  unfolding plan_records count_where
  removed-plan_records [] s = elim (Bool-cases (is_right input p)) [
    | inl e ↦ rw e (omega arith)
    | inr e ↦ rw e (omega arith)
  ]
  removed-plan_records (k ∷ ks) s =
      let next : Planning = plan_record split input k (look_up k input.fs_locations) s in
      let ih = removed-plan_records ks next in
      let step = removed-plan_record k s in
      let here : (if is_right input k then 0 else bit (k == p))
          ≡ (if is_right input p then 0 else bit (k == p)) =
        same_right k in
      ih
      ∙ ap (λ n. (if is_right input p then 0 else occurrences p ks) + n)
          (step ∙ ap (λ n. n + removed s) here)
      ∙ elim (Bool-cases (is_right input p)) [
        | inl e ↦ rw e (omega arith)
        | inr e ↦ rw e (omega arith)
      ]

  -- The path that a file of known content is moved from is that of no record in scope.
  other_path :
      (paths : List String) (used : List String) (o : String)
      → is_some (look_up p input.db_locations) ≡ true
      → first_missing_old_path paths input.db_locations input.missing_known_path used ≡ some o
      → (o == p) ≡ false
  unfolding first_missing_old_path
  other_path paths used o held found =
      let selected =
        find_where-selected (is_missing_old_path input.db_locations input.missing_known_path used)
          (sort_by (λ q. q) paths) found in
      let absent : is_some (look_up o input.db_locations) ≡ false =
        middle (not (mem o used)) (is_some (look_up o input.db_locations)) _ selected in
      elim (Bool-cases (o == p)) [
        | inr e ↦ e
        | inl e ↦ absurd (
            false≢true (
              sym absent
              ∙ ap (λ q. is_some (look_up q input.db_locations)) (equal-path o p e)
              ∙ held))
      ]
    where
      middle : (a b c : Bool) → (a && not b && c) ≡ true → b ≡ false
      middle true false c h = refl
      middle true true c h = cc
      middle false b c h = cc

      false≢true : false ≢ true
      false≢true e = cc

  removed-plan_known :
      (l : LocationInfo) (o : Option String) (s : Planning)
      → ((q : String) → o ≡ some q → (q == p) ≡ false)
      → removed (plan_known split input l o s) ≡ removed s
  unfolding plan_known count_where
  removed-plan_known l none s h = refl
  removed-plan_known l (some q) s h = rw (h q refl) (omega arith)

  removed-plan_content :
      (l : LocationInfo) (o : Option (List String)) (s : Planning)
      → is_some (look_up p input.db_locations) ≡ true
      → removed (plan_content split input l o s) ≡ removed s
  unfolding plan_content
  removed-plan_content l none s held = refl
  removed-plan_content l (some paths) s held =
      removed-plan_known l _ s (λ q found. other_path paths s.used q held found)

  removed-plan_file :
      (k : String) (s : Planning)
      → is_some (look_up p input.db_locations) ≡ true
      → removed (plan_file split input k s) ≡ removed s
  unfolding plan_file
  removed-plan_file k s held = elim (Bool-cases (mem k s.handled)) [
    | inl e ↦ rw e refl
    | inr e ↦ rw e (removed-plan_content _ _ s held)
  ]

  removed-plan_files :
      (ks : List String) (s : Planning)
      → is_some (look_up p input.db_locations) ≡ true
      → removed (plan_files split input ks s) ≡ removed s
  unfolding plan_files
  removed-plan_files [] s held = refl
  removed-plan_files (k ∷ ks) s held =
      removed-plan_files ks (plan_file split input k s) held ∙ removed-plan_file k s held

-- Each record of the database is proposed exactly once for a move or a delete if the file at its
-- path is missing or has other content, and not at all otherwise, where its path is a single key.
pub plan-removals :
    (split : String → String → List String) (input : PlanInput) (p : String)
    → is_some (look_up p input.db_locations) ≡ true
    → occurrences p (keys input.db_locations) ≡ 1
    → removals p (plan split input).proposed_moves (plan split input).proposed_deletes
      ≡ (if is_right input p then 0 else 1)
unfolding plan planned count_where
plan-removals split input p held single =
    let first : Planning =
      plan_records split input (sorted_location_keys input.db_locations) nothing_planned in
    let last : Planning = plan_files split input (sorted_location_keys input.fs_locations) first in
    let in_order = count-reversed (λ (m : MoveInfo). m.old_path == p) last.moves in
    let deletes = count-reversed (λ (d : FileInfo). d.path == p) last.deletes in
    let files =
      removed-plan_files split input p (sorted_location_keys input.fs_locations) first held in
    let records =
      removed-plan_records split input p (sorted_location_keys input.db_locations)
        nothing_planned in
    let once = occurrences-sorted p input.db_locations ∙ single in
    ap (λ n. n + count_where (λ (d : FileInfo). d.path == p) (plan split input).proposed_deletes)
      in_order
    ∙ ap (λ n. count_where (λ (m : MoveInfo). m.old_path == p) last.moves + n) deletes
    ∙ files
    ∙ records
    ∙ ap (λ n. (if is_right input p then 0 else n) + removed split input p nothing_planned) once
    ∙ omega arith
