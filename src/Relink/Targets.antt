-- ===== src/Relink/Targets.antt =====
-- How often each location is proposed as a target.
use mathlib.Core.Path.{subst}
use gooru.Prelude.{
  ℕ, ◌+◌, ◌≤◌, ◌≡◌, ◌≢◌, refl, ap, ◌∙◌, sym, String, ◌==◌, Bool, true, false, not, Option, none,
  some, List, [], ◌∷◌, arith, All, Bool-cases, Option-cases, inl, inr, count_where, bit,
  if◌then◌else◌, ◌&&◌,
}
use gooru.Prelude.Rows.{find_where-selected}
use gooru.Relink.Plan.{
  is_tracked, LocationInfo, MoveInfo, PlanInput, Planning, look_up, or_zero, mem, keys,
  nothing_planned, plan_missing, plan_record, plan_records, plan_known, plan_content, plan_file,
  plan_files, planned, plan, sorted_location_keys, first_move_target, locations_by_hash,
}
use gooru.Relink.Maps.{
  occurrences, occurrences-sorted, count-reversed, equal-path, mem-first, mem-later, IsOwn,
  visited-IsOwn,
}

-- how often a path is proposed as the target of a move, or as an addition
abbrev pub targets : String → List MoveInfo → List LocationInfo → ℕ
targets p moves adds =
    count_where (λ (m : MoveInfo). m.new_location.path == p) moves
    + count_where (λ (l : LocationInfo). l.path == p) adds

module _ (split : String → String → List String) (input : PlanInput) (p : String) where
  abbrev pub targeted : Planning → ℕ
  targeted s = targets p s.moves s.adds

  pub free_target :
      (candidates : List LocationInfo) (handled : List String) (t : LocationInfo)
      → first_move_target candidates input.db_locations handled ≡ some t
      → mem t.path handled ≡ false × is_tracked input.db_locations t ≡ false
  unfolding first_move_target
  free_target candidates handled t found =
      both (mem t.path handled) (is_tracked input.db_locations t) (
        find_where-selected (λ c. not (mem c.path handled) && not (is_tracked input.db_locations c))
          candidates found)
    where
      both : (a b : Bool) → (not a && not b) ≡ true → a ≡ false × b ≡ false
      both false false h = (refl, refl)
      both false true h = cc
      both true b h = cc

  -- the targets so far are paths that are handled
  Bounded : Planning → Type 0
  Bounded s = targeted s ≤ bit (mem p s.handled)

  Bounded-nothing : Bounded nothing_planned
  unfolding Bounded count_where mem
  Bounded-nothing = omega arith

  Bounded-plan_missing :
      (k : String) (o : Option LocationInfo) (s : Planning)
      → ((t : LocationInfo) → o ≡ some t → mem t.path s.handled ≡ false)
      → Bounded s
      → Bounded (plan_missing split input k o s)
  unfolding Bounded plan_missing count_where
  Bounded-plan_missing k none s free h = h
  Bounded-plan_missing k (some t) s free h = elim (Bool-cases (t.path == p)) [
    | inl e ↦
        let fresh : mem p s.handled ≡ false =
          ap (λ q. mem q s.handled) (sym (equal-path t.path p e)) ∙ free t refl in
        rw (e, mem-first p t.path s.handled (equal-path t.path p e)) (omega (arith, rw fresh at h))
    | inr e ↦ rw (e, mem-later p t.path s.handled e) (omega (arith, h))
  ]

  Bounded-plan_record :
      (k : String) (s : Planning)
      → Bounded s
      → Bounded (plan_record split input k (look_up k input.fs_locations) s)
  unfolding Bounded plan_record
  Bounded-plan_record k s h = elim (Option-cases (look_up k input.fs_locations)) [
    | inl e ↦ rw e (
        Bounded-plan_missing k _ s
          (λ t found.
            (free_target
              (locations_by_hash input.fs_locations (or_zero (look_up k input.db_locations)).hash)
              s.handled t found).0)
          h)
    | inr (f, e) ↦ elim (Bool-cases (f.hash == (or_zero (look_up k input.db_locations)).hash)) [
      | inl same ↦
          rw (e, same)
            (elim (Bool-cases (k == p)) [
              | inl here ↦
                  rw (mem-first p k s.handled (equal-path k p here))
                    (bounded_by_one (targeted s) (mem p s.handled) h)
              | inr other ↦ rw (mem-later p k s.handled other) h
            ])
      | inr other ↦ rw (e, other) h
    ]
  ]
    where
      bounded_by_one : (n : ℕ) (b : Bool) → n ≤ bit b → n ≤ 1
      bounded_by_one n true h = h
      bounded_by_one n false h = omega (arith, h)

  Bounded-plan_records :
      (ks : List String) (s : Planning) → Bounded s → Bounded (plan_records split input ks s)
  unfolding plan_records
  Bounded-plan_records [] s h = h
  Bounded-plan_records (k ∷ ks) s h = Bounded-plan_records ks _ (Bounded-plan_record k s h)

  -- how often the path can still become a target
  abbrev pub left : List String → Planning → ℕ
  left ks s = if mem p s.handled then 0 else occurrences p ks

  targeted-plan_known :
      (l : LocationInfo) (o : Option String) (s : Planning)
      → targeted (plan_known split input l o s) ≤ bit (l.path == p) + targeted s
        × (plan_known split input l o s).handled ≡ s.handled
  unfolding plan_known count_where
  targeted-plan_known l none s = (omega arith, refl)
  targeted-plan_known l (some q) s = (omega arith, refl)

  -- a file adds a target at its own path at most
  targeted-plan_content :
      (l : LocationInfo) (o : Option (List String)) (s : Planning)
      → targeted (plan_content split input l o s) ≤ bit (l.path == p) + targeted s
        × (plan_content split input l o s).handled ≡ s.handled
  unfolding plan_content
  targeted-plan_content l none s = (omega arith, refl)
  targeted-plan_content l (some paths) s = targeted-plan_known l _ s

  left-after :
      (k : String) (ks : List String) (s next : Planning)
      → mem k s.handled ≡ false
      → targeted next ≤ bit (k == p) + targeted s × next.handled ≡ s.handled
      → targeted next + left ks next ≤ targeted s + left (k ∷ ks) s
  unfolding count_where
  left-after k ks s next free step = elim (Bool-cases (mem p s.handled)) [
    | inl taken ↦
        let other : (k == p) ≡ false = elim (Bool-cases (k == p)) [
          | inr e ↦ e
          | inl e ↦
              absurd
                (true≢false (sym taken ∙ ap (λ q. mem q s.handled) (sym (equal-path k p e)) ∙ free))
        ] in
        let small : targeted next ≤ targeted s = omega (arith, rw other at step.0) in
        rw (step.1, taken) (omega (arith, small))
    | inr open_path ↦ rw (step.1, open_path) (omega (arith, step.0))
  ]
    where
      true≢false : true ≢ false
      true≢false e = cc

  targeted-plan_file :
      (k : String) (ks : List String) (s : Planning)
      → (or_zero (look_up k input.fs_locations)).path ≡ k
      → targeted (plan_file split input k s) + left ks (plan_file split input k s)
        ≤ targeted s + left (k ∷ ks) s
  unfolding plan_file count_where
  targeted-plan_file k ks s own = elim (Bool-cases (mem k s.handled)) [
    | inl e ↦ rw e (elim (Bool-cases (mem p s.handled)) [
      | inl t ↦ rw t (omega arith)
      | inr t ↦ rw t (omega arith)
    ])
    | inr e ↦
        let l : LocationInfo = or_zero (look_up k input.fs_locations) in
        let step = targeted-plan_content l (look_up l.hash input.known_paths_by_hash) s in
        rw e (
          left-after k ks s
            (plan_content split input l (look_up l.hash input.known_paths_by_hash) s) e
            (
              subst
                  (λ q.
                    targeted
                      (plan_content split input l (look_up l.hash input.known_paths_by_hash) s)
                    ≤ bit (q == p) + targeted s)
                  own step.0,
              step.1,
            ))
  ]

  pub targeted-plan_files :
      (ks : List String) (s : Planning)
      → All (λ k. (or_zero (look_up k input.fs_locations)).path ≡ k) ks
      → targeted (plan_files split input ks s) ≤ targeted s + left ks s
  unfolding plan_files
  targeted-plan_files [] s own = omega arith
  targeted-plan_files (k ∷ ks) s own = omega (
    arith,
    targeted-plan_files ks (plan_file split input k s) own.1,
    targeted-plan_file k ks s own.0,
  )

-- No location is proposed twice, for moves and additions together, where the scan holds each
-- location under its own path, and this path once.
pub plan-targets :
    (split : String → String → List String) (input : PlanInput) (p : String)
    → All IsOwn input.fs_locations
    → occurrences p (keys input.fs_locations) ≤ 1
    → targets p (plan split input).proposed_moves (plan split input).proposed_adds ≤ 1
unfolding plan planned Bounded
plan-targets split input p own single =
    let first : Planning =
      plan_records split input (sorted_location_keys input.db_locations) nothing_planned in
    let last : Planning = plan_files split input (sorted_location_keys input.fs_locations) first in
    let moves = count-reversed (λ (m : MoveInfo). m.new_location.path == p) last.moves in
    let adds = count-reversed (λ (l : LocationInfo). l.path == p) last.adds in
    let files =
      targeted-plan_files split input p (sorted_location_keys input.fs_locations) first
        (visited-IsOwn input.fs_locations own) in
    let bounded : Bounded split input p first =
      Bounded-plan_records split input p _ nothing_planned (Bounded-nothing split input p) in
    let visits = occurrences-sorted p input.fs_locations in
    elim (Bool-cases (mem p first.handled)) [
      | inl e ↦ omega (arith, moves, adds, rw e at files, rw e at bounded)
      | inr e ↦ omega (arith, moves, adds, rw e at files, rw e at bounded, visits, single)
    ]
