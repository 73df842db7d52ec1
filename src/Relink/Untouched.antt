-- ===== src/Relink/Untouched.antt =====
-- A file whose record is right, through both passes.
use mathlib.Core.Path.{subst}
use gooru.Prelude.{
  ◌≤◌, ◌≡◌, ◌≢◌, refl, ap, ◌∙◌, sym, String, ◌==◌, eq_refl, true, false, Option, none, some, List,
  [], ◌∷◌, arith, All, Bool-cases, Option-cases, inl, inr, count_where,
}
use gooru.Prelude.Rows.{OnSome, find_where-OnSome}
use gooru.Relink.Plan.{
  is_tracked, LocationInfo, MoveInfo, PlanInput, Planning, look_up, or_zero, is_some, mem, keys,
  values, with_hash, nothing_planned, plan_missing, plan_record, plan_records, plan_files, planned,
  plan, sorted_location_keys, first_move_target, locations_by_hash,
}
use gooru.Relink.Maps.{
  occurrences, occurrences-sorted, count-reversed, equal-path, mem-first, mem-more, IsOwn,
  visited-IsOwn, single-location, All-sort_by,
}
use gooru.Relink.Records.{is_right, removals, plan-removals}
use gooru.Relink.Targets.{targets, targeted, free_target, targeted-plan_files}

module _ (p : String) (input : PlanInput) where
  -- of the locations of path `p`, only that under the key `p`
  abbrev IsHeld : LocationInfo → Type 0
  IsHeld l = l.path ≡ p → look_up p input.fs_locations ≡ some l

  with_hash-IsHeld :
      (hash : String) (ls : List LocationInfo) → All IsHeld ls → All IsHeld (with_hash hash ls)
  with_hash-IsHeld hash [] h = tt
  with_hash-IsHeld hash (l ∷ ls) h = elim (Bool-cases (l.hash == hash)) [
    | inl e ↦ rw e (h.0, with_hash-IsHeld hash ls h.1)
    | inr e ↦ rw e (with_hash-IsHeld hash ls h.1)
  ]

  candidates-IsHeld :
      (hash : String)
      → occurrences p (keys input.fs_locations) ≤ 1
      → All IsOwn input.fs_locations
      → All IsHeld (locations_by_hash input.fs_locations hash)
  unfolding locations_by_hash
  candidates-IsHeld hash single own =
      All-sort_by IsHeld (λ l. l.path) _
        (with_hash-IsHeld hash (values input.fs_locations)
          (single-location p input.fs_locations single own))

  target-IsHeld :
      (hash : String) (handled : List String) (t : LocationInfo)
      → occurrences p (keys input.fs_locations) ≤ 1
      → All IsOwn input.fs_locations
      → first_move_target (locations_by_hash input.fs_locations hash) input.db_locations handled
        ≡ some t
      → IsHeld t
  unfolding first_move_target
  target-IsHeld hash handled t single own found =
      (subst (OnSome _) found (
        find_where-OnSome IsHeld _ (locations_by_hash input.fs_locations hash)
          (candidates-IsHeld hash single own))).0

  -- a location of a right record is tracked
  right-tracked :
      (t info : LocationInfo)
      → look_up p input.db_locations ≡ some info
      → look_up p input.fs_locations ≡ some t
      → is_right input p ≡ true
      → t.path ≡ p
      → is_tracked input.db_locations t ≡ true
  right-tracked t info held here right at =
      let same : t.hash ≡ info.hash = equal-path t.hash info.hash (rw (held, here) at right) in
      rw (at, held, same) (eq_refl info.hash)

module _ (split : String → String → List String) (p : String) (input : PlanInput) where
  untargeted-plan_missing :
      (k : String) (o : Option LocationInfo) (s : Planning)
      → ((t : LocationInfo) → o ≡ some t → (t.path == p) ≡ false)
      → targeted split input p (plan_missing split input k o s) ≡ targeted split input p s
  unfolding plan_missing count_where
  untargeted-plan_missing k none s other = refl
  untargeted-plan_missing k (some t) s other = rw (other t refl) (omega arith)

  module _ (info : LocationInfo) (held : look_up p input.db_locations ≡ some info)
      (right : is_right input p ≡ true) (single : occurrences p (keys input.fs_locations) ≤ 1)
      (own : All IsOwn input.fs_locations) where
    target-other :
        (hash : String) (handled : List String) (t : LocationInfo)
        → first_move_target (locations_by_hash input.fs_locations hash) input.db_locations handled
          ≡ some t
        → (t.path == p) ≡ false
    target-other hash handled t found = elim (Bool-cases (t.path == p)) [
      | inr e ↦ e
      | inl e ↦
          let at : t.path ≡ p = equal-path t.path p e in
          let here = target-IsHeld p input hash handled t single own found at in
          let free = (free_target split input p _ handled t found).1 in
          absurd (true≢false (sym (right-tracked p input t info held here right at) ∙ free))
    ]
      where
        true≢false : true ≢ false
        true≢false e = cc

    -- a record adds no target at the path
    untargeted-plan_record :
        (k : String) (s : Planning)
        → targeted split input p (plan_record split input k (look_up k input.fs_locations) s)
          ≡ targeted split input p s
    unfolding plan_record
    untargeted-plan_record k s = elim (Option-cases (look_up k input.fs_locations)) [
      | inl e ↦ rw e (untargeted-plan_missing k _ s (λ t found. target-other _ s.handled t found))
      | inr (f, e) ↦ elim (Bool-cases (f.hash == (or_zero (look_up k input.db_locations)).hash)) [
        | inl same ↦ rw (e, same) refl
        | inr other ↦ rw (e, other) refl
      ]
    ]

    untargeted-plan_records :
        (ks : List String) (s : Planning)
        → targeted split input p (plan_records split input ks s) ≡ targeted split input p s
    unfolding plan_records
    untargeted-plan_records [] s = refl
    untargeted-plan_records (k ∷ ks) s = untargeted-plan_records ks _ ∙ untargeted-plan_record k s

  -- what is handled stays handled
  handled-plan_missing :
      (k : String) (o : Option LocationInfo) (s : Planning)
      → mem p s.handled ≡ true
      → mem p (plan_missing split input k o s).handled ≡ true
  unfolding plan_missing
  handled-plan_missing k none s h = h
  handled-plan_missing k (some t) s h = mem-more p t.path s.handled h

  handled-plan_record :
      (k : String) (s : Planning)
      → mem p s.handled ≡ true
      → mem p (plan_record split input k (look_up k input.fs_locations) s).handled ≡ true
  unfolding plan_record
  handled-plan_record k s h = elim (Option-cases (look_up k input.fs_locations)) [
    | inl e ↦ rw e (handled-plan_missing k _ s h)
    | inr (f, e) ↦ elim (Bool-cases (f.hash == (or_zero (look_up k input.db_locations)).hash)) [
      | inl same ↦ rw (e, same) (mem-more p k s.handled h)
      | inr other ↦ rw (e, other) h
    ]
  ]

  handled-plan_records :
      (ks : List String) (s : Planning)
      → mem p s.handled ≡ true
      → mem p (plan_records split input ks s).handled ≡ true
  unfolding plan_records
  handled-plan_records [] s h = h
  handled-plan_records (k ∷ ks) s h = handled-plan_records ks _ (handled-plan_record k s h)

  -- a right record is handled when the loop meets it
  handled-right :
      (s : Planning)
      → is_right input p ≡ true
      → mem p (plan_record split input p (look_up p input.fs_locations) s).handled ≡ true
  unfolding plan_record
  handled-right s right = elim (Option-cases (look_up p input.fs_locations)) [
    | inl e ↦ absurd (false≢true (rw e at right))
    | inr (f, e) ↦ rw (e, rw e at right) (mem-first p p s.handled refl)
  ]
    where
      false≢true : false ≢ true
      false≢true e = cc

  visited-right :
      (ks : List String) (s : Planning)
      → is_right input p ≡ true
      → occurrences p ks ≡ 1
      → mem p (plan_records split input ks s).handled ≡ true
  unfolding plan_records count_where
  visited-right [] s right once = absurd (omega (arith, once))
  visited-right (k ∷ ks) s right once = elim (Bool-cases (k == p)) [
    | inl e ↦ handled-plan_records ks _ (
        subst
          (λ q. mem p (plan_record split input q (look_up q input.fs_locations) s).handled ≡ true)
          (sym (equal-path k p e)) (handled-right s right))
    | inr e ↦ visited-right ks _ right (omega (arith, rw e at once))
  ]

-- Where the file at the path of a record has the record's content, the path is neither the target
-- of a move or an addition nor moved or deleted itself, for maps that have the path once and a
-- scan that holds each location under its own path.
pub plan-IsRight :
    (split : String → String → List String) (input : PlanInput) (p : String) (info : LocationInfo)
    → look_up p input.db_locations ≡ some info
    → occurrences p (keys input.db_locations) ≡ 1
    → occurrences p (keys input.fs_locations) ≤ 1
    → All IsOwn input.fs_locations
    → is_right input p ≡ true
    → targets p (plan split input).proposed_moves (plan split input).proposed_adds ≡ 0
      × removals p (plan split input).proposed_moves (plan split input).proposed_deletes ≡ 0
unfolding plan planned count_where
plan-IsRight split input p info held once single own right =
    let first : Planning =
      plan_records split input (sorted_location_keys input.db_locations) nothing_planned in
    let last : Planning = plan_files split input (sorted_location_keys input.fs_locations) first in
    let moves = count-reversed (λ (m : MoveInfo). m.new_location.path == p) last.moves in
    let adds = count-reversed (λ (l : LocationInfo). l.path == p) last.adds in
    let files =
      targeted-plan_files split input p (sorted_location_keys input.fs_locations) first
        (visited-IsOwn input.fs_locations own) in
    let none_yet =
      untargeted-plan_records split p input info held right single own
        (sorted_location_keys input.db_locations) nothing_planned in
    let visited =
      visited-right split p input (sorted_location_keys input.db_locations) nothing_planned right
        (occurrences-sorted p input.db_locations ∙ once) in
    let removed = plan-removals split input p (ap is_some held) once in
    (omega (arith, moves, adds, rw visited at files, none_yet), removed ∙ rw right refl)
