-- ===== src/Relink/Plan.antt =====
-- The classification of internal/relink/planner.go, over types.LocationInfo and its maps.
use Prim.Native.String.{compare}
use Prim.Native.Nat.{Ordering}
use gooru.Prelude.{
  ℕ, String, ◌==◌, Bool, true, false, not, ◌&&◌, Option, none, some, List, [], ◌∷◌, ◌++◌,
  if◌then◌else◌, find_where,
}
use gooru.Prelude.Int.{ℤ, pos}

pub record LocationInfo : Type 0 where
  pub path : String
  pub storage_path : String
  pub hash : String
  pub size : ℤ
  pub mod_time : ℤ
  pub added_at : ℤ
  pub extension : String
  pub tags_cache : String

-- the fields that the planner sets
pub record FileInfo : Type 0 where
  pub path : String
  pub hash : String
  pub size : ℤ
  pub mod_time : ℤ
  pub tags : List String

pub record MoveInfo : Type 0 where
  pub old_path : String
  pub new_location : LocationInfo

-- A Go map from strings, as its entries in any order.
abbrev pub Map : Type 0 → Type 0
Map A = List (String × A)

pub record PlanInput : Type 0 where
  pub db_locations : Map LocationInfo
  pub fs_locations : Map LocationInfo
  pub known_paths_by_hash : Map (List String)
  pub missing_known_path : Map Bool
  pub files_scanned : ℕ

-- the fields of RelinkResult, with the number of scanned files of its Stats
pub record RelinkResult : Type 0 where
  pub files_scanned : ℕ
  pub proposed_moves : List MoveInfo
  pub proposed_adds : List LocationInfo
  pub proposed_deletes : List FileInfo

unfoldable pub look_up {ℓ} : {A : Type ℓ} → String → List (String × A) → Option A
look_up key [] = none
look_up key ((k, a) ∷ entries) = if k == key then some a else look_up key entries

-- a map[string]bool that holds only true
unfoldable pub mem : String → List String → Bool
mem key [] = false
mem key (k ∷ keys) = if k == key then true else mem key keys

-- the zero value, which a lookup of a missing key gives
abbrev pub no_location : LocationInfo
no_location = record {
  path = "";
  storage_path = "";
  hash = "";
  size = pos 0;
  mod_time = pos 0;
  added_at = pos 0;
  extension = "";
  tags_cache = "";
}

abbrev pub or_zero : Option LocationInfo → LocationInfo
or_zero none = no_location
or_zero (some l) = l

abbrev pub is_some {ℓ} : {A : Type ℓ} → Option A → Bool
is_some none = false
is_some (some a) = true

-- `a < b` on strings
abbrev pub less : String → String → Bool
less a b = elim (compare a b) [ Ordering.lt ↦ true | _ ↦ false ]

unfoldable pub insert_by {ℓ} : {A : Type ℓ} → (A → String) → A → List A → List A
insert_by key a [] = a ∷ []
insert_by key a (b ∷ bs) =
    let rest = insert_by key a bs in if less (key b) (key a) then b ∷ rest else a ∷ b ∷ bs

-- sort.Strings and sort.Slice, by a string of each element
unfoldable pub sort_by {ℓ} : {A : Type ℓ} → (A → String) → List A → List A
sort_by key [] = []
sort_by key (a ∷ rest) = insert_by key a (sort_by key rest)

abbrev pub keys {ℓ} : {A : Type ℓ} → List (String × A) → List String
keys [] = []
keys ((k, a) ∷ entries) = k ∷ keys entries

abbrev pub values {ℓ} : {A : Type ℓ} → List (String × A) → List A
values [] = []
values ((k, a) ∷ entries) = a ∷ values entries

unfoldable pub sorted_location_keys : Map LocationInfo → List String
sorted_location_keys locations = sort_by (λ k. k) (keys locations)

abbrev pub with_hash : String → List LocationInfo → List LocationInfo
with_hash hash [] = []
with_hash hash (l ∷ ls) = let rest = with_hash hash ls in if l.hash == hash then l ∷ rest else rest

-- the entry of `locationsByHash(locations)` at a hash
unfoldable pub locations_by_hash : Map LocationInfo → String → List LocationInfo
locations_by_hash locations hash = sort_by (λ l. l.path) (with_hash hash (values locations))

-- whether what the map holds has the same content
abbrev pub same_content : LocationInfo → Option LocationInfo → Bool
same_content l none = false
same_content l (some other) = other.hash == l.hash

-- a location that the database holds under its path with the same content
abbrev pub is_tracked : Map LocationInfo → LocationInfo → Bool
is_tracked db candidate = same_content candidate (look_up candidate.path db)

unfoldable pub first_move_target :
    List LocationInfo → Map LocationInfo → List String → Option LocationInfo
first_move_target candidates db handled =
    find_where (λ c. not (mem c.path handled) && not (is_tracked db c)) candidates

abbrev pub or_false : Option Bool → Bool
or_false none = false
or_false (some b) = b

abbrev pub is_missing_old_path : Map LocationInfo → Map Bool → List String → String → Bool
is_missing_old_path db missing used old_path =
    not (mem old_path used)
    && not (is_some (look_up old_path db))
    && or_false (look_up old_path missing)

unfoldable pub first_missing_old_path :
    List String → Map LocationInfo → Map Bool → List String → Option String
first_missing_old_path old_paths db missing used =
    find_where (is_missing_old_path db missing used) (sort_by (λ p. p) old_paths)

-- strings.Split is the parameter
unfoldable pub file_info : (String → String → List String) → String → LocationInfo → FileInfo
file_info split path loc = record {
  path = path;
  hash = loc.hash;
  size = loc.size;
  mod_time = loc.mod_time;
  tags = if not (loc.tags_cache == "") then split loc.tags_cache " " else [];
}

-- the variables of Plan; the lists grow at the front
pub record Planning : Type 0 where
  pub moves : List MoveInfo
  pub adds : List LocationInfo
  pub deletes : List FileInfo
  pub handled : List String
  pub used : List String

abbrev pub nothing_planned : Planning
nothing_planned = record { moves = []; adds = []; deletes = []; handled = []; used = [] }

abbrev pub handle_path : String → Planning → Planning
handle_path path s = record s { handled = path ∷ s.handled }

abbrev pub propose_delete : FileInfo → Planning → Planning
propose_delete file s = record s { deletes = file ∷ s.deletes }

abbrev pub propose_move : String → LocationInfo → Planning → Planning
propose_move old_path target s = record s {
  moves = record { old_path = old_path; new_location = target } ∷ s.moves;
  used = old_path ∷ s.used;
}

abbrev pub propose_add : LocationInfo → Planning → Planning
propose_add target s = record s { adds = target ∷ s.adds }

module _ (split : String → String → List String) (input : PlanInput) where
  abbrev db_info : String → LocationInfo
  db_info path = or_zero (look_up path input.db_locations)

  -- no file at the path of a record: the first target that is free, or a delete
  unfoldable pub plan_missing : String → Option LocationInfo → Planning → Planning
  plan_missing db_path none s = propose_delete (file_info split db_path (db_info db_path)) s
  plan_missing db_path (some target) s = handle_path target.path (propose_move db_path target s)

  -- the body of the loop over the records, from the file at the record's path
  unfoldable pub plan_record : String → Option LocationInfo → Planning → Planning
  plan_record db_path (some fs_info) s =
      if fs_info.hash == (db_info db_path).hash
      then handle_path db_path s
      else propose_delete (file_info split db_path (db_info db_path)) s
  plan_record db_path none s =
      plan_missing db_path
        (first_move_target (locations_by_hash input.fs_locations (db_info db_path).hash)
          input.db_locations s.handled)
        s

  unfoldable pub plan_records : List String → Planning → Planning
  plan_records [] s = s
  plan_records (db_path ∷ paths) s =
      plan_records paths (plan_record db_path (look_up db_path input.fs_locations) s)

  -- a file that no record is at, of content that the database knows under `old_paths`
  unfoldable pub plan_known : LocationInfo → Option String → Planning → Planning
  plan_known fs_info none s = propose_add fs_info s
  plan_known fs_info (some old_path) s = propose_move old_path fs_info s

  -- the same, from the lookup of its content
  unfoldable pub plan_content : LocationInfo → Option (List String) → Planning → Planning
  plan_content fs_info none s = s
  plan_content fs_info (some old_paths) s =
      plan_known fs_info
        (first_missing_old_path old_paths input.db_locations input.missing_known_path s.used) s

  abbrev fs_info : String → LocationInfo
  fs_info path = or_zero (look_up path input.fs_locations)

  -- the body of the loop over the files
  unfoldable pub plan_file : String → Planning → Planning
  plan_file fs_path s =
      if mem fs_path s.handled
      then s
      else plan_content (fs_info fs_path) (look_up (fs_info fs_path).hash input.known_paths_by_hash)
          s

  unfoldable pub plan_files : List String → Planning → Planning
  plan_files [] s = s
  plan_files (fs_path ∷ paths) s = plan_files paths (plan_file fs_path s)

  unfoldable pub planned : Planning
  planned =
      plan_files (sorted_location_keys input.fs_locations)
        (plan_records (sorted_location_keys input.db_locations) nothing_planned)

abbrev pub reversed {ℓ} : {A : Type ℓ} → List A → List A
reversed [] = []
reversed (a ∷ rest) = reversed rest ++ (a ∷ [])

-- `Plan`, each list in the order of the appends
unfoldable pub plan : (String → String → List String) → PlanInput → RelinkResult
plan split input =
    let s : Planning = planned split input in
    record {
      files_scanned = input.files_scanned;
      proposed_moves = reversed s.moves;
      proposed_adds = reversed s.adds;
      proposed_deletes = reversed s.deletes;
    }
