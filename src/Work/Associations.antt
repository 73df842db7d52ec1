-- ===== src/Work/Associations.antt =====
-- Auxiliary operations: internal/database/durable_work_association.go over the table of migration
-- 040, whose keys are (producer, kind) and the auxiliary.
pub mod Slots
use gooru.Prelude.{
  ℕ, String, ◌==◌, Bool, true, false, not, ◌&&◌, ◌||◌, Option, none, some, List, [], ◌∷◌, ◌++◌,
  if◌then◌else◌, exists_where, find_where, update_where,
}
use gooru.Work.Schema.{is_active, Operation, Association, Db, normalize_work_time, work_time_value}
use gooru.Work.Result.{
  Result, ok, err, ◌>>=◌, ◌>>◌, fail_if, constraint_violation, producer_id_required,
  auxiliary_kind_required, auxiliary_id_required, ids_must_differ, not_associated,
}

-- EXISTS (SELECT 1 FROM background_operations WHERE id = ? AND status IN ('pending', 'running'))
abbrev pub is_alive : List Operation → String → Bool
is_alive ops id = exists_where (λ o. o.id == id && is_active o.status) ops

-- the primary key
abbrev pub is_slot : String → String → Association → Bool
is_slot producer kind a = a.producer_operation_id == producer && a.auxiliary_kind == kind

-- both joined operations are active
unfoldable pub is_current : Db → String → String → Association → Bool
is_current db producer kind a =
    is_slot producer kind a
    && (is_alive db.operations a.producer_operation_id
        && is_alive db.operations a.auxiliary_operation_id)

abbrev pub auxiliary_of : Option Association → Option String
auxiliary_of none = none
auxiliary_of (some a) = some a.auxiliary_operation_id

-- `FindActiveAssociatedBackgroundOperationID`
unfoldable pub find_active_associated_background_operation_id :
    String → String → Db → Result (Option String)
find_active_associated_background_operation_id producer kind db = do
  fail_if (producer == "") producer_id_required
  fail_if (kind == "") auxiliary_kind_required
  ok (auxiliary_of (find_where (is_current db producer kind) db.associations))

-- the SELECT ... WHERE EXISTS ... of the INSERT
unfoldable pub can_associate : String → String → String → List Operation → Bool
can_associate producer kind auxiliary ops =
    is_alive ops producer
    && exists_where (λ o. o.id == auxiliary && (o.kind == kind && is_active o.status)) ops

-- the WHERE clause of DO UPDATE: the previous auxiliary has ended
unfoldable pub is_replaceable : List Operation → Association → Bool
is_replaceable ops a =
    exists_where (λ o. o.id == a.auxiliary_operation_id && not (is_active o.status)) ops

-- ON CONFLICT(producer_operation_id, auxiliary_kind) DO UPDATE, or the new row; either may violate
-- the key of the auxiliary
unfoldable pub write_association : Association → Db → Option Association → Result Db
write_association new db none =
    if exists_where (λ a. a.auxiliary_operation_id == new.auxiliary_operation_id) db.associations
    then err constraint_violation
    else ok (record db { associations = db.associations ++ new ∷ [] })
write_association new db (some previous) = do
  fail_if (not (is_replaceable db.operations previous)) not_associated
  let slot = is_slot new.producer_operation_id new.auxiliary_kind
  fail_if
      (exists_where (λ a. a.auxiliary_operation_id == new.auxiliary_operation_id && not (slot a))
        db.associations)
      constraint_violation
  ok (record db {
    associations =
        update_where slot
          (λ a. record a {
            auxiliary_operation_id = new.auxiliary_operation_id;
            created_at = new.created_at;
          })
          db.associations;
  })

-- `AssociateBackgroundOperation`
unfoldable pub associate_background_operation :
    ℕ → String → String → String → Option ℕ → Db → Result Db
associate_background_operation clock producer kind auxiliary created_at db = do
  fail_if (producer == "") producer_id_required
  fail_if (kind == "") auxiliary_kind_required
  fail_if (auxiliary == "") auxiliary_id_required
  fail_if (producer == auxiliary) ids_must_differ
  fail_if (not (can_associate producer kind auxiliary db.operations)) not_associated
  write_association
      (record {
        producer_operation_id = producer;
        auxiliary_kind = kind;
        auxiliary_operation_id = auxiliary;
        created_at = work_time_value (normalize_work_time clock created_at);
      })
      db (find_where (is_slot producer kind) db.associations)
