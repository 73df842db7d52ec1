-- ===== src/Work/Associations/Slots.antt =====
-- The lookup of an auxiliary behind its association.
use gooru.Prelude.{
  ℕ, String, ◌==◌, ◌≡◌, refl, ap, Bool, true, false, ◌&&◌, Option, none, some, List, [], ◌∷◌, ◌++◌,
  inl, inr, arith, Bool-cases, exists_where, find_where, update_where, eq_refl, eq_iff,
}
use mathlib.Core.Option.{some-injective}
use gooru.Prelude.Rows.{find_where-selected}
use gooru.Work.Schema.{is_active, Operation, Association, Db, normalize_work_time, work_time_value}
use gooru.Work.Result.{
  ok, ◌>>=◌, fail_if, Ensures, Ensures-ok, Ensures-err, Ensures-guard, Ensures-imp,
}
use gooru.Work.Associations.{
  is_alive, is_slot, is_current, auxiliary_of, find_active_associated_background_operation_id,
  can_associate, write_association, associate_background_operation,
}

-- A search by a stronger test finds the row that is new, or the row that is written.
module _ {ℓ} {A : Type ℓ} (p q : A → Bool) (stronger : (y : A) → p y ≡ false → q y ≡ false) where
  find-append :
      (xs : List A) (x : A)
      → find_where p xs ≡ none
      → q x ≡ true
      → find_where q (xs ++ x ∷ []) ≡ some x
  unfolding find_where
  find-append [] x h e = rw e
  find-append (y ∷ ys) x h e = elim (Bool-cases (p y)) [
    | inl t ↦ cc (rw t at h)
    | inr n ↦ rw (stronger y n) (find-append ys x (rw n at h) e)
  ]

  find-update :
      (f : A → A) (xs : List A) (a : A)
      → find_where p xs ≡ some a
      → q (f a) ≡ true
      → find_where q (update_where p f xs) ≡ some (f a)
  unfolding find_where update_where
  find-update f [] a h e = cc
  find-update f (y ∷ ys) a h e = elim (Bool-cases (p y)) [
    | inl t ↦ let same : y ≡ a = some-injective y a (rw t at h) in rw (t, same, e)
    | inr n ↦ rw (n, stronger y n) (find-update f ys a (rw n at h) e)
  ]

alive_auxiliary :
    (kind auxiliary : String) (ops : List Operation)
    → exists_where (λ o. o.id == auxiliary && (o.kind == kind && is_active o.status)) ops ≡ true
    → is_alive ops auxiliary ≡ true
unfolding exists_where
alive_auxiliary kind auxiliary [] h = cc
alive_auxiliary kind auxiliary (o ∷ os) h = ground (arith, alive_auxiliary kind auxiliary os)

current-new :
    (db : Db) (new : Association)
    → can_associate new.producer_operation_id new.auxiliary_kind new.auxiliary_operation_id
        db.operations
      ≡ true
    → is_current db new.producer_operation_id new.auxiliary_kind new ≡ true
unfolding is_current can_associate
current-new db new h =
    rw (eq_refl new.producer_operation_id, eq_refl new.auxiliary_kind)
      (ground
        (arith, alive_auxiliary new.auxiliary_kind new.auxiliary_operation_id db.operations, h))

abbrev Found : Association → Db → Type 0
Found new r =
    auxiliary_of
      (find_where (is_current r new.producer_operation_id new.auxiliary_kind) r.associations)
    ≡ some new.auxiliary_operation_id

not_slot :
    (db : Db) (p k : String) (y : Association) → is_slot p k y ≡ false → is_current db p k y ≡ false
unfolding is_current
not_slot db p k y h = ground arith

-- the SET clause of the upsert
abbrev write : Association → Association → Association
write new a = record a {
  auxiliary_operation_id = new.auxiliary_operation_id;
  created_at = new.created_at;
}

current-written :
    (db : Db) (new previous : Association)
    → is_slot new.producer_operation_id new.auxiliary_kind previous ≡ true
    → is_current db new.producer_operation_id new.auxiliary_kind new ≡ true
    → is_current db new.producer_operation_id new.auxiliary_kind (write new previous) ≡ true
unfolding is_current
current-written db new previous s c =
    let same : previous.producer_operation_id ≡ new.producer_operation_id =
      (eq_iff previous.producer_operation_id new.producer_operation_id).0 (ground (arith, s)) in
    rw (s, same) (ground (arith, c))

write-Found :
    (new : Association) (db : Db) (o : Option Association)
    → find_where (is_slot new.producer_operation_id new.auxiliary_kind) db.associations ≡ o
    → is_current db new.producer_operation_id new.auxiliary_kind new ≡ true
    → Ensures (Found new) (write_association new db o)
unfolding write_association is_current
write-Found new db none e c =
    elim (Bool-cases (
      exists_where (λ a. a.auxiliary_operation_id == new.auxiliary_operation_id) db.associations)) [
        | inl t ↦ rw t (Ensures-err _)
        | inr n ↦ rw n (
            Ensures-ok (record db { associations = db.associations ++ new ∷ [] })
              (ap auxiliary_of (
                find-append (is_slot new.producer_operation_id new.auxiliary_kind)
                  (is_current db new.producer_operation_id new.auxiliary_kind)
                  (not_slot db new.producer_operation_id new.auxiliary_kind) db.associations new e
                  c)))
      ]
write-Found new db (some previous) e c =
    let slot = is_slot new.producer_operation_id new.auxiliary_kind in
    let f = write new in
    Ensures-guard _ _ _ λ _. Ensures-guard _ _ _ λ _.
      Ensures-ok (record db { associations = update_where slot f db.associations })
        (ap auxiliary_of (
          find-update slot (is_current db new.producer_operation_id new.auxiliary_kind)
            (not_slot db new.producer_operation_id new.auxiliary_kind) f db.associations previous e
            (current-written db new previous (find_where-selected slot db.associations e) c)))

found-find :
    (producer kind auxiliary : String) (r : Db)
    → (producer == "") ≡ false
    → (kind == "") ≡ false
    → auxiliary_of (find_where (is_current r producer kind) r.associations) ≡ some auxiliary
    → find_active_associated_background_operation_id producer kind r ≡ ok (some auxiliary)
unfolding find_active_associated_background_operation_id fail_if ◌>>=◌
found-find producer kind auxiliary r named kinded h =
    rw (named, kinded) (ap (λ (o : Option String). ok o) h)

-- After a successful association, the active auxiliary that is found at the producer and the kind
-- is the associated one.
pub associate-find :
    (clock : ℕ) (producer kind auxiliary : String) (at : Option ℕ) (db : Db)
    → Ensures
        (λ r. find_active_associated_background_operation_id producer kind r ≡ ok (some auxiliary))
        (associate_background_operation clock producer kind auxiliary at db)
unfolding associate_background_operation
associate-find clock producer kind auxiliary at db =
    let new : Association = record {
      producer_operation_id = producer;
      auxiliary_kind = kind;
      auxiliary_operation_id = auxiliary;
      created_at = work_time_value (normalize_work_time clock at);
    } in
    Ensures-guard _ _ _ λ named. Ensures-guard _ _ _ λ kinded. Ensures-guard _ _ _ λ _.
      Ensures-guard _ _ _ λ _. Ensures-guard _ _ _ λ can.
        Ensures-imp _ (write-Found new db _ refl (current-new db new (ground (arith, can))))
          λ r found. found-find producer kind auxiliary r named kinded found

-- An association writes the table of associations alone.
pub associate-frame :
    (P : Db → Type 0) (clock : ℕ) (producer kind auxiliary : String) (at : Option ℕ) (db : Db)
    → ((rows : List Association) → P (record db { associations = rows }))
    → Ensures P (associate_background_operation clock producer kind auxiliary at db)
unfolding associate_background_operation
associate-frame P clock producer kind auxiliary at db h = Ensures-guard _ _ _ λ _.
    Ensures-guard _ _ _ λ _. Ensures-guard _ _ _ λ _.
      Ensures-guard _ _ _
        λ _. Ensures-guard _ _ _ λ _. written _ (find_where (is_slot producer kind) db.associations)
  where
    written : (new : Association) (o : Option Association) → Ensures P (write_association new db o)
    written new none =
        unfold write_association in
        elim (Bool-cases (
          exists_where (λ a. a.auxiliary_operation_id == new.auxiliary_operation_id)
            db.associations)) [ inl t ↦ rw t (Ensures-err _) | inr n ↦ rw n (Ensures-ok _ (h _)) ]
    written new (some previous) =
        unfold write_association in
        Ensures-guard _ _ _ λ _. Ensures-guard _ _ _ λ _. Ensures-ok _ (h _)
