-- ===== src/Work/Result.antt =====
-- The errors of the durable work store. An operation that fails rolls its transaction back, so a
-- result is a value with the next state, or an error alone.
use gooru.Prelude.{Bool, true, false, ◌≡◌, refl, ap, Option, none, some}
use mathlib.Core.Path.{subst}
use gooru.Prelude.Rows.{OnSome}

pub data Error : Type 0 where
  operation_id_required operation_kind_required negative_progress_total : Error
  pending_limit_not_positive : Error
  task_id_required dedupe_key_required task_kind_required max_attempts_not_positive : Error
  cleanup_dedupe_key_required cleanup_kind_required cleanup_max_attempts_not_positive : Error
  -- RAISE(ABORT) of the trigger of migration 024, and a violated key of the schema
  operation_is_canceled constraint_violation : Error
  dedupe_state_kept_changing dedupe_key_already_active : Error
  resource_class_required worker_id_required lease_duration_not_positive : Error
  lease_lost task_and_worker_required task_and_attempt_required : Error
  -- `requireOneBackgroundAttempt`, sql.ErrNoRows, and an inconsistent row
  attempt_rows_mismatch no_rows missing_lease_expiry : Error
  cleanup_must_be_detached : Error
  invalid_json too_large not_active : Error
  operation_missing not_unattached_reservation : Error
  producer_id_required auxiliary_kind_required auxiliary_id_required ids_must_differ : Error
  not_associated kind_required : Error

pub data Result {ℓ} (A : Type ℓ) : Type ℓ where
  ok : A → Result A
  err : Error → Result A

infixl 5 ◌>>=◌ ◌>>◌
unfoldable pub ◌>>=◌ {ℓ κ} : {A : Type ℓ} {B : Type κ} → Result A → (A → Result B) → Result B
ok a >>= f = f a
err e >>= f = err e

-- `if b { return e }`
unfoldable pub fail_if : Bool → Error → Result (Unit {0})
fail_if true e = err e
fail_if false e = ok tt

abbrev pub ◌>>◌ {ℓ} : {B : Type ℓ} → Result (Unit {0}) → Result B → Result B
m >> k = m >>= λ _. k

-- a statement that must affect a row
unfoldable pub required {ℓ} : {A : Type ℓ} → Error → Option A → Result A
required e none = err e
required e (some a) = ok a

abbrev pub error_of {ℓ} : {A : Type ℓ} → Error → Result A → Error
error_of d (ok a) = d
error_of d (err e) = e

-- Every successful result satisfies `P`.
pub record Ensures {ℓ κ} {A : Type ℓ} (P : A → Type κ) (m : Result A) : Type (ℓ ⊔ κ) where
  pub at : (a : A) → m ≡ ok a → P a

abbrev payload {ℓ} : {A : Type ℓ} → A → Result A → A
payload d (ok a) = a
payload d (err e) = d

module _ {ℓ κ} {A : Type ℓ} {P : A → Type κ} where
  pub Ensures-ok : (a : A) → P a → Ensures P (ok a)
  Ensures-ok a h = record { at = λ b e. subst P (ap (payload a) e) h }

  pub Ensures-err : (e : Error) → Ensures P (err e)
  Ensures-err e = record { at = λ b h. cc }

  pub Ensures-guard :
      (b : Bool) (e : Error) (rest : Result A)
      → (b ≡ false → Ensures P rest)
      → Ensures P (fail_if b e >> rest)
  unfolding fail_if ◌>>=◌
  Ensures-guard true e rest k = Ensures-err e
  Ensures-guard false e rest k = k refl

  pub Ensures-required : (e : Error) (o : Option A) → OnSome P o → Ensures P (required e o)
  unfolding required
  Ensures-required e none h = Ensures-err e
  Ensures-required e (some a) h = Ensures-ok a h

module _ {ℓ κ μ ν} {A : Type ℓ} {B : Type κ} {P : A → Type ν} {Q : B → Type μ} where
  -- The rule for a bind, from what the first part ensures.
  pub Ensures-then :
      (m : Result A) (f : A → Result B)
      → Ensures P m
      → ((a : A) → P a → Ensures Q (f a))
      → Ensures Q (m >>= f)
  unfolding ◌>>=◌
  Ensures-then (ok a) f h k = k a (h.at a refl)
  Ensures-then (err e) f h k = Ensures-err e

module _ {ℓ κ μ} {A : Type ℓ} {B : Type κ} {Q : B → Type μ} where
  -- The rule for a bind whose first part has no property.
  pub Ensures-bind :
      (m : Result A) (f : A → Result B)
      → ((a : A) → m ≡ ok a → Ensures Q (f a))
      → Ensures Q (m >>= f)
  unfolding ◌>>=◌
  Ensures-bind (ok a) f k = k a refl
  Ensures-bind (err e) f k = Ensures-err e

module _ {ℓ κ μ} {A : Type ℓ} {P : A → Type κ} {Q : A → Type μ} where
  pub Ensures-imp : (m : Result A) → Ensures P m → ((a : A) → P a → Q a) → Ensures Q m
  Ensures-imp m h k = record { at = λ a e. k a (h.at a e) }
