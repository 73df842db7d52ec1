-- ===== src/Runner/Config.antt =====
-- NewRunner: the checks and the defaults of a configuration.
use gooru.Prelude.{
  arith, zero, suc, ◌↔◌, ◌≡◌, refl, String, ◌==◌, Bool, true, false, not, List, [], ◌∷◌, ◌||◌,
  if◌then◌else◌, exists_where, Bool-cases, inl, inr,
}
use gooru.Prelude.Int.{ℤ, pos, negsuc, ltb_ℤ}
use gooru.Prelude.Outcome.{Outcome, ok, err, ok-injective, guard-inverse}
use mathlib.Core.Path.{subst}

-- a time.Duration in nanoseconds
abbrev pub default_lease_duration : ℤ
default_lease_duration = pos 30000000000

abbrev pub default_poll_interval : ℤ
default_poll_interval = pos 500000000

abbrev pub default_retry_delay : ℤ
default_retry_delay = pos 1000000000

pub data ConfigError : Type 0 where
  store_required resource_class_required worker_id_required handler_required : ConfigError
  handler_kind_and_function_required negative_retry_delay : ConfigError

-- A handler is its kind, and whether it is a function and not nil. The store is nil or not; the
-- clock and the wake-up channel are left out.
pub record RunnerConfig : Type 0 where
  pub has_store : Bool
  pub resource_class : String
  pub worker_id : String
  pub handlers : List (String × Bool)
  pub lease_duration : ℤ
  pub poll_interval : ℤ
  pub retry_delay : ℤ

pub record Runner : Type 0 where
  pub resource_class : String
  pub worker_id : String
  pub handlers : List (String × Bool)
  pub lease_duration : ℤ
  pub poll_interval : ℤ
  pub retry_delay : ℤ

abbrev is_empty : List (String × Bool) → Bool
is_empty [] = true
is_empty (h ∷ hs) = false

abbrev is_bad_handler : (String × Bool) → Bool
is_bad_handler (kind, is_function) = (kind == "") || not is_function

abbrev pub is_positive : ℤ → Bool
is_positive d = ltb_ℤ (pos 0) d

abbrev positive_or : ℤ → ℤ → ℤ
positive_or default d = if is_positive d then d else default

-- the default in place of 0
abbrev zero_or : ℤ → ℤ → ℤ
zero_or default (pos zero) = default
zero_or default (pos (suc n)) = pos (suc n)
zero_or default (negsuc n) = negsuc n

unfoldable pub new_runner : RunnerConfig → Outcome ConfigError Runner
new_runner cfg =
    if not cfg.has_store
    then err store_required
    else if cfg.resource_class == ""
    then err resource_class_required
    else if cfg.worker_id == ""
    then err worker_id_required
    else if is_empty cfg.handlers
    then err handler_required
    else if exists_where is_bad_handler cfg.handlers
    then err handler_kind_and_function_required
    else if ltb_ℤ cfg.retry_delay (pos 0)
    then err negative_retry_delay
    else ok (record {
      resource_class = cfg.resource_class;
      worker_id = cfg.worker_id;
      handlers = cfg.handlers;
      lease_duration = positive_or default_lease_duration cfg.lease_duration;
      poll_interval = positive_or default_poll_interval cfg.poll_interval;
      retry_delay = zero_or default_retry_delay cfg.retry_delay;
    })

-- what a runner relies on
pub record IsReady (r : Runner) : Type 0 where
  pub class_given : (r.resource_class == "") ≡ false
  pub worker_given : (r.worker_id == "") ≡ false
  pub handler_given : is_empty r.handlers ≡ false
  pub handlers_callable : exists_where is_bad_handler r.handlers ≡ false
  pub lease_positive : is_positive r.lease_duration ≡ true
  pub poll_positive : is_positive r.poll_interval ≡ true
  pub retry_positive : is_positive r.retry_delay ≡ true

positive_or-positive :
    (default d : ℤ) → is_positive default ≡ true → is_positive (positive_or default d) ≡ true
positive_or-positive default d h = elim (Bool-cases (is_positive d)) [
  | inl e ↦ rw (e, e) refl
  | inr e ↦ rw e h
]

zero_or-positive :
    (default d : ℤ)
    → is_positive default ≡ true
    → ltb_ℤ d (pos 0) ≡ false
    → is_positive (zero_or default d) ≡ true
zero_or-positive default (pos zero) h k = h
zero_or-positive default (pos (suc n)) h k = ground arith
zero_or-positive default (negsuc n) h k = cc

made-IsReady : (cfg : RunnerConfig) (r : Runner) → new_runner cfg ≡ ok r → IsReady r
unfolding new_runner
made-IsReady cfg r h =
    let stored = guard-inverse (not cfg.has_store) store_required _ r h in
    let class = guard-inverse (cfg.resource_class == "") resource_class_required _ r stored.1 in
    let worker = guard-inverse (cfg.worker_id == "") worker_id_required _ r class.1 in
    let some_handler = guard-inverse (is_empty cfg.handlers) handler_required _ r worker.1 in
    let callable =
      guard-inverse (exists_where is_bad_handler cfg.handlers) handler_kind_and_function_required _
        r some_handler.1 in
    let delay = guard-inverse (ltb_ℤ cfg.retry_delay (pos 0)) negative_retry_delay _ r callable.1 in
    subst IsReady (ok-injective _ r delay.1) (record {
      class_given = class.0;
      worker_given = worker.0;
      handler_given = some_handler.0;
      handlers_callable = callable.0;
      lease_positive = positive_or-positive default_lease_duration cfg.lease_duration refl;
      poll_positive = positive_or-positive default_poll_interval cfg.poll_interval refl;
      retry_positive = zero_or-positive default_retry_delay cfg.retry_delay refl delay.0;
    })

-- the configuration that asks for a runner's own values
abbrev pub config_of : Runner → RunnerConfig
config_of r = record {
  has_store = true;
  resource_class = r.resource_class;
  worker_id = r.worker_id;
  handlers = r.handlers;
  lease_duration = r.lease_duration;
  poll_interval = r.poll_interval;
  retry_delay = r.retry_delay;
}

positive-zero_or : (default d : ℤ) → is_positive d ≡ true → zero_or default d ≡ d
positive-zero_or default (pos zero) h = cc
positive-zero_or default (pos (suc n)) h = refl
positive-zero_or default (negsuc n) h = refl

not_negative : (d : ℤ) → is_positive d ≡ true → ltb_ℤ d (pos 0) ≡ false
not_negative (pos n) h = ground arith
not_negative (negsuc n) h = cc

IsReady-made : (r : Runner) → IsReady r → new_runner (config_of r) ≡ ok r
unfolding new_runner
IsReady-made r h =
    rw
      (
        h.class_given,
        h.worker_given,
        h.handler_given,
        h.handlers_callable,
        not_negative r.retry_delay h.retry_positive,
        h.lease_positive,
        h.poll_positive,
        positive-zero_or default_retry_delay r.retry_delay h.retry_positive,
      )
      refl

-- The runners that NewRunner makes of some configuration are those that name a resource class and a
-- worker, have a handler, whose handlers all have a kind and a function, and whose lease, poll
-- interval and retry delay are positive; such a runner's own values are a configuration that makes it.
pub new_runner-IsReady :
    (r : Runner)
    → (((cfg : RunnerConfig) × (new_runner cfg ≡ ok r)) ↔ IsReady r)
      × (IsReady r ↔ (new_runner (config_of r) ≡ ok r))
new_runner-IsReady r = (
  ((λ made. made-IsReady made.0 r made.1), (λ h. (config_of r, IsReady-made r h))),
  ((λ h. IsReady-made r h), (λ made. made-IsReady (config_of r) r made)),
)
