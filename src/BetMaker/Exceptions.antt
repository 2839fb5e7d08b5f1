-- ===== src/BetMaker/Exceptions.antt =====
-- The exceptions of src/bet_maker, and tenacity's `retry`, which the client of line-provider
-- (facades/line_provider_client.py) and the consumer (api/messaging.py) put round their calls.
use bsw.Common.{ℕ, suc, zero, ◌≡◌, ◌≢◌, ◌⊎◌, inl, inr, refl, Bool, true, false, leb, Bool-cases}

-- The three reasons of EventNotBettable.
pub data Reason : Type 0 where
  event_not_found deadline_passed event_not_active : Reason

-- The classes of exception that the code tells apart. The flag of a DBAPIError is its
-- `connection_invalidated`; OperationalError and IntegrityError are subclasses of DBAPIError. A
-- malformed payload is any of JSONDecodeError, KeyError, ValueError and ValidationError there.
-- CancelledError is the one that is no `Exception`.
pub data Exn : Type 0 where
  operational_error integrity_error dbapi_error : Bool → Exn
  http_status_error : ℕ → Exn
  event_not_bettable : Reason → Exn
  timeout_error validation_error unsupported_schema_version transport_error malformed_payload
        line_provider_unavailable cancelled_error other_error :
      Exn

pub data Outcome {ℓ} (A : Type ℓ) : Type ℓ where
  returned : A → Outcome A
  raised : Exn → Outcome A

pub Outcome-cases {ℓ} :
    {A : Type ℓ} (o : Outcome A) → ((a : A) × (o ≡ returned a)) ⊎ ((x : Exn) × (o ≡ raised x))
Outcome-cases (returned a) = inl (a, refl)
Outcome-cases (raised x) = inr (x, refl)

pub returned_inj {ℓ} : {A : Type ℓ} {a b : A} → returned a ≡ returned b → a ≡ b
returned_inj e = cc

pub raised_inj {ℓ} : {A : Type ℓ} {x y : Exn} → ◌≡◌ {A = Outcome A} (raised x) (raised y) → x ≡ y
raised_inj e = cc

pub returned-ne-raised {ℓ} : {A : Type ℓ} {a : A} {x : Exn} → returned a ≢ raised x
returned-ne-raised e = cc

-- `isinstance(exc, Exception)`
abbrev pub is_exception : Exn → Bool
is_exception cancelled_error = false
is_exception _ = true

pub is_exception_lem : (x : Exn) → x ≢ cancelled_error → is_exception x ≡ true
is_exception_lem cancelled_error h = absurd (h refl)
is_exception_lem _ h = refl

-- `_is_retryable` of facades/line_provider_client.py
unfoldable pub is_retryable : Exn → Bool
is_retryable transport_error = true
is_retryable (http_status_error code) = leb 500 code
is_retryable _ = false

-- `_is_transient` of api/messaging.py
unfoldable pub is_transient : Exn → Bool
is_transient (operational_error invalidated) = true
is_transient (integrity_error invalidated) = invalidated
is_transient (dbapi_error invalidated) = invalidated
is_transient timeout_error = true
is_transient _ = false

-- tenacity's `retry(stop=stop_after_attempt(n), retry=retry_if_exception(p), reraise=True)`, which is
-- not in the repository: a call on a state, with the documented behaviour as laws. The waits are
-- left out.
pub record Tenacity : Type 1 where
  pub retry : {S A : Type 0} → ℕ → (Exn → Bool) → (S → Outcome A × S) → S → Outcome A × S
  pub retry_returned :
      {S A : Type 0} (n : ℕ) (p : Exn → Bool) (call : S → Outcome A × S) (s s' : S) (a : A)
      → call s ≡ (returned a, s')
      → retry (suc n) p call s ≡ (returned a, s')
  pub retry_refused :
      {S A : Type 0} (n : ℕ) (p : Exn → Bool) (call : S → Outcome A × S) (s s' : S) (x : Exn)
      → call s ≡ (raised x, s')
      → p x ≡ false
      → retry (suc n) p call s ≡ (raised x, s')
  pub retry_last :
      {S A : Type 0} (p : Exn → Bool) (call : S → Outcome A × S) (s s' : S) (x : Exn)
      → call s ≡ (raised x, s')
      → retry 1 p call s ≡ (raised x, s')
  pub retry_again :
      {S A : Type 0} (n : ℕ) (p : Exn → Bool) (call : S → Outcome A × S) (s s' : S) (x : Exn)
      → call s ≡ (raised x, s')
      → p x ≡ true
      → retry (suc (suc n)) p call s ≡ retry (suc n) p call s'

-- One attempt, and one attempt before others: what holds of each way out holds of the whole.
module _ (tenacity : Tenacity) {S A : Type 0} (p : Exn → Bool) (call : S → Outcome A × S)
    (Q : Outcome A × S → Type 0) where
  pub one_call :
      (s s' : S) (o : Outcome A) → call s ≡ (o, s') → Q (call s) → Q (tenacity.retry 1 p call s)
  one_call s s' (returned a) e q = rw (tenacity.retry_returned 0 p call s s' a e) (rw e at q)
  one_call s s' (raised x) e q = rw (tenacity.retry_last p call s s' x e) (rw e at q)

  pub next_call :
      (n : ℕ) (s s' : S) (o : Outcome A)
      → call s ≡ (o, s')
      → Q (call s)
      → Q (tenacity.retry (suc n) p call s')
      → Q (tenacity.retry (suc (suc n)) p call s)
  next_call n s s' (returned a) e q later =
      rw (tenacity.retry_returned (suc n) p call s s' a e) (rw e at q)
  next_call n s s' (raised x) e q later = elim (Bool-cases (p x)) [
    | inl again ↦ rw (tenacity.retry_again n p call s s' x e again) later
    | inr refused ↦ rw (tenacity.retry_refused (suc n) p call s s' x e refused) (rw e at q)
  ]

-- The calls are made on states with P, and whatever they do has Q: so has the retried call.
module _ (tenacity : Tenacity) {S A : Type 0} (p : Exn → Bool) (call : S → Outcome A × S)
    (P : S → Type 0) (Q : Outcome A × S → Type 0)
    (step : (s : S) → P s → Q (call s) × P (call s).1) where
  pub retry_rule : (n : ℕ) (s : S) → P s → Q (tenacity.retry (suc n) p call s)
  retry_rule zero s h = one_call tenacity p call Q s (call s).1 (call s).0 refl (step s h).0
  retry_rule (suc n) s h =
      next_call tenacity p call Q n s (call s).1 (call s).0 refl (step s h).0
        (retry_rule n (call s).1 (step s h).1)
