-- ===== src/BetMaker/Settings/Waits.antt =====
-- How often a lookup asks, and how long it waits in between.
use bsw.Common.{
  ◌<◌, ℕ, zero, suc, ◌+◌, ◌-◌, ◌*◌, ◌^◌, ◌≤◌, ◌≡◌, ◌⊎◌, inl, inr, some, leb, if◌then◌else◌, arith,
}
use bsw.BetMaker.Exceptions.{Tenacity}
use bsw.BetMaker.Client.{LineProviderHttp}
use bsw.BetMaker.Client.Answers.{get_event-le}
use bsw.BetMaker.Settings.{
  BetMakerSettings, Environment, read_settings, RetryPolicy, HttpEventLookup, route_lookup,
  reconciler_lookup, look_up,
}

abbrev pub min : ℕ → ℕ → ℕ
min a b = if leb a b then a else b

abbrev pub max : ℕ → ℕ → ℕ
max a b = if leb a b then b else a

-- tenacity's wait after the n-th attempt, and its documented value.
abbrev pub Wait : Type 0
Wait = RetryPolicy → ℕ → ℕ

abbrev pub IsExponential : Wait → Type 0
IsExponential wait =
    (p : RetryPolicy) (n : ℕ) → wait p (suc n) ≡ max p.least (min (p.multiplier * 2 ^ n) p.most)

-- The waits between n attempts.
abbrev pub slept : Wait → RetryPolicy → ℕ → ℕ
slept wait p zero = 0
slept wait p (suc zero) = 0
slept wait p (suc (suc n)) = slept wait p (suc n) + wait p (suc n)

module _ (wait : Wait) (exponential : IsExponential wait) (p : RetryPolicy) where
  wait-le : (n : ℕ) → wait p (suc n) ≤ max p.least p.most
  wait-le n = ground (arith, exponential p n)

  slept-le : (n : ℕ) → slept wait p (suc n) ≤ n * max p.least p.most
  slept-le zero = omega arith
  slept-le (suc n) = grind (arith, slept-le n, wait-le n)

  slept-le_attempts :
      (n attempts : ℕ)
      → 0 < attempts
      → n ≤ attempts
      → slept wait p n ≤ (attempts - 1) * max p.least p.most
  slept-le_attempts zero attempts h k = omega arith
  slept-le_attempts (suc n) attempts h k = grind (arith, slept-le n)

-- The attempts of both lookups are between 1 and 10.
attempts_in_range :
    (e : Environment) (s : BetMakerSettings)
    → read_settings e ≡ some s
    → (0 < s.line_provider_http_attempts)
      × (s.line_provider_http_attempts ≤ 10)
      × (0 < s.line_provider_reconciler_attempts)
      × (s.line_provider_reconciler_attempts ≤ 10)
unfolding read_settings
attempts_in_range e s h = ground arith

module _ (tenacity : Tenacity) (http : LineProviderHttp) (wait : Wait) where
  look_up-le :
      (l : HttpEventLookup) (event_id start : ℕ)
      → 0 < l.retry_policy.attempts
      → (look_up tenacity http l event_id start).1 - start ≤ l.retry_policy.attempts
  unfolding look_up
  look_up-le l event_id start h =
      omega (arith, get_event-le tenacity http event_id start (l.retry_policy.attempts - 1))

  bounded :
      (exponential : IsExponential wait) (l : HttpEventLookup) (event_id start : ℕ)
      → 0 < l.retry_policy.attempts
      → l.retry_policy.attempts ≤ 10
      → let asked = (look_up tenacity http l event_id start).1 - start in
        (asked ≤ l.retry_policy.attempts)
        × (slept wait l.retry_policy asked ≤ 9 * max l.retry_policy.least l.retry_policy.most)
  bounded exponential l event_id start h k =
      let le = look_up-le l event_id start h in
      (
        le,
        grind (
          arith,
          slept-le_attempts wait exponential l.retry_policy
              ((look_up tenacity http l event_id start).1 - start) l.retry_policy.attempts h le,
        ),
      )

  -- With settings that validate, a lookup of the routes or of the reconciler sends at most as many
  -- requests as it has attempts, of which there are at most ten, and waits between them for at most nine
  -- times its greatest backoff, or nine times half a second where the greatest backoff is less.
  pub look_up_bounds :
      (e : Environment) (s : BetMakerSettings) (client : ℕ) (l : HttpEventLookup)
      (event_id start : ℕ)
      → IsExponential wait
      → read_settings e ≡ some s
      → (l ≡ route_lookup s client) ⊎ (l ≡ reconciler_lookup s client)
      → let asked = (look_up tenacity http l event_id start).1 - start in
        (asked ≤ l.retry_policy.attempts)
        × (l.retry_policy.attempts ≤ 10)
        × (slept wait l.retry_policy asked ≤ 9 * max 500000 l.retry_policy.most)
  look_up_bounds e s client l event_id start exponential h (inl r) =
      let (a, b, c, d) = attempts_in_range e s h in
      rw r
        (let (x, y) = bounded exponential (route_lookup s client) event_id start a b in (x, b, y))
  look_up_bounds e s client l event_id start exponential h (inr r) =
      let (a, b, c, d) = attempts_in_range e s h in
      rw r (
        let (x, y) = bounded exponential (reconciler_lookup s client) event_id start c d in
        (x, d, y))
