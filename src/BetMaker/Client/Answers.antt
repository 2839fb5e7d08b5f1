-- ===== src/BetMaker/Client/Answers.antt =====
-- What the answers of line-provider become.
use bsw.Common.{
  ℕ, suc, zero, ◌+◌, ◌≤◌, ◌≡◌, ◌⊎◌, inl, inr, refl, ap, true, Option, none, some, arith, Bool-cases,
  ==_iff, ◌==◌,
}
use bsw.BetMaker.Exceptions.{
  Exn, Outcome, returned, raised, line_provider_unavailable, other_error, is_retryable, Tenacity,
  http_status_error, transport_error, malformed_payload, retry_rule, one_call, next_call,
}
use bsw.BetMaker.Client.{
  EventSnapshot, HttpResult, JsonBody, parsed, malformed, misshapen, response, transport_failure,
  client_raises, LineProviderHttp, is_success, parse_payload, some_of, read_event, unavailable,
  call_event, get_event,
}

-- The clauses turn an exception into LineProviderUnavailable, or let it pass.
unavailable_raised :
    {A : Type 0} (x : Exn)
    → (unavailable {A = A} (raised x) ≡ raised line_provider_unavailable)
      ⊎ (unavailable {A = A} (raised x) ≡ raised x)
unfolding unavailable
unavailable_raised (http_status_error code) = inl refl
unavailable_raised transport_error = inl refl
unavailable_raised malformed_payload = inl refl
unavailable_raised _ = inr refl

module _ (tenacity : Tenacity) (http : LineProviderHttp) (event_id start : ℕ) where
  -- The n-th answer justifies what the lookup made of it.
  abbrev IsAnswer : ℕ → Outcome (Option EventSnapshot) → Type 0
  IsAnswer n (returned none) =
      (body : JsonBody EventSnapshot) × (http.event n event_id ≡ response 404 body)
  IsAnswer n (returned (some s)) =
      (code : ℕ) × (http.event n event_id ≡ response code (parsed s)) × (is_success code ≡ true)
  IsAnswer n (raised x) =
      (x ≡ line_provider_unavailable)
      ⊎ ((x ≡ other_error)
          × (code : ℕ) × (http.event n event_id ≡ response code misshapen)
          × (is_success code ≡ true))
      ⊎ ((http.event n event_id ≡ client_raises x)
          × (unavailable {A = Option EventSnapshot} (raised x) ≡ raised x))

  -- `None` only from a 404 and a snapshot only from the payload of a 2xx, both of the last request
  -- sent; every failure is LineProviderUnavailable, unless a 2xx has a misshapen body, or the last
  -- request itself raised the exception.
  abbrev pub Answers : Outcome (Option EventSnapshot) × ℕ → Type 0
  Answers (o, n') = (n : ℕ) × (n' ≡ suc n) × IsAnswer n o

  read_event-IsAnswer :
      (n : ℕ) (r : HttpResult EventSnapshot)
      → http.event n event_id ≡ r
      → IsAnswer n (unavailable (read_event r))
  unfolding read_event unavailable
  read_event-IsAnswer n transport_failure e = inl refl
  read_event-IsAnswer n (client_raises x) e =
      elim (unavailable_raised {A = Option EventSnapshot} x) [
        | inl caught ↦ rw caught (inl refl)
        | inr passed ↦ rw passed (inr (inr (e, passed)))
      ]
  read_event-IsAnswer n (response code payload) e = elim (Bool-cases (code == 404)) [
    | inl is_404 ↦ rw is_404 (payload, rw ((==_iff code 404).0 is_404) at e)
    | inr other ↦ rw other (elim (Bool-cases (is_success code)) [
      | inl good ↦ rw good (good_body code payload good e)
      | inr bad ↦ rw bad (inl refl)
    ])
  ]
    where
      good_body :
          (code : ℕ) (payload : JsonBody EventSnapshot)
          → is_success code ≡ true
          → http.event n event_id ≡ response code payload
          → IsAnswer n (unavailable (some_of (parse_payload payload)))
      good_body code (parsed s) good e = (code, e, good)
      good_body code malformed good e = inl refl
      good_body code misshapen good e = inr (inl (refl, code, e, good))

  -- Whatever line-provider answers, and however often the call is retried, `get_event` returns None
  -- only if its last request was answered 404, returns a snapshot only if that is the payload of a 2xx
  -- answer to its last request, and raises nothing but LineProviderUnavailable, except where a 2xx has a
  -- body whose shape makes the reading raise an exception that no clause catches, or where its last
  -- request raised that exception, and none of the clauses catches it.
  pub get_event-Answers : (attempts : ℕ) → Answers (get_event tenacity http attempts event_id start)
  unfolding get_event
  get_event-Answers attempts =
      retry_rule tenacity is_retryable (call_event tenacity http event_id) (λ n. Unit {0})
        (λ (o, n'). Answers (unavailable o, n'))
        (λ n h. ((n, omega arith, read_event-IsAnswer n (http.event n event_id) refl), tt)) attempts
        start tt

  retry-le :
      (attempts n : ℕ)
      → (tenacity.retry (suc attempts) is_retryable (call_event tenacity http event_id) n).1
        ≤ n + suc attempts
  retry-le zero n =
      one_call tenacity is_retryable (call_event tenacity http event_id) (λ o. o.1 ≤ n + 1) n
        (n + 1) (read_event (http.event n event_id)) refl (omega arith)
  retry-le (suc k) n =
      next_call tenacity is_retryable (call_event tenacity http event_id)
        (λ o. o.1 ≤ n + suc (suc k)) k n (n + 1) (read_event (http.event n event_id)) refl
        (omega arith) (omega (arith, retry-le k (n + 1)))

  -- `get_event` sends at most as many requests as it has attempts.
  pub get_event-le :
      (attempts : ℕ) → (get_event tenacity http attempts event_id start).1 ≤ start + suc attempts
  unfolding get_event
  get_event-le attempts = retry-le attempts start

  -- The k answers from the n-th on are failures that are retried, and the next one reads as `v`.
  abbrev pub Recovers : ℕ → ℕ → Option EventSnapshot → Type 0
  Recovers zero n v = read_event (http.event n event_id) ≡ returned v
  Recovers (suc k) n v =
      ((x : Exn) × (read_event (http.event n event_id) ≡ raised x) × (is_retryable x ≡ true))
      × Recovers k (n + 1) v

  retry-Recovers :
      (attempts k n : ℕ) (v : Option EventSnapshot)
      → k ≤ attempts
      → Recovers k n v
      → (tenacity.retry (suc attempts) is_retryable (call_event tenacity http event_id) n).0
        ≡ returned v
  retry-Recovers attempts zero n v h r =
      ap (λ o. o.0)
        (tenacity.retry_returned attempts is_retryable (call_event tenacity http event_id) n (n + 1)
          v (ap (λ o. (o, n + 1)) r))
  retry-Recovers zero (suc k) n v h r = absurd (omega arith)
  retry-Recovers (suc a) (suc k) n v h (t, r) =
      rw
        (tenacity.retry_again a is_retryable (call_event tenacity http event_id) n (n + 1) t.0
          (ap (λ o. (o, n + 1)) t.1) t.2)
        (retry-Recovers a k (n + 1) v (omega arith) r)

  -- With fewer failures than attempts, all of them retried ones, `get_event` returns what the next
  -- answer reads as.
  pub get_event-Recovers :
      (attempts k : ℕ) (v : Option EventSnapshot)
      → k ≤ attempts
      → Recovers k start v
      → (get_event tenacity http attempts event_id start).0 ≡ returned v
  unfolding get_event unavailable
  get_event-Recovers attempts k v h r = rw (retry-Recovers attempts k start v h r)

  read_unavailable :
      (o : Outcome (Option EventSnapshot)) (v : Option EventSnapshot)
      → unavailable o ≡ returned v
      → o ≡ returned v
  unfolding unavailable
  read_unavailable (returned a) v e = e
  read_unavailable (raised x) v e = ground arith

  -- What the lookup returns is what one of the answers reads as.
  pub get_event_read :
      (attempts : ℕ) (v : Option EventSnapshot)
      → (get_event tenacity http attempts event_id start).0 ≡ returned v
      → (n : ℕ) × (read_event (http.event n event_id) ≡ returned v)
  unfolding get_event
  get_event_read attempts v =
      retry_rule tenacity is_retryable (call_event tenacity http event_id) (λ n. Unit {0})
        (λ (o, n').
          unavailable o ≡ returned v → (n : ℕ) × (read_event (http.event n event_id) ≡ returned v))
        (λ n h. (λ e. (n, read_unavailable (read_event (http.event n event_id)) v e), tt)) attempts
        start tt
