-- ===== src/BetMaker/Settings.antt =====
-- src/bet_maker/settings/config.py, and the retries that it sets up: facades/line_provider_client.py's
-- make_retry_decorator and the constructor of HttpEventLookup. A float of seconds is a whole number of
-- microseconds here; names, hosts and addresses are left out.
pub mod Waits
use bsw.Common.{ℕ, ◌-◌, ◌≡◌, Bool, ◌&&◌, Option, none, some, leb, ltb, if◌then◌else◌}
use bsw.BetMaker.Exceptions.{Outcome, Tenacity}
use bsw.BetMaker.Client.{EventSnapshot, LineProviderHttp, get_event}

pub record BetMakerSettings : Type 0 where
  pub port : ℕ
  pub line_provider_http_attempts : ℕ
  pub line_provider_http_backoff_max : ℕ
  pub line_provider_reconciler_attempts : ℕ
  pub line_provider_reconciler_backoff_max : ℕ
  pub reconciliation_interval : ℕ

-- The variables of the environment that are set.
pub record Environment : Type 0 where
  pub port : Option ℕ
  pub line_provider_http_attempts : Option ℕ
  pub line_provider_http_backoff_max : Option ℕ
  pub line_provider_reconciler_attempts : Option ℕ
  pub line_provider_reconciler_backoff_max : Option ℕ
  pub reconciliation_interval : Option ℕ

abbrev or_default : Option ℕ → ℕ → ℕ
or_default none d = d
or_default (some n) d = n

-- `Field(default=…)`
abbrev pub with_defaults : Environment → BetMakerSettings
with_defaults e = record {
  port = or_default e.port 8001;
  line_provider_http_attempts = or_default e.line_provider_http_attempts 3;
  line_provider_http_backoff_max = or_default e.line_provider_http_backoff_max 2000000;
  line_provider_reconciler_attempts = or_default e.line_provider_reconciler_attempts 5;
  line_provider_reconciler_backoff_max = or_default e.line_provider_reconciler_backoff_max 10000000;
  reconciliation_interval = or_default e.reconciliation_interval 30000000;
}

abbrev between : ℕ → ℕ → ℕ → Bool
between lo hi n = leb lo n && leb n hi

-- `ge`, `le` and `gt` of the fields
abbrev pub in_range : BetMakerSettings → Bool
in_range s =
    between 1 65535 s.port
    && between 1 10 s.line_provider_http_attempts
    && ltb 0 s.line_provider_http_backoff_max
    && between 1 10 s.line_provider_reconciler_attempts
    && ltb 0 s.line_provider_reconciler_backoff_max
    && ltb 0 s.reconciliation_interval

-- `BetMakerSettings()`; `none` is a ValidationError.
unfoldable pub read_settings : Environment → Option BetMakerSettings
read_settings e = let s = with_defaults e in if in_range s then some s else none

-- `wait_exponential(multiplier=…, min=…, max=…)` and `stop_after_attempt(…)`
pub record RetryPolicy : Type 0 where
  pub attempts : ℕ
  pub multiplier : ℕ
  pub least : ℕ
  pub most : ℕ

abbrev pub make_retry_decorator : ℕ → ℕ → RetryPolicy
make_retry_decorator attempts max_backoff = record {
  attempts = attempts;
  multiplier = 500000;
  least = 500000;
  most = max_backoff;
}

-- The HTTP client of a lookup, by its number, and its retries.
pub record HttpEventLookup : Type 0 where
  pub http_client : ℕ
  pub retry_policy : RetryPolicy

-- `HttpEventLookup(http_client=…, attempts=…, max_backoff=…)`
abbrev pub new_lookup : ℕ → ℕ → ℕ → HttpEventLookup
new_lookup http_client attempts max_backoff = record {
  http_client = http_client;
  retry_policy = make_retry_decorator attempts max_backoff;
}

-- The two that lifespan makes.
abbrev pub route_lookup : BetMakerSettings → ℕ → HttpEventLookup
route_lookup s http_client =
    new_lookup http_client s.line_provider_http_attempts s.line_provider_http_backoff_max

abbrev pub reconciler_lookup : BetMakerSettings → ℕ → HttpEventLookup
reconciler_lookup s http_client =
    new_lookup http_client s.line_provider_reconciler_attempts
      s.line_provider_reconciler_backoff_max

-- `get_event` of a lookup, with at least one attempt
unfoldable pub look_up :
    Tenacity → LineProviderHttp → HttpEventLookup → ℕ → ℕ → Outcome (Option EventSnapshot) × ℕ
unfolding get_event
look_up tenacity http lookup event_id n =
    get_event tenacity http (lookup.retry_policy.attempts - 1) event_id n
