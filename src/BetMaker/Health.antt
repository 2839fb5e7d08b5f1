-- ===== src/BetMaker/Health.antt =====
-- src/bet_maker/api/health.py and infrastructure/db/pings.py.
use bsw.Common.{
  ℕ, zero, suc, ◌+◌, ◌≤◌, ap, ◌∙◌, ◌≡◌, ◌↔◌, refl, Bool, true, false, not, ◌&&◌, Option, none, some,
  arith, if◌then◌else◌, ltb,
}
use bsw.BetMaker.Exceptions.{
  Exn, operational_error, integrity_error, dbapi_error, Outcome, returned, raised, is_exception,
  Tenacity,
}

-- `isinstance(exc, SQLAlchemyError)`, of the classes that the model has
abbrev pub is_sqlalchemy_error : Exn → Bool
is_sqlalchemy_error (operational_error i) = true
is_sqlalchemy_error (integrity_error i) = true
is_sqlalchemy_error (dbapi_error i) = true
is_sqlalchemy_error _ = false

-- `async with engine.connect() as conn: await conn.scalar(text("SELECT 1"))`, the n-th time: none is
-- an answer. PostgreSQL is a parameter.
abbrev pub Connect : Type 0
Connect = ℕ → Option Exn

abbrev select_1 : Connect → ℕ → Outcome (Unit {0}) × ℕ
select_1 connect n = (elim (connect n) [ none ↦ returned tt | some x ↦ raised x ], suc n)

-- `wait_for_postgres`: ten attempts, again after any `Exception`
unfoldable pub wait_for_postgres : Tenacity → Connect → ℕ → Outcome (Unit {0}) × ℕ
wait_for_postgres tenacity connect n = tenacity.retry 10 is_exception (select_1 connect) n

-- The k connections from the n-th on fail with an `Exception`, and the next one answers.
abbrev pub Comes : Connect → ℕ → ℕ → Type 0
Comes connect zero n = connect n ≡ none
Comes connect (suc k) n =
    ((x : Exn) × (connect n ≡ some x) × (is_exception x ≡ true)) × Comes connect k (suc n)

module _ (tenacity : Tenacity) (connect : Connect) where
  retry-Comes :
      (attempts k n : ℕ)
      → k ≤ attempts
      → Comes connect k n
      → tenacity.retry (suc attempts) is_exception (select_1 connect) n ≡ (returned tt, suc (n + k))
  retry-Comes attempts zero n h c =
      tenacity.retry_returned attempts is_exception (select_1 connect) n (suc n) tt (rw c refl)
      ∙ ap (λ i. (returned tt, i)) (omega arith)
  retry-Comes zero (suc k) n h c = absurd (omega arith)
  retry-Comes (suc a) (suc k) n h (t, c) =
      tenacity.retry_again a is_exception (select_1 connect) n (suc n) t.0 (rw t.1 refl) t.2
      ∙ retry-Comes a k (suc n) (omega arith) c
      ∙ ap (λ i. (returned tt, i)) (omega arith)

  -- The wait is over as soon as PostgreSQL answers, if the connections before failed with an
  -- `Exception` and were fewer than ten; no further connection is tried.
  pub wait_for_postgres-Comes :
      (k n : ℕ)
      → k ≤ 9
      → Comes connect k n
      → wait_for_postgres tenacity connect n ≡ (returned tt, suc (n + k))
  unfolding wait_for_postgres
  wait_for_postgres-Comes k n h c = retry-Comes 9 k n h c

-- `ping_postgres`
unfoldable pub ping_postgres : Option Exn → Outcome Bool
ping_postgres none = returned true
ping_postgres (some x) = if is_sqlalchemy_error x then returned false else raised x

-- The texts of the checks.
pub data Check : Type 0 where
  ok down no_subscribers dead : Check

pub record Checks : Type 0 where
  pub postgres : Check
  pub rabbitmq : Check
  pub rabbitmq_consumer : Check
  pub reconciler : Check

pub data HealthResponse : Type 0 where
  ok_200 degraded_503 : Checks → HealthResponse

-- What the handler sees of RabbitMQ's client and of the reconciler's task: `broker.ping(timeout=1.0)`,
-- `len(broker.subscribers)` and `reconciler_task.done()`.
pub record Surroundings : Type 0 where
  pub connection : Option Exn
  pub broker_ping : Outcome Bool
  pub subscribers : ℕ
  pub task_done : Bool

abbrev check : Bool → Check → Check
check b bad = if b then ok else bad

-- The answer, once both pings have returned.
abbrev pub health_answer : Bool → Bool → Bool → Bool → HealthResponse
health_answer pg_ok rmq_ok subs_ok reconciler_ok =
    if pg_ok && rmq_ok && subs_ok && reconciler_ok
    then ok_200 (record { postgres = ok; rabbitmq = ok; rabbitmq_consumer = ok; reconciler = ok })
    else degraded_503 (record {
      postgres = check pg_ok down;
      rabbitmq = check rmq_ok down;
      rabbitmq_consumer = check subs_ok no_subscribers;
      reconciler = check reconciler_ok dead;
    })

-- GET /health; an exception out of either ping leaves the handler.
unfoldable pub health : Surroundings → Outcome HealthResponse
unfolding ping_postgres
health s = elim (ping_postgres s.connection) [
  | raised x ↦ raised x
  | returned pg_ok ↦ elim s.broker_ping [
    | raised x ↦ raised x
    | returned rmq_ok ↦
        returned (health_answer pg_ok rmq_ok (ltb 0 s.subscribers) (not s.task_done))
  ]
]

-- Everything that the service needs is up.
pub record IsUp (s : Surroundings) : Type 0 where
  pub postgres : s.connection ≡ none
  pub rabbitmq : s.broker_ping ≡ returned true
  pub consumer : ltb 0 s.subscribers ≡ true
  pub reconciler : s.task_done ≡ false

abbrev pub is_200 : Outcome HealthResponse → Bool
is_200 (returned (ok_200 c)) = true
is_200 _ = false

-- GET /health answers 200 exactly if PostgreSQL and RabbitMQ answer, a subscriber is registered and
-- the reconciler's task is running.
pub health-IsUp : (s : Surroundings) → (is_200 (health s) ≡ true) ↔ IsUp s
unfolding health
health-IsUp s = (λ h. up s h, λ u. ground (arith, u.postgres, u.rabbitmq, u.consumer, u.reconciler))
  where
    up : (s : Surroundings) → is_200 (health s) ≡ true → IsUp s
    up s h = record {
      postgres = ground arith;
      rabbitmq = ground arith;
      consumer = ground arith;
      reconciler = ground arith;
    }
