-- ===== src/BetMaker/Tests/Operations.antt =====
-- The unit of work, health, the lifespan and the migrations, at concrete inputs.
use bsw.Common.{
  ℕ, zero, suc, ◌-◌, ◌*◌, ◌^◌, ◌≤◌, inl, ◌≡◌, ◌↔◌, refl, Bool, true, false, not, filter, map, none,
  some, List, [], ◌∷◌, ◌++◌, if◌then◌else◌, ◌==◌,
}
use bsw.BetMaker.Exceptions.{operational_error, cancelled_error, other_error, returned}
use bsw.BetMaker.Reference.{retrying}
use bsw.BetMaker.UnitOfWork.{postgres, session, new_uow, Use, use_again, use_again-own_sessions}
use bsw.BetMaker.Health.{Surroundings, health, is_200, IsUp, health-IsUp}
use bsw.BetMaker.Reconciler.{reconciliation_loop}
use bsw.BetMaker.Lifespan.{
  open_http_client, await_postgres, create_engine, connect_broker, cancel_reconciler,
  await_reconciler, close_broker, close_http_client, dispose_engine, Failures, startup, shutdown,
}
use bsw.BetMaker.AppState.{Objects, fresh_state}
use bsw.BetMaker.Settings.{
  Environment, BetMakerSettings, with_defaults, read_settings, route_lookup, look_up,
}
use bsw.BetMaker.Settings.Waits.{Wait, min, max, slept, look_up_bounds}
use bsw.BetMaker.Lifespan.Start.{Ends, startup-Ends}
use bsw.BetMaker.Lifespan.Release.{raised_by, shutdown-reconciliation_loop}
use bsw.BetMaker.Migrations.Upgrade.{Alembic, to_head, upgrades, do_run_migrations}
use bsw.BetMaker.Migrations.Upgrade.Recovery.{IsProper, head, upgrades-Recover}
use bsw.BetMaker.Migrations.{
  Database, r_0002, pending, won, lost, cancelled_lower, model_schema, Ddl, column_no, label_no,
  has_column, has_label, has_type, in_use, empty, migrate,
}
use bsw.BetMaker.Migrations.Head.{Arrives, migrate-Arrives}
use bsw.BetMaker.Tests.{world}
use bsw.BetMaker.Tests.Services.{env, http}

-- The first attempt goes through, the commit of the second is lost, and the third does not begin.
abbrev attempts : List Use
attempts =
    record { entering = none; leaving = none }
    ∷ record { entering = none; leaving = some (operational_error true) }
    ∷ record { entering = some (operational_error true); leaving = none }
    ∷ []

use_again-own_sessions_example :
    ((use_again postgres 0 attempts new_uow).0 ≡ some 0 ∷ some 1 ∷ none ∷ [])
    × (session (use_again postgres 0 attempts new_uow).1 ≡ some 1)
use_again-own_sessions_example = use_again-own_sessions 0 attempts new_uow

abbrev no_subscriber : Surroundings
no_subscriber = record {
  connection = none;
  broker_ping = returned true;
  subscribers = 0;
  task_done = false;
}

health-IsUp_example : (is_200 (health no_subscriber) ≡ true) ↔ IsUp no_subscriber
health-IsUp_example = health-IsUp no_subscriber

-- The loop is cancelled in its sleep.
loop_cancelled : some cancelled_error ≡ raised_by (reconciliation_loop env 2 (λ n. false) 1 world).0
unfolding reconciliation_loop
loop_cancelled = refl

-- The broker's close raises, too.
abbrev stuck_broker : Failures
stuck_broker await_reconciler = some cancelled_error
stuck_broker close_broker = some other_error
stuck_broker _ = none

shutdown-reconciliation_loop_example :
    (shutdown stuck_broker fresh_state).1.log
    ≡ cancel_reconciler ∷ await_reconciler ∷ close_broker ∷ close_http_client ∷ dispose_engine ∷ []
shutdown-reconciliation_loop_example =
    shutdown-reconciliation_loop env 2 (λ n. false) 1 world stuck_broker fresh_state refl
      loop_cancelled

-- RabbitMQ is not there.
abbrev no_broker : Failures
no_broker connect_broker = some other_error
no_broker _ = none

abbrev objects : Objects
objects = record { engine = 1; sessionmaker = 2; http_client = 3; task = 4 }

-- One variable is set: ten attempts for the routes.
abbrev variables : Environment
variables = record {
  port = none;
  line_provider_http_attempts = some 10;
  line_provider_http_backoff_max = none;
  line_provider_reconciler_attempts = none;
  line_provider_reconciler_backoff_max = none;
  reconciliation_interval = none;
}

abbrev settings : BetMakerSettings
settings = with_defaults variables

startup-Ends_example : Ends no_broker settings objects (startup no_broker settings objects)
startup-Ends_example = startup-Ends no_broker settings objects

-- The broker's place in the start, and what a start without it leaves open.
no_broker_log :
    (startup no_broker settings objects).1.log
    ≡ create_engine ∷ await_postgres ∷ open_http_client ∷ connect_broker ∷ []
unfolding startup
no_broker_log = refl

-- The waits by the documented formula.
abbrev doubling : Wait
doubling p zero = 0
doubling p (suc n) = max p.least (min (p.multiplier * 2 ^ n) p.most)

settings_read : read_settings variables ≡ some settings
unfolding read_settings
settings_read = refl

look_up_bounds_example :
    let l = route_lookup settings 3 in
    let asked = (look_up retrying http l 8 0).1 - 0 in
    (asked ≤ l.retry_policy.attempts)
    × (l.retry_policy.attempts ≤ 10)
    × (slept doubling l.retry_policy asked ≤ 9 * max 500000 l.retry_policy.most)
look_up_bounds_example =
    look_up_bounds retrying http doubling variables settings 3 (route_lookup settings 3) 8 0
      (λ p n. refl) settings_read (inl refl)

-- The waits of ten attempts at PostgreSQL, between one second and ten: 65 seconds.
postgres_waits :
    slept doubling
      (record { attempts = 10; multiplier = 1000000; least = 1000000; most = 10000000 })
      10
    ≡ 65000000
postgres_waits = refl

-- A database that meets the laws of `Ddl`.
abbrev reference_ddl : Ddl
reference_ddl = record {
  create_type = λ ls s. elim s.labels [ none ↦ record s { labels = some ls } | some old ↦ s ];
  create_type_lem = λ ls s. refl;
  drop_type = λ s. elim s.labels [
    | none ↦ some s
    | some ls ↦ if in_use s.columns then none else some (record s { labels = none })
  ];
  drop_type_lem = λ s. refl;
  create_table = λ cs s. elim s.columns [
    | none ↦ if has_type s cs then some (record s { columns = some cs }) else none
    | some old ↦ none
  ];
  create_table_lem = λ cs s. refl;
  drop_table = λ s. elim s.columns [ none ↦ none | some cs ↦ some (record s { columns = none }) ];
  drop_table_lem = λ s. refl;
  add_column = λ c s. elim s.columns [
    | none ↦ none
    | some cs ↦
        if has_column c.name cs
        then none
        else (if has_type s (c ∷ [])
            then some (record s { columns = some (cs ++ c ∷ []) })
            else none)
  ];
  add_column_lem = λ c s. refl;
  drop_column = λ n s. elim s.columns [
    | none ↦ none
    | some cs ↦
        if has_column n cs
        then some
            (record s { columns = some (filter (λ c. not (column_no n == column_no c.name)) cs) })
        else none
  ];
  drop_column_lem = λ n s. refl;
  add_value = λ l s. elim s.labels [
    | none ↦ none
    | some ls ↦ some (record s { labels = some (if has_label l ls then ls else ls ++ l ∷ []) })
  ];
  add_value_lem = λ l s. refl;
  rename_value = λ old new s. elim s.labels [
    | none ↦ none
    | some ls ↦
        if has_label old ls
        then (if has_label new ls
            then none
            else some (record s {
              labels = some (map (λ l. if label_no old == label_no l then new else l) ls);
            }))
        else none
  ];
  rename_value_lem = λ old new s. refl;
}

-- Up to the head, back below the type's new label, and up again.
abbrev there_and_back : List Bool
there_and_back = true ∷ true ∷ true ∷ true ∷ false ∷ false ∷ true ∷ true ∷ []

migrate-Arrives_example : Arrives (migrate reference_ddl there_and_back empty)
migrate-Arrives_example = migrate-Arrives reference_ddl there_and_back empty refl

abbrev reference_alembic : Alembic
reference_alembic = record { plan = to_head; plan_lem = λ r. refl }

-- Connections are lost after the label is added and not yet stamped, and again after the rename.
upgrades-Recover_example :
    (d : Database) × (upgrades reference_ddl reference_alembic (4 ∷ 2 ∷ []) empty ≡ some d)
    × IsProper d
    × ((n : ℕ) → 7 ≤ n → do_run_migrations reference_ddl reference_alembic n d ≡ some head)
upgrades-Recover_example = upgrades-Recover reference_ddl reference_alembic (4 ∷ 2 ∷ []) empty refl

-- The first of them.
label_added :
    do_run_migrations reference_ddl reference_alembic 4 empty
    ≡ some (record {
      revision = r_0002;
      schema = record {
        labels = some (pending ∷ won ∷ lost ∷ cancelled_lower ∷ []);
        columns = model_schema.columns;
      };
    })
unfolding do_run_migrations
label_added = refl
