-- ===== src/BetMaker/Migrations/Upgrade.antt =====
-- src/bet_maker/alembic/env.py: an upgrade to the head in the transaction that it begins, and what is
-- committed when the connection is lost on the way. alembic is a parameter: its documented part is that
-- a revision is stamped in the transaction of its statements, and that `autocommit_block()` of revision
-- 0003 commits what is before it and begins a new transaction after it.
pub mod Recovery
use bsw.Common.{◌≡◌, ℕ, zero, suc, Option, none, some, List, [], ◌∷◌}
use bsw.BetMaker.Migrations.{
  Database, Revision, base, r_0001, r_0002, r_0003, r_0004, Ddl, upgrade_one, upgrade_0003,
}

-- A piece of the upgrade: a revision in the transaction, and the pieces of revision 0003.
pub data Moment : Type 0 where
  apply commit autocommit_block stamp_0003 : Moment

-- What is committed, and what the transaction sees.
pub record Run : Type 0 where
  pub committed : Database
  pub current : Database

abbrev pub perform : Ddl → Moment → Run → Option Run
perform ddl apply run = elim (upgrade_one ddl run.current.revision run.current.schema) [
  | none ↦ none
  | some d ↦ some (record run { current = d })
]
perform ddl commit run = some (record { committed = run.current; current = run.current })
perform ddl autocommit_block run = elim (upgrade_0003 ddl run.current.schema) [
  | none ↦ none
  | some s ↦
      let d = record run.current { schema = s } in some (record { committed = d; current = d })
]
perform ddl stamp_0003 run =
    some (record run { current = record run.current { revision = r_0003 } })

-- The rest of the way to the head; the last commit is the end of `context.begin_transaction()`.
abbrev pub after_0004 : List Moment
after_0004 = commit ∷ []

abbrev pub after_0003 : List Moment
after_0003 = apply ∷ after_0004

abbrev pub after_0002 : List Moment
after_0002 = commit ∷ autocommit_block ∷ stamp_0003 ∷ after_0003

abbrev pub after_0001 : List Moment
after_0001 = apply ∷ after_0002

abbrev pub to_head : Revision → List Moment
to_head base = apply ∷ after_0001
to_head r_0001 = after_0001
to_head r_0002 = after_0002
to_head r_0003 = after_0003
to_head r_0004 = after_0004

-- The pieces that alembic performs from a revision on.
pub record Alembic : Type 0 where
  pub plan : Revision → List Moment
  pub plan_lem : (r : Revision) → plan r ≡ to_head r

-- At most n of the pieces, until the connection is lost; `none` is an error of PostgreSQL.
abbrev pub performing : Ddl → ℕ → List Moment → Run → Option Run
performing ddl zero ms run = some run
performing ddl (suc n) [] run = some run
performing ddl (suc n) (m ∷ ms) run = elim (perform ddl m run) [
  | none ↦ none
  | some run' ↦ performing ddl n ms run'
]

abbrev pub committed_of : Option Run → Option Database
committed_of none = none
committed_of (some run) = some run.committed

-- `do_run_migrations`, for `alembic upgrade head`: what is committed in the end.
unfoldable pub do_run_migrations : Ddl → Alembic → ℕ → Database → Option Database
unfolding upgrade_one upgrade_0003
do_run_migrations ddl alembic n d =
    committed_of
      (performing ddl n (alembic.plan d.revision) (record { committed = d; current = d }))

-- Upgrades one after another, each with its own number of pieces.
unfoldable pub upgrades : Ddl → Alembic → List ℕ → Database → Option Database
unfolding do_run_migrations
upgrades ddl alembic [] d = some d
upgrades ddl alembic (n ∷ ns) d = elim (do_run_migrations ddl alembic n d) [
  | none ↦ none
  | some d' ↦ upgrades ddl alembic ns d'
]
