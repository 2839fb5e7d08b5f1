-- ===== src/BetMaker/UnitOfWork.antt =====
-- src/bet_maker/uow: the contract of abstract.py as an interface, and postgres.py as an object, with its
-- fields `_cm` and `_session`, through any number of uses. The consumer's retry uses one object again
-- after an attempt has failed.
use bsw.Common.{ℕ, suc, ◌≡◌, refl, ◌∙◌, Option, none, some, List, [], ◌∷◌, arith}
use bsw.BetMaker.Exceptions.{Exn, Outcome, returned, raised, other_error}

-- `AbstractUnitOfWork`: its session, where `none` is that it raises, and `__aenter__` and `__aexit__`,
-- for the n-th `begin()` and whether the library's part of it raises.
pub record AbstractUnitOfWork (U : Type 0) : Type 0 where
  pub session : U → Option ℕ
  pub aenter : ℕ → Option Exn → U → Outcome (Unit {0}) × U
  pub aexit : Option Exn → U → Outcome (Unit {0}) × U

-- The context managers and their sessions, by the number of the `begin()` that made them.
pub record PostgresUnitOfWork : Type 0 where
  pub cm_ : Option ℕ
  pub session_ : Option ℕ

-- `PostgresUnitOfWork(sessionmaker)`
abbrev pub new_uow : PostgresUnitOfWork
new_uow = record { cm_ = none; session_ = none }

-- The property `session`; `none` is UnitOfWorkNotStartedError.
abbrev pub session : PostgresUnitOfWork → Option ℕ
session uow = uow.session_

-- `__aenter__`, the n-th `begin()`, where entering its context manager may raise.
unfoldable pub aenter :
    ℕ → Option Exn → PostgresUnitOfWork → Outcome (Unit {0}) × PostgresUnitOfWork
aenter n (some x) uow = (raised x, record uow { cm_ = some n })
aenter n none uow = (returned tt, record { cm_ = some n; session_ = some n })

-- `__aexit__`, where leaving the context manager (the commit or the rollback) may raise. Without a
-- context manager the assertion fails.
unfoldable pub leave : Option Exn → PostgresUnitOfWork → Outcome (Unit {0}) × PostgresUnitOfWork
leave x uow = elim uow.cm_ [
  | none ↦ (raised other_error, uow)
  | some n ↦ elim x [
    | some e ↦ (raised e, uow)
    | none ↦ (returned tt, record { cm_ = none; session_ = none })
  ]
]

-- `class PostgresUnitOfWork(AbstractUnitOfWork)`
abbrev pub postgres : AbstractUnitOfWork PostgresUnitOfWork
postgres = record { session = session; aenter = aenter; aexit = leave }

-- One `async with uow:`: whether entering and leaving raise.
pub record Use : Type 0 where
  pub entering : Option Exn
  pub leaving : Option Exn

-- What the bodies should see: each its own session.
abbrev pub own_sessions : ℕ → List Use → List (Option ℕ)
own_sessions n [] = []
own_sessions n (u ∷ us) =
    elim u.entering [ none ↦ some n | some x ↦ none ] ∷ own_sessions (suc n) us

module _ {U : Type 0} (a : AbstractUnitOfWork U) where
  -- The session that the body sees, if the body is run, and the object afterwards.
  unfoldable pub use_uow : ℕ → Use → U → Option ℕ × U
  use_uow n u uow =
      let (entered, uow') = a.aenter n u.entering uow in
      elim entered [
        | raised x ↦ (none, uow')
        | returned ok ↦ (a.session uow', (a.aexit u.leaving uow').1)
      ]

  -- One use after another, each in a `begin()` of its own.
  unfoldable pub use_again : ℕ → List Use → U → List (Option ℕ) × U
  unfolding use_uow
  use_again n [] uow = ([], uow)
  use_again n (u ∷ us) uow =
      let (seen, uow') = use_uow n u uow in
      let (rest, last) = use_again (suc n) us uow' in (seen ∷ rest, last)

-- The last use that is entered, and its number.
abbrev pub last_entered : ℕ → List Use → Option (ℕ × Use)
last_entered n [] = none
last_entered n (u ∷ us) = elim (last_entered (suc n) us) [
  | some last ↦ some last
  | none ↦ elim u.entering [ none ↦ some (n, u) | some x ↦ none ]
]

-- What `session` should give after the uses: nothing, once the last use that is entered is left; but
-- its session, where its commit or rollback raised; and what it gave before, if none is entered.
abbrev pub session_after : Option (ℕ × Use) → Option ℕ → Option ℕ
session_after none before = before
session_after (some (n, u)) before = elim u.leaving [ none ↦ none | some x ↦ some n ]

use_uow_seen :
    (n : ℕ) (u : Use) (uow : PostgresUnitOfWork)
    → (use_uow postgres n u uow).0 ≡ (elim u.entering [ none ↦ some n | some x ↦ none ])
unfolding use_uow aenter
use_uow_seen n u uow = ground arith

use_uow-session :
    (n : ℕ) (u : Use) (uow : PostgresUnitOfWork)
    → session (use_uow postgres n u uow).1
      ≡ session_after (elim u.entering [ none ↦ some (n, u) | some x ↦ none ]) (session uow)
unfolding use_uow aenter leave
use_uow-session n u uow = ground arith

session_after_twice :
    (later first : Option (ℕ × Use)) (before : Option ℕ)
    → session_after later (session_after first before)
      ≡ session_after (elim later [ none ↦ first | some last ↦ some last ]) before
session_after_twice none first before = refl
session_after_twice (some last) first before = refl

-- However often one PostgresUnitOfWork is used and however its uses end, a body is run exactly if its
-- use is entered, and it sees the session of its own `begin()`, never one of an earlier use. After
-- them `session` raises if the last use that was entered was left without an exception of its commit
-- or rollback, and still gives the session of that use if there was one; if none was entered, it does
-- what it did before.
pub use_again-own_sessions :
    (n : ℕ) (us : List Use) (uow : PostgresUnitOfWork)
    → ((use_again postgres n us uow).0 ≡ own_sessions n us)
      × (session (use_again postgres n us uow).1 ≡ session_after (last_entered n us) (session uow))
unfolding use_again
use_again-own_sessions n [] uow = (refl, refl)
use_again-own_sessions n (u ∷ us) uow =
    let (seen, after) = use_again-own_sessions (suc n) us (use_uow postgres n u uow).1 in
    (
      rw (use_uow_seen n u uow, seen) refl,
      after
          ∙ rw (use_uow-session n u uow)
              (session_after_twice (last_entered (suc n) us) _ (session uow)),
    )
