-- ===== src/BetMaker/PlaceBet/Acceptance.antt =====
-- When a bet is placed, and what it adds.
use bsw.Common.{
  contains, false, ℕ, ◌≤◌, ◌<◌, ◌≡◌, ◌≢◌, ◌⊎◌, inl, inr, refl, Option, none, some, ◌∷◌, arith,
  Option-cases,
}
use bsw.Money.{Decimal, quantize_amount}
use bsw.LineProvider.Schemas.{EventState}
use bsw.BetMaker.Exceptions.{
  Exn, Reason, event_not_bettable, event_not_found, deadline_passed, event_not_active,
  Outcome-cases, Outcome, returned, raised,
}
use bsw.BetMaker.Models.{BetRead, to_bet_read}
use bsw.BetMaker.Database.{Table, Weather, World, after_commit, with_uow}
use bsw.BetMaker.Database.Rows.{ids}
use bsw.BetMaker.Client.{EventSnapshot, get_event}
use bsw.BetMaker.PlaceBet.{Env, new_bet, insert_bet, store_bet, rejection, place_bet}

-- The transaction on a quantized amount: it adds one pending bet, under a fresh id, and returns it, or it raises with the
-- table as it was, or the connection was lost after the commit and the bet is there. With no amount
-- it raises.
abbrev pub Stored : Weather → ℕ → Option Decimal → Table → Outcome BetRead × World → Type 0
Stored e event_id none t (returned r, w') = ⊥
Stored e event_id none t (raised x, w') = w'.table ≡ t
Stored e event_id (some stake) t (returned r, w') =
    (w'.table ≡ new_bet e event_id stake ∷ t)
    × (r ≡ to_bet_read (new_bet e event_id stake))
    × (contains e.uuid (ids t) ≡ false)
Stored e event_id (some stake) t (raised x, w') =
    (w'.table ≡ t)
    ⊎ ((e.fails after_commit ≡ some x)
        × (w'.table ≡ new_bet e event_id stake ∷ t)
        × (contains e.uuid (ids t) ≡ false))

-- Why a snapshot is refused.
abbrev pub IsRefusal : ℕ → Option EventSnapshot → Exn → Type 0
IsRefusal now none x = x ≡ event_not_bettable event_not_found
IsRefusal now (some s) x =
    ((s.deadline ≤ now) × (x ≡ event_not_bettable deadline_passed))
    ⊎ ((now < s.deadline) × (s.state ≢ EventState.new) × (x ≡ event_not_bettable event_not_active))

-- line-provider showed the event NEW, with a deadline still ahead.
abbrev pub IsBettable : ℕ → Option EventSnapshot → Type 0
IsBettable now none = ⊥
IsBettable now (some s) = (now < s.deadline) × (s.state ≡ EventState.new)

stored :
    (env : Env) (event_id : ℕ) (amount : Decimal) (w : World)
    → Stored
        (env.weather w.begun)
        event_id
        (quantize_amount amount)
        w.table
        (with_uow env.weather (store_bet env.pg event_id amount) w)
unfolding with_uow insert_bet
stored env event_id amount w = elim (Option-cases (quantize_amount amount)) [
  | inl none_left ↦ rw none_left (ground arith)
  | inr (stake, q) ↦
      rw q
        (ground (arith, env.pg.insert_lem (new_bet (env.weather w.begun) event_id stake) w.table))
]

-- A snapshot is refused for a reason that fits it, or it is bettable.
abbrev Judged : ℕ → Option EventSnapshot → Option Reason → Type 0
Judged now found none = IsBettable now found
Judged now found (some reason) = IsRefusal now found (event_not_bettable reason)

rejection-Judged : (now : ℕ) (found : Option EventSnapshot) → Judged now found (rejection now found)
unfolding rejection
rejection-Judged now none = refl
rejection-Judged now (some s) = ground arith

-- How a call that looked the event up with this result may end.
abbrev pub Places :
    Env
    → ℕ
    → ℕ
    → Decimal
    → World
    → Outcome (Option EventSnapshot)
    → Outcome BetRead × World
    → Type 0
Places env now event_id amount w (raised x) (o, w') =
    (o ≡ raised x) × (w'.table ≡ w.table) × (w'.begun ≡ w.begun)
Places env now event_id amount w (returned found) (o, w') =
    ((reason : Reason) × IsRefusal now found (event_not_bettable reason)
      × (o ≡ raised (event_not_bettable reason))
      × (w'.table ≡ w.table)
      × (w'.begun ≡ w.begun))
    ⊎ (IsBettable now found
        × Stored (env.weather w.begun) event_id (quantize_amount amount) w.table (o, w'))

module _ (env : Env) (attempts now event_id : ℕ) (amount : Decimal) (w : World) where
  abbrev looked_up : Outcome (Option EventSnapshot) × ℕ
  looked_up = get_event env.tenacity env.http attempts event_id w.requests

  after_lookup :
      (found : Option EventSnapshot) (judged : Option Reason)
      → rejection now found ≡ judged
      → looked_up.0 ≡ returned found
      → Judged now found judged
      → Places env now event_id amount w
          (returned found)
          (place_bet env attempts now event_id amount w)
  unfolding place_bet quantize_amount
  after_lookup found none e l j =
      inr
        (j, rw (place_bet, l, e) (stored env event_id amount (record w { requests = looked_up.1 })))
  after_lookup found (some reason) e l j =
      inl (reason, j, rw (place_bet, l, e), rw (place_bet, l, e), rw (place_bet, l, e))

  -- `place_bet` ends as its lookup has it: a failed lookup is passed on, an event that is missing, past
  -- its deadline or not NEW is refused with that reason, in both cases without a transaction; and for
  -- a bettable event one transaction adds exactly one PENDING bet for the quantized amount and
  -- returns it, or raises with the table as it was, unless the connection is lost after the commit.
  pub place_bet-Places :
      Places env now event_id amount w looked_up.0 (place_bet env attempts now event_id amount w)
  unfolding place_bet
  place_bet-Places = elim (Outcome-cases looked_up.0) [
    | inl (found, l) ↦
        rw l (after_lookup found (rejection now found) refl l (rejection-Judged now found))
    | inr (x, l) ↦ rw l (rw (place_bet, l), rw (place_bet, l), rw (place_bet, l))
  ]
