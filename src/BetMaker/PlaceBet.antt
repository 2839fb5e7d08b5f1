-- ===== src/BetMaker/PlaceBet.antt =====
-- src/bet_maker/interactors/place_bet.py, and the routes of src/bet_maker/api/bets.py with their
-- selectors.
pub mod Acceptance
use bsw.Common.{ℕ, ◌+◌, Bool, Option, none, some, List, [], ◌∷◌, map, leb, if◌then◌else◌, ◌==◌}
use bsw.Money.{Decimal, quantize_amount}
use bsw.LineProvider.StateMachine.{state_eq}
use bsw.LineProvider.Schemas.{EventState, FieldTest}
use bsw.BetMaker.Exceptions.{
  Exn, Reason, event_not_found, deadline_passed, event_not_active, event_not_bettable,
  integrity_error, line_provider_unavailable, other_error, Outcome, returned, raised, Tenacity,
}
use bsw.BetMaker.Models.{Bet, BetStatus, BetRead, to_bet_read}
use bsw.BetMaker.Database.{
  Postgres, Table, Weather, World, Point, at_write, at_select, Tx, ◌>>=◌, ◌>>◌, pure, raise,
  with_uow,
}
use bsw.BetMaker.Client.{EventSnapshot, LineProviderHttp, get_event}

-- The row of `Bet(event_id=…, amount=…)`: the defaults of the columns, drawn at the flush.
abbrev pub new_bet : Weather → ℕ → Decimal → Bet
new_bet e event_id amount = record {
  id = e.uuid;
  event_id = event_id;
  amount = amount;
  status = BetStatus.pending;
  created_at = e.now;
  updated_at = e.now;
  settled_at = none;
  settled_via = none;
}

-- `session.add(bet)`, the flush, which sends the INSERT, and the refresh, which sends a SELECT; a taken
-- primary key is an IntegrityError.
unfoldable pub insert_bet : Postgres → ℕ → Decimal → Tx Bet
insert_bet pg event_id amount e t = elim (e.fails at_write) [
  | some x ↦ (raised x, t)
  | none ↦
      let b = new_bet e event_id amount in
      elim (pg.insert b t) [
        | none ↦ (raised (integrity_error Bool.false), t)
        | some t' ↦ elim (e.fails at_select) [ some x ↦ (raised x, t') | none ↦ (returned b, t') ]
      ]
]

-- The body of `async with uow:`; InvalidOperation of `quantize` is an exception like any other.
abbrev store_bet : Postgres → ℕ → Decimal → Tx BetRead
store_bet pg event_id amount = elim (quantize_amount amount) [
  | none ↦ raise other_error
  | some stake ↦ do bet ← insert_bet pg event_id stake; pure (to_bet_read bet)
]

-- The tests before the transaction; `none` lets the bet through.
unfoldable pub rejection : ℕ → Option EventSnapshot → Option Reason
rejection now none = some event_not_found
rejection now (some snapshot) =
    if leb snapshot.deadline now
    then some deadline_passed
    else if state_eq snapshot.state EventState.new
    then none
    else some event_not_active

-- What the service works with: the retry library, line-provider over HTTP, the database, and what
-- each transaction meets.
pub record Env : Type 1 where
  pub tenacity : Tenacity
  pub http : LineProviderHttp
  pub pg : Postgres
  pub weather : ℕ → Weather

unfoldable pub place_bet : Env → ℕ → ℕ → ℕ → Decimal → World → Outcome BetRead × World
unfolding get_event rejection insert_bet with_uow quantize_amount
place_bet env attempts now event_id amount w =
    let (found, requests) = get_event env.tenacity env.http attempts event_id w.requests in
    let w' : World = record w { requests = requests } in
    elim found [
      | raised x ↦ (raised x, w')
      | returned snapshot ↦ elim (rejection now snapshot) [
        | some reason ↦ (raised (event_not_bettable reason), w')
        | none ↦ with_uow env.weather (store_bet env.pg event_id amount) w'
      ]
    ]

-- The answers of the bet routes, by status code.
pub data Response : Type 0 where
  created_201 ok_200 : BetRead → Response
  not_found_404 : ℕ → Response
  not_bettable_422 : ℕ → Reason → Response
  invalid_body_422 : Response
  line_provider_unreachable_503 : Response
  internal_error_500 : Response

-- The `except` ladder of POST /bet; any other exception is a 500.
abbrev pub post_bet_answer : ℕ → Outcome BetRead → Response
post_bet_answer event_id (returned r) = created_201 r
post_bet_answer event_id (raised line_provider_unavailable) = line_provider_unreachable_503
post_bet_answer event_id (raised (event_not_bettable reason)) = not_bettable_422 event_id reason
post_bet_answer event_id (raised x) = internal_error_500

pub record BetCreate : Type 0 where
  pub event_id : ℕ
  pub amount : Decimal

-- Validation of the body: pydantic's test of the field, a parameter, then `quantize_amount`.
unfoldable pub parse_bet_create : FieldTest → BetCreate → Option BetCreate
unfolding quantize_amount
parse_bet_create field body =
    if field body.amount
    then (elim (quantize_amount body.amount) [
      | none ↦ none
      | some stake ↦ some (record body { amount = stake })
    ])
    else none

-- POST /bet
unfoldable pub post_bet : Env → FieldTest → ℕ → ℕ → BetCreate → World → Response × World
unfolding place_bet parse_bet_create
post_bet env field attempts now body w = elim (parse_bet_create field body) [
  | none ↦ (invalid_body_422, w)
  | some valid ↦
      let (o, w') = place_bet env attempts now valid.event_id valid.amount w in
      (post_bet_answer valid.event_id o, w')
]
