-- ===== src/BetMaker/BetRoutes.antt =====
-- GET /bet/{bet_id} of src/bet_maker/api/bets.py with selectors/get_bet.py, GET /bets with
-- selectors/list_bets.py, and GET /events of
-- api/events.py.
pub mod Reading
pub mod Listing
use bsw.Common.{ℕ, suc, ◌+◌, Option, none, some, List, [], ◌∷◌, map}
use bsw.LineProvider.Schemas.{EventRead}
use bsw.BetMaker.Exceptions.{Exn, other_error, line_provider_unavailable, Outcome, returned, raised}
use bsw.BetMaker.Models.{Bet, BetRead, to_bet_read}
use bsw.BetMaker.Database.{Postgres, Table, Weather, World, at_begin, at_select}
use bsw.BetMaker.Client.{list_active_events}
use bsw.BetMaker.PlaceBet.{Env, Response, ok_200, not_found_404, internal_error_500}

-- `result.scalar_one_or_none()`, which raises MultipleResultsFound, and the reading of the row.
abbrev pub one_or_none : List Bet → Outcome (Option BetRead)
one_or_none [] = returned none
one_or_none (b ∷ []) = returned (some (to_bet_read b))
one_or_none (b ∷ c ∷ bs) = raised other_error

-- A SELECT in the session of the request, which is not committed.
abbrev pub in_session :
    {A : Type 0} → (ℕ → Weather) → (Table → Outcome A) → World → Outcome A × World
in_session weather read w =
    let e = weather w.begun in
    let w' : World = record w { begun = w.begun + 1 } in
    elim (e.fails at_begin) [
      | some x ↦ (raised x, w')
      | none ↦ elim (e.fails at_select) [ some x ↦ (raised x, w') | none ↦ (read w.table, w') ]
    ]

-- selectors/get_bet.py
unfoldable pub get_bet_by_id :
    Postgres → (ℕ → Weather) → ℕ → World → Outcome (Option BetRead) × World
get_bet_by_id pg weather bet_id = in_session weather (λ t. one_or_none (pg.select_by_id bet_id t))

abbrev pub get_bet_answer : ℕ → Outcome (Option BetRead) → Response
get_bet_answer bet_id (returned none) = not_found_404 bet_id
get_bet_answer bet_id (returned (some r)) = ok_200 r
get_bet_answer bet_id (raised x) = internal_error_500

-- GET /bet/{bet_id}
unfoldable pub get_bet : Env → ℕ → World → Response × World
unfolding get_bet_by_id
get_bet env bet_id w =
    let (o, w') = get_bet_by_id env.pg env.weather bet_id w in (get_bet_answer bet_id o, w')

-- The answers of GET /bets, by status code.
pub data BetsResponse : Type 0 where
  bets_200 : List BetRead → BetsResponse
  bets_500 : BetsResponse

-- selectors/list_bets.py
unfoldable pub list_bets : Postgres → (ℕ → Weather) → World → Outcome (List BetRead) × World
list_bets pg weather =
    in_session weather (λ t. returned (map to_bet_read (pg.select_newest_first t)))

-- GET /bets
unfoldable pub get_bets : Env → World → BetsResponse × World
unfolding list_bets
get_bets env w =
    let (o, w') = list_bets env.pg env.weather w in
    (elim o [ returned rs ↦ bets_200 rs | raised x ↦ bets_500 ], w')

-- The answers of GET /events, by status code.
pub data EventsResponse : Type 0 where
  ok_200_events : List EventRead → EventsResponse
  unreachable_503 internal_500 : EventsResponse

abbrev pub get_events_answer : Outcome (List EventRead) → EventsResponse
get_events_answer (returned es) = ok_200_events es
get_events_answer (raised line_provider_unavailable) = unreachable_503
get_events_answer (raised x) = internal_500

-- GET /events, with the selector's default of three attempts
unfoldable pub get_events : Env → World → EventsResponse × World
unfolding list_active_events
get_events env w =
    let (o, requests) = list_active_events env.tenacity env.http 2 w.requests in
    (get_events_answer o, record w { requests = requests })
