-- ===== src/BetMaker/App/Promises.antt =====
-- What a client is once told of a bet, and what GET /bet/{bet_id} tells it ever after.
use mathlib.Core.List.Perm
use mathlib.Core.Path.{subst}
use bsw.Common.{
  ℕ, ◌≡◌, ◌≢◌, ◌⊎◌, inl, inr, refl, sym, ap, ◌∙◌, false, some, List, [], ◌∷◌, map, arith,
  Option-cases,
}
use bsw.BetMaker.Models.{Bet, BetStatus, BetRead, to_bet_read, is_pending}
use bsw.BetMaker.Database.{Table, World, at_begin, at_select}
use bsw.BetMaker.Database.Rows.{HasUniqueIds}
use bsw.BetMaker.Settle.Flip.{IsFair}
use bsw.BetMaker.Settle.Frame.{find_bet, Keeps}
use bsw.BetMaker.PlaceBet.{Env, ok_200, internal_error_500, post_bet as post_bet_route}
use bsw.BetMaker.BetRoutes.{
  BetsResponse, bets_200, bets_500, in_session, list_bets, get_bet as get_bet_route,
  get_bets as get_bets_route,
}
use bsw.BetMaker.Interleaving.Captured.{find_bet-contains}
use bsw.BetMaker.Consumer.Context.{LogContext}
use bsw.BetMaker.App.{
  to_bet, to_bets, Served, Call, post_bet, get_bet, get_bets, get_events, health, Request, Site,
  route, dispatch, Happening, request, live,
}
use bsw.BetMaker.App.Shown.{
  read_at, row_of, mem-read_at, get_bet_read, get_bet_reads, Shows, post_bet-Shows, get_bet-Shows,
}
use bsw.BetMaker.App.Frame.{live-Evolves}

-- A later reading: the bet is about the same, and as it was if it was no longer PENDING.
pub record StandsBy (r r' : BetRead) : Type 0 where
  pub id : r'.id ≡ r.id
  pub event : r'.event_id ≡ r.event_id
  pub stake : r'.amount ≡ r.amount
  pub created : r'.created_at ≡ r.created_at
  pub final : r.status ≢ BetStatus.pending → r' ≡ r

is_final : (b : Bet) → b.status ≢ BetStatus.pending → is_pending b ≡ false
is_final b h = ground arith

Keeps-StandsBy :
    (r : BetRead) (b b' : Bet)
    → to_bet_read b ≡ r
    → b'.id ≡ b.id
    → Keeps b b'
    → StandsBy r (to_bet_read b')
Keeps-StandsBy r b b' e i k = rw (← e) (record {
  id = i;
  event = k.event;
  stake = k.stake;
  created = k.created;
  final = λ done. ap to_bet_read (k.final (is_final b done));
})

module _ (env : Env) (w : World) where
  get_bets_reads :
      ((get_bets_route env w).0 ≡ bets_500)
      ⊎ ((get_bets_route env w).0 ≡ bets_200 (map to_bet_read (env.pg.select_newest_first w.table)))
  unfolding get_bets_route
  get_bets_reads = elim (Option-cases ((env.weather w.begun).fails at_begin)) [
    | inr (x, e) ↦ inl (rw (get_bets_route, list_bets, in_session, e) refl)
    | inl begins ↦ elim (Option-cases ((env.weather w.begun).fails at_select)) [
      | inr (x, e) ↦ inl (rw (get_bets_route, list_bets, in_session, begins, e) refl)
      | inl selects ↦ inr (rw (get_bets_route, list_bets, in_session, begins, selects) refl)
    ]
  ]

  get_bets-Shows :
      (r : BetRead)
      → HasUniqueIds w.table
      → Shows (to_bets (get_bets_route env w).0) r
      → read_at r.id w.table ≡ some r
  get_bets-Shows r unique h = elim get_bets_reads [
    | inl failed ↦ absurd (subst (λ (o : BetsResponse). Shows (to_bets o) r) failed h)
    | inr told ↦ mem-read_at r w.table unique (
        Perm.subset (Perm.map to_bet_read (env.pg.select_newest_first_perm w.table)) r
          (subst (λ (o : BetsResponse). Shows (to_bets o) r) told h))
  ]

-- What an answer shows stands in the table that the request leaves.
route-Shows :
    (site : Site) (r : Request) (c : Call) (w : World) (q : BetRead)
    → HasUniqueIds w.table
    → Shows (route site r c w).0 q
    → read_at q.id (route site r c w).1.table ≡ some q
unfolding route
route-Shows site r (post_bet body) w q u h =
    post_bet-Shows site.env site.field site.attempts r.now body w q
      (post_bet_route site.env site.field site.attempts r.now body w).0 refl h
route-Shows site r (get_bet i) w q u h =
    subst (λ (t : Table). read_at q.id t ≡ some q) (ground arith)
      (get_bet-Shows site.env i w q (get_bet_route site.env i w).0 u refl h)
route-Shows site r get_bets w q u h =
    subst (λ (t : Table). read_at q.id t ≡ some q) (ground arith) (get_bets-Shows site.env w q u h)
route-Shows site r get_events w q u h = absurd h
route-Shows site r health w q u h = absurd h

-- A GET of the id of a row.
get_bet_answered :
    (site : Site) (r : Request) (c : LogContext) (w : World) (i : ℕ) (b : Bet)
    → HasUniqueIds w.table
    → r.call ≡ get_bet i
    → find_bet i w.table ≡ some b
    → ((dispatch site r c w).answer ≡ to_bet internal_error_500)
      ⊎ ((dispatch site r c w).answer ≡ to_bet (ok_200 (to_bet_read b)))
unfolding dispatch route
get_bet_answered site r c w i b u asks found =
    let reads = rw found at (get_bet_reads site.env i w u) in
    rw (dispatch, asks) (elim reads [ inl e ↦ inl (ap to_bet e) | inr e ↦ inr (ap to_bet e) ])

-- The same, if its transaction meets no failure.
pub get_bet_answered_fair :
    (site : Site) (r : Request) (c : LogContext) (w : World) (i : ℕ) (b : Bet)
    → HasUniqueIds w.table
    → r.call ≡ get_bet i
    → find_bet i w.table ≡ some b
    → IsFair (site.env.weather w.begun)
    → (dispatch site r c w).answer ≡ to_bet (ok_200 (to_bet_read b))
unfolding dispatch route
get_bet_answered_fair site r c w i b u asks found fair =
    rw (dispatch, asks)
      (ap to_bet (rw found at (get_bet_read site.env i w u fair.begins fair.selects)))

-- A row, after whatever happened.
pub live-StandsBy :
    (hs : List Happening) (w : World) (i : ℕ) (b : Bet)
    → HasUniqueIds w.table
    → find_bet i w.table ≡ some b
    → (b' : Bet) × (find_bet i (live hs w).table ≡ some b')
      × StandsBy (to_bet_read b) (to_bet_read b')
live-StandsBy hs w i b u found =
    let (b', found', k) = (live-Evolves hs w u).1.at i b found in
    (
      b',
      found',
      Keeps-StandsBy (to_bet_read b) b b' refl
          ((find_bet-contains i b' (live hs w).table found').1
            ∙ sym (find_bet-contains i b w.table found).1)
          k,
    )

module _ (site : Site) (r : Request) (c : LogContext) (w : World)
    (unique : HasUniqueIds w.table) where
  abbrev pub told : Served
  told = dispatch site r c w

  pub told_unique : HasUniqueIds told.world.table
  unfolding dispatch live
  told_unique = (live-Evolves (request site r c ∷ []) w unique).0

  told-Shows : (q : BetRead) → Shows told.answer q → read_at q.id told.world.table ≡ some q
  unfolding dispatch
  told-Shows q h = route-Shows site r r.call w q unique h

  pub kept_row :
      (q : BetRead) (hs : List Happening)
      → Shows told.answer q
      → (b : Bet) × (find_bet q.id (live hs told.world).table ≡ some b) × StandsBy q (to_bet_read b)
  kept_row q hs shown =
      let (b, found, same) = row_of q.id told.world.table q (told-Shows q shown) in
      let (b', found', stands) = live-StandsBy hs told.world q.id b told_unique found in
      (b', found', subst (λ (q : BetRead). StandsBy q (to_bet_read b')) same stands)

  -- From a table with unique ids: once an answer of the service has shown a bet, in a 201 or a 200 or in
  -- the list, then whatever requests, deliveries and ticks follow, and whatever fails in them, a GET of
  -- the bet's id is answered with a 500 or with the bet: the same event, amount and creation time, and
  -- all as it was shown if it was not PENDING. It is never answered with a 404.
  pub dispatch-StandsBy :
      (q : BetRead) (hs : List Happening) (site' : Site) (r' : Request) (c' : LogContext)
      → Shows told.answer q
      → r'.call ≡ get_bet q.id
      → let later = (dispatch site' r' c' (live hs told.world)).answer in
        (later ≡ to_bet internal_error_500)
        ⊎ ((q' : BetRead) × (later ≡ to_bet (ok_200 q')) × StandsBy q q')
  dispatch-StandsBy q hs site' r' c' shown asks =
      let w' = live hs told.world in
      let (b', found', stands) = kept_row q hs shown in
      elim (get_bet_answered site' r' c' w' q.id b' (live-Evolves hs told.world told_unique).0 asks
        found') [ inl failed ↦ inl failed | inr again ↦ inr (to_bet_read b', again, stands) ]
