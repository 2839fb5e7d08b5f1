-- ===== src/System/Outcome.antt =====
-- From what a client is shown of a bet to what it is shown once the event has finished.
use bsw.Common.{ℕ, ◌≡◌, refl, sym, ap, ◌∙◌, true, some, List, [], ◌∷◌}
use bsw.LineProvider.Schemas.{EventTerminalState}
use bsw.LineProvider.Service.{LineProvider}
use bsw.LineProvider.Steps.Invariant.{outcome}
use bsw.BetMaker.Models.{Bet, BetStatus, BetRead, to_bet_read, is_pending}
use bsw.BetMaker.Database.{World}
use bsw.BetMaker.Database.Rows.{HasUniqueIds}
use bsw.BetMaker.Settle.{terminal_to_status}
use bsw.BetMaker.Settle.Flip.{IsFair}
use bsw.BetMaker.Settle.Frame.{find_bet}
use bsw.BetMaker.PlaceBet.{Env, ok_200}
use bsw.BetMaker.Reconciler.{run_tick}
use bsw.BetMaker.Interleaving.Captured.{some_inj}
use bsw.BetMaker.Consumer.Context.{LogContext}
use bsw.BetMaker.App.{to_bet, get_bet, Request, Site, dispatch, Happening, tick, live}
use bsw.BetMaker.App.Shown.{Shows}
use bsw.BetMaker.App.Frame.{live-Evolves}
use bsw.BetMaker.App.Promises.{
  StandsBy, told_unique, kept_row, live-StandsBy, get_bet_answered_fair,
}
use bsw.System.{connected}
use bsw.System.Settlement.{run_tick_finished}

pending_still : (b : Bet) → b.status ≡ BetStatus.pending → is_pending b ≡ true
pending_still b h = rw h refl

module _ (env : Env) (lp : LineProvider) (clock attempts : ℕ)
    (fair : (n : ℕ) → IsFair (env.weather n)) where
  abbrev pub ticked : World → World
  ticked w = (run_tick (record env { http = connected clock lp }) attempts w).1

  ticked_row :
      (w : World) (i : ℕ) (b : Bet)
      → HasUniqueIds w.table
      → find_bet i w.table ≡ some b
      → HasUniqueIds (ticked w).table
        × (b' : Bet) × (find_bet i (ticked w).table ≡ some b')
        × StandsBy (to_bet_read b) (to_bet_read b')
  unfolding live
  ticked_row w i b u found =
      let h : Happening = tick (record env { http = connected clock lp }) attempts in
      let (b', found', later) = live-StandsBy (h ∷ []) w i b u found in
      ((live-Evolves (h ∷ []) w u).0, b', found', later)

  ticked_status :
      (w : World) (i : ℕ) (b b' : Bet) (t : EventTerminalState)
      → HasUniqueIds w.table
      → find_bet i w.table ≡ some b
      → find_bet i (ticked w).table ≡ some b'
      → outcome lp b.event_id ≡ some t
      → b.status ≡ BetStatus.pending
      → b'.status ≡ terminal_to_status t
  ticked_status w i b b' t u found found' told open_still =
      let (returns, c, there, kept, status) =
        run_tick_finished env lp clock attempts fair w i b u found (pending_still b open_still) t
          told in
      ap (λ (b : Bet). b.status) (some_inj (sym found' ∙ there)) ∙ status

  -- A client is shown a bet, in a 201 or a 200 or in the list; then whatever requests, deliveries and
  -- ticks follow, and whatever fails in them. Once line-provider has finished the bet's event, one tick
  -- with no failure and no lock of the database, over a network that loses nothing, is enough: if its
  -- transaction meets no failure, a GET of the bet's id is then answered with the bet, on the same event
  -- and for the same amount, WON or LOST as the event finished if it was PENDING before the tick, and
  -- unchanged if it was not. Ids are unique at the start.
  pub dispatch-Settled :
      (site : Site) (r : Request) (c : LogContext) (w : World) (q : BetRead)
      (t : EventTerminalState) (hs : List Happening) (site' : Site) (r' : Request) (c' : LogContext)
      → HasUniqueIds w.table
      → Shows (dispatch site r c w).answer q
      → outcome lp q.event_id ≡ some t
      → r'.call ≡ get_bet q.id
      → let before = live hs (dispatch site r c w).world in
        IsFair (site'.env.weather (ticked before).begun)
        → (b b' : Bet) × (find_bet q.id before.table ≡ some b)
          × StandsBy q (to_bet_read b)
          × ((dispatch site' r' c' (ticked before)).answer ≡ to_bet (ok_200 (to_bet_read b')))
          × StandsBy (to_bet_read b) (to_bet_read b')
          × (b.status ≡ BetStatus.pending → b'.status ≡ terminal_to_status t)
  dispatch-Settled site r c w q t hs site' r' c' unique shown told asks reads =
      let before = live hs (dispatch site r c w).world in
      let u = (live-Evolves hs (dispatch site r c w).world (told_unique site r c w unique)).0 in
      let (b, found, stands) = kept_row site r c w unique q hs shown in
      let (u', b', found', later) = ticked_row before q.id b u found in
      (
        b,
        b',
        found,
        stands,
        get_bet_answered_fair site' r' c' (ticked before) q.id b' u' asks found' reads,
        later,
        ticked_status before q.id b b' t u found found' (ap (outcome lp) stands.event ∙ told),
      )
