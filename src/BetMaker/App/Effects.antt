-- ===== src/BetMaker/App/Effects.antt =====
-- What a request does to the table, by its answer.
use bsw.Common.{
  ℕ, ◌≡◌, ◌⊎◌, inl, inr, refl, ap, true, false, Bool, Option, none, some, ◌∷◌, contains, arith,
  Option-cases,
}
use bsw.Money.{Decimal, quantize_amount}
use bsw.BetMaker.Exceptions.{
  Exn, event_not_bettable, line_provider_unavailable, Outcome, returned, raised,
}
use bsw.BetMaker.Models.{Bet, BetStatus, BetRead}
use bsw.BetMaker.Database.{Table, Weather, World, Point, after_commit}
use bsw.BetMaker.Database.Rows.{ids}
use bsw.BetMaker.Client.{EventSnapshot, get_event}
use bsw.BetMaker.PlaceBet.{
  BetCreate, created_201, internal_error_500, new_bet, parse_bet_create, place_bet, post_bet_answer,
  post_bet as post_bet_route,
}
use bsw.BetMaker.PlaceBet.Acceptance.{Stored, Places, place_bet-Places}
use bsw.BetMaker.BetRoutes.{get_bet_by_id, get_bet_answer, get_bet as get_bet_route}
use bsw.BetMaker.BetRoutes.Reading.{Adds, post_bet_valid, post_bet_invalid}
use bsw.BetMaker.Consumer.Context.{LogContext}
use bsw.BetMaker.App.{
  Answer, to_bet, Call, post_bet, get_bet, get_bets, get_events, health, Request, Site, route,
  dispatch,
}

-- One PENDING bet more, under a fresh id.
abbrev pub AddsPending : Table → Table → Type 0
AddsPending t t' =
    (b : Bet) × (t' ≡ b ∷ t) × (b.status ≡ BetStatus.pending) × (contains b.id (ids t) ≡ false)

abbrev pub Effect : Answer → Table → Table → Type 0
Effect (to_bet (created_201 r)) t t' = Adds r t t' × (r.status ≡ BetStatus.pending)
Effect (to_bet internal_error_500) t t' = (t' ≡ t) ⊎ AddsPending t t'
Effect _ t t' = t' ≡ t

-- An exception that is none of the service's own two.
abbrev pub is_foreign : Exn → Bool
is_foreign line_provider_unavailable = false
is_foreign (event_not_bettable r) = false
is_foreign _ = true

raised-Effect :
    (i : ℕ) (x : Exn) (t t' : Table) → t' ≡ t → Effect (to_bet (post_bet_answer i (raised x))) t t'
raised-Effect i line_provider_unavailable t t' h = h
raised-Effect i (event_not_bettable r) t t' h = h
raised-Effect i _ t t' h = inl h

lost-Effect :
    (i : ℕ) (x : Exn) (t t' : Table)
    → is_foreign x ≡ true
    → AddsPending t t'
    → Effect (to_bet (post_bet_answer i (raised x))) t t'
lost-Effect i line_provider_unavailable t t' f h = cc
lost-Effect i (event_not_bettable r) t t' f h = cc
lost-Effect i _ t t' f h = inr h

read-Effect :
    (i : ℕ) (o : Outcome (Option BetRead)) (t t' : Table)
    → t' ≡ t
    → Effect (to_bet (get_bet_answer i o)) t t'
read-Effect i (returned none) t t' h = h
read-Effect i (returned (some r)) t t' h = h
read-Effect i (raised x) t t' h = inl h

module _ (i : ℕ) (e : Weather)
    (foreign : (p : Point) (x : Exn) → e.fails p ≡ some x → is_foreign x ≡ true) where
  Stored-Effect :
      (stake : Option Decimal) (t : Table) (o : Outcome BetRead × World)
      → Stored e i stake t o
      → Effect (to_bet (post_bet_answer i o.0)) t o.1.table
  Stored-Effect none t (returned r, w') st = absurd st
  Stored-Effect none t (raised x, w') st = raised-Effect i x t w'.table st
  Stored-Effect (some stake) t (returned r, w') st = (
    record { bet = new_bet e i stake; reads = st.1; holds = st.0; fresh = st.2 },
    ap (λ (q : BetRead). q.status) st.1,
  )
  Stored-Effect (some stake) t (raised x, w') (inl same) = raised-Effect i x t w'.table same
  Stored-Effect (some stake) t (raised x, w') (inr st) =
      lost-Effect i x t w'.table (foreign after_commit x st.0) (new_bet e i stake, st.1, refl, st.2)

module _ (site : Site)
    (foreign : (n : ℕ) (p : Point) (x : Exn)
      → (site.env.weather n).fails p ≡ some x
      → is_foreign x ≡ true) where
  Places-Effect :
      (now i : ℕ) (amount : Decimal) (w : World) (found : Outcome (Option EventSnapshot))
      (o : Outcome BetRead × World)
      → Places site.env now i amount w found o
      → Effect (to_bet (post_bet_answer i o.0)) w.table o.1.table
  Places-Effect now i amount w (raised x) (o, w') p =
      rw p.0 (raised-Effect i x w.table w'.table p.1)
  Places-Effect now i amount w (returned found) (o, w') (inl p) =
      rw p.2 (raised-Effect i (event_not_bettable p.0) w.table w'.table p.3)
  Places-Effect now i amount w (returned found) o (inr p) =
      Stored-Effect i (site.env.weather w.begun) (foreign w.begun) (quantize_amount amount) w.table
        o p.1

  post_bet-Effect :
      (now : ℕ) (body : BetCreate) (w : World)
      → let o = post_bet_route site.env site.field site.attempts now body w in
        Effect (to_bet o.0) w.table o.1.table
  post_bet-Effect now body w = elim (Option-cases (parse_bet_create site.field body)) [
    | inl bad ↦ rw (post_bet_invalid site.env site.field site.attempts now body w bad) refl
    | inr (valid, good) ↦
        rw (post_bet_valid site.env site.field site.attempts now body w valid good) (
          Places-Effect now valid.event_id valid.amount w
            (get_event site.env.tenacity site.env.http site.attempts valid.event_id w.requests).0
            (place_bet site.env site.attempts now valid.event_id valid.amount w)
            (place_bet-Places site.env site.attempts now valid.event_id valid.amount w))
  ]

  route-Effect :
      (r : Request) (c : Call) (w : World)
      → let o = route site r c w in Effect o.0 w.table o.1.table
  unfolding route
  route-Effect r (post_bet body) w = post_bet-Effect r.now body w
  route-Effect r (get_bet i) w =
      read-Effect i (get_bet_by_id site.env.pg site.env.weather i w).0 w.table
        (get_bet_route site.env i w).1.table (ground arith)
  route-Effect r get_bets w = ground arith
  route-Effect r get_events w = refl
  route-Effect r health w = refl

  -- If what the database raises is none of the service's own exceptions: a request leaves the table as
  -- it is, unless it is answered with a 201, and then the bet of that answer is there, PENDING, under an
  -- id that was free, and nothing else has changed; or with a 500, when either nothing has changed or
  -- one such bet is there.
  pub dispatch-Effect :
      (r : Request) (c : LogContext) (w : World)
      → let o = dispatch site r c w in Effect o.answer w.table o.world.table
  unfolding dispatch
  dispatch-Effect r c w = route-Effect r r.call w
