-- ===== src/LineProvider/Steps/Absent.antt =====
-- Requests that do not post an event, from a store without it.
use bsw.Common.{ℕ, ◌≡◌, ◌≢◌, Option, none, some, List, [], ◌∷◌, arith, Option-cases, inl, inr}
use bsw.Common.Dict.{lookup, lookup-insert}
use bsw.LineProvider.Schemas.{
  FieldTest, EventCreate, EventUpdate, parse_event_create, parse_event_update,
}
use bsw.LineProvider.Service.{Broker, LineProvider, SetEventState, set_event_state}
use bsw.LineProvider.Api.{
  Request, Call, post_event, put_event, get_event, list_events, post_event_route, put_event_route,
  get_event_route, list_events_route, route, dispatch, serve,
}
use bsw.LineProvider.Steps.{written, created}

-- The request does not create the event.
abbrev pub Spares : ℕ → Call → Type 0
Spares i (post_event body) = body.event_id ≢ i
Spares i _ = Unit

abbrev pub AllSpare : ℕ → List Request → Type 0
AllSpare i [] = Unit
AllSpare i (r ∷ rs) = Spares i r.call × AllSpare i rs

parsed_id :
    (field : FieldTest) (now : ℕ) (body valid : EventCreate)
    → parse_event_create field now body ≡ some valid
    → valid.event_id ≡ body.event_id
unfolding parse_event_create
parsed_id field now body valid e = ground arith

module _ (broker : Broker) (field : FieldTest) (i : ℕ) where
  post-absent :
      (now : ℕ) (body : EventCreate) (lp : LineProvider)
      → body.event_id ≢ i
      → lookup i lp.store ≡ none
      → lookup i (post_event_route field now body lp).1.store ≡ none
  unfolding post_event_route
  post-absent now body lp other h = elim (Option-cases (parse_event_create field now body)) [
    | inl invalid ↦ ground arith
    | inr (valid, parsed) ↦ ground (
      arith,
      parsed_id field now body valid parsed,
      lookup-insert valid.event_id i (created valid) lp.store,
    )
  ]

  set-absent :
      (now : ℕ) (args : SetEventState) (lp : LineProvider)
      → lookup i lp.store ≡ none
      → lookup i (set_event_state broker now args lp).1.store ≡ none
  unfolding set_event_state
  set-absent now args lp h = elim (Option-cases (lookup args.event_id lp.store)) [
    | inl unknown ↦ ground arith
    | inr (old, found) ↦ ground (arith, lookup-insert args.event_id i (written args old) lp.store)
  ]

  put-absent :
      (now : ℕ) (header : Option ℕ) (event_id : ℕ) (body : EventUpdate) (lp : LineProvider)
      → lookup i lp.store ≡ none
      → lookup i (put_event_route broker field now header event_id body lp).1.store ≡ none
  unfolding put_event_route
  put-absent now header event_id body lp h = elim (Option-cases (parse_event_update field body)) [
    | inl invalid ↦ rw (put_event_route, invalid) h
    | inr (valid, parsed) ↦ rw (put_event_route, parsed) (set-absent now _ lp h)
  ]

  route-absent :
      (r : Request) (c : Call) (lp : LineProvider)
      → Spares i c
      → lookup i lp.store ≡ none
      → lookup i (route broker field r c lp).1.store ≡ none
  unfolding route
  route-absent r (post_event body) lp s h = post-absent r.now body lp s h
  route-absent r (put_event k body) lp s h = put-absent r.now r.header k body lp h
  route-absent r (get_event k) lp s h = unfold get_event_route in ground arith
  route-absent r list_events lp s h = unfold list_events_route in h

  pub serve-absent :
      (rs : List Request) (lp : LineProvider)
      → AllSpare i rs
      → lookup i lp.store ≡ none
      → lookup i (serve broker field rs lp).store ≡ none
  unfolding serve dispatch
  serve-absent [] lp s h = h
  serve-absent (r ∷ rs) lp s h =
      serve-absent rs (dispatch broker field r lp).2 s.1 (route-absent r r.call lp s.0 h)
