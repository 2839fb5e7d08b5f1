-- ===== src/LineProvider/Steps/Tracing.antt =====
-- Which request a message tells of: the correlation id that goes with it.
use bsw.Common.{ℕ, ◌≡◌, ◌⊎◌, inl, inr, refl, true, Option, some, List, ◌∷◌, arith, Option-cases}
use bsw.Common.Dict.{lookup}
use bsw.LineProvider.Schemas.{
  EventState, EventTerminalState, Event, EventUpdate, FieldTest, RequestId, parse_event_update,
}
use bsw.LineProvider.Service.{
  Broker, Confirm-cases, LineProvider, Publication, SetEventState, RoutingKey,
  event_state_to_terminal, terminal_to_routing, finished_message, set_event_state,
}
use bsw.LineProvider.Api.{
  Request, Call, post_event, put_event, get_event, list_events, post_event_route, put_event_route,
  get_event_route, list_events_route, route, dispatch, correlation_of,
}
use bsw.LineProvider.Steps.{written}

-- Nothing is published, or one persistent message with this correlation id inside and outside.
abbrev pub Traced : RequestId → List Publication → List Publication → Type 0
Traced c old new =
    (new ≡ old)
    ⊎ ((p : Publication) × (new ≡ p ∷ old)
        × (p.correlation_id ≡ c)
        × (p.message.correlation_id ≡ c)
        × (p.persist ≡ true))

module _ (broker : Broker) (now : ℕ) where
  announced-Traced :
      (args : SetEventState) (lp : LineProvider) (old : Event) (t : EventTerminalState)
      (key : RoutingKey)
      → lookup args.event_id lp.store ≡ some old
      → old.state ≡ EventState.new
      → event_state_to_terminal args.new_state ≡ some t
      → terminal_to_routing args.new_state ≡ some key
      → Traced args.correlation_id lp.published (set_event_state broker now args lp).1.published
  unfolding set_event_state
  announced-Traced args lp old t key found was_new terminal routed =
      let call : Publication = record {
        message = finished_message now args.correlation_id (written args old) t;
        routing_key = key;
        persist = true;
        correlation_id = args.correlation_id;
      } in
      elim (Confirm-cases (broker lp.published call)) [
        | inl lost ↦ inl (ground arith)
        | inr (inl known) ↦ inr (call, ground arith, refl, refl, refl)
        | inr (inr unknown) ↦ inr (call, ground arith, refl, refl, refl)
      ]

  found-Traced :
      (from to : EventState) (args : SetEventState) (lp : LineProvider) (old : Event)
      → lookup args.event_id lp.store ≡ some old
      → old.state ≡ from
      → args.new_state ≡ to
      → Traced args.correlation_id lp.published (set_event_state broker now args lp).1.published
  unfolding set_event_state
  found-Traced EventState.new EventState.finished_win args lp old found was is =
      announced-Traced args lp old EventTerminalState.finished_win RoutingKey.event_finished_win
        found was (rw is) (rw is)
  found-Traced EventState.new EventState.finished_lose args lp old found was is =
      announced-Traced args lp old EventTerminalState.finished_lose RoutingKey.event_finished_lose
        found was (rw is) (rw is)
  found-Traced _ _ args lp old found was is = inl (ground arith)

  set_event_state-Traced :
      (args : SetEventState) (lp : LineProvider)
      → Traced args.correlation_id lp.published (set_event_state broker now args lp).1.published
  set_event_state-Traced args lp = elim (Option-cases (lookup args.event_id lp.store)) [
    | inl unknown ↦ inl (unfold set_event_state in ground arith)
    | inr (old, found) ↦ found-Traced old.state args.new_state args lp old found refl refl
  ]

module _ (broker : Broker) (field : FieldTest) where
  put_event_route-Traced :
      (now : ℕ) (header : Option ℕ) (event_id : ℕ) (body : EventUpdate) (lp : LineProvider)
      → Traced
          (correlation_of header)
          lp.published
          (put_event_route broker field now header event_id body lp).1.published
  unfolding put_event_route
  put_event_route-Traced now header event_id body lp =
      elim (Option-cases (parse_event_update field body)) [
        | inl invalid ↦ inl (ground arith)
        | inr (valid, parsed) ↦
            rw (put_event_route, parsed) (set_event_state-Traced broker now _ lp)
      ]

  route-Traced :
      (r : Request) (c : Call) (lp : LineProvider)
      → Traced (correlation_of r.header) lp.published (route broker field r c lp).1.published
  unfolding route
  route-Traced r (post_event body) lp = inl (unfold post_event_route in ground arith)
  route-Traced r (put_event i body) lp = put_event_route-Traced r.now r.header i body lp
  route-Traced r (get_event i) lp = inl (unfold get_event_route in ground arith)
  route-Traced r list_events lp = unfold list_events_route in inl refl

  -- What a request publishes has the correlation id of its header, or the id for no header.
  pub dispatch-Traced :
      (r : Request) (lp : LineProvider)
      → Traced (correlation_of r.header) lp.published (dispatch broker field r lp).2.published
  unfolding dispatch
  dispatch-Traced r lp = route-Traced r r.call lp
