-- ===== src/LineProvider/Steps/Raised.antt =====
-- Calls of `set_event_state` of src/line_provider/interactors/set_event_state.py that raise.
use bsw.Common.{
  ℕ, true, none, some, List, ◌∷◌, ◌≡◌, ◌⊎◌, inl, inr, refl, ◌∙◌, sym, ap, arith, Option-cases,
}
use bsw.Common.Dict.{lookup, insert, lookup-insert}
use bsw.LineProvider.Schemas.{EventState, EventTerminalState, Event}
use bsw.LineProvider.Service.{
  Broker, LineProvider, Outcome, returned, raised, publish_failed, Publication, SetEventState,
  event_state_to_terminal, set_event_state, Confirm-cases, refused, unconfirmed, RoutingKey,
  terminal_to_routing, finished_message,
}
use bsw.LineProvider.Steps.{written}
use bsw.LineProvider.Steps.Invariant.{outcome, outcome_of}

-- The message of an exception out of publishing: not taken, or taken and not confirmed.
abbrev IsInDoubt : Broker → List Publication → List Publication → Publication → Type 0
IsInDoubt broker before after p =
    ((broker before p ≡ refused) × (after ≡ before))
    ⊎ ((broker before p ≡ unconfirmed) × (after ≡ p ∷ before))

-- A call that raises leaves the service as it was, or raises in publishing the message of the event
-- and its new state: then the event was not finished, and the new state is stored.
abbrev pub RaisedOnlyInPublish :
    Broker → SetEventState → LineProvider → Outcome Event × LineProvider → Type 0
RaisedOnlyInPublish broker args lp (returned e, lp') = Unit
RaisedOnlyInPublish broker args lp (raised x, lp') =
    (lp' ≡ lp)
    ⊎ ((x ≡ publish_failed)
        × (outcome lp args.event_id ≡ none)
        × (outcome lp' args.event_id ≡ event_state_to_terminal args.new_state)
        × (e : Event) × (lookup args.event_id lp'.store ≡ some e)
        × (p : Publication) × (p.message.event_id ≡ e.event_id)
        × (some p.message.new_state ≡ event_state_to_terminal args.new_state)
        × IsInDoubt broker lp.published lp'.published p)

module _ (broker : Broker) (now : ℕ) where
  -- A call that raises in publishing the message, which leaves these messages taken.
  in_doubt :
      (args : SetEventState) (lp : LineProvider) (old : Event) (p : Publication)
      (t : EventTerminalState)
      → lookup args.event_id lp.store ≡ some old
      → old.state ≡ EventState.new
      → event_state_to_terminal args.new_state ≡ some t
      → p.message.event_id ≡ old.event_id
      → p.message.new_state ≡ t
      → (ps : List Publication) → IsInDoubt broker lp.published ps p
      → set_event_state broker now args lp ≡ (
        raised publish_failed,
        record { store = insert args.event_id (written args old) lp.store; published = ps },
      )
      → RaisedOnlyInPublish broker args lp (set_event_state broker now args lp)
  in_doubt args lp old p t found was_new terminal about tells ps doubt run =
      let e = written args old in
      let stored : lookup args.event_id (insert args.event_id e lp.store) ≡ some e =
        ground (arith, lookup-insert args.event_id args.event_id e lp.store) in
      rw run (
        inr (
          refl,
          ground arith,
          ap outcome_of stored,
          e,
          stored,
          p,
          about,
          ap some tells ∙ sym terminal,
          doubt,
        ))

  raised_finish :
      (args : SetEventState) (lp : LineProvider) (old : Event) (t : EventTerminalState)
      (key : RoutingKey)
      → lookup args.event_id lp.store ≡ some old
      → old.state ≡ EventState.new
      → event_state_to_terminal args.new_state ≡ some t
      → terminal_to_routing args.new_state ≡ some key
      → RaisedOnlyInPublish broker args lp (set_event_state broker now args lp)
  unfolding set_event_state
  raised_finish args lp old t key found was_new terminal routed =
      let call : Publication = record {
        message = finished_message now args.correlation_id (written args old) t;
        routing_key = key;
        persist = true;
        correlation_id = args.correlation_id;
      } in
      elim (Confirm-cases (broker lp.published call)) [
        | inl lost ↦
            in_doubt args lp old call t found was_new terminal refl refl lp.published
              (inl (lost, refl)) (ground arith)
        | inr (inl known) ↦ ground arith
        | inr (inr unknown) ↦
            in_doubt args lp old call t found was_new terminal refl refl (call ∷ lp.published)
              (inr (unknown, refl)) (ground arith)
      ]

  raised_found :
      (from to : EventState) (args : SetEventState) (lp : LineProvider) (old : Event)
      → lookup args.event_id lp.store ≡ some old
      → old.state ≡ from
      → args.new_state ≡ to
      → RaisedOnlyInPublish broker args lp (set_event_state broker now args lp)
  unfolding set_event_state
  raised_found EventState.new EventState.new args lp old found was is = ground arith
  raised_found EventState.new EventState.finished_win args lp old found was is =
      raised_finish args lp old EventTerminalState.finished_win RoutingKey.event_finished_win found
        was (rw is) (rw is)
  raised_found EventState.new EventState.finished_lose args lp old found was is =
      raised_finish args lp old EventTerminalState.finished_lose RoutingKey.event_finished_lose
        found was (rw is) (rw is)
  raised_found _ _ args lp old found was is = ground arith

  -- An exception out of `set_event_state` leaves the service as it was, unless it comes from
  -- publishing: then the event was not finished, its new state is stored all the same, and the
  -- message that tells that state either was refused, and what the broker took is what it was, or was
  -- taken without being confirmed, and is the one message added.
  pub set_event_state_raised :
      (args : SetEventState) (lp : LineProvider)
      → RaisedOnlyInPublish broker args lp (set_event_state broker now args lp)
  set_event_state_raised args lp = elim (Option-cases (lookup args.event_id lp.store)) [
    | inl unknown ↦ unfold set_event_state in ground arith
    | inr (old, found) ↦ raised_found old.state args.new_state args lp old found refl refl
  ]
