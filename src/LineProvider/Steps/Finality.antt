-- ===== src/LineProvider/Steps/Finality.antt =====
-- Sequences of requests to src/line_provider/api/events.py: the outcomes of events, and the messages
-- about them.
use bsw.Common.{
  ℕ, ◌≤◌, none, some, List, [], ◌∷◌, ◌≡◌, inl, inr, refl, ◌∙◌, ◌≢◌, arith, All, Option-cases,
}
use bsw.Common.Dict.{lookup, lookup-insert}
use bsw.LineProvider.Schemas.{
  EventTerminalState, EventRead, EventCreate, FieldTest, parse_event_create,
}
use bsw.LineProvider.Service.{Broker, LineProvider, Publication, refused}
use bsw.LineProvider.Api.{
  Request, created_201, ok_200, conflict_409, post_event_route, get_event_route, dispatch, initial,
  serve,
}
use bsw.LineProvider.Steps.{
  Step, idle, create, edit, finish, finish_unannounced, created, dispatch-Step,
}
use bsw.LineProvider.Steps.Invariant.{
  outcome, messages, IsTrue, IsValid, Step-outcome, serve-IsValid, dispatch-IsValid,
  initial-IsValid,
}

module _ (broker : Broker) (field : FieldTest) where
  -- Once an event has finished, no sequence of requests changes how it finished.
  pub serve-outcome :
      (rs : List Request) (lp : LineProvider) (k : ℕ) {t : EventTerminalState}
      → outcome lp k ≡ some t
      → outcome (serve broker field rs lp) k ≡ some t
  unfolding serve
  serve-outcome [] lp k h = h
  serve-outcome (r ∷ rs) lp k h =
      serve-outcome rs (dispatch broker field r lp).2 k
        (Step-outcome k (dispatch-Step broker field r lp) h)

  -- After any requests to a service that began empty, the broker has taken at most one message about
  -- each event, none about an event that has not finished, and every message that it took tells how
  -- its event stands finished in the store.
  pub serve-messages :
      (rs : List Request) (k : ℕ)
      → let lp = serve broker field rs initial in
        (messages lp k ≤ 1)
        × (outcome lp k ≡ none → messages lp k ≡ 0)
        × All (IsTrue lp) lp.published
  serve-messages rs k =
      let v = serve-IsValid broker field rs initial-IsValid in (v.once k, v.quiet k, v.truthful)

  Step-messages :
      {lp lp' : LineProvider} (k : ℕ) {t : EventTerminalState}
      → Step broker lp lp'
      → IsValid lp
      → outcome lp k ≡ some t
      → messages lp' k ≡ messages lp k
  Step-messages k (idle s) v h = ground arith
  Step-messages k (create n a b c) v h = ground arith
  Step-messages k (edit i old n a b c d) v h = ground arith
  Step-messages k (finish i old n t p a b c d f g l) v h = ground (arith, v.keyed i old a)
  Step-messages k (finish_unannounced i old n t p a b c d g l) v h = ground arith

  -- From a valid state, once an event has finished the number of messages about it stays what it is:
  -- a message that the broker did not take is not sent by any later request.
  pub serve-messages_fixed :
      (rs : List Request) {lp : LineProvider} (k : ℕ) {t : EventTerminalState}
      → IsValid lp
      → outcome lp k ≡ some t
      → messages (serve broker field rs lp) k ≡ messages lp k
  unfolding serve
  serve-messages_fixed [] k v h = refl
  serve-messages_fixed (r ∷ rs) {lp} k v h =
      serve-messages_fixed rs k (dispatch-IsValid broker field r v)
        (Step-outcome k (dispatch-Step broker field r lp) h)
      ∙ Step-messages k (dispatch-Step broker field r lp) v h

  module _
      (reliable : (calls : List Publication) (p : Publication) → broker calls p ≢ refused) where
    abbrev IsAnnounced : LineProvider → Type 0
    IsAnnounced lp = (k : ℕ) (t : EventTerminalState) → outcome lp k ≡ some t → messages lp k ≡ 1

    Step-IsAnnounced :
        {lp lp' : LineProvider} → Step broker lp lp' → IsValid lp → IsAnnounced lp → IsAnnounced lp'
    Step-IsAnnounced (idle s) v a k t h = ground (arith, a k t)
    Step-IsAnnounced {lp} (create n x b c) v a k t h =
        ground (arith, lookup-insert n.event_id k n lp.store, a k t)
    Step-IsAnnounced {lp} (edit i old n x b c d) v a k t h =
        ground (arith, lookup-insert i k n lp.store, a k t)
    Step-IsAnnounced {lp} (finish i old n u p x b c d f g l) v a k t h =
        ground (arith, lookup-insert i k n lp.store, a k t, v.quiet k, v.keyed i old x)
    Step-IsAnnounced {lp} (finish_unannounced i old n u p x b c d g l) v a k t h =
        absurd (reliable lp.published p g)

    serve-IsAnnounced :
        (rs : List Request) (lp : LineProvider)
        → IsValid lp
        → IsAnnounced lp
        → IsAnnounced (serve broker field rs lp)
    unfolding serve
    serve-IsAnnounced [] lp v a = a
    serve-IsAnnounced (r ∷ rs) lp v a =
        serve-IsAnnounced rs (dispatch broker field r lp).2 (dispatch-IsValid broker field r v)
          (Step-IsAnnounced (dispatch-Step broker field r lp) v a)

    -- With a broker that takes every message, after any requests to a service that began empty there
    -- is exactly one message about each event that has finished.
    pub serve-messages_reliable :
        (rs : List Request) (k : ℕ) (t : EventTerminalState)
        → outcome (serve broker field rs initial) k ≡ some t
        → messages (serve broker field rs initial) k ≡ 1
    serve-messages_reliable rs =
        serve-IsAnnounced rs initial initial-IsValid (λ k t h. unfold lookup in cc)

-- What POST /event answers with is what GET /event/{event_id} then answers with, and a second POST
-- of the same event is refused and changes nothing.
pub get_event_route-post :
    (field : FieldTest) (now : ℕ) (body : EventCreate) (lp : LineProvider) (e : EventRead)
    → (post_event_route field now body lp).0 ≡ created_201 e
    → let lp' = (post_event_route field now body lp).1 in
      (get_event_route e.event_id lp' ≡ (ok_200 e, lp'))
      × (post_event_route field now body lp' ≡ (conflict_409 e.event_id, lp'))
unfolding post_event_route get_event_route
get_event_route-post field now body lp e h =
    elim (Option-cases (parse_event_create field now body)) [
      | inl invalid ↦ ground arith
      | inr (valid, parsed) ↦ elim (Option-cases (lookup valid.event_id lp.store)) [
        | inl unknown ↦
            ground (arith, lookup-insert valid.event_id valid.event_id (created valid) lp.store)
        | inr (old, found) ↦ ground arith
      ]
    ]
