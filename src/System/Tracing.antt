-- ===== src/System/Tracing.antt =====
-- One request followed through both services: from its X-Request-ID to the logs of the delivery.
use bsw.Common.{
  ℕ, ◌≡◌, ◌≢◌, ◌⊎◌, ◌↔◌, inl, inr, refl, ap, false, none, some, ◌∷◌, arith, Option-cases,
}
use bsw.LineProvider.Schemas.{FieldTest, RequestId}
use bsw.LineProvider.Service.{Broker, LineProvider, Publication}
use bsw.LineProvider.Api.{Request, dispatch, correlation_of, is_unhandled}
use bsw.LineProvider.Steps.Tracing.{dispatch-Traced}
use bsw.BetMaker.Database.{World}
use bsw.BetMaker.PlaceBet.{Env}
use bsw.BetMaker.Consumer.Context.{LogContext, RabbitMessage, handle}

-- The AMQP properties of a publication, with the message id that the broker's client draws.
abbrev pub properties_of : ℕ → Publication → RabbitMessage
properties_of n p = record { message_id = n; correlation_id = p.correlation_id }

-- The context of a delivery that belongs to a request.
abbrev pub traced_context : ℕ → RequestId → ℕ → LogContext
traced_context n c event_id = record {
  request_id = none;
  message_id = some n;
  correlation_id = some c;
  event_id = some event_id;
}

request_id_kept :
    (broker : Broker) (field : FieldTest) (r : Request) (lp : LineProvider)
    → let o = dispatch broker field r lp in
      (some (correlation_of r.header) ≡ o.1) ↔ ((r.header ≢ none) × (is_unhandled o.0 ≡ false))
unfolding dispatch
request_id_kept broker field r lp = (
  λ e. (λ absent. ground arith, ground arith),
  λ h. elim (Option-cases r.header) [
    | inl absent ↦ absurd (h.0 absent)
    | inr (i, e) ↦ rw (dispatch, h.1, e) refl
  ],
)

module _ (broker : Broker) (field : FieldTest) (r : Request) (lp : LineProvider) (env : Env) (n : ℕ)
    (c : LogContext) (w : World) where
  -- What a delivery logs, and what is bound after it.
  abbrev pub Logs : Publication → Type 0
  Logs p =
      let d = handle env (some p.message) (properties_of n p) c w in
      (d.during ≡ traced_context n (correlation_of r.header) p.message.event_id)
      × (d.after
          ≡ record { request_id = none; message_id = none; correlation_id = none; event_id = none })

  -- A request to line-provider publishes nothing, or one message; and whatever is bound before, the logs
  -- of a delivery of that message carry the correlation id of the request, the message's id and its
  -- event, and nothing is bound after it. The correlation id is the one that the request's answer has in
  -- its X-Request-ID exactly if the request brought that header and is not answered with a 500.
  pub dispatch-Logs :
      let o = dispatch broker field r lp in
      ((o.2.published ≡ lp.published)
        ⊎ ((p : Publication) × (o.2.published ≡ p ∷ lp.published) × Logs p))
      × ((some (correlation_of r.header) ≡ o.1) ↔ ((r.header ≢ none) × (is_unhandled o.0 ≡ false)))
  unfolding handle
  dispatch-Logs = (
    elim (dispatch-Traced broker field r lp) [
      | inl silent ↦ inl silent
      | inr (p, told, outside, inside, kept) ↦
          inr (p, told, (ap (λ i. traced_context n i p.message.event_id) outside, refl))
    ],
    request_id_kept broker field r lp,
  )
