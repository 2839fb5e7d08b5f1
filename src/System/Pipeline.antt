-- ===== src/System/Pipeline.antt =====
-- The way of a message: from the request that finishes an event in src/line_provider, over the queues of
-- src/bet_maker, to the handler `on_event_finished` and what it makes of the delivery.
pub mod Accounting
use bsw.Common.{ℕ, ◌≡◌, some, List, [], ◌∷◌, ◌++◌, length}
use bsw.LineProvider.Schemas.{FieldTest}
use bsw.LineProvider.Service.{Broker, LineProvider, Publication}
use bsw.LineProvider.Api.{Request, dispatch, initial}
use bsw.BetMaker.Database.{World}
use bsw.BetMaker.PlaceBet.{Env}
use bsw.BetMaker.Consumer.{Fate, acked, rejected, left, on_event_finished}
use bsw.Messaging.{Vhost, Amqp, key_text, start, bet_maker}
use bsw.Messaging.Routing.{finished_messages}

-- Both services with the broker between them, and the messages acknowledged so far.
pub record Pipeline : Type 0 where
  pub line_provider : LineProvider
  pub vhost : Vhost
  pub world : World
  pub done : List Publication

-- What a delivery of the message at a place in the queue leaves there, by its fate. Without an answer
-- the message stays, and is delivered again.
abbrev pub after_delivery : Amqp → Fate → ℕ → Publication → Pipeline → Pipeline
after_delivery amqp acked n p s = record s {
  vhost = amqp.ack "bet_maker.events.finished" n s.vhost;
  done = p ∷ s.done;
}
after_delivery amqp rejected n p s = record s {
  vhost = amqp.reject "bet_maker.events.finished" n s.vhost;
}
after_delivery amqp left n p s = s

-- One step: a request to line-provider that publishes nothing, or something; a delivery from any place
-- in the queue; a restart of bet-maker; or anything else that happens to the bets. Each step has
-- failures of its own.
pub data Step (amqp : Amqp) (s : Pipeline) : Pipeline → Type 1 where
  request :
      (broker : Broker) (field : FieldTest) (r : Request)
      → (dispatch broker field r s.line_provider).2.published ≡ s.line_provider.published
      → Step amqp s (record s { line_provider = (dispatch broker field r s.line_provider).2 })
  announcing :
      (broker : Broker) (field : FieldTest) (r : Request) (p : Publication) (v : Vhost)
      → (dispatch broker field r s.line_provider).2.published ≡ p ∷ s.line_provider.published
      → amqp.basic_publish "bsw.events" (key_text p.routing_key) p s.vhost ≡ some v
      → Step amqp s
          (record s { line_provider = (dispatch broker field r s.line_provider).2; vhost = v })
  deliver :
      (env : Env) (xs : List Publication) (p : Publication) (ys : List Publication)
      → finished_messages s.vhost ≡ xs ++ p ∷ ys
      → Step amqp s (
          after_delivery amqp
            (on_event_finished env (some p.message) s.world).0
            (length xs)
            p
            (record s { world = (on_event_finished env (some p.message) s.world).1 }))
  restart :
      (v : Vhost) → start amqp bet_maker s.vhost ≡ some v → Step amqp s (record s { vhost = v })
  other : (w : World) → Step amqp s (record s { world = w })

pub data Reach (amqp : Amqp) (s : Pipeline) : Pipeline → Type 1 where
  here : Reach amqp s s
  next : {t u : Pipeline} → Reach amqp s t → Step amqp t u → Reach amqp s u

-- Nothing has been published.
abbrev pub opening : Vhost → World → Pipeline
opening v w = record { line_provider = initial; vhost = v; world = w; done = [] }
