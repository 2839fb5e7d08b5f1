-- ===== src/System/Tests/Queues.antt =====
-- A run over the queues: an event finishes, its message is delivered twice, and acknowledged.
use mathlib.Core.List.{Perm}
use bsw.Common.{
  none, ◌⊎◌, ◌↔◌, ◌≢◌, ◌≡◌, refl, false, some, List, [], ◌∷◌, ◌++◌, any, if◌then◌else◌,
}
use bsw.Common.Dict.{lookup, insert}
use bsw.LineProvider.Service.{Publication}
use bsw.LineProvider.Api.{
  Request, correlation_of, is_unhandled, get_event_route, serve, dispatch, initial,
}
use bsw.BetMaker.PlaceBet.{post_bet}
use bsw.LineProvider.Schemas.{from_header, no_request_id}
use bsw.BetMaker.Consumer.Context.{LogContext}
use bsw.BetMaker.Consumer.{acked, on_event_finished}
use bsw.Messaging.{
  Vhost, Service, line_provider, bet_maker, starts, bare, leads, finished_binding, dlq_binding,
  bsw_events, dlx, finished_queue, dlq,
}
use bsw.Messaging.Reference.{reference_amqp}
use bsw.Messaging.Routing.{finished_messages, dead_messages, publish_all, starts-DeadLettered}
use bsw.System.Tracing.{Logs, dispatch-Logs}
use bsw.System.Pipeline.{
  Pipeline, after_delivery, request, announcing, deliver, Reach, here, next, opening,
}
use bsw.System.Pipeline.Accounting.{Reach-perm}
use bsw.System.Tests.{takes_all, any_decimal, post_7, win_7, env, announcement, placed}

-- bet-maker starts first.
abbrev order : List Service
order = bet_maker ∷ line_provider ∷ bet_maker ∷ []

abbrev second : Publication
second = record announcement { persist = false }

starts-DeadLettered_example :
    (v v' : Vhost) × (starts reference_amqp order bare ≡ some v)
    × (publish_all reference_amqp (announcement ∷ second ∷ []) v ≡ some v')
    × (finished_messages v' ≡ announcement ∷ second ∷ [])
    × (dead_messages v' ≡ [])
    × (let v'' = reference_amqp.reject "bet_maker.events.finished" 1 v' in
        (finished_messages v'' ≡ announcement ∷ []) × (dead_messages v'' ≡ second ∷ []))
starts-DeadLettered_example =
    starts-DeadLettered reference_amqp order (announcement ∷ []) second [] refl

abbrev wired : Vhost
wired = record {
  exchanges = bsw_events ∷ dlx ∷ [];
  queues = finished_queue ∷ dlq ∷ [];
  bindings = finished_binding ∷ dlq_binding ∷ finished_binding ∷ dlq_binding ∷ [];
  messages = λ q. [];
}

started_order : starts reference_amqp order bare ≡ some wired
unfolding starts
started_order = refl

-- The event is created, a bet is placed on it, and it finishes.
abbrev created_7 : Pipeline
created_7 = record (opening wired placed.world) {
  line_provider = (dispatch takes_all any_decimal post_7 initial).2;
}

silent_7 : created_7.line_provider.published ≡ []
unfolding dispatch insert lookup
silent_7 = refl

abbrev queued : Vhost
queued = record wired {
  messages = λ q.
      if any (leads reference_amqp.topic_matches bsw_events "event.finished.win" q) wired.bindings
      then announcement ∷ []
      else [];
}

published_7 :
    reference_amqp.basic_publish "bsw.events" "event.finished.win" announcement wired ≡ some queued
published_7 = refl

abbrev announced_7 : Pipeline
announced_7 = record created_7 {
  line_provider = (dispatch takes_all any_decimal win_7 created_7.line_provider).2;
  vhost = queued;
}

told_7 : announced_7.line_provider.published ≡ announcement ∷ created_7.line_provider.published
unfolding dispatch insert lookup
told_7 = refl

-- Its message is acknowledged.
acked_7 : (on_event_finished env (some announcement.message) placed.world).0 ≡ acked
unfolding on_event_finished post_bet get_event_route lookup serve dispatch insert
acked_7 = refl

abbrev delivered_7 : Pipeline
delivered_7 =
    after_delivery reference_amqp (on_event_finished env (some announcement.message) placed.world).0
      0 announcement
      (record announced_7 {
        world = (on_event_finished env (some announcement.message) placed.world).1;
      })

run_7 : Reach reference_amqp (opening wired placed.world) delivered_7
run_7 =
    next
      (next (next here (request takes_all any_decimal post_7 silent_7))
        (announcing takes_all any_decimal win_7 announcement queued told_7 published_7))
      (deliver env [] announcement [] refl)

Reach-perm_example :
    Perm delivered_7.line_provider.published
      (delivered_7.done ++ (finished_messages delivered_7.vhost ++ dead_messages delivered_7.vhost))
Reach-perm_example = Reach-perm reference_amqp order wired placed.world refl started_order run_7

-- The request has a header, and something is bound before the delivery.
abbrev traced_win : Request
traced_win = record win_7 { header = some 5 }

abbrev stale : LogContext
stale = record {
  request_id = some (from_header 1);
  message_id = none;
  correlation_id = some no_request_id;
  event_id = some 3;
}

dispatch-Logs_example :
    let lp = created_7.line_provider in
    let o = dispatch takes_all any_decimal traced_win lp in
    ((o.2.published ≡ lp.published)
      ⊎ ((p : Publication) × (o.2.published ≡ p ∷ lp.published)
          × Logs takes_all any_decimal traced_win lp env 8 stale placed.world p))
    × ((some (correlation_of traced_win.header) ≡ o.1)
        ↔ ((traced_win.header ≢ none) × (is_unhandled o.0 ≡ false)))
dispatch-Logs_example =
    dispatch-Logs takes_all any_decimal traced_win created_7.line_provider env 8 stale placed.world
