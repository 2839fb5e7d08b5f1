-- ===== src/Messaging/Routing.antt =====
-- Where a message goes: from line-provider to the queue of bet-maker, and from there, rejected, to the
-- dead-letter queue.
use mathlib.Core.List.{append-nil, append_assoc}
use Prim.Native.String.{String}
use bsw.Common.{
  if◌then◌else◌, ◌≡◌, inl, inr, refl, sym, ap, ◌∙◌, Bool, true, false, Option, some, List, [], ◌∷◌,
  ◌++◌, All, any, length, arith,
}
use bsw.LineProvider.Service.{RoutingKey, Publication}
use bsw.Messaging.{
  Vhost, Exchange, Binding, Amqp, leads, with_messages, key_text, bsw_events, dlx, finished_queue,
  finished_binding, dlq_binding, Service, starts, bare, ◌>>=◌,
}
use bsw.Messaging.Wiring.{Has, IsOurs, IsWired, bet_maker_started, starts-IsWired}

any_of_Has :
    (p : Binding → Bool) (b : Binding) (bs : List Binding) → p b ≡ true → Has b bs → any p bs ≡ true
any_of_Has p b [] h m = elim m [ ]
any_of_Has p b (c ∷ bs) h (inl e) = rw (ap p e ∙ h) refl
any_of_Has p b (c ∷ bs) h (inr m) = ground (arith, any_of_Has p b bs h m)

any_of_ours :
    (p : Binding → Bool) (bs : List Binding)
    → p finished_binding ≡ false
    → p dlq_binding ≡ false
    → All IsOurs bs
    → any p bs ≡ false
any_of_ours p [] f d h = refl
any_of_ours p (c ∷ bs) f d (inl e, h) = rw (ap p e ∙ f) (any_of_ours p bs f d h)
any_of_ours p (c ∷ bs) f d (inr e, h) = rw (ap p e ∙ d) (any_of_ours p bs f d h)

abbrev pub finished_messages : Vhost → List Publication
finished_messages v = v.messages "bet_maker.events.finished"

abbrev pub dead_messages : Vhost → List Publication
dead_messages v = v.messages "bet_maker.events.finished.dlq"

module _ (amqp : Amqp) where
  finished_leads :
      (key : RoutingKey)
      → leads amqp.topic_matches bsw_events
          (key_text key)
          "bet_maker.events.finished"
          finished_binding
        ≡ true
  finished_leads RoutingKey.event_finished_win = rw amqp.topic_matches_lem refl
  finished_leads RoutingKey.event_finished_lose = rw amqp.topic_matches_lem refl

  -- What a publication makes of the broker where the exchange is declared.
  abbrev appended : Exchange → String → Publication → Vhost → Vhost
  appended e key p v = record v {
    messages = λ q.
        if any (leads amqp.topic_matches e key q) v.bindings
        then v.messages q ++ p ∷ []
        else v.messages q;
  }

  -- The message stands last in the queue of bet-maker, and the dead-letter queue is as it was.
  abbrev pub Queued : Publication → Vhost → Option Vhost → Type 0
  Queued p v o =
      (v' : Vhost) × (o ≡ some v')
      × IsWired v'
      × (finished_messages v' ≡ finished_messages v ++ p ∷ [])
      × (dead_messages v' ≡ dead_messages v)

  pub publish-Queued :
      (key : RoutingKey) (p : Publication) (v : Vhost)
      → IsWired v
      → Queued p v (amqp.basic_publish "bsw.events" (key_text key) p v)
  publish-Queued key p v h = (
    appended bsw_events (key_text key) p v,
    rw (amqp.basic_publish_lem, h.0) refl,
    h,
    rw
        (any_of_Has (leads amqp.topic_matches bsw_events (key_text key) "bet_maker.events.finished")
          finished_binding v.bindings (finished_leads key) h.5)
        refl,
    rw
        (any_of_ours
          (leads amqp.topic_matches bsw_events (key_text key) "bet_maker.events.finished.dlq")
          v.bindings refl refl h.4)
        refl,
  )

  -- An acknowledged message is gone; a rejected one has moved to the dead-letter queue.
  abbrev pub Acked : List Publication → Vhost → Vhost → Type 0
  Acked rest v v' =
      IsWired v' × (finished_messages v' ≡ rest) × (dead_messages v' ≡ dead_messages v)

  abbrev pub DeadLettered : Publication → List Publication → Vhost → Vhost → Type 0
  DeadLettered p rest v v' =
      IsWired v' × (finished_messages v' ≡ rest) × (dead_messages v' ≡ dead_messages v ++ p ∷ [])

  module _ (v : Vhost) (xs : List Publication) (p : Publication) (ys : List Publication)
      (wired : IsWired v) (there : finished_messages v ≡ xs ++ p ∷ ys) where
    pub ack-Acked : Acked (xs ++ ys) v (amqp.ack "bet_maker.events.finished" (length xs) v)
    ack-Acked = rw (amqp.ack_lem "bet_maker.events.finished" v xs p ys there) (wired, refl, refl)

    pub reject-DeadLettered :
        DeadLettered p (xs ++ ys) v (amqp.reject "bet_maker.events.finished" (length xs) v)
    reject-DeadLettered =
        let w = with_messages "bet_maker.events.finished" (xs ++ ys) v in
        rw
          (
            amqp.reject_lem "bet_maker.events.finished" v xs p ys finished_queue "bsw.events.dlx"
                "bet_maker.events.finished" there wired.2 refl,
            amqp.basic_publish_lem,
            wired.1,
          )
          (
            wired,
            rw
                (any_of_ours
                  (leads amqp.topic_matches dlx "bet_maker.events.finished"
                    "bet_maker.events.finished")
                  v.bindings refl refl wired.4)
                refl,
            rw
                (any_of_Has
                  (leads amqp.topic_matches dlx "bet_maker.events.finished"
                    "bet_maker.events.finished.dlq")
                  dlq_binding v.bindings refl wired.6)
                refl,
          )

  -- Publications one after another, each under its own key.
  unfoldable pub publish_all : List Publication → Vhost → Option Vhost
  publish_all [] v = some v
  publish_all (p ∷ ps) v = do
    v' ← amqp.basic_publish "bsw.events" (key_text p.routing_key) p v
    publish_all ps v'

  publish_all-Queued :
      (ps : List Publication) (v : Vhost)
      → IsWired v
      → (v' : Vhost) × (publish_all ps v ≡ some v')
        × IsWired v'
        × (finished_messages v' ≡ finished_messages v ++ ps)
        × (dead_messages v' ≡ dead_messages v)
  unfolding publish_all
  publish_all-Queued [] v h = (v, refl, h, sym (append-nil (finished_messages v)), refl)
  publish_all-Queued (p ∷ ps) v h =
      let (v1, e1, h1, f1, d1) = publish-Queued p.routing_key p v h in
      let (v2, e2, h2, f2, d2) = publish_all-Queued ps v1 h1 in
      (
        v2,
        rw (e1, ◌>>=◌) e2,
        h2,
        f2 ∙ ap (λ qs. qs ++ ps) f1 ∙ append_assoc (finished_messages v) (p ∷ []) ps,
        d2 ∙ d1,
      )

  -- In whatever order the two services start and restart on a bare broker, bet-maker among them, no
  -- declaration is refused; and messages that line-provider then publishes under its keys stand in the
  -- queue of bet-maker in their order, none in the dead-letter queue, until one of them is rejected:
  -- that one, and no other, has moved there.
  pub starts-DeadLettered :
      (ss : List Service) (xs : List Publication) (p : Publication) (ys : List Publication)
      → bet_maker_started false ss ≡ true
      → (v v' : Vhost) × (starts amqp ss bare ≡ some v)
        × (publish_all (xs ++ p ∷ ys) v ≡ some v')
        × (finished_messages v' ≡ xs ++ p ∷ ys)
        × (dead_messages v' ≡ [])
        × let v'' = amqp.reject "bet_maker.events.finished" (length xs) v' in
          (finished_messages v'' ≡ xs ++ ys) × (dead_messages v'' ≡ p ∷ [])
  starts-DeadLettered ss xs p ys started =
      let (v, e, wired, same) = starts-IsWired amqp ss started in
      let (v', e', wired', f, d) = publish_all-Queued (xs ++ p ∷ ys) v wired in
      let f' =
        f
        ∙ ap (λ (ms : String → List Publication). ms "bet_maker.events.finished" ++ (xs ++ p ∷ ys))
            same in
      let d' =
        d ∙ ap (λ (ms : String → List Publication). ms "bet_maker.events.finished.dlq") same in
      let (w, f'', d'') = reject-DeadLettered v' xs p ys wired' f' in
      (v, v', e, e', f', d', (f'', d'' ∙ ap (λ qs. qs ++ p ∷ []) d'))
