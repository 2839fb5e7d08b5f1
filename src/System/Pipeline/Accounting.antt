-- ===== src/System/Pipeline/Accounting.antt =====
-- Where the messages are, at any moment of their way.
use mathlib.Core.List.Perm
use mathlib.Core.List.{Perm, perm_middle, perm_append_singleton, append-nil}
use mathlib.Core.Path.{subst}
use Prim.Native.String.{String}
use bsw.Common.{◌≡◌, ◌⊎◌, inl, inr, refl, sym, ap, true, false, some, List, [], ◌∷◌, ◌++◌, length}
use bsw.LineProvider.Schemas.{FieldTest}
use bsw.LineProvider.Service.{Broker, LineProvider, Publication}
use bsw.LineProvider.Api.{Request, dispatch}
use bsw.LineProvider.Steps.{Step, idle, create, edit, finish, finish_unannounced, dispatch-Step}
use bsw.BetMaker.Database.{World}
use bsw.BetMaker.Consumer.{Fate, acked, rejected, left}
use bsw.Messaging.{Vhost, Amqp, Service, starts, bare}
use bsw.Messaging.Wiring.{IsWired, start_bet_maker-IsWired, starts-IsWired, bet_maker_started}
use bsw.Messaging.Routing.{
  finished_messages, dead_messages, publish-Queued, ack-Acked, reject-DeadLettered,
}
use bsw.System.Pipeline.{
  Pipeline, after_delivery, request, announcing, deliver, restart, other, Reach, here, next,
  opening,
}
use bsw.System.Pipeline as Pipeline

-- A message anywhere in the middle of three lists comes first.
pull :
    (done xs : List Publication) (p : Publication) (ys ds : List Publication)
    → Perm (done ++ ((xs ++ p ∷ ys) ++ ds)) (p ∷ (done ++ ((xs ++ ys) ++ ds)))
pull done xs p ys ds =
    Perm.trans (Perm.append_left done (Perm.append_right ds (perm_middle xs ys)))
      (perm_middle done ((xs ++ ys) ++ ds))

pull_last :
    (done fs ds : List Publication) (p : Publication)
    → Perm (done ++ (fs ++ (ds ++ p ∷ []))) (p ∷ (done ++ (fs ++ ds)))
pull_last done fs ds p =
    Perm.trans
      (Perm.append_left done
        (Perm.trans (Perm.append_left fs (perm_append_singleton p ds)) (perm_middle fs ds)))
      (perm_middle done (fs ++ ds))

push :
    (done fs ds : List Publication) (p : Publication)
    → Perm (p ∷ (done ++ (fs ++ ds))) (done ++ ((fs ++ p ∷ []) ++ ds))
push done fs ds p =
    subst (λ rs. Perm (p ∷ (done ++ (rs ++ ds))) (done ++ ((fs ++ p ∷ []) ++ ds))) (append-nil fs)
      (Perm.symm (pull done fs p [] ds))

-- The messages taken from line-provider are those acknowledged, waiting and dead-lettered.
pub record Accounts (s : Pipeline) : Type 0 where
  pub wired : IsWired s.vhost
  pub every :
      Perm s.line_provider.published
        (s.done ++ (finished_messages s.vhost ++ dead_messages s.vhost))

-- The same messages on a broker with the declarations.
moved-Accounts :
    (s : Pipeline) (v : Vhost)
    → IsWired v
    → v.messages ≡ s.vhost.messages
    → Perm s.line_provider.published
        (s.done ++ (finished_messages s.vhost ++ dead_messages s.vhost))
    → Accounts (record s { vhost = v })
moved-Accounts s v wired kept every = record {
  wired = wired;
  every =
      subst
        (λ (ms : String → List Publication).
          Perm s.line_provider.published
            (s.done ++ (ms "bet_maker.events.finished" ++ ms "bet_maker.events.finished.dlq")))
        (sym kept) every;
}

-- A dispatch publishes nothing or one message.
pub dispatch_published :
    (broker : Broker) (field : FieldTest) (r : Request) (lp : LineProvider)
    → let lp' = (dispatch broker field r lp).2 in
      (lp'.published ≡ lp.published) ⊎ ((p : Publication) × (lp'.published ≡ p ∷ lp.published))
dispatch_published broker field r lp =
    by_step (dispatch broker field r lp).2 (dispatch-Step broker field r lp)
  where
    by_step :
        (lp' : LineProvider)
        → Step broker lp lp'
        → (lp'.published ≡ lp.published) ⊎ ((p : Publication) × (lp'.published ≡ p ∷ lp.published))
    by_step lp' (idle e) = inl (ap (λ (x : LineProvider). x.published) e)
    by_step lp' (create ev a b e) = inl (ap (λ (x : LineProvider). x.published) e)
    by_step lp' (edit k old ev a b c e) = inl (ap (λ (x : LineProvider). x.published) e)
    by_step lp' (finish k old ev t p a b c d g h e) =
        inr (p, ap (λ (x : LineProvider). x.published) e)
    by_step lp' (finish_unannounced k old ev t p a b c d g e) =
        inl (ap (λ (x : LineProvider). x.published) e)

module _ (amqp : Amqp) where
  after_delivery-Accounts :
      (fate : Fate) (s : Pipeline) (xs : List Publication) (p : Publication) (ys : List Publication)
      → finished_messages s.vhost ≡ xs ++ p ∷ ys
      → Accounts s
      → Accounts (after_delivery amqp fate (length xs) p s)
  after_delivery-Accounts acked s xs p ys there a =
      let (wired, f, d) = ack-Acked amqp s.vhost xs p ys a.wired there in
      record {
        wired = wired;
        every =
            rw (f, d)
              (Perm.trans (rw there at a.every) (pull s.done xs p ys (dead_messages s.vhost)));
      }
  after_delivery-Accounts rejected s xs p ys there a =
      let (wired, f, d) = reject-DeadLettered amqp s.vhost xs p ys a.wired there in
      record {
        wired = wired;
        every =
            rw (f, d)
              (Perm.trans (rw there at a.every) (
                Perm.trans (pull s.done xs p ys (dead_messages s.vhost))
                  (Perm.symm (pull_last s.done (xs ++ ys) (dead_messages s.vhost) p))));
      }
  after_delivery-Accounts left s xs p ys there a = a

  Step-Accounts : {s t : Pipeline} → Pipeline.Step amqp s t → Accounts s → Accounts t
  Step-Accounts {s} (request broker field r silent) a = record {
    wired = a.wired;
    every = rw silent a.every;
  }
  Step-Accounts {s} (announcing broker field r p v told sent) a =
      let (v', e, wired, f, d) = publish-Queued amqp p.routing_key p s.vhost a.wired in
      let same : v' ≡ v = cc (e, sent) in
      subst
        (λ (x : Vhost).
          Accounts
            (record s { line_provider = (dispatch broker field r s.line_provider).2; vhost = x }))
        same
        (record {
          wired = wired;
          every =
              rw (told, f, d)
                (Perm.trans (Perm.cons p a.every)
                  (push s.done (finished_messages s.vhost) (dead_messages s.vhost) p));
        })
  Step-Accounts {s} (deliver env xs p ys there) a =
      after_delivery-Accounts _ (record s { world = _ }) xs p ys there
        (record { wired = a.wired; every = a.every })
  Step-Accounts {s} (restart v again) a =
      let (v', e, wired, kept) =
        start_bet_maker-IsWired amqp true true true true true true s.vhost a.wired in
      let same : v' ≡ v = cc (e, again) in
      subst (λ (x : Vhost). Accounts (record s { vhost = x })) same
        (moved-Accounts s v' wired kept a.every)
  Step-Accounts {s} (other w) a = record { wired = a.wired; every = a.every }

  Reach-Accounts : {s t : Pipeline} → Reach amqp s t → Accounts s → Accounts t
  Reach-Accounts here a = a
  Reach-Accounts (next r st) a = Step-Accounts st (Reach-Accounts r a)

  -- The services have started on a bare broker, bet-maker among them, and nothing has been published.
  -- Whatever requests, failing publications, deliveries in any order, failing handlers and restarts of
  -- bet-maker follow: the messages that the broker took from line-provider are, each as often as it was
  -- published, those acknowledged, those in the queue of bet-maker and those in the dead-letter queue.
  pub Reach-perm :
      (ss : List Service) (v : Vhost) (w : World) {s : Pipeline}
      → bet_maker_started false ss ≡ true
      → starts amqp ss bare ≡ some v
      → Reach amqp (opening v w) s
      → Perm s.line_provider.published
          (s.done ++ (finished_messages s.vhost ++ dead_messages s.vhost))
  Reach-perm ss v w started e r =
      let (v', e', wired, empty) = starts-IsWired amqp ss started in
      let same : v' ≡ v = cc (e', e) in
      let first : Accounts (opening v' w) =
        moved-Accounts (opening bare w) v' wired empty (Perm.refl []) in
      (Reach-Accounts r (subst (λ (x : Vhost). Accounts (opening x w)) same first)).every

  -- Whatever the request, it is a step from there.
  request_enabled :
      (broker : Broker) (field : FieldTest) (r : Request) (s : Pipeline)
      → IsWired s.vhost
      → (t : Pipeline) × Pipeline.Step amqp s t
        × (t.line_provider ≡ (dispatch broker field r s.line_provider).2)
  request_enabled broker field r s wired =
      elim (dispatch_published broker field r s.line_provider) [
        | inl silent ↦ (_, request broker field r silent, refl)
        | inr (p, told) ↦
            let (v, e, h, f, d) = publish-Queued amqp p.routing_key p s.vhost wired in
            (_, announcing broker field r p v told e, refl)
      ]
