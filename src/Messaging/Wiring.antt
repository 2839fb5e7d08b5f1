-- ===== src/Messaging/Wiring.antt =====
-- What the starts of the two services leave on the broker, in whatever order and however often they start.
use bsw.Common.{
  ◌≡◌, ◌⊎◌, inl, inr, refl, Bool, true, false, ◌||◌, Option, none, some, List, [], ◌∷◌, All, ◌∙◌,
}
use bsw.Messaging.{
  Vhost, Binding, Amqp, find_exchange, find_queue, bsw_events, dlx, finished_queue, dlq,
  finished_binding, dlq_binding, Service, line_provider, bet_maker, ◌>>=◌, start_subscriber, start,
  starts, bare,
}

abbrev pub given {ℓ} : {A : Type ℓ} → Bool → A → Option A
given true a = some a
given false a = none

abbrev pub Has : Binding → List Binding → Type 0
Has b [] = ⊥
Has b (c ∷ bs) = (c ≡ b) ⊎ Has b bs

abbrev pub HasIf : Bool → Binding → List Binding → Type 0
HasIf true b bs = Has b bs
HasIf false b bs = Unit

abbrev pub IsOurs : Binding → Type 0
IsOurs b = (b ≡ finished_binding) ⊎ (b ≡ dlq_binding)

-- What is declared, by a flag for each declaration, and nothing else under these names.
abbrev pub IsAt : Bool → Bool → Bool → Bool → Bool → Bool → Vhost → Type 0
IsAt events letters finished dead f d v =
    (find_exchange "bsw.events" v.exchanges ≡ given events bsw_events)
    × (find_exchange "bsw.events.dlx" v.exchanges ≡ given letters dlx)
    × (find_queue "bet_maker.events.finished" v.queues ≡ given finished finished_queue)
    × (find_queue "bet_maker.events.finished.dlq" v.queues ≡ given dead dlq)
    × All IsOurs v.bindings
    × HasIf f finished_binding v.bindings
    × HasIf d dlq_binding v.bindings

-- A step of the declarations: it succeeds, and leaves the messages where they are.
abbrev pub Reaches : (Vhost → Type 0) → Vhost → Option Vhost → Type 0
Reaches P v o = (v' : Vhost) × (o ≡ some v') × P v' × (v'.messages ≡ v.messages)

Has-later : (f : Bool) (b c : Binding) (bs : List Binding) → HasIf f b bs → HasIf f b (c ∷ bs)
Has-later true b c bs h = inr h
Has-later false b c bs h = tt

module _ (amqp : Amqp) where
  declare_events :
      (e l q k f d : Bool) (v : Vhost)
      → IsAt e l q k f d v
      → Reaches (IsAt true l q k f d) v (amqp.declare_exchange bsw_events v)
  declare_events true l q k f d v h = (v, rw (amqp.declare_exchange_lem, h.0) refl, h, refl)
  declare_events false l q k f d v h = (
    record v { exchanges = bsw_events ∷ v.exchanges },
    rw (amqp.declare_exchange_lem, h.0) refl,
    (refl, h.1, h.2, h.3, h.4, h.5, h.6),
    refl,
  )

  declare_dlx :
      (e l q k f d : Bool) (v : Vhost)
      → IsAt e l q k f d v
      → Reaches (IsAt e true q k f d) v (amqp.declare_exchange dlx v)
  declare_dlx e true q k f d v h = (v, rw (amqp.declare_exchange_lem, h.1) refl, h, refl)
  declare_dlx e false q k f d v h = (
    record v { exchanges = dlx ∷ v.exchanges },
    rw (amqp.declare_exchange_lem, h.1) refl,
    (h.0, refl, h.2, h.3, h.4, h.5, h.6),
    refl,
  )

  declare_finished :
      (e l q k f d : Bool) (v : Vhost)
      → IsAt e l q k f d v
      → Reaches (IsAt e l true k f d) v (amqp.declare_queue finished_queue v)
  declare_finished e l true k f d v h = (v, rw (amqp.declare_queue_lem, h.2) refl, h, refl)
  declare_finished e l false k f d v h = (
    record v { queues = finished_queue ∷ v.queues },
    rw (amqp.declare_queue_lem, h.2) refl,
    (h.0, h.1, refl, h.3, h.4, h.5, h.6),
    refl,
  )

  declare_dlq :
      (e l q k f d : Bool) (v : Vhost)
      → IsAt e l q k f d v
      → Reaches (IsAt e l q true f d) v (amqp.declare_queue dlq v)
  declare_dlq e l q true f d v h = (v, rw (amqp.declare_queue_lem, h.3) refl, h, refl)
  declare_dlq e l q false f d v h = (
    record v { queues = dlq ∷ v.queues },
    rw (amqp.declare_queue_lem, h.3) refl,
    (h.0, h.1, h.2, refl, h.4, h.5, h.6),
    refl,
  )

  bind_dlq :
      (e q f d : Bool) (v : Vhost)
      → IsAt e true q true f d v
      → Reaches (IsAt e true q true f true) v (amqp.bind_queue dlq_binding v)
  bind_dlq e q f d v h = (
    record v { bindings = dlq_binding ∷ v.bindings },
    rw (amqp.bind_queue_lem, h.1, h.3) refl,
    (
      h.0,
      h.1,
      h.2,
      h.3,
      (inr refl, h.4),
      Has-later f finished_binding dlq_binding v.bindings h.5,
      inl refl,
    ),
    refl,
  )

  bind_finished :
      (l k f d : Bool) (v : Vhost)
      → IsAt true l true k f d v
      → Reaches (IsAt true l true k true d) v (amqp.bind_queue finished_binding v)
  bind_finished l k f d v h = (
    record v { bindings = finished_binding ∷ v.bindings },
    rw (amqp.bind_queue_lem, h.0, h.2) refl,
    (
      h.0,
      h.1,
      h.2,
      h.3,
      (inl refl, h.4),
      inl refl,
      Has-later d dlq_binding finished_binding v.bindings h.6,
    ),
    refl,
  )

and_then :
    {P Q : Vhost → Type 0} (v : Vhost) (o : Option Vhost) (g : Vhost → Option Vhost)
    → Reaches P v o
    → ((v' : Vhost) → P v' → Reaches Q v' (g v'))
    → Reaches Q v (o >>= g)
and_then v o g (v', e, p, m) later = let (w, e', q, m') = later v' p in (w, rw e e', q, m' ∙ m)

-- What stands once line-provider has started, or not, and bet-maker, or not.
abbrev pub Stands : Bool → Bool → Vhost → Type 0
Stands lp bm = IsAt (bm || lp) bm bm bm bm bm

-- All that bet-maker declares.
abbrev pub IsWired : Vhost → Type 0
IsWired = IsAt true true true true true true

abbrev pub bet_maker_started : Bool → List Service → Bool
bet_maker_started bm [] = bm
bet_maker_started bm (line_provider ∷ ss) = bet_maker_started bm ss
bet_maker_started bm (bet_maker ∷ ss) = bet_maker_started true ss

module _ (amqp : Amqp) where
  start_line_provider-Stands :
      (lp bm : Bool) (v : Vhost)
      → Stands lp bm v
      → Reaches (Stands true bm) v (start amqp line_provider v)
  unfolding start
  start_line_provider-Stands lp true v h = declare_events amqp true true true true true true v h
  start_line_provider-Stands lp false v h = declare_events amqp lp false false false false false v h

  pub start_bet_maker-IsWired :
      (e l q k f d : Bool) (v : Vhost)
      → IsAt e l q k f d v
      → Reaches IsWired v (start amqp bet_maker v)
  unfolding start
  start_bet_maker-IsWired e l q k f d v h =
      and_then v _ (start_subscriber amqp)
        (and_then v _ _ (declare_dlx amqp e l q k f d v h) λ v1 h1.
          and_then v1 _ _ (declare_dlq amqp e true q k f d v1 h1)
            λ v2 h2. bind_dlq amqp e q f d v2 h2)
        λ v3 h3. and_then v3 _ _ (declare_events amqp e true q true f true v3 h3) λ v4 h4.
          and_then v4 _ _ (declare_finished amqp true true q true f true v4 h4)
            λ v5 h5. bind_finished amqp true true f true v5 h5

  -- Whatever the order of starts and restarts, every declaration succeeds.
  pub starts-Stands :
      (ss : List Service) (lp bm : Bool) (v : Vhost)
      → Stands lp bm v
      → Reaches (λ v'. (lp' : Bool) × Stands lp' (bet_maker_started bm ss) v') v (starts amqp ss v)
  unfolding starts
  starts-Stands [] lp bm v h = (v, refl, (lp, h), refl)
  starts-Stands (line_provider ∷ ss) lp bm v h =
      and_then v (start amqp line_provider v) (starts amqp ss)
        (start_line_provider-Stands lp bm v h) λ v' h'. starts-Stands ss true bm v' h'
  starts-Stands (bet_maker ∷ ss) lp bm v h =
      and_then v (start amqp bet_maker v) (starts amqp ss)
        (start_bet_maker-IsWired (bm || lp) bm bm bm bm bm v h)
        λ v' h'. starts-Stands ss lp true v' h'

  -- Once bet-maker is among the services started, all that it declares stands, with no message yet.
  pub starts-IsWired :
      (ss : List Service)
      → bet_maker_started false ss ≡ true
      → Reaches IsWired bare (starts amqp ss bare)
  starts-IsWired ss started =
      let (v, e, (lp, h), same) =
        starts-Stands ss false false bare (refl, refl, refl, refl, tt, tt, tt) in
      (v, e, wired lp (bet_maker_started false ss) started v h, same)
    where
      wired : (lp bm : Bool) → bm ≡ true → (v : Vhost) → Stands lp bm v → IsWired v
      wired lp true e v h = h
      wired lp false e v h = cc
