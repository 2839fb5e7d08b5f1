-- ===== src/Messaging.antt =====
-- What both services ask of RabbitMQ: the exchange, queues and bindings that src/line_provider/lifespan.py,
-- src/bet_maker/lifespan.py and the subscriber of src/bet_maker/api/messaging.py declare, and the keys of
-- messaging/routing.py. The broker is not in the repository: it is the record `Amqp`.
pub mod Wiring
pub mod Routing
pub mod Reference
pub mod Wire
use Prim.Native.Char.{code}
use Prim.Native.String.{String}
use text.Mathlib.Text.{◌==◌ as str_eq}
use bsw.Common.{
  ℕ, zero, suc, ◌≡◌, Bool, true, false, ◌&&◌, ◌||◌, Option, none, some, List, [], ◌∷◌, ◌++◌, any,
  length, if◌then◌else◌, ◌==◌,
}
use bsw.LineProvider.Service.{RoutingKey, Publication}

pub data ExchangeType : Type 0 where
  direct topic : ExchangeType

abbrev pub type_eq : ExchangeType → ExchangeType → Bool
type_eq direct direct = true
type_eq topic topic = true
type_eq _ _ = false

abbrev pub bool_eq : Bool → Bool → Bool
bool_eq true b = b
bool_eq false true = false
bool_eq false false = true

-- `RabbitExchange`
pub record Exchange : Type 0 where
  pub name : String
  pub exchange_type : ExchangeType
  pub durable : Bool

-- `RabbitQueue`, with the two arguments of a dead-letter exchange
pub record Queue : Type 0 where
  pub name : String
  pub durable : Bool
  pub dead_letter : Option (String × String)

pub record Binding : Type 0 where
  pub exchange : String
  pub queue : String
  pub routing_key : String

-- What the broker holds. The messages of a queue are the ones ready and the ones delivered and not yet
-- settled, oldest first.
pub record Vhost : Type 0 where
  pub exchanges : List Exchange
  pub queues : List Queue
  pub bindings : List Binding
  pub messages : String → List Publication

abbrev pub find_exchange : String → List Exchange → Option Exchange
find_exchange n [] = none
find_exchange n (e ∷ es) = let rest = find_exchange n es in if str_eq e.name n then some e else rest

abbrev pub find_queue : String → List Queue → Option Queue
find_queue n [] = none
find_queue n (q ∷ qs) = let rest = find_queue n qs in if str_eq q.name n then some q else rest

abbrev dead_letter_eq : Option (String × String) → Option (String × String) → Bool
dead_letter_eq none none = true
dead_letter_eq (some (x, k)) (some (y, l)) = str_eq x y && str_eq k l
dead_letter_eq _ _ = false

-- A declaration with other arguments than the one that stands is an error.
abbrev pub exchange_eq : Exchange → Exchange → Bool
exchange_eq e f = type_eq e.exchange_type f.exchange_type && bool_eq e.durable f.durable

abbrev pub queue_eq : Queue → Queue → Bool
queue_eq q r = bool_eq q.durable r.durable && dead_letter_eq q.dead_letter r.dead_letter

-- The words of a key, by its dots.
abbrev onto_word : ℕ → List (List ℕ) → List (List ℕ)
onto_word n [] = (n ∷ []) ∷ []
onto_word n (w ∷ ws) = (n ∷ w) ∷ ws

abbrev pub words : String → List (List ℕ)
words String.[] = [] ∷ []
words (String.◌∷◌ c s) =
    let rest = words s in if code c == b'.' then [] ∷ rest else onto_word (code c) rest

abbrev word_eq : List ℕ → List ℕ → Bool
word_eq [] [] = true
word_eq (a ∷ v) (b ∷ w) = (a == b) && word_eq v w
word_eq _ _ = false

abbrev any_suffix : (List (List ℕ) → Bool) → List (List ℕ) → Bool
any_suffix p [] = p []
any_suffix p (w ∷ ws) = p (w ∷ ws) || any_suffix p ws

-- In the pattern of a binding `*` stands for one word, and `#` for any number of them.
abbrev pub words_match : List (List ℕ) → List (List ℕ) → Bool
words_match [] [] = true
words_match [] (w ∷ ws) = false
words_match (p ∷ ps) ws =
    let rest = words_match ps in
    if word_eq p (b'#' ∷ [])
    then any_suffix rest ws
    else (elim ws [ [] ↦ false | w ∷ ws' ↦ (word_eq p (b'*' ∷ []) || word_eq p w) && rest ws' ])

-- Whether a binding of the exchange leads to the queue.
abbrev pub leads : (String → String → Bool) → Exchange → String → String → Binding → Bool
leads topic_matches e key q b =
    str_eq b.exchange e.name && str_eq b.queue q && (elim e.exchange_type [
      | direct ↦ str_eq b.routing_key key
      | topic ↦ topic_matches b.routing_key key
    ])

abbrev pub with_messages : String → List Publication → Vhost → Vhost
with_messages q ps v = record v { messages = λ r. if str_eq r q then ps else v.messages r }

-- RabbitMQ; `none` is an error that closes the channel.
pub record Amqp : Type 0 where
  pub topic_matches : String → String → Bool
  pub topic_matches_lem :
      (pattern_key key : String)
      → topic_matches pattern_key key ≡ words_match (words pattern_key) (words key)
  pub declare_exchange : Exchange → Vhost → Option Vhost
  pub declare_exchange_lem :
      (e : Exchange) (v : Vhost)
      → declare_exchange e v ≡ (elim (find_exchange e.name v.exchanges) [
        | none ↦ some (record v { exchanges = e ∷ v.exchanges })
        | some old ↦ if exchange_eq e old then some v else none
      ])
  pub declare_queue : Queue → Vhost → Option Vhost
  pub declare_queue_lem :
      (q : Queue) (v : Vhost)
      → declare_queue q v ≡ (elim (find_queue q.name v.queues) [
        | none ↦ some (record v { queues = q ∷ v.queues })
        | some old ↦ if queue_eq q old then some v else none
      ])
  pub bind_queue : Binding → Vhost → Option Vhost
  pub bind_queue_lem :
      (b : Binding) (v : Vhost)
      → bind_queue b v ≡ (elim (find_exchange b.exchange v.exchanges) [
        | none ↦ none
        | some e ↦ elim (find_queue b.queue v.queues) [
          | none ↦ none
          | some q ↦ some (record v { bindings = b ∷ v.bindings })
        ]
      ])
  -- a message goes once to each queue that a binding leads to
  pub basic_publish : String → String → Publication → Vhost → Option Vhost
  pub basic_publish_lem :
      (x key : String) (p : Publication) (v : Vhost)
      → basic_publish x key p v ≡ (elim (find_exchange x v.exchanges) [
        | none ↦ none
        | some e ↦ some (record v {
          messages = λ q.
              if any (leads topic_matches e key q) v.bindings
              then v.messages q ++ p ∷ []
              else v.messages q;
        })
      ])
  -- `msg.ack()` of the message at a place in a queue, and `msg.reject(requeue=False)`
  pub ack : String → ℕ → Vhost → Vhost
  pub ack_lem :
      (q : String) (v : Vhost) (xs : List Publication) (p : Publication) (ys : List Publication)
      → v.messages q ≡ xs ++ p ∷ ys
      → ack q (length xs) v ≡ with_messages q (xs ++ ys) v
  pub reject : String → ℕ → Vhost → Vhost
  pub reject_lem :
      (q : String) (v : Vhost) (xs : List Publication) (p : Publication) (ys : List Publication)
      (decl : Queue) (x key : String)
      → v.messages q ≡ xs ++ p ∷ ys
      → find_queue q v.queues ≡ some decl
      → decl.dead_letter ≡ some (x, key)
      → reject q (length xs) v ≡ (elim (basic_publish x key p (with_messages q (xs ++ ys) v)) [
        | none ↦ with_messages q (xs ++ ys) v
        | some v' ↦ v'
      ])

-- messaging/routing.py of both services
abbrev pub key_text : RoutingKey → String
key_text RoutingKey.event_finished_win = "event.finished.win"
key_text RoutingKey.event_finished_lose = "event.finished.lose"

abbrev pub event_finished_wildcard : String
event_finished_wildcard = "event.finished.*"

-- What is declared.
abbrev pub bsw_events : Exchange
bsw_events = record { name = "bsw.events"; exchange_type = topic; durable = true }

abbrev pub dlx : Exchange
dlx = record { name = "bsw.events.dlx"; exchange_type = direct; durable = true }

abbrev pub finished_queue : Queue
finished_queue = record {
  name = "bet_maker.events.finished";
  durable = true;
  dead_letter = some ("bsw.events.dlx", "bet_maker.events.finished");
}

abbrev pub dlq : Queue
dlq = record { name = "bet_maker.events.finished.dlq"; durable = true; dead_letter = none }

abbrev pub finished_binding : Binding
finished_binding = record {
  exchange = "bsw.events";
  queue = "bet_maker.events.finished";
  routing_key = event_finished_wildcard;
}

abbrev pub dlq_binding : Binding
dlq_binding = record {
  exchange = "bsw.events.dlx";
  queue = "bet_maker.events.finished.dlq";
  routing_key = "bet_maker.events.finished";
}

infixl 5 ◌>>=◌
abbrev pub ◌>>=◌ : Option Vhost → (Vhost → Option Vhost) → Option Vhost
none >>= f = none
some v >>= f = f v

pub data Service : Type 0 where
  line_provider bet_maker : Service

module _ (amqp : Amqp) where
  -- lifespan of line-provider
  unfoldable pub start_line_provider : Vhost → Option Vhost
  start_line_provider v = amqp.declare_exchange bsw_events v

  -- lifespan of bet-maker
  unfoldable pub start_bet_maker : Vhost → Option Vhost
  start_bet_maker v = do
    v1 ← amqp.declare_exchange dlx v
    v2 ← amqp.declare_queue dlq v1
    amqp.bind_queue dlq_binding v2

  -- The start of the subscriber, by its decorator
  unfoldable pub start_subscriber : Vhost → Option Vhost
  start_subscriber v = do
    v1 ← amqp.declare_exchange bsw_events v
    v2 ← amqp.declare_queue finished_queue v1
    amqp.bind_queue finished_binding v2

  unfoldable pub start : Service → Vhost → Option Vhost
  unfolding start_line_provider start_bet_maker start_subscriber
  start line_provider v = start_line_provider v
  start bet_maker v = do v' ← start_bet_maker v; start_subscriber v'

  -- Starts and restarts of either service.
  unfoldable pub starts : List Service → Vhost → Option Vhost
  unfolding start
  starts [] v = some v
  starts (s ∷ ss) v = do v' ← start s v; starts ss v'

-- A broker that nobody has declared anything on.
abbrev pub bare : Vhost
bare = record { exchanges = []; queues = []; bindings = []; messages = λ q. [] }
