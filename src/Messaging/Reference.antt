-- ===== src/Messaging/Reference.antt =====
-- A broker that meets the laws of `Amqp`, and the declarations on it.
use Prim.Native.String.{String}
use bsw.Common.{
  ℕ, zero, suc, ◌≡◌, refl, Bool, Option, none, some, List, [], ◌∷◌, ◌++◌, any, length,
  if◌then◌else◌,
}
use bsw.LineProvider.Service.{Publication}
use bsw.Messaging.{
  Vhost, Queue, Amqp, find_exchange, find_queue, exchange_eq, queue_eq, words, words_match, leads,
  with_messages,
}

abbrev nth : ℕ → List Publication → Option Publication
nth n [] = none
nth zero (p ∷ ps) = some p
nth (suc n) (p ∷ ps) = nth n ps

abbrev remove_at : ℕ → List Publication → List Publication
remove_at n [] = []
remove_at zero (p ∷ ps) = ps
remove_at (suc n) (p ∷ ps) = p ∷ remove_at n ps

nth-length :
    (xs : List Publication) (p : Publication) (ys : List Publication)
    → nth (length xs) (xs ++ p ∷ ys) ≡ some p
nth-length [] p ys = refl
nth-length (x ∷ xs) p ys = nth-length xs p ys

remove_at-length :
    (xs : List Publication) (p : Publication) (ys : List Publication)
    → remove_at (length xs) (xs ++ p ∷ ys) ≡ xs ++ ys
remove_at-length [] p ys = refl
remove_at-length (x ∷ xs) p ys = rw (remove_at-length xs p ys) refl

abbrev matches : String → String → Bool
matches p k = words_match (words p) (words k)

abbrev published_on : String → String → Publication → Vhost → Option Vhost
published_on x key p v = elim (find_exchange x v.exchanges) [
  | none ↦ none
  | some e ↦ some (record v {
    messages = λ q.
        if any (leads matches e key q) v.bindings then v.messages q ++ p ∷ [] else v.messages q;
  })
]

abbrev acked_at : String → ℕ → Vhost → Vhost
acked_at q n v = with_messages q (remove_at n (v.messages q)) v

pub acked_at_lem :
    (q : String) (v : Vhost) (xs : List Publication) (p : Publication) (ys : List Publication)
    → v.messages q ≡ xs ++ p ∷ ys
    → acked_at q (length xs) v ≡ with_messages q (xs ++ ys) v
acked_at_lem q v xs p ys there = rw (there, remove_at-length xs p ys) refl

abbrev dead_lettered : Option (String × String) → Publication → Vhost → Vhost
dead_lettered none p v = v
dead_lettered (some (x, key)) p v = elim (published_on x key p v) [ none ↦ v | some v' ↦ v' ]

abbrev rejected_at : String → ℕ → Vhost → Vhost
rejected_at q n v = elim (nth n (v.messages q)) [
  | none ↦ v
  | some p ↦ elim (find_queue q v.queues) [
    | none ↦ acked_at q n v
    | some decl ↦ dead_lettered decl.dead_letter p (acked_at q n v)
  ]
]

pub rejected_at_lem :
    (q : String) (v : Vhost) (xs : List Publication) (p : Publication) (ys : List Publication)
    (decl : Queue) (x key : String)
    → v.messages q ≡ xs ++ p ∷ ys
    → find_queue q v.queues ≡ some decl
    → decl.dead_letter ≡ some (x, key)
    → rejected_at q (length xs) v ≡ (elim (published_on x key p (with_messages q (xs ++ ys) v)) [
      | none ↦ with_messages q (xs ++ ys) v
      | some v' ↦ v'
    ])
rejected_at_lem q v xs p ys decl x key there found letters =
    rw
      (
        rejected_at,
        there,
        nth-length xs p ys,
        found,
        letters,
        acked_at,
        there,
        remove_at-length xs p ys,
      )
      refl

abbrev pub reference_amqp : Amqp
reference_amqp = record {
  topic_matches = matches;
  topic_matches_lem = λ p k. refl;
  declare_exchange = λ e v. elim (find_exchange e.name v.exchanges) [
    | none ↦ some (record v { exchanges = e ∷ v.exchanges })
    | some old ↦ if exchange_eq e old then some v else none
  ];
  declare_exchange_lem = λ e v. refl;
  declare_queue = λ q v. elim (find_queue q.name v.queues) [
    | none ↦ some (record v { queues = q ∷ v.queues })
    | some old ↦ if queue_eq q old then some v else none
  ];
  declare_queue_lem = λ q v. refl;
  bind_queue = λ b v. elim (find_exchange b.exchange v.exchanges) [
    | none ↦ none
    | some e ↦ elim (find_queue b.queue v.queues) [
      | none ↦ none
      | some q ↦ some (record v { bindings = b ∷ v.bindings })
    ]
  ];
  bind_queue_lem = λ b v. refl;
  basic_publish = published_on;
  basic_publish_lem = λ x key p v. refl;
  ack = acked_at;
  ack_lem = acked_at_lem;
  reject = rejected_at;
  reject_lem = rejected_at_lem;
}
