-- ===== src/LineProvider/Steps/Invariant.antt =====
-- The service's invariant: what the store and the published messages have to do with one another.
use bsw.Common.{ℕ, ◌≤◌, Option, none, some, List, [], ◌∷◌, ◌≡◌, refl, arith, ◌==◌, count, All}
use bsw.Common.Dict.{lookup, lookup-insert}
use bsw.LineProvider.Schemas.{EventTerminalState, Event, FieldTest}
use bsw.LineProvider.Service.{Broker, LineProvider, Publication, event_state_to_terminal}
use bsw.LineProvider.Api.{Request, dispatch, initial, serve}
use bsw.LineProvider.Steps.{Step, idle, create, edit, finish, finish_unannounced, dispatch-Step}

-- The terminal state of an event that may be missing.
abbrev pub outcome_of : Option Event → Option EventTerminalState
outcome_of none = none
outcome_of (some e) = event_state_to_terminal e.state

-- How the event `k` has finished, if it has.
abbrev pub outcome : LineProvider → ℕ → Option EventTerminalState
outcome lp k = outcome_of (lookup k lp.store)

-- The message tells how its event has finished.
abbrev pub IsTrue : LineProvider → Publication → Type 0
IsTrue lp p = outcome lp p.message.event_id ≡ some p.message.new_state

-- How many messages about the event `k` the broker took.
abbrev pub messages : LineProvider → ℕ → ℕ
messages lp k = count (λ p. p.message.event_id == k) lp.published

pub record IsValid (lp : LineProvider) : Type 0 where
  pub keyed : (k : ℕ) (e : Event) → lookup k lp.store ≡ some e → e.event_id ≡ k
  pub truthful : All (IsTrue lp) lp.published
  pub quiet : (k : ℕ) → outcome lp k ≡ none → messages lp k ≡ 0
  pub once : (k : ℕ) → messages lp k ≤ 1

module _ {broker : Broker} {lp lp' : LineProvider} where
  -- An outcome never changes again.
  pub Step-outcome :
      (k : ℕ) {t : EventTerminalState}
      → Step broker lp lp'
      → outcome lp k ≡ some t
      → outcome lp' k ≡ some t
  Step-outcome k (idle e) h = ground arith
  Step-outcome k (create e a b c) h = ground (arith, lookup-insert e.event_id k e lp.store)
  Step-outcome k (edit i old e a b c d) h = ground (arith, lookup-insert i k e lp.store)
  Step-outcome k (finish i old e t p a b c d f g l) h = ground (arith, lookup-insert i k e lp.store)
  Step-outcome k (finish_unannounced i old e t p a b c d g l) h =
      ground (arith, lookup-insert i k e lp.store)

  Step-truthful :
      (ps : List Publication) → Step broker lp lp' → All (IsTrue lp) ps → All (IsTrue lp') ps
  Step-truthful [] s h = tt
  Step-truthful (p ∷ ps) s h = (Step-outcome p.message.event_id s h.0, Step-truthful ps s h.1)

  Step-keyed :
      Step broker lp lp'
      → IsValid lp
      → (k : ℕ) (e : Event) → lookup k lp'.store ≡ some e
      → e.event_id ≡ k
  Step-keyed (idle s) v k e h = ground (arith, v.keyed k e)
  Step-keyed (create n a b c) v k e h =
      ground (arith, lookup-insert n.event_id k n lp.store, v.keyed k e)
  Step-keyed (edit i old n a b c d) v k e h =
      ground (arith, lookup-insert i k n lp.store, v.keyed k e, v.keyed i old)
  Step-keyed (finish i old n t p a b c d f g l) v k e h =
      ground (arith, lookup-insert i k n lp.store, v.keyed k e, v.keyed i old)
  Step-keyed (finish_unannounced i old n t p a b c d g l) v k e h =
      ground (arith, lookup-insert i k n lp.store, v.keyed k e, v.keyed i old)

  Step-quiet : Step broker lp lp' → IsValid lp → (k : ℕ) → outcome lp' k ≡ none → messages lp' k ≡ 0
  Step-quiet (idle s) v k h = ground (arith, v.quiet k)
  Step-quiet (create n a b c) v k h =
      ground (arith, lookup-insert n.event_id k n lp.store, v.quiet k)
  Step-quiet (edit i old n a b c d) v k h = ground (arith, lookup-insert i k n lp.store, v.quiet k)
  Step-quiet (finish i old n t p a b c d f g l) v k h =
      ground (arith, lookup-insert i k n lp.store, v.quiet k, v.keyed i old a)
  Step-quiet (finish_unannounced i old n t p a b c d g l) v k h =
      ground (arith, lookup-insert i k n lp.store, v.quiet k)

  Step-once : Step broker lp lp' → IsValid lp → (k : ℕ) → messages lp' k ≤ 1
  Step-once (idle s) v k = ground (arith, v.once k)
  Step-once (create n a b c) v k = ground (arith, v.once k)
  Step-once (edit i old n a b c d) v k = ground (arith, v.once k)
  Step-once (finish i old n t p a b c d f g l) v k =
      ground (arith, v.quiet k, v.once k, v.keyed i old a)
  Step-once (finish_unannounced i old n t p a b c d g l) v k = ground (arith, v.once k)

  Step-announced : Step broker lp lp' → IsValid lp → All (IsTrue lp') lp'.published
  Step-announced (idle s) v = rw s v.truthful
  Step-announced (create n a b c) v =
      rw c (rw c at (Step-truthful lp.published (create n a b c) v.truthful))
  Step-announced (edit i old n a b c d) v =
      rw d (rw d at (Step-truthful lp.published (edit i old n a b c d) v.truthful))
  Step-announced (finish i old n t p a b c d f g l) v = rw l (
    ground (arith, lookup-insert i p.message.event_id n lp.store, v.keyed i old a),
    rw l at (Step-truthful lp.published (finish i old n t p a b c d f g l) v.truthful),
  )
  Step-announced (finish_unannounced i old n t p a b c d g l) v =
      rw l (
        rw l at
          (Step-truthful lp.published (finish_unannounced i old n t p a b c d g l) v.truthful))

  pub Step-IsValid : Step broker lp lp' → IsValid lp → IsValid lp'
  Step-IsValid s v = record {
    keyed = Step-keyed s v;
    truthful = Step-announced s v;
    quiet = Step-quiet s v;
    once = Step-once s v;
  }

pub initial-IsValid : IsValid initial
unfolding lookup
initial-IsValid = record {
  keyed = λ k e h. cc;
  truthful = tt;
  quiet = λ k h. refl;
  once = λ k. omega arith;
}

module _ (broker : Broker) (field : FieldTest) where
  -- Every request, failing or not, keeps the invariant.
  pub dispatch-IsValid :
      (r : Request) {lp : LineProvider} → IsValid lp → IsValid (dispatch broker field r lp).2
  dispatch-IsValid r {lp} v = Step-IsValid (dispatch-Step broker field r lp) v

  pub serve-IsValid :
      (rs : List Request) {lp : LineProvider} → IsValid lp → IsValid (serve broker field rs lp)
  unfolding serve
  serve-IsValid [] v = v
  serve-IsValid (r ∷ rs) v = serve-IsValid rs (dispatch-IsValid r v)
