-- ===== src/LineProvider/Steps/Keys.antt =====
-- The store has each event once, under its own id.
use bsw.Common.{
  inl, inr, Bool-cases, ◌∙◌, ℕ, ◌≡◌, refl, Bool, false, none, some, List, [], ◌∷◌, any, filter,
  contains, arith, ◌==◌,
}
use bsw.Common.Dict.{Dict, lookup, insert, values}
use bsw.LineProvider.Schemas.{Event, FieldTest}
use bsw.LineProvider.Service.{Broker, LineProvider}
use bsw.LineProvider.Api.{Request, dispatch, serve}
use bsw.LineProvider.Steps.{Step, idle, create, edit, finish, finish_unannounced, dispatch-Step}

abbrev keys : Dict Event → List ℕ
keys [] = []
keys ((k, e) ∷ d) = k ∷ keys d

-- Each key once, and the id of its event.
abbrev pub IsKeyed : Dict Event → Type 0
IsKeyed [] = Unit
IsKeyed ((k, e) ∷ d) = (e.event_id ≡ k) × (contains k (keys d) ≡ false) × IsKeyed d

contains-keys-insert :
    (k j : ℕ) (e : Event) (d : Dict Event)
    → contains j (keys d) ≡ false
    → (j == k) ≡ false
    → contains j (keys (insert k e d)) ≡ false
unfolding insert
contains-keys-insert k j e [] h n = ground arith
contains-keys-insert k j e ((i, o) ∷ d) h n = ground (arith, contains-keys-insert k j e d)

insert-IsKeyed :
    (k : ℕ) (e : Event) (d : Dict Event) → e.event_id ≡ k → IsKeyed d → IsKeyed (insert k e d)
unfolding insert
insert-IsKeyed k e [] q h = (q, refl, tt)
insert-IsKeyed k e ((i, o) ∷ d) q (a, b, c) = elim (Bool-cases (k == i)) [
  | inl same ↦ rw same (ground arith, b, c)
  | inr other ↦
      rw other (a, contains-keys-insert k i e d b (ground arith), insert-IsKeyed k e d q c)
]

lookup-event_id :
    (k : ℕ) (e : Event) (d : Dict Event) → IsKeyed d → lookup k d ≡ some e → e.event_id ≡ k
unfolding lookup
lookup-event_id k e [] h l = cc
lookup-event_id k e ((i, o) ∷ d) h l = ground (arith, lookup-event_id k e d)

Step-IsKeyed :
    {broker : Broker} {lp lp' : LineProvider}
    → Step broker lp lp'
    → IsKeyed lp.store
    → IsKeyed lp'.store
Step-IsKeyed {lp} (idle q) h = rw q h
Step-IsKeyed {lp} (create e a b c) h = rw c (insert-IsKeyed e.event_id e lp.store refl h)
Step-IsKeyed {lp} (edit k old e a b c d) h =
    rw d (insert-IsKeyed k e lp.store (b ∙ lookup-event_id k old lp.store h a) h)
Step-IsKeyed {lp} (finish k old e t p a b c d f g l) h =
    rw l (insert-IsKeyed k e lp.store (c ∙ lookup-event_id k old lp.store h a) h)
Step-IsKeyed {lp} (finish_unannounced k old e t p a b c d g l) h =
    rw l (insert-IsKeyed k e lp.store (c ∙ lookup-event_id k old lp.store h a) h)

pub serve-IsKeyed :
    (broker : Broker) (field : FieldTest) (rs : List Request) (lp : LineProvider)
    → IsKeyed lp.store
    → IsKeyed (serve broker field rs lp).store
unfolding serve
serve-IsKeyed broker field [] lp h = h
serve-IsKeyed broker field (r ∷ rs) lp h =
    serve-IsKeyed broker field rs (dispatch broker field r lp).2
      (Step-IsKeyed (dispatch-Step broker field r lp) h)

absent_values :
    (p : Event → Bool) (i : ℕ) (d : Dict Event)
    → IsKeyed d
    → contains i (keys d) ≡ false
    → any (λ e. e.event_id == i) (filter p (values d)) ≡ false
unfolding values
absent_values p i [] h n = refl
absent_values p i ((k, e) ∷ d) h n = ground (arith, absent_values p i d)

-- Whether the event is among the values that pass a test: whether it is there and passes it.
pub any-values :
    (p : Event → Bool) (i : ℕ) (d : Dict Event)
    → IsKeyed d
    → any (λ e. e.event_id == i) (filter p (values d))
      ≡ (elim (lookup i d) [ none ↦ false | some e ↦ p e ])
unfolding values lookup
any-values p i [] h = refl
any-values p i ((k, e) ∷ d) h = ground (arith, any-values p i d, absent_values p i d)
