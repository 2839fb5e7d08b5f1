-- ===== src/BetMaker/BetRoutes/Reading.antt =====
-- What an answer 201 of POST /bet says of the table.
use bsw.Common.{
  ℕ, ◌≡◌, inl, inr, refl, sym, ap, ◌∙◌, false, Option, none, some, [], ◌∷◌, filter, contains, ◌==◌,
  arith, Option-cases,
}
use bsw.Money.{Decimal, quantize_amount}
use bsw.LineProvider.Schemas.{FieldTest}
use bsw.BetMaker.Exceptions.{returned-ne-raised, Outcome, returned, raised}
use bsw.BetMaker.Models.{Bet, BetRead, to_bet_read}
use bsw.BetMaker.Database.{Table, Weather, World}
use bsw.BetMaker.Database.Rows.{ids}
use bsw.BetMaker.Client.{EventSnapshot, get_event}
use bsw.BetMaker.PlaceBet.{
  Env, BetCreate, Response, created_201, invalid_body_422, new_bet, place_bet, parse_bet_create,
  post_bet, post_bet_answer,
}
use bsw.BetMaker.PlaceBet.Acceptance.{Places, Stored, place_bet-Places}

pub filter_absent :
    (i : ℕ) (t : Table) → contains i (ids t) ≡ false → filter (λ b. b.id == i) t ≡ []
filter_absent i [] h = refl
filter_absent i (b ∷ t) h = ground (arith, filter_absent i t)

-- The table holds the bet first, and no other row has its id.
pub record Adds (r : BetRead) (t t' : Table) : Type 0 where
  pub bet : Bet
  pub reads : r ≡ to_bet_read bet
  pub holds : t' ≡ bet ∷ t
  pub fresh : contains bet.id (ids t) ≡ false

not_created : (r : BetRead) → invalid_body_422 ≡ created_201 r → ⊥
not_created r e = cc

Stored-Adds :
    (e : Weather) (event_id : ℕ) (stake : Option Decimal) (t : Table) (r : BetRead)
    (o : Outcome BetRead × World)
    → Stored e event_id stake t o
    → o.0 ≡ returned r
    → Adds r t o.1.table
Stored-Adds e event_id none t r (returned s, w') st h = absurd st
Stored-Adds e event_id none t r (raised x, w') st h = cc
Stored-Adds e event_id (some stake) t r (returned s, w') st h = record {
  bet = new_bet e event_id stake;
  reads = cc;
  holds = st.0;
  fresh = st.2;
}
Stored-Adds e event_id (some stake) t r (raised x, w') st h = cc

created_returned :
    (i : ℕ) (o : Outcome BetRead) (r : BetRead)
    → post_bet_answer i o ≡ created_201 r
    → o ≡ returned r
created_returned i (returned s) r e = cc
created_returned i (raised x) r e = ground arith

module _ (env : Env) where
  Places-Adds :
      (now event_id : ℕ) (amount : Decimal) (w : World) (found : Outcome (Option EventSnapshot))
      (r : BetRead) (o : Outcome BetRead × World)
      → Places env now event_id amount w found o
      → o.0 ≡ returned r
      → Adds r w.table o.1.table
  Places-Adds now event_id amount w (raised x) r o p e = absurd (returned-ne-raised (sym e ∙ p.0))
  Places-Adds now event_id amount w (returned found) r o (inl p) e =
      absurd (returned-ne-raised (sym e ∙ p.2))
  Places-Adds now event_id amount w (returned found) r o (inr p) e =
      Stored-Adds (env.weather w.begun) event_id (quantize_amount amount) w.table r o p.1 e

  module _ (field : FieldTest) (attempts now : ℕ) (body : BetCreate) (w : World) where
    pub post_bet_invalid :
        parse_bet_create field body ≡ none
        → post_bet env field attempts now body w ≡ (invalid_body_422, w)
    unfolding post_bet
    post_bet_invalid v = rw (post_bet, v) refl

    pub post_bet_valid :
        (valid : BetCreate)
        → parse_bet_create field body ≡ some valid
        → let o = place_bet env attempts now valid.event_id valid.amount w in
          post_bet env field attempts now body w ≡ (post_bet_answer valid.event_id o.0, o.1)
    unfolding post_bet
    post_bet_valid valid v = rw (post_bet, v) refl

    pub post_bet-Adds :
        (r : BetRead)
        → (post_bet env field attempts now body w).0 ≡ created_201 r
        → Adds r w.table (post_bet env field attempts now body w).1.table
    post_bet-Adds r e = elim (Option-cases (parse_bet_create field body)) [
      | inl v ↦ absurd (not_created r (ap (λ o. o.0) (sym (post_bet_invalid v)) ∙ e))
      | inr (valid, v) ↦
          let o = place_bet env attempts now valid.event_id valid.amount w in
          let q = post_bet_valid valid v in
          rw (ap (λ (o : Response × World). o.1) q) (
            Places-Adds now valid.event_id valid.amount w
              (get_event env.tenacity env.http attempts valid.event_id w.requests).0 r o
              (place_bet-Places env attempts now valid.event_id valid.amount w)
              (created_returned valid.event_id o.0 r (ap (λ o. o.0) (sym q) ∙ e)))
    ]
