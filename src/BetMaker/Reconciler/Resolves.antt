-- ===== src/BetMaker/Reconciler/Resolves.antt =====
-- What the reconciler does to the bets of an event with a known answer, as a relation that composes.
use bsw.Common.{ℕ, ◌≡◌, ◌⊎◌, inl, inr, sym, ap, ◌∙◌, true, Option, arith, Bool-cases, ◌==◌, ==_iff}
use bsw.BetMaker.Models.{Bet, is_pending}
use bsw.BetMaker.Database.{Weather}
use bsw.BetMaker.Client.{EventSnapshot}
use bsw.BetMaker.Settle.Flip.{IsFair}
use bsw.BetMaker.Settle.Frame.{Keeps, Keeps-trans}
use bsw.BetMaker.Reconciler.Dispatch.{
  verdict, row_after, row_after-other, row_after_final, row_after-verdict, row_after-Keeps,
}

module _ (answer : Option EventSnapshot) where
  -- One row of the event, before and after: kept, and as it was or as the answer says; the latter
  -- where a bet is PENDING and `now` holds.
  pub record Resolves (now : Type 0) (c c' : Bet) : Type 0 where
    pub kept : Keeps c c'
    pub either : (c' ≡ c) ⊎ (c'.status ≡ verdict answer)
    pub resolved : now → is_pending c ≡ true → c'.status ≡ verdict answer

  stays_resolved :
      {d c' : Bet}
      → (c' ≡ d) ⊎ (c'.status ≡ verdict answer)
      → d.status ≡ verdict answer
      → c'.status ≡ verdict answer
  stays_resolved (inl same) v = ap (λ (b : Bet). b.status) same ∙ v
  stays_resolved (inr v') v = v'

  first_then :
      {c d c' : Bet}
      → (c' ≡ d) ⊎ (c'.status ≡ verdict answer)
      → (d ≡ c) ⊎ (d.status ≡ verdict answer)
      → (c' ≡ c) ⊎ (c'.status ≡ verdict answer)
  first_then (inl same) (inl s) = inl (same ∙ s)
  first_then (inl same) (inr v) = inr (ap (λ (b : Bet). b.status) same ∙ v)
  first_then (inr v) h = inr v

  pub Resolves-trans :
      (now later : Type 0) {c d c' : Bet}
      → Resolves now c d
      → Resolves later d c'
      → Resolves (now ⊎ later) c c'
  Resolves-trans now later r r' = record {
    kept = Keeps-trans r.kept r'.kept;
    either = first_then r'.either r.either;
    resolved = λ h p. elim h [
      | inl n ↦ stays_resolved r'.either (r.resolved n p)
      | inr l ↦ elim r.either [
        | inl s ↦ r'.resolved l (ap is_pending s ∙ p)
        | inr v ↦ stays_resolved r'.either v
      ]
    ];
  }

  pub Resolves-weaken :
      {now later : Type 0} {c c' : Bet} → Resolves now c c' → (later → now) → Resolves later c c'
  Resolves-weaken r f = record {
    kept = r.kept;
    either = r.either;
    resolved = λ h. r.resolved (f h);
  }

  -- What a dispatch does to a row of the event `i`.
  pub row_after-Resolves :
      (i : ℕ) (e : Weather) (f : IsFair e) (j : ℕ) (found : Option EventSnapshot) (c : Bet)
      → c.event_id ≡ i
      → (j ≡ i → found ≡ answer)
      → Resolves (j ≡ i) c (row_after e j found c)
  row_after-Resolves i e f j found c mine told = record {
    kept = row_after-Keeps e f j found c;
    either = elim (Bool-cases (j == i)) [
      | inr other ↦ inl (row_after-other e f j found c (λ q. ground arith))
      | inl same ↦ elim (Bool-cases (is_pending c)) [
        | inr final ↦ inl (row_after_final e f j found c final)
        | inl p ↦ inr (told_verdict ((==_iff j i).0 same) p)
      ]
    ];
    resolved = told_verdict;
  }
    where
      told_verdict : j ≡ i → is_pending c ≡ true → (row_after e j found c).status ≡ verdict answer
      told_verdict now p =
          row_after-verdict e f j found c (now ∙ sym mine) p ∙ ap verdict (told now)
