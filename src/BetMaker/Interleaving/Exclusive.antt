-- ===== src/BetMaker/Interleaving/Exclusive.antt =====
-- The invariant of overlapping sessions: each owns the rows that it captured, and they are still PENDING.
use bsw.Common.{
  ℕ, ◌≡◌, ◌≢◌, ◌⊎◌, inl, inr, sym, ap, ◌∙◌, Bool, true, false, none, some, List, ◌∷◌, contains,
  arith, Bool-cases, ◌==◌, ==_iff,
}
use mathlib.Core.Path.{subst}
use bsw.BetMaker.Exceptions.{returned}
use bsw.BetMaker.Models.{Bet, BetStatus, Via, is_open}
use bsw.BetMaker.Database.{Postgres, Table, Weather}
use bsw.BetMaker.Database.Rows.{ids, HasUniqueIds, map-HasUniqueIds}
use bsw.BetMaker.Settle.{get_pending_locked}
use bsw.BetMaker.Interleaving.{
  Settling, Sessions, put, is_locked, taken, freed, put, Step, select, commit, abort, insert,
}
use bsw.BetMaker.Interleaving.Captured.{
  Passes, find_bet-contains, some_inj, none-ne-some, marked, marked-id, Apart, marked-Passes,
  captured, updated_rows,
}

-- What is known of each running transaction: it owns the captured rows, and they are PENDING and of its
-- event.
pub record IsExclusive (d : Sessions) : Type 0 where
  pub unique : HasUniqueIds d.rows
  pub owns :
      (s : ℕ) (t : Settling) (i : ℕ)
      → d.running s ≡ some t
      → contains i t.bet_ids ≡ true
      → d.owner i ≡ some s
  pub open_still :
      (s : ℕ) (t : Settling) (i : ℕ)
      → d.running s ≡ some t
      → contains i t.bet_ids ≡ true
      → Passes (is_open t.event_id) i d.rows

put_cases :
    {A : Type 0} (s r : ℕ) (a o : A) (f : ℕ → A)
    → put s a f r ≡ o
    → ((r ≡ s) × (a ≡ o)) ⊎ ((r ≢ s) × (f r ≡ o))
put_cases s r a o f h = elim (Bool-cases (r == s)) [
  | inl same ↦ inl ((==_iff r s).0 same, rw (put, same) at h)
  | inr other ↦ inr (λ q. ground arith, rw (put, other) at h)
]

freed_other : (s r : ℕ) → r ≢ s → freed s (some r) ≡ some r
freed_other s r n = ground arith

module _ (pg : Postgres) where
  -- A session that begins.
  module _ (d : Sessions) (v : IsExclusive d) (s event_id : ℕ) (status : BetStatus) (via : Via)
      (e : Weather) (bets : List Bet) (locks : (i : ℕ) → e.locked i ≡ is_locked (d.owner i))
      (h : get_pending_locked pg event_id e d.rows ≡ (returned bets, d.rows)) where
    abbrev begun : Settling
    begun = record { event_id = event_id; status = status; via = via; bet_ids = ids bets }

    begun_owns :
        (r : ℕ) (t : Settling) (i : ℕ)
        → put s (some begun) d.running r ≡ some t
        → contains i t.bet_ids ≡ true
        → taken s (ids bets) d.owner i ≡ some r
    begun_owns r t i q m = elim (put_cases s r (some begun) (some t) d.running q) [
      | inl (same, new) ↦
          let m' : contains i (ids bets) ≡ true =
            ap (λ (u : Settling). contains i u.bet_ids) (some_inj new) ∙ m in
          rw m' (ap some (sym same))
      | inr (other, old) ↦ elim (Bool-cases (contains i (ids bets))) [
        | inl c ↦ absurd (
            none-ne-some
              (sym (captured pg d event_id e bets i v.unique locks h c).1 ∙ v.owns r t i old m))
        | inr c ↦ rw c (v.owns r t i old m)
      ]
    ]

    begun_open :
        (r : ℕ) (t : Settling) (i : ℕ)
        → put s (some begun) d.running r ≡ some t
        → contains i t.bet_ids ≡ true
        → Passes (is_open t.event_id) i d.rows
    begun_open r t i q m = elim (put_cases s r (some begun) (some t) d.running q) [
      | inl (same, new) ↦
          subst (λ (u : Settling). Passes (is_open u.event_id) i d.rows) (some_inj new)
            (captured pg d event_id e bets i v.unique locks h
              (ap (λ (u : Settling). contains i u.bet_ids) (some_inj new) ∙ m)).0
      | inr (other, old) ↦ v.open_still r t i old m
    ]

  -- A session that ends.
  module _ (d : Sessions) (v : IsExclusive d) (s : ℕ) where
    ended_running :
        (r : ℕ) (t : Settling) → put s none d.running r ≡ some t → (r ≢ s) × (d.running r ≡ some t)
    ended_running r t q = elim (put_cases s r none (some t) d.running q) [
      | inl (same, new) ↦ absurd (none-ne-some new)
      | inr old ↦ old
    ]

    ended_owns :
        (r : ℕ) (t : Settling) (i : ℕ)
        → put s none d.running r ≡ some t
        → contains i t.bet_ids ≡ true
        → freed s (d.owner i) ≡ some r
    ended_owns r t i q m =
        let (other, old) = ended_running r t q in
        ap (freed s) (v.owns r t i old m) ∙ freed_other s r other

    -- The transaction that ends, and another one.
    pub others-Apart :
        (t u : Settling) (r i : ℕ)
        → d.running s ≡ some t
        → d.running r ≡ some u
        → r ≢ s
        → contains i u.bet_ids ≡ true
        → Apart t i
    others-Apart t u r i h k other m = elim (Bool-cases (contains i t.bet_ids)) [
      | inl c ↦ absurd (other (some_inj (sym (v.owns r u i k m) ∙ v.owns s t i h c)))
      | inr c ↦ c
    ]

  inserted-Passes :
      (p : Bet → Bool) (b : Bet) (i : ℕ) (rows : Table)
      → contains b.id (ids rows) ≡ false
      → Passes p i rows
      → Passes p i (b ∷ rows)
  inserted-Passes p b i rows fresh (c, found, same, q) =
      (c, ground (arith, find_bet-contains i c rows found), same, q)

  pub Step-IsExclusive : {d d' : Sessions} → Step pg d d' → IsExclusive d → IsExclusive d'
  Step-IsExclusive (select d s event_id status via e bets idle locks h) v = record {
    unique = v.unique;
    owns = begun_owns d v s event_id status via e bets locks h;
    open_still = begun_open d v s event_id status via e bets locks h;
  }
  Step-IsExclusive (commit d s t e rows h u) v = rw (updated_rows pg t e d.rows rows u) record {
    unique = map-HasUniqueIds (marked t e.now) (marked-id t e.now) d.rows v.unique;
    owns = ended_owns d v s;
    open_still = λ r w i q m.
        let (other, old) = ended_running d v s r w q in
        marked-Passes t e.now (is_open w.event_id) i d.rows
          (others-Apart d v s t w r i h old other m) (v.open_still r w i old m);
  }
  Step-IsExclusive (abort d s t h) v = record {
    unique = v.unique;
    owns = ended_owns d v s;
    open_still = λ r w i q m. v.open_still r w i (ended_running d v s r w q).1 m;
  }
  Step-IsExclusive (insert d b fresh) v = record {
    unique = (fresh, v.unique);
    owns = v.owns;
    open_still =
        λ r w i q m. inserted-Passes (is_open w.event_id) b i d.rows fresh (v.open_still r w i q m);
  }
