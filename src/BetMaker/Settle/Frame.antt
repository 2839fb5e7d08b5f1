-- ===== src/BetMaker/Settle/Frame.antt =====
-- What no operation on the table does: touch a bet that is no longer PENDING, or change what a bet is
-- about.
use bsw.Common.{
  ℕ, ◌≡◌, refl, ◌∙◌, inl, inr, false, Option, none, some, List, [], ◌∷◌, map, count, if◌then◌else◌,
  arith, ◌==◌,
}
use bsw.BetMaker.Models.{Bet, BetStatus, Via, is_open, is_pending}
use bsw.BetMaker.Exceptions.{Outcome, returned, raised}
use bsw.BetMaker.Database.{Table, Weather, World}
use bsw.BetMaker.Database.Rows.{HasUniqueIds, map-HasUniqueIds}
use bsw.BetMaker.Settle.{mark}
use bsw.BetMaker.Settle.Flip.{is_free, flipped, Flips}

-- The row with a primary key.
abbrev pub find_bet : ℕ → Table → Option Bet
find_bet i [] = none
find_bet i (b ∷ t) = if i == b.id then some b else find_bet i t

-- One row, before and after: what the bet is about stays, and so does all of it unless it is PENDING.
pub record Keeps (b b' : Bet) : Type 0 where
  pub event : b'.event_id ≡ b.event_id
  pub stake : b'.amount ≡ b.amount
  pub created : b'.created_at ≡ b.created_at
  pub final : is_pending b ≡ false → b' ≡ b

-- Every row stays, and is kept in this sense.
pub record Evolves (t t' : Table) : Type 0 where
  pub at :
      (i : ℕ) (b : Bet)
      → find_bet i t ≡ some b
      → (b' : Bet) × (find_bet i t' ≡ some b') × Keeps b b'

pub Keeps-refl : (b : Bet) → Keeps b b
Keeps-refl b = record { event = refl; stake = refl; created = refl; final = λ _. refl }

pub Keeps-trans : {b c d : Bet} → Keeps b c → Keeps c d → Keeps b d
Keeps-trans k l = record {
  event = l.event ∙ k.event;
  stake = l.stake ∙ k.stake;
  created = l.created ∙ k.created;
  final = λ done. l.final (rw (k.final done) done) ∙ k.final done;
}

pub Evolves-refl : (t : Table) → Evolves t t
Evolves-refl t = record { at = λ i b h. (b, h, Keeps-refl b) }

pub Evolves-trans : {t u v : Table} → Evolves t u → Evolves u v → Evolves t v
Evolves-trans p q = record {
  at = λ i b h.
      let (b', h', k) = p.at i b h in
      let (b'', h'', k') = q.at i b' h' in (b'', h'', Keeps-trans k k');
}

pub find_bet-map :
    (g : Bet → Bet) (keeps : (b : Bet) → (g b).id ≡ b.id) (i : ℕ) (b : Bet) (t : Table)
    → find_bet i t ≡ some b
    → find_bet i (map g t) ≡ some (g b)
find_bet-map g keeps i b [] h = cc
find_bet-map g keeps i b (c ∷ t) h = ground (arith, find_bet-map g keeps i b t, keeps c)

module _ (e : Weather) (event_id : ℕ) (status : BetStatus) (via : Via) where
  abbrev flip : Bet → Bet
  flip b = if is_free e event_id b then mark status via e.now b else b

  flip-Keeps : (b : Bet) → Keeps b (flip b)
  unfolding mark
  flip-Keeps b = ground arith

  flip-id : (b : Bet) → (flip b).id ≡ b.id
  unfolding mark
  flip-id b = ground arith

  pub flipped-Evolves : (t : Table) → Evolves t (flipped e event_id status via t)
  flipped-Evolves t = record {
    at = λ i b h. (flip b, find_bet-map flip flip-id i b t h, flip-Keeps b);
  }

  pub flipped-HasUniqueIds :
      (t : Table) → HasUniqueIds t → HasUniqueIds (flipped e event_id status via t)
  flipped-HasUniqueIds = map-HasUniqueIds flip flip-id

  -- With no row locked, none of the event is left PENDING.
  pub flipped-settles :
      (status ≡ BetStatus.pending → ⊥)
      → ((i : ℕ) → e.locked i ≡ false)
      → (t : Table) → count (is_open event_id) (flipped e event_id status via t) ≡ 0
  unfolding mark
  flipped-settles done free [] = refl
  flipped-settles done free (b ∷ t) = ground (arith, free b.id, flipped-settles done free t)

  -- Where none of the event is PENDING, nothing changes.
  pub flipped_idle :
      (t : Table) → count (is_open event_id) t ≡ 0 → flipped e event_id status via t ≡ t
  flipped_idle [] h = refl
  flipped_idle (b ∷ t) h = ground (arith, flipped_idle t)

  pub Flips-idle :
      {A : Type 0} (ids_of : A → List ℕ) (count_of : A → ℕ) (t : Table) (o : Outcome A × World)
      → Flips 0 ids_of count_of e event_id status via t o
      → count (is_open event_id) t ≡ 0
      → o.1.table ≡ t
  Flips-idle ids_of count_of t (returned r, w') f h = f.0 ∙ flipped_idle t h
  Flips-idle ids_of count_of t (raised x, w') (inl same) h = same
  Flips-idle ids_of count_of t (raised x, w') (inr lost) h = lost.1 ∙ flipped_idle t h

  -- A call that flips, or leaves the table alone, keeps the primary key and evolves the table.
  pub Flips-Evolves :
      {A : Type 0} (ids_of : A → List ℕ) (count_of : A → ℕ) (t : Table) (o : Outcome A × World)
      → Flips 0 ids_of count_of e event_id status via t o
      → HasUniqueIds t
      → HasUniqueIds o.1.table × Evolves t o.1.table
  Flips-Evolves ids_of count_of t (returned r, w') f u =
      rw f.0 (flipped-HasUniqueIds t u, flipped-Evolves t)
  Flips-Evolves ids_of count_of t (raised x, w') (inl same) u = rw same (u, Evolves-refl t)
  Flips-Evolves ids_of count_of t (raised x, w') (inr lost) u =
      rw lost.1 (flipped-HasUniqueIds t u, flipped-Evolves t)
