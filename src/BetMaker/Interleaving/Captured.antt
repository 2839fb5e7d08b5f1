-- ===== src/BetMaker/Interleaving/Captured.antt =====
-- What a SELECT captures, and what marking the captured rows does.
use bsw.Common.{
  ℕ, ◌≡◌, ◌≢◌, inl, inr, refl, sym, ap, ◌∙◌, Bool, true, false, not, ◌&&◌, Option, none, some, List,
  [], ◌∷◌, map, filter, contains, if◌then◌else◌, arith, Bool-cases, Option-cases, ◌==◌, ==_iff,
}
use bsw.BetMaker.Exceptions.{returned_inj, returned-ne-raised, returned}
use bsw.BetMaker.Models.{Bet, is_open, is_pending}
use bsw.BetMaker.Database.{Postgres, Table, Weather, at_select, at_write, statement}
use bsw.BetMaker.Database.Rows.{ids, HasUniqueIds, contains-perm}
use bsw.BetMaker.Settle.{mark, get_pending_locked, update_marked}
use bsw.BetMaker.Settle.Frame.{find_bet, find_bet-map, Keeps, Keeps-refl, Evolves}
use bsw.BetMaker.Interleaving.{Settling, Sessions, is_locked}

-- The row of an id is in the table, and passes a test.
abbrev pub Passes : (Bet → Bool) → ℕ → Table → Type 0
Passes p i t = (b : Bet) × (find_bet i t ≡ some b) × (b.id ≡ i) × (p b ≡ true)

pub find_bet-contains :
    (i : ℕ) (b : Bet) (t : Table) → find_bet i t ≡ some b → (contains i (ids t) ≡ true) × (b.id ≡ i)
find_bet-contains i b [] h = cc
find_bet-contains i b (c ∷ t) h = ground (arith, find_bet-contains i b t)

-- A row under a fresh id leaves the others.
pub cons-Evolves : (b : Bet) (t : Table) → contains b.id (ids t) ≡ false → Evolves t (b ∷ t)
cons-Evolves b t fresh = record {
  at = λ i c found. (c, ground (arith, find_bet-contains i c t found), Keeps-refl c);
}

contains-filter :
    (p : Bet → Bool) (i : ℕ) (t : Table)
    → contains i (ids (filter p t)) ≡ true
    → contains i (ids t) ≡ true
contains-filter p i [] h = h
contains-filter p i (c ∷ t) h = ground (arith, contains-filter p i t)

-- With unique ids, an id among those selected is that of the row that was selected.
filter-Passes :
    (p : Bet → Bool) (i : ℕ) (t : Table)
    → HasUniqueIds t
    → contains i (ids (filter p t)) ≡ true
    → Passes p i t
filter-Passes p i [] u h = cc
filter-Passes p i (c ∷ t) u h = elim (Bool-cases (i == c.id)) [
  | inl first ↦
      (c, rw first refl, sym ((==_iff i c.id).0 first), ground (arith, contains-filter p i t))
  | inr later ↦
      let (b, found, same, q) = filter-Passes p i t u.1 (ground arith) in
      (b, rw later found, same, q)
]

pub some_inj : {A : Type 0} {a b : A} → some a ≡ some b → a ≡ b
some_inj e = cc

pub none-ne-some : {A : Type 0} {a : A} → none ≢ some a
none-ne-some e = cc

pub marked : Settling → ℕ → Bet → Bet
marked t now b = if contains b.id t.bet_ids then mark t.status t.via now b else b

pub marked-id : (t : Settling) (now : ℕ) (b : Bet) → (marked t now b).id ≡ b.id
unfolding marked mark
marked-id t now b = ground arith

-- A row that another session holds is none of those that this one captured.
abbrev pub Apart : Settling → ℕ → Type 0
Apart t i = contains i t.bet_ids ≡ false

marked-Apart : (t : Settling) (now : ℕ) (b : Bet) → Apart t b.id → marked t now b ≡ b
unfolding marked
marked-Apart t now b a = rw a refl

-- Marking the rows of one transaction leaves the others' rows.
pub marked-Passes :
    (t : Settling) (now : ℕ) (p : Bet → Bool) (i : ℕ) (rows : Table)
    → Apart t i
    → Passes p i rows
    → Passes p i (map (marked t now) rows)
marked-Passes t now p i rows a (b, found, same, q) = (
  b,
  find_bet-map (marked t now) (marked-id t now) i b rows found
      ∙ ap some (marked-Apart t now b (ap (λ j. contains j t.bet_ids) same ∙ a)),
  same,
  q,
)

-- Where each captured row is PENDING, marking them keeps every row.
module _ (t : Settling) (now : ℕ) (rows : Table)
    (h : (i : ℕ) → contains i t.bet_ids ≡ true → Passes (is_open t.event_id) i rows) where
  captured_open :
      (i : ℕ) (b : Bet)
      → find_bet i rows ≡ some b
      → contains b.id t.bet_ids ≡ true
      → is_pending b ≡ true
  captured_open i b found m =
      let (c, found', same, q) =
        h i (ap (λ j. contains j t.bet_ids) (sym (find_bet-contains i b rows found).1) ∙ m) in
      let e : c ≡ b = some_inj (sym found' ∙ found) in ap is_pending (sym e) ∙ open_pending c q
    where
      open_pending : (c : Bet) → is_open t.event_id c ≡ true → is_pending c ≡ true
      open_pending c q = ground arith

  marked-Keeps : (i : ℕ) (b : Bet) → find_bet i rows ≡ some b → Keeps b (marked t now b)
  unfolding marked mark
  marked-Keeps i b found = ground (arith, captured_open i b found)

  pub marked-Evolves : Evolves rows (map (marked t now) rows)
  marked-Evolves = record {
    at = λ i b found. (
      marked t now b,
      find_bet-map (marked t now) (marked-id t now) i b rows found,
      marked-Keeps i b found,
    );
  }

module _ (pg : Postgres) where
  selected_ids :
      (event_id : ℕ) (e : Weather) (t : Table) (bets : List Bet) (i : ℕ)
      → get_pending_locked pg event_id e t ≡ (returned bets, t)
      → contains i (ids bets)
        ≡ contains i (ids (filter (λ b. is_open event_id b && not (e.locked b.id)) t))
  unfolding get_pending_locked
  selected_ids event_id e t bets i h = elim (Option-cases (e.fails at_select)) [
    | inl works ↦
        let same : pg.select_skip_locked e.locked (is_open event_id) t ≡ bets =
          returned_inj (ap (λ o. o.0) (rw (get_pending_locked, statement, works) at h)) in
        rw (← same) (contains-perm i (pg.select_skip_locked_lem e.locked (is_open event_id) t))
    | inr (x, fails) ↦
        absurd (
          returned-ne-raised (sym (ap (λ o. o.0) (rw (get_pending_locked, statement, fails) at h))))
  ]

  -- The rows that a SELECT captures were free and are PENDING.
  pub captured :
      (d : Sessions) (event_id : ℕ) (e : Weather) (bets : List Bet) (i : ℕ)
      → HasUniqueIds d.rows
      → ((i : ℕ) → e.locked i ≡ is_locked (d.owner i))
      → get_pending_locked pg event_id e d.rows ≡ (returned bets, d.rows)
      → contains i (ids bets) ≡ true
      → Passes (is_open event_id) i d.rows × (d.owner i ≡ none)
  captured d event_id e bets i u locks h m =
      let (b, found, same, q) =
        filter-Passes (λ b. is_open event_id b && not (e.locked b.id)) i d.rows u
          (sym (selected_ids event_id e d.rows bets i h) ∙ m) in
      (
        (b, found, same, ground arith),
        free_owner (d.owner i) (sym (locks i) ∙ ap e.locked (sym same) ∙ unlocked b q),
      )
    where
      unlocked :
          (b : Bet) → (is_open event_id b && not (e.locked b.id)) ≡ true → e.locked b.id ≡ false
      unlocked b q = ground arith

      free_owner : (o : Option ℕ) → is_locked o ≡ false → o ≡ none
      free_owner none f = refl
      free_owner (some s) f = cc

  pub updated_rows :
      (t : Settling) (e : Weather) (old rows : Table)
      → update_marked pg t.bet_ids t.status t.via e old ≡ (returned tt, rows)
      → rows ≡ map (marked t e.now) old
  unfolding update_marked marked
  updated_rows t e old rows h = elim (Option-cases (e.fails at_write)) [
    | inl works ↦
        sym (ap (λ o. o.1) (rw (update_marked, statement, works) at h))
        ∙ pg.update_lem (λ b. contains b.id t.bet_ids) (mark t.status t.via e.now) old
    | inr (x, fails) ↦
        absurd
          (returned-ne-raised (sym (ap (λ o. o.0) (rw (update_marked, statement, fails) at h))))
  ]
