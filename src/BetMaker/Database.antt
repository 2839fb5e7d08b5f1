-- ===== src/BetMaker/Database.antt =====
-- src/bet_maker/uow: one transaction for each business operation, over a database and a driver that
-- are not in the repository. What the code asks of PostgreSQL is the record `Postgres`, with the
-- documented meaning of each statement as its laws; what may go wrong is in `Weather`.
pub mod Rows
use mathlib.Core.List.{Perm}
use bsw.Common.{
  length, ◌≤◌, ℕ, ◌+◌, ◌≡◌, Bool, true, false, not, ◌&&◌, Option, none, some, List, [], ◌∷◌, map,
  if◌then◌else◌, filter, any, contains, ◌==◌,
}
use bsw.BetMaker.Exceptions.{Exn, Outcome, returned, raised}
use bsw.BetMaker.Models.{Bet}

-- The table, as the rows that a transaction sees. The order of the list means nothing: a SELECT
-- with no ORDER BY returns rows in any order.
abbrev pub Table : Type 0
Table = List Bet

-- The instants fall, or stay, along the list.
abbrev AtMost : ℕ → List ℕ → Type 0
AtMost n [] = Unit
AtMost n (m ∷ ms) = m ≤ n

abbrev pub Descends : List ℕ → Type 0
Descends [] = Unit
Descends (n ∷ ns) = AtMost n ns × Descends ns

abbrev pub instants : List Bet → List ℕ
instants = map (λ b. b.created_at)

pub record Postgres : Type 0 where
  -- SELECT … WHERE p FOR UPDATE SKIP LOCKED, where others hold the locks on some rows
  pub select_skip_locked : (ℕ → Bool) → (Bet → Bool) → Table → List Bet
  pub select_skip_locked_lem :
      (locked : ℕ → Bool) (p : Bet → Bool) (t : Table)
      → Perm (select_skip_locked locked p t) (filter (λ b. p b && not (locked b.id)) t)
  -- SELECT DISTINCT event_id WHERE p
  pub select_distinct_event_id : (Bet → Bool) → Table → List ℕ
  pub select_distinct_event_id_lem :
      (p : Bet → Bool) (t : Table) (i : ℕ)
      → contains i (select_distinct_event_id p t) ≡ any (λ b. p b && (b.event_id == i)) t
  -- UPDATE … SET f WHERE p
  pub update : (Bet → Bool) → (Bet → Bet) → Table → Table
  pub update_lem :
      (p : Bet → Bool) (f : Bet → Bet) (t : Table)
      → update p f t ≡ map (λ b. if p b then f b else b) t
  -- SELECT WHERE id = i, which has one order only where it has at most one row
  pub select_by_id : ℕ → Table → List Bet
  pub select_by_id_lem :
      (i : ℕ) (t : Table)
      → length (filter (λ b. b.id == i) t) ≤ 1
      → select_by_id i t ≡ filter (λ b. b.id == i) t
  -- SELECT … ORDER BY created_at DESC; rows of one instant come in any order
  pub select_newest_first : Table → List Bet
  pub select_newest_first_perm : (t : Table) → Perm (select_newest_first t) t
  pub select_newest_first-Descends : (t : Table) → Descends (instants (select_newest_first t))
  -- INSERT, refused where the primary key is taken
  pub insert : Bet → Table → Option Table
  pub insert_lem :
      (b : Bet) (t : Table)
      → insert b t ≡ (if contains b.id (map (λ c. c.id) t) then none else some (b ∷ t))

-- Where a transaction can fail. At `commit` and at `rollback` it is rolled back, by the server if not
-- by its client; `after_commit` the connection is lost once the changes are in place.
pub data Point : Type 0 where
  at_begin at_select at_write at_rollback at_commit after_commit : Point

-- What one transaction meets: the database's clock, the service's clock, the uuid that it draws,
-- the rows that others hold locked, and its failures.
pub record Weather : Type 0 where
  pub now : ℕ
  pub clock : ℕ
  pub uuid : ℕ
  pub locked : ℕ → Bool
  pub fails : Point → Option Exn

-- The committed rows, how many transactions have begun, and how many requests were sent to
-- line-provider.
pub record World : Type 0 where
  pub table : Table
  pub begun : ℕ
  pub requests : ℕ

-- The body of `async with uow:`, on its own copy of the table.
abbrev pub Tx : Type 0 → Type 0
Tx A = Weather → Table → Outcome A × Table

infixl 5 ◌>>=◌ ◌>>◌
abbrev pub ◌>>=◌ : {A B : Type 0} → Tx A → (A → Tx B) → Tx B
◌>>=◌ m f e t = let (r, t') = m e t in elim r [ returned a ↦ f a e t' | raised x ↦ (raised x, t') ]

abbrev pub ◌>>◌ : {A B : Type 0} → Tx A → Tx B → Tx B
m >> k = m >>= λ _. k

abbrev pub pure : {A : Type 0} → A → Tx A
pure a e t = (returned a, t)

abbrev pub asks : {A : Type 0} → (Weather → A) → Tx A
asks f e t = (returned (f e), t)

abbrev pub raise : {A : Type 0} → Exn → Tx A
raise x e t = (raised x, t)

-- A statement, which may fail at a point.
abbrev pub statement : {A : Type 0} → Point → (Weather → Table → A × Table) → Tx A
statement point f e t = elim (e.fails point) [
  | some x ↦ (raised x, t)
  | none ↦ let (a, t') = f e t in (returned a, t')
]

-- `PostgresUnitOfWork.__aexit__`: commit on a clean exit, roll back on an exception, which is
-- replaced where the rollback raises.
abbrev pub aexit : {A : Type 0} → Weather → World → Outcome A × Table → Outcome A × World
aexit e w (raised x, t) = elim (e.fails at_rollback) [
  | some y ↦ (raised y, w)
  | none ↦ (raised x, w)
]
aexit e w (returned a, t) = elim (e.fails at_commit) [
  | some x ↦ (raised x, w)
  | none ↦ elim (e.fails after_commit) [
    | some x ↦ (raised x, record w { table = t })
    | none ↦ (returned a, record w { table = t })
  ]
]

-- `async with uow:`; the n-th transaction meets the n-th weather.
unfoldable pub with_uow : {A : Type 0} → (ℕ → Weather) → Tx A → World → Outcome A × World
with_uow weather body w =
    let e = weather w.begun in
    let w' : World = record w { begun = w.begun + 1 } in
    elim (e.fails at_begin) [ some x ↦ (raised x, w') | none ↦ aexit e w' (body e w.table) ]
