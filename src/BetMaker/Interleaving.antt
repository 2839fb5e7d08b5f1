-- ===== src/BetMaker/Interleaving.antt =====
-- Settling and cancelling in several sessions at once: consumer deliveries and reconciler ticks whose
-- transactions overlap. Each begins with the selector get_pending_locked.py, FOR UPDATE SKIP LOCKED, and
-- ends with the UPDATE by captured ids of settle_bets_for_event.py or cancel_bets_for_event.py.
pub mod Captured
pub mod Exclusive
pub mod Once
use bsw.Common.{
  ℕ, ◌≡◌, Bool, true, false, Option, none, some, List, [], ◌∷◌, contains, if◌then◌else◌, ◌==◌,
}
use bsw.BetMaker.Exceptions.{returned}
use bsw.BetMaker.Models.{Bet, BetStatus, Via}
use bsw.BetMaker.Database.{Postgres, Table, Weather}
use bsw.BetMaker.Database.Rows.{ids}
use bsw.BetMaker.Settle.{get_pending_locked, update_marked}

-- A transaction between its SELECT and its UPDATE: what it is about to write, and the captured ids,
-- whose rows it holds locked.
pub record Settling : Type 0 where
  pub event_id : ℕ
  pub status : BetStatus
  pub via : Via
  pub bet_ids : List ℕ

-- The committed rows, the session that holds each row's lock, and the transaction of each session.
pub record Sessions : Type 0 where
  pub rows : Table
  pub owner : ℕ → Option ℕ
  pub running : ℕ → Option Settling

abbrev pub is_locked : Option ℕ → Bool
is_locked none = false
is_locked (some s) = true

-- A row's owner once a session has taken the locks on some rows, and once it has ended.
abbrev pub taken : ℕ → List ℕ → (ℕ → Option ℕ) → ℕ → Option ℕ
taken s bet_ids owner i = if contains i bet_ids then some s else owner i

abbrev pub freed : ℕ → Option ℕ → Option ℕ
freed s none = none
freed s (some r) = if r == s then none else some r

abbrev pub put : {A : Type 0} → ℕ → A → (ℕ → A) → ℕ → A
put s a f r = if r == s then a else f r

abbrev pub ended : ℕ → Sessions → Sessions
ended s d = record d { owner = λ i. freed s (d.owner i); running = put s none d.running }

-- One step of any session.
pub data Step (pg : Postgres) : Sessions → Sessions → Type 0 where
  select :
      (d : Sessions) (s event_id : ℕ) (status : BetStatus) (via : Via) (e : Weather)
      (bets : List Bet)
      → d.running s ≡ none
      → ((i : ℕ) → e.locked i ≡ is_locked (d.owner i))
      → get_pending_locked pg event_id e d.rows ≡ (returned bets, d.rows)
      → Step pg d (record d {
        owner = taken s (ids bets) d.owner;
        running =
            put s
              (some
                (record { event_id = event_id; status = status; via = via; bet_ids = ids bets }))
              d.running;
      })
  commit :
      (d : Sessions) (s : ℕ) (t : Settling) (e : Weather) (rows : Table)
      → d.running s ≡ some t
      → update_marked pg t.bet_ids t.status t.via e d.rows ≡ (returned tt, rows)
      → Step pg d (record (ended s d) { rows = rows })
  abort : (d : Sessions) (s : ℕ) (t : Settling) → d.running s ≡ some t → Step pg d (ended s d)
  insert :
      (d : Sessions) (b : Bet)
      → contains b.id (ids d.rows) ≡ false
      → Step pg d (record d { rows = b ∷ d.rows })

pub data Reach (pg : Postgres) (d : Sessions) : Sessions → Type 0 where
  here : Reach pg d d
  next : {e f : Sessions} → Reach pg d e → Step pg e f → Reach pg d f

-- No transaction is running.
abbrev pub idle_on : Table → Sessions
idle_on rows = record { rows = rows; owner = λ i. none; running = λ s. none }
