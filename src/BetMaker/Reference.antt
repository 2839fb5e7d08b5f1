-- ===== src/BetMaker/Reference.antt =====
-- A database that meets the laws of `Postgres`: plain lists. It shows that the laws can hold, and the
-- tests run on it.
use mathlib.Core.List.Perm
use mathlib.Core.List.{Perm}
use bsw.Common.{
  suc, true, Option, ℕ, ◌+◌, ◌≡◌, refl, Bool, false, not, ◌&&◌, none, some, List, [], ◌∷◌, map,
  filter, any, contains, arith, ◌==◌, if◌then◌else◌, leb, inl, inr, Bool-cases,
}
use bsw.BetMaker.Models.{Bet}
use bsw.BetMaker.Exceptions.{Exn, other_error, timeout_error, Outcome, returned, raised, Tenacity}
use bsw.BetMaker.Database.{Descends, instants, Postgres, Table, Weather, Point, at_begin}
use bsw.BetMaker.Settle.Flip.{IsFair}

abbrev pub distinct : (Bet → Bool) → Table → List ℕ
distinct p [] = []
distinct p (b ∷ t) =
    let rest = distinct p t in
    if p b && not (contains b.event_id rest) then b.event_id ∷ rest else rest

pub contains-distinct :
    (p : Bet → Bool) (t : Table) (i : ℕ)
    → contains i (distinct p t) ≡ any (λ b. p b && (b.event_id == i)) t
contains-distinct p [] i = refl
contains-distinct p (b ∷ t) i =
    ground (arith, contains-distinct p t i, contains-distinct p t b.event_id)

abbrev insert_newest : Bet → List Bet → List Bet
insert_newest b [] = b ∷ []
insert_newest b (c ∷ cs) =
    let rest = insert_newest b cs in if leb c.created_at b.created_at then b ∷ c ∷ cs else c ∷ rest

abbrev newest_first : Table → List Bet
newest_first [] = []
newest_first (b ∷ t) = insert_newest b (newest_first t)

insert_newest_perm : (b : Bet) (cs : List Bet) → Perm (insert_newest b cs) (b ∷ cs)
insert_newest_perm b [] = Perm.refl _
insert_newest_perm b (c ∷ cs) = elim (Bool-cases (leb c.created_at b.created_at)) [
  | inl older ↦ rw older (Perm.refl (b ∷ c ∷ cs))
  | inr newer ↦ rw newer (Perm.trans (Perm.cons c (insert_newest_perm b cs)) (Perm.swap b c cs))
]

pub newest_first_perm : (t : Table) → Perm (newest_first t) t
newest_first_perm [] = Perm.refl _
newest_first_perm (b ∷ t) =
    Perm.trans (insert_newest_perm b (newest_first t)) (Perm.cons b (newest_first_perm t))

insert_newest-Descends :
    (b : Bet) (cs : List Bet) → Descends (instants cs) → Descends (instants (insert_newest b cs))
insert_newest-Descends b [] h = (tt, tt)
insert_newest-Descends b (c ∷ []) h = ground arith
insert_newest-Descends b (c ∷ d ∷ cs) h = ground (arith, insert_newest-Descends b (d ∷ cs) h.1)

pub newest_first-Descends : (t : Table) → Descends (instants (newest_first t))
newest_first-Descends [] = tt
newest_first-Descends (b ∷ t) = insert_newest-Descends b (newest_first t) (newest_first-Descends t)

abbrev pub reference : Postgres
reference = record {
  select_skip_locked = λ locked p t. filter (λ b. p b && not (locked b.id)) t;
  select_skip_locked_lem = λ locked p t. Perm.refl _;
  select_distinct_event_id = distinct;
  select_distinct_event_id_lem = contains-distinct;
  update = λ p f t. map (λ b. if p b then f b else b) t;
  update_lem = λ p f t. refl;
  select_by_id = λ i t. filter (λ b. b.id == i) t;
  select_by_id_lem = λ i t le. refl;
  select_newest_first = newest_first;
  select_newest_first_perm = newest_first_perm;
  select_newest_first-Descends = newest_first-Descends;
  insert = λ b t. if contains b.id (map (λ c. c.id) t) then none else some (b ∷ t);
  insert_lem = λ b t. refl;
}

-- No failure, no lock.
abbrev pub fair : ℕ → Weather
fair n = record {
  now = 10 + n;
  clock = 20 + n;
  uuid = 100 + n;
  locked = λ i. false;
  fails = λ p. none;
}

-- The n-th weather is fair.
pub fair-IsFair : (n : ℕ) → IsFair (fair n)
fair-IsFair n = record {
  begins = refl;
  selects = refl;
  writes = refl;
  commits = refl;
  confirms = refl;
  unlocked = λ i. refl;
}

-- The first transaction cannot begin in time; the others are fair.
abbrev timed_out : Point → Option Exn
timed_out at_begin = some timeout_error
timed_out _ = none

abbrev pub stumbling : ℕ → Weather
stumbling n = if n == 0 then (record (fair n) { fails = timed_out }) else fair n

-- What follows a call: nothing, or the later attempts.
abbrev or_again : {S A : Type 0} → (Exn → Bool) → Outcome A × S → Outcome A × S → Outcome A × S
or_again p (returned a, s) rest = (returned a, s)
or_again p (raised x, s) rest = if p x then rest else (raised x, s)

abbrev attempt : {S A : Type 0} → ℕ → (Exn → Bool) → (S → Outcome A × S) → S → Outcome A × S
attempt ℕ.zero p call s = (raised other_error, s)
attempt (ℕ.suc ℕ.zero) p call s = call s
attempt (ℕ.suc (ℕ.suc n)) p call s =
    let o = call s in let rest = attempt (suc n) p call o.1 in or_again p o rest

pub attempt_returned :
    {S A : Type 0} (n : ℕ) (p : Exn → Bool) (call : S → Outcome A × S) (s s' : S) (a : A)
    → call s ≡ (returned a, s')
    → attempt (suc n) p call s ≡ (returned a, s')
attempt_returned ℕ.zero p call s s' a e = e
attempt_returned (ℕ.suc n) p call s s' a e = rw e refl

pub attempt_refused :
    {S A : Type 0} (n : ℕ) (p : Exn → Bool) (call : S → Outcome A × S) (s s' : S) (x : Exn)
    → call s ≡ (raised x, s')
    → p x ≡ false
    → attempt (suc n) p call s ≡ (raised x, s')
attempt_refused ℕ.zero p call s s' x e f = e
attempt_refused (ℕ.suc n) p call s s' x e f = rw (e, f) refl

pub attempt_again :
    {S A : Type 0} (n : ℕ) (p : Exn → Bool) (call : S → Outcome A × S) (s s' : S) (x : Exn)
    → call s ≡ (raised x, s')
    → p x ≡ true
    → attempt (suc (suc n)) p call s ≡ attempt (suc n) p call s'
attempt_again n p call s s' x e f = rw (e, f) refl

-- `retry`, by recursion on the attempts.
abbrev pub retrying : Tenacity
retrying = record {
  retry = attempt;
  retry_returned = attempt_returned;
  retry_refused = attempt_refused;
  retry_last = λ p call s s' x e. e;
  retry_again = attempt_again;
}
