-- ===== src/BetMaker/App/Shown.antt =====
-- What GET /bet/{bet_id} reads, and the rows behind the bets that an answer shows.
use mathlib.Core.List.{Mem, mem-cons, not-mem-nil}
use mathlib.Core.Logic.Or
use mathlib.Core.Option
use bsw.Common.{
  ℕ, ◌≡◌, ◌≢◌, ◌⊎◌, inl, inr, refl, sym, ap, ◌∙◌, Option, none, some, List, [], ◌∷◌, filter, length,
  map, ◌==◌, ==_iff, arith, Bool-cases, Option-cases, ◌≤◌,
}
use bsw.BetMaker.Exceptions.{Outcome, returned, raised}
use bsw.BetMaker.Models.{Bet, BetRead, to_bet_read}
use bsw.BetMaker.Database.{Table, World, at_begin, at_select}
use bsw.BetMaker.Database.Rows.{HasUniqueIds}
use bsw.BetMaker.Settle.Frame.{find_bet}
use bsw.BetMaker.PlaceBet.{
  Env, BetCreate, Response, created_201, ok_200, not_found_404, not_bettable_422, invalid_body_422,
  line_provider_unreachable_503, internal_error_500, parse_bet_create, place_bet, post_bet_answer,
  post_bet as post_bet_route,
}
use bsw.BetMaker.BetRoutes.{
  bets_200, one_or_none, in_session, get_bet_by_id, get_bet_answer, get_bet as get_bet_route,
}
use bsw.BetMaker.BetRoutes.Reading.{
  filter_absent, Adds, post_bet-Adds, post_bet_valid, post_bet_invalid,
}
use bsw.BetMaker.App.{Answer, to_bet, to_bets}
use bsw.LineProvider.Schemas.{FieldTest}
use mathlib.Core.Path.{subst}
use bsw.BetMaker.Interleaving.Captured.{find_bet-contains, none-ne-some, some_inj}

-- What the row of an id reads as.
abbrev pub read_at : ℕ → Table → Option BetRead
read_at i t = Option.map to_bet_read (find_bet i t)

BetRead-set : IsSet (Option BetRead)
BetRead-set = hlevel

abbrev as_list : Option Bet → List Bet
as_list none = []
as_list (some b) = b ∷ []

-- With unique ids, the rows of an id are the one row that it has.
filter-find_bet :
    (i : ℕ) (t : Table) → HasUniqueIds t → filter (λ b. b.id == i) t ≡ as_list (find_bet i t)
filter-find_bet i [] u = refl
filter-find_bet i (b ∷ t) u =
    ground (arith, ==_iff b.id i, ==_iff i b.id, filter_absent b.id t, filter-find_bet i t u.1)

as_list_read : (o : Option Bet) → one_or_none (as_list o) ≡ returned (Option.map to_bet_read o)
as_list_read none = refl
as_list_read (some b) = refl

length-as_list : (o : Option Bet) → length (as_list o) ≤ 1
length-as_list none = omega arith
length-as_list (some b) = omega arith

pub row_of :
    (i : ℕ) (t : Table) (r : BetRead)
    → read_at i t ≡ some r
    → (b : Bet) × (find_bet i t ≡ some b) × (to_bet_read b ≡ r)
row_of i t r h = elim (Option-cases (find_bet i t)) [
  | inl absent ↦ absurd (none-ne-some (rw absent at h))
  | inr (b, found) ↦ (b, found, some_inj (rw found at h))
]

read_at-id : (i : ℕ) (t : Table) (r : BetRead) → read_at i t ≡ some r → read_at r.id t ≡ some r
read_at-id i t r h =
    let (b, found, same) = row_of i t r h in
    subst (λ j. read_at j t ≡ some r)
      (sym (find_bet-contains i b t found).1 ∙ ap (λ (q : BetRead). q.id) same) h

pub mem-read_at :
    (r : BetRead) (t : Table) → HasUniqueIds t → Mem r (map to_bet_read t) → read_at r.id t ≡ some r
mem-read_at r [] u m = absurd (not-mem-nil m)
mem-read_at r (b ∷ t) u m =
    Or.elim (BetRead-set _ _) (mem-cons.0 m)
      (λ e. rw ((==_iff r.id b.id).1 (ap (λ (q : BetRead). q.id) e)) (ap some (sym e)))
      (λ m'.
        let h = mem-read_at r t u.1 m' in
        let (c, found, same) = row_of r.id t r h in
        elim (Bool-cases (r.id == b.id)) [
          | inl clash ↦ ground (arith, find_bet-contains r.id c t found, ==_iff r.id b.id)
          | inr other ↦ rw other h
        ])

-- The answer of GET /bet/{bet_id}, which leaves the table alone.
module _ (env : Env) (i : ℕ) (w : World) (unique : HasUniqueIds w.table) where
  -- If its transaction meets no failure
  pub get_bet_read :
      (env.weather w.begun).fails at_begin ≡ none
      → (env.weather w.begun).fails at_select ≡ none
      → (get_bet_route env i w).0 ≡ get_bet_answer i (returned (read_at i w.table))
  unfolding get_bet_route
  get_bet_read begins selects =
      let rows : one_or_none (env.pg.select_by_id i w.table) ≡ returned (read_at i w.table) =
        ap one_or_none (
          env.pg.select_by_id_lem i w.table
            (rw (filter-find_bet i w.table unique) (length-as_list (find_bet i w.table)))
          ∙ filter-find_bet i w.table unique)
        ∙ as_list_read (find_bet i w.table) in
      rw (get_bet_route, get_bet_by_id, in_session, begins, selects, rows) refl

  pub get_bet_reads :
      ((get_bet_route env i w).0 ≡ internal_error_500)
      ⊎ ((get_bet_route env i w).0 ≡ get_bet_answer i (returned (read_at i w.table)))
  unfolding get_bet_route
  get_bet_reads = elim (Option-cases ((env.weather w.begun).fails at_begin)) [
    | inr (x, e) ↦ inl (rw (get_bet_route, get_bet_by_id, in_session, e) refl)
    | inl begins ↦ elim (Option-cases ((env.weather w.begun).fails at_select)) [
      | inr (x, e) ↦ inl (rw (get_bet_route, get_bet_by_id, in_session, begins, e) refl)
      | inl selects ↦ inr (get_bet_read begins selects)
    ]
  ]

-- The answer shows the bet.
abbrev pub Shows : Answer → BetRead → Type 0
Shows (to_bet (created_201 q)) r = q ≡ r
Shows (to_bet (ok_200 q)) r = q ≡ r
Shows (to_bets (bets_200 rs)) r = Mem r rs
Shows _ r = ⊥

invalid-ne-ok : (q : BetRead) → invalid_body_422 ≢ ok_200 q
invalid-ne-ok q e = cc

not_ok : (i : ℕ) (o : Outcome BetRead) (q : BetRead) → post_bet_answer i o ≡ ok_200 q → ⊥
not_ok i (returned r) q e = cc
not_ok i (raised x) q e = ground arith

not_created :
    (i : ℕ) (o : Outcome (Option BetRead)) (q : BetRead) → get_bet_answer i o ≡ created_201 q → ⊥
not_created i (returned none) q e = cc
not_created i (returned (some r)) q e = cc
not_created i (raised x) q e = cc

cons-read_at : (b : Bet) (t : Table) → read_at b.id (b ∷ t) ≡ some (to_bet_read b)
cons-read_at b t = rw ((==_iff b.id b.id).1 refl) refl

Adds-read_at : (r : BetRead) (t t' : Table) → Adds r t t' → read_at r.id t' ≡ some r
Adds-read_at r t t' a = rw a.holds (
    subst (λ (q : BetRead). read_at q.id (a.bet ∷ t) ≡ some q) (sym a.reads) (cons-read_at a.bet t))

module _ (env : Env) where
  pub post_bet-Shows :
      (field : FieldTest) (attempts now : ℕ) (body : BetCreate) (w : World) (r : BetRead)
      (o : Response)
      → (post_bet_route env field attempts now body w).0 ≡ o
      → Shows (to_bet o) r
      → read_at r.id (post_bet_route env field attempts now body w).1.table ≡ some r
  post_bet-Shows field attempts now body w r (created_201 q) e h =
      Adds-read_at r w.table (post_bet_route env field attempts now body w).1.table
        (post_bet-Adds env field attempts now body w r (e ∙ ap created_201 h))
  post_bet-Shows field attempts now body w r (ok_200 q) e h =
      elim (Option-cases (parse_bet_create field body)) [
        | inl bad ↦ absurd (
            invalid-ne-ok q (
              ap (λ (o : Response × World). o.0)
                (sym (post_bet_invalid env field attempts now body w bad))
              ∙ e))
        | inr (valid, good) ↦ absurd (
            not_ok valid.event_id (place_bet env attempts now valid.event_id valid.amount w).0 q (
              ap (λ (o : Response × World). o.0)
                (sym (post_bet_valid env field attempts now body w valid good))
              ∙ e))
      ]
  post_bet-Shows field attempts now body w r (not_found_404 i) e h = absurd h
  post_bet-Shows field attempts now body w r (not_bettable_422 i x) e h = absurd h
  post_bet-Shows field attempts now body w r invalid_body_422 e h = absurd h
  post_bet-Shows field attempts now body w r line_provider_unreachable_503 e h = absurd h
  post_bet-Shows field attempts now body w r internal_error_500 e h = absurd h

  pub get_bet-Shows :
      (i : ℕ) (w : World) (r : BetRead) (o : Response)
      → HasUniqueIds w.table
      → (get_bet_route env i w).0 ≡ o
      → Shows (to_bet o) r
      → read_at r.id w.table ≡ some r
  get_bet-Shows i w r o unique e h = elim (get_bet_reads env i w unique) [
    | inl failed ↦ absurd (subst (λ (o : Response). Shows (to_bet o) r) (sym e ∙ failed) h)
    | inr told ↦
        shown (read_at i w.table) refl
          (subst (λ (o : Response). Shows (to_bet o) r) (sym e ∙ told) h)
  ]
    where
      shown :
          (found : Option BetRead)
          → read_at i w.table ≡ found
          → Shows (to_bet (get_bet_answer i (returned found))) r
          → read_at r.id w.table ≡ some r
      shown none f h = absurd h
      shown (some q) f h =
          subst (λ (r : BetRead). read_at r.id w.table ≡ some r) h (read_at-id i w.table q f)
