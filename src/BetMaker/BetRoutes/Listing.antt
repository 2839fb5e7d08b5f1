-- ===== src/BetMaker/BetRoutes/Listing.antt =====
-- What GET /bets of src/bet_maker/api/bets.py lists, after POST /bet too.
use mathlib.Core.List.Perm
use mathlib.Core.List.{Perm}
use mathlib.Core.Path.{subst}
use bsw.Common.{ℕ, ◌≡◌, refl, sym, ap, ◌∙◌, List, [], ◌∷◌, map}
use bsw.LineProvider.Schemas.{FieldTest}
use bsw.BetMaker.Models.{Bet, BetRead, to_bet_read}
use bsw.BetMaker.Database.{World, Descends, instants}
use bsw.BetMaker.Settle.Flip.{IsFair}
use bsw.BetMaker.PlaceBet.{Env, BetCreate, created_201, post_bet}
use bsw.BetMaker.BetRoutes.{in_session, BetsResponse, bets_200, list_bets, get_bets}
use bsw.BetMaker.BetRoutes.Reading.{post_bet-Adds}

instants_read :
    (bs : List Bet) → map (λ (r : BetRead). r.created_at) (map to_bet_read bs) ≡ instants bs
instants_read [] = refl
instants_read (b ∷ bs) = ap (λ ns. b.created_at ∷ ns) (instants_read bs)

module _ (env : Env) where
  -- GET /bets answers with all the rows of the table, newest first.
  pub record Lists (w : World) (o : BetsResponse) : Type 0 where
    pub rows : List BetRead
    pub answers : o ≡ bets_200 rows
    pub every : Perm rows (map to_bet_read w.table)
    pub descends : Descends (map (λ r. r.created_at) rows)

  pub get_bets-Lists : (w : World) → IsFair (env.weather w.begun) → Lists w (get_bets env w).0
  unfolding get_bets
  get_bets-Lists w fair =
      let sel = env.pg.select_newest_first w.table in
      record {
        rows = map to_bet_read sel;
        answers = rw (get_bets, list_bets, in_session, fair.begins, fair.selects) refl;
        every = Perm.map to_bet_read (env.pg.select_newest_first_perm w.table);
        descends = rw (instants_read sel) (env.pg.select_newest_first-Descends w.table);
      }

  -- After POST /bet has answered with a 201, GET /bets lists the bets that the table held before and
  -- the one in that answer, each once and newest first, if its transaction meets no failure.
  pub get_bets-post :
      (field : FieldTest) (attempts now : ℕ) (body : BetCreate) (r : BetRead) (w : World)
      → let o = post_bet env field attempts now body w in
        o.0 ≡ created_201 r
        → IsFair (env.weather o.1.begun)
        → (rs : List BetRead) × ((get_bets env o.1).0 ≡ bets_200 rs)
          × Perm rs (r ∷ map to_bet_read w.table)
          × Descends (map (λ (q : BetRead). q.created_at) rs)
  get_bets-post field attempts now body r w e fair =
      let l = get_bets-Lists (post_bet env field attempts now body w).1 fair in
      let a = post_bet-Adds env field attempts now body w r e in
      (
        l.rows,
        l.answers,
        subst (Perm l.rows)
            (ap (map to_bet_read) a.holds ∙ ap (λ q. q ∷ map to_bet_read w.table) (sym a.reads))
            l.every,
        l.descends,
      )
