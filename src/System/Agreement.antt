-- ===== src/System/Agreement.antt =====
-- The bets against the outcomes of their events in line-provider.
use bsw.Common.{
  ℕ, ◌≡◌, inl, inr, refl, sym, ap, ◌∙◌, true, Option, none, some, List, [], ◌∷◌, All, leb, arith,
  Option-cases,
}
use bsw.Common.Dict.{lookup}
use mathlib.Core.Path.{subst}
use bsw.LineProvider.Schemas.{EventState, EventTerminalState, Event, FieldTest}
use bsw.LineProvider.Service.{event_state_to_terminal, Broker, LineProvider, Publication}
use bsw.LineProvider.Api.{to_event_read, Request, get_event_route, dispatch, serve}
use bsw.LineProvider.Steps.{dispatch-Step}
use bsw.LineProvider.Steps.Invariant.{
  outcome_of, outcome, IsTrue, IsValid, initial-IsValid, dispatch-IsValid, Step-outcome,
}
use bsw.LineProvider.Steps.Finality.{serve-outcome}
use bsw.BetMaker.Exceptions.{returned_inj, returned-ne-raised, http_status_error, returned, raised}
use bsw.BetMaker.Models.{Bet, BetStatus}
use bsw.BetMaker.Database.{World, Table}
use bsw.BetMaker.Database.Rows.{HasUniqueIds}
use bsw.BetMaker.Client.{EventSnapshot, HttpResult, malformed, response, read_event}
use bsw.BetMaker.Settle.{mark, terminal_to_status}
use bsw.BetMaker.PlaceBet.{Env, BetCreate, parse_bet_create, post_bet}
use bsw.BetMaker.Preserves.{Stands, Holds, flipped-All, on_event_finished-Holds, place_bet-Holds}
use bsw.BetMaker.Preserves.Reconciling.{Justified, run_tick-Holds}
use bsw.System.{
  System, snapshot_of, event_answer, Sent, Answered, Step, request, deliver, tick, bet, Reach, here,
  next, started,
}
use bsw.System.Lookup.{stored_snapshot, route-read}

-- A status, and the outcome of the bet's event: WON and LOST want the outcome that they tell.
abbrev pub Tells : BetStatus → Option EventTerminalState → Type 0
Tells BetStatus.pending o = Unit
Tells BetStatus.won o = o ≡ some EventTerminalState.finished_win
Tells BetStatus.lost o = o ≡ some EventTerminalState.finished_lose
Tells BetStatus.cancelled o = Unit

abbrev pub Agrees : LineProvider → Bet → Type 0
Agrees lp b = Tells b.status (outcome lp b.event_id)

Tells-later :
    (st : BetStatus) (o o' : Option EventTerminalState)
    → ((t : EventTerminalState) → o ≡ some t → o' ≡ some t)
    → Tells st o
    → Tells st o'
Tells-later BetStatus.pending o o' f h = tt
Tells-later BetStatus.won o o' f h = f EventTerminalState.finished_win h
Tells-later BetStatus.lost o o' f h = f EventTerminalState.finished_lose h
Tells-later BetStatus.cancelled o o' f h = tt

module _ (broker : Broker) (field : FieldTest) where
  Agrees-dispatch :
      (r : Request) (lp : LineProvider) (t : Table)
      → All (Agrees lp) t
      → All (Agrees (dispatch broker field r lp).2) t
  Agrees-dispatch r lp [] h = tt
  Agrees-dispatch r lp (b ∷ t) h = (
    Tells-later b.status (outcome lp b.event_id) (outcome (dispatch broker field r lp).2 b.event_id)
        (λ q e. Step-outcome b.event_id (dispatch-Step broker field r lp) e) h.0,
    Agrees-dispatch r lp t h.1,
  )

-- A marking by the event's outcome, and a cancellation, stand.
abbrev pub AllAgree : LineProvider → Table → Type 0
AllAgree lp = All (Agrees lp)

Stands-outcome :
    (lp : LineProvider) (i : ℕ) (t : EventTerminalState)
    → outcome lp i ≡ some t
    → Stands (AllAgree lp) i (terminal_to_status t)
unfolding mark
Stands-outcome lp i EventTerminalState.finished_win h = record {
  marked = flipped-All (Agrees lp) i BetStatus.won (λ b via now q a. ap (outcome lp) q ∙ h);
}
Stands-outcome lp i EventTerminalState.finished_lose h = record {
  marked = flipped-All (Agrees lp) i BetStatus.lost (λ b via now q a. ap (outcome lp) q ∙ h);
}

Stands-cancelled : (lp : LineProvider) (i : ℕ) → Stands (AllAgree lp) i BetStatus.cancelled
unfolding mark
Stands-cancelled lp i = record {
  marked = flipped-All (Agrees lp) i BetStatus.cancelled (λ b via now q a. tt);
}

Sent-IsTrue :
    (lp : LineProvider) (p : Publication) (ps : List Publication)
    → Sent p ps
    → All (IsTrue lp) ps
    → IsTrue lp p
Sent-IsTrue lp p [] s h = absurd s
Sent-IsTrue lp p (q ∷ qs) (inl e) h = rw e h.0
Sent-IsTrue lp p (q ∷ qs) (inr s) h = Sent-IsTrue lp p qs s h.1

broken_read :
    (code : ℕ)
    → leb 500 code ≡ true
    → read_event (response code malformed) ≡ raised (http_status_error code)
unfolding read_event
broken_read code high = ground arith

module _ (broker : Broker) (field : FieldTest) (lp : LineProvider) (j : ℕ) where
  later_outcome :
      (earlier : LineProvider) (rs : List Request)
      → serve broker field rs earlier ≡ lp
      → (e : Event) (t : EventTerminalState) → lookup j earlier.store ≡ some e
      → event_state_to_terminal e.state ≡ some t
      → outcome lp j ≡ some t
  later_outcome earlier rs later e t l q =
      rw later at (serve-outcome broker field rs earlier j (ap outcome_of l ∙ q))

  -- What the route's answer reads as, by the state of the event there.
  Justified-state :
      (earlier : LineProvider) (rs : List Request)
      → serve broker field rs earlier ≡ lp
      → (e : Event) (st : EventState) → lookup j earlier.store ≡ some e
      → e.state ≡ st
      → (s : EventSnapshot) → s.state ≡ st
      → Justified (AllAgree lp) j (some s)
  Justified-state earlier rs later e EventState.new l q s k = rw k tt
  Justified-state earlier rs later e EventState.finished_win l q s k = rw k (
      Stands-outcome lp j EventTerminalState.finished_win (
        later_outcome earlier rs later e EventTerminalState.finished_win l
          (ap event_state_to_terminal q)))
  Justified-state earlier rs later e EventState.finished_lose l q s k = rw k (
      Stands-outcome lp j EventTerminalState.finished_lose (
        later_outcome earlier rs later e EventTerminalState.finished_lose l
          (ap event_state_to_terminal q)))

  Justified-answer :
      (earlier : LineProvider) (rs : List Request)
      → serve broker field rs earlier ≡ lp
      → (found : Option EventSnapshot)
      → read_event (event_answer (get_event_route j earlier).0) ≡ returned found
      → Justified (AllAgree lp) j found
  Justified-answer earlier rs later found r =
      subst (Justified (AllAgree lp) j) (returned_inj (sym (route-read j earlier) ∙ r))
        (Justified-stored (lookup j earlier.store) refl)
    where
      Justified-stored :
          (o : Option Event)
          → lookup j earlier.store ≡ o
          → Justified (AllAgree lp) j (stored_snapshot o)
      Justified-stored none l = Stands-cancelled lp j
      Justified-stored (some e) l =
          Justified-state earlier rs later e e.state l refl (snapshot_of (to_event_read e)) refl

  Answered-Justified :
      (r : HttpResult EventSnapshot) (found : Option EventSnapshot)
      → Answered broker field lp j r
      → read_event r ≡ returned found
      → Justified (AllAgree lp) j found
  unfolding read_event
  Answered-Justified r found (inl silent) e =
      absurd (returned-ne-raised (sym e ∙ ap read_event silent))
  Answered-Justified r found (inr (inl (x, thrown))) e =
      absurd (returned-ne-raised (sym e ∙ ap read_event thrown))
  Answered-Justified r found (inr (inr (inl (code, high, broken)))) e =
      absurd (returned-ne-raised (sym e ∙ ap read_event broken ∙ broken_read code high))
  Answered-Justified r found (inr (inr (inr (earlier, rs, later, told)))) e =
      Justified-answer earlier rs later found (rw told at e)

-- The invariant of the two services.
pub record IsSound (s : System) : Type 0 where
  pub valid : IsValid s.line_provider
  pub holds : Holds (AllAgree s.line_provider) s.world.table

module _ (broker : Broker) (field : FieldTest) where
  post_bet-Holds :
      (lp : LineProvider) (env : Env) (amount_test : FieldTest) (attempts now : ℕ)
      (body : BetCreate) (w : World)
      → Holds (AllAgree lp) w.table
      → Holds (AllAgree lp) (post_bet env amount_test attempts now body w).1.table
  unfolding post_bet
  post_bet-Holds lp env amount_test attempts now body w h =
      elim (Option-cases (parse_bet_create amount_test body)) [
        | inl bad ↦ rw (post_bet, bad) h
        | inr (valid, good) ↦
            rw (post_bet, good)
              (place_bet-Holds (AllAgree lp) env (λ e i a t u h. (tt, h)) attempts now
                valid.event_id valid.amount w h)
      ]

  Step-IsSound : {s t : System} → Step broker field s t → IsSound s → IsSound t
  Step-IsSound (request s r) v = record {
    valid = dispatch-IsValid broker field r v.valid;
    holds = record {
      unique = v.holds.unique;
      kept = Agrees-dispatch broker field r s.line_provider s.world.table v.holds.kept;
    };
  }
  Step-IsSound (deliver s env p sent) v = record {
    valid = v.valid;
    holds =
        on_event_finished-Holds (AllAgree s.line_provider) env p.message s.world
          (Stands-outcome s.line_provider p.message.event_id p.message.new_state
            (Sent-IsTrue s.line_provider p s.line_provider.published sent v.valid.truthful))
          v.holds;
  }
  Step-IsSound (tick s env attempts answered) v = record {
    valid = v.valid;
    holds =
        run_tick-Holds (AllAgree s.line_provider) env
          (λ n j found e.
            Answered-Justified broker field s.line_provider j (env.http.event n j) found
              (answered n j) e)
          attempts s.world v.holds;
  }
  Step-IsSound (bet s env amount_test attempts now body) v = record {
    valid = v.valid;
    holds = post_bet-Holds s.line_provider env amount_test attempts now body s.world v.holds;
  }

  started-IsSound : IsSound started
  started-IsSound = record { valid = initial-IsValid; holds = record { unique = tt; kept = tt } }

  Reach-IsSound : {s : System} → Reach broker field started s → IsSound s
  Reach-IsSound here = started-IsSound
  Reach-IsSound (next r st) = Step-IsSound st (Reach-IsSound r)

  -- In every state that the two services reach, a bet is WON only if line-provider has its event as
  -- FINISHED_WIN, and LOST only if it has it as FINISHED_LOSE; the ids of the bets are unique.
  pub Reach-Agrees :
      {s : System}
      → Reach broker field started s
      → All (Agrees s.line_provider) s.world.table × HasUniqueIds s.world.table
  Reach-Agrees r = let v = Reach-IsSound r in (v.holds.kept, v.holds.unique)
