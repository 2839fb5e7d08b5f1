-- ===== src/BetMaker/Client/Stub.antt =====
-- StubEventLookup of src/bet_maker/facades/event_lookup.py: the lookup over a dict that stands in for
-- line-provider. Instants are in microseconds here, since a default deadline is an hour away.
use bsw.Common.{
  ℕ, ◌+◌, ◌≡◌, refl, Option, none, some, List, [], ◌∷◌, arith, ◌==◌, leb, if◌then◌else◌,
}
use bsw.Common.Dict.{Dict, lookup, insert, lookup-insert}
use bsw.LineProvider.Schemas.{EventState}
use bsw.BetMaker.Exceptions.{deadline_passed}
use bsw.BetMaker.Client.{EventSnapshot}
use bsw.BetMaker.PlaceBet.{rejection}

-- Its `_events`
abbrev pub StubEventLookup : Type 0
StubEventLookup = Dict EventSnapshot

unfoldable pub seed : EventSnapshot → StubEventLookup → StubEventLookup
seed snapshot events_ = insert snapshot.event_id snapshot events_

-- `timedelta(hours=1)`
abbrev pub hour : ℕ
hour = 3600000000

-- The snapshot that `seed_active` makes at an instant.
abbrev pub active_snapshot : ℕ → Option ℕ → ℕ → EventSnapshot
active_snapshot event_id deadline now = record {
  event_id = event_id;
  deadline = elim deadline [ none ↦ now + hour | some d ↦ d ];
  state = EventState.new;
}

unfoldable pub seed_active : ℕ → Option ℕ → ℕ → StubEventLookup → StubEventLookup
seed_active event_id deadline now events_ =
    insert event_id (active_snapshot event_id deadline now) events_

unfoldable pub stub_get_event : ℕ → StubEventLookup → Option EventSnapshot
stub_get_event event_id events_ = lookup event_id events_

-- A call of either method.
pub data Seeding : Type 0 where
  whole : EventSnapshot → Seeding
  active : ℕ → Option ℕ → ℕ → Seeding

-- The lookup after calls, the latest first.
abbrev pub seeded : List Seeding → StubEventLookup
seeded [] = []
seeded (whole snapshot ∷ earlier) = seed snapshot (seeded earlier)
seeded (active event_id deadline now ∷ earlier) = seed_active event_id deadline now (seeded earlier)

abbrev pub snapshot_of_seeding : Seeding → EventSnapshot
snapshot_of_seeding (whole snapshot) = snapshot
snapshot_of_seeding (active event_id deadline now) = active_snapshot event_id deadline now

-- The snapshot of the latest call about the event.
abbrev pub latest : ℕ → List Seeding → Option EventSnapshot
latest i [] = none
latest i (s ∷ earlier) =
    let rest = latest i earlier in
    if i == (snapshot_of_seeding s).event_id then some (snapshot_of_seeding s) else rest

-- Whatever calls of `seed` and `seed_active` were made, a lookup finds the snapshot of the latest one
-- about the event, and none if no call was about it.
pub stub_get_event-seeded :
    (i : ℕ) (calls : List Seeding) → stub_get_event i (seeded calls) ≡ latest i calls
unfolding stub_get_event seed seed_active lookup
stub_get_event-seeded i [] = refl
stub_get_event-seeded i (whole snapshot ∷ earlier) =
    rw
      (lookup-insert snapshot.event_id i snapshot (seeded earlier), stub_get_event-seeded i earlier)
      refl
stub_get_event-seeded i (active event_id deadline now ∷ earlier) =
    rw
      (
        lookup-insert event_id i (active_snapshot event_id deadline now) (seeded earlier),
        stub_get_event-seeded i earlier,
      )
      refl

-- Where the latest call about an event is a `seed_active`, a bet is refused only with DEADLINE_PASSED,
-- and exactly from the deadline on: the one given, or an hour after the call.
pub rejection-seed_active :
    (i : ℕ) (deadline : Option ℕ) (now later : ℕ) (earlier : List Seeding)
    → rejection later (stub_get_event i (seed_active i deadline now (seeded earlier))) ≡ (
        if leb (elim deadline [ none ↦ now + hour | some d ↦ d ]) later
        then some deadline_passed
        else none)
unfolding rejection seed_active stub_get_event
rejection-seed_active i deadline now later earlier =
    rw (lookup-insert i i (active_snapshot i deadline now) (seeded earlier)) (ground arith)
