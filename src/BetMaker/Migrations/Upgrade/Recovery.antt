-- ===== src/BetMaker/Migrations/Upgrade/Recovery.antt =====
-- What an upgrade that loses its connection commits, and the upgrades after it.
use mathlib.Core.Path.{subst}
use bsw.Common.{
  ℕ, zero, suc, ◌≡◌, ◌≤◌, inr, refl, ◌∙◌, Option, none, some, List, [], ◌∷◌, length, arith, ap, sym,
}
use bsw.BetMaker.Migrations.{
  Schema, Database, Revision, base, r_0001, r_0002, r_0003, r_0004, Ddl, model_schema, arrived,
  upgrade_one, upgrade_0001, upgrade_0002, upgrade_0003, upgrade_0004,
}
use bsw.BetMaker.Migrations.Head.{IsAt, Arrives, upgrade_one-Arrives}
use bsw.BetMaker.Migrations.Upgrade.{
  Moment, apply, commit, autocommit_block, stamp_0003, Alembic, Run, perform, after_0001,
  after_0002, after_0003, after_0004, to_head, performing, committed_of, do_run_migrations,
  upgrades,
}

abbrev pub IsProper : Database → Type 0
IsProper d = IsAt d.revision d.schema

abbrev pub head : Database
head = record { revision = r_0004; schema = model_schema }

-- No error; what is committed is a schema of its revision, and the head's if the pieces are enough.
abbrev Good : ℕ → List Moment → Option Run → Type 0
Good n ms none = ⊥
Good n ms (some run) = IsProper run.committed × (length ms ≤ n → run.committed ≡ head)

arrived_as :
    (r : Revision) (o : Option Schema)
    → Arrives (arrived r o)
    → (s : Schema) × (o ≡ some s) × IsAt r s
arrived_as r none h = absurd h
arrived_as r (some s) h = (s, refl, h)

Good-suc :
    (n : ℕ) (m : Moment) (ms : List Moment) (o : Option Run) → Good n ms o → Good (suc n) (m ∷ ms) o
Good-suc n m ms none h = h
Good-suc n m ms (some run) (proper, there) = (proper, λ h. there (omega arith))

abbrev at : Revision → Schema → Database
at r s = record { revision = r; schema = s }

abbrev running : Database → Revision → Schema → Run
running c r s = record { committed = c; current = at r s }

module _ (ddl : Ddl) (alembic : Alembic) where
  step-Good :
      (m : Moment) (ms : List Moment) (run run' : Run)
      → perform ddl m run ≡ some run'
      → IsProper run.committed
      → ((n : ℕ) → Good n ms (performing ddl n ms run'))
      → (n : ℕ) → Good n (m ∷ ms) (performing ddl n (m ∷ ms) run)
  step-Good m ms run run' e proper later zero = (proper, λ h. absurd (omega arith))
  step-Good m ms run run' e proper later (suc n) =
      subst
        (λ (q : Option Run).
          Good (suc n) (m ∷ ms) (elim q [ none ↦ none | some run'' ↦ performing ddl n ms run'' ]))
        (sym e) (Good-suc n m ms (performing ddl n ms run') (later n))

  applied :
      (c : Database) (r : Revision) (s : Schema) (d : Database)
      → upgrade_one ddl r s ≡ some d
      → perform ddl apply (running c r s) ≡ some (record { committed = c; current = d })
  applied c r s d e = rw (perform, e) refl

  unlocked :
      (c : Database) (s s' : Schema)
      → upgrade_0003 ddl s ≡ some s'
      → perform ddl autocommit_block (running c r_0002 s) ≡ some (running (at r_0002 s') r_0002 s')
  unlocked c s s' e = rw (perform, e) refl

  -- A revision applied, given where it arrives.
  apply-Good :
      (r : Revision) (r' : Revision) (o : Option Schema) (ms : List Moment) (c : Database)
      (s : Schema)
      → upgrade_one ddl r s ≡ arrived r' o
      → IsAt r s
      → IsProper c
      → ((s' : Schema) → IsAt r' s' → (n : ℕ) → Good n ms (performing ddl n ms (running c r' s')))
      → (n : ℕ) → Good n (apply ∷ ms) (performing ddl n (apply ∷ ms) (running c r s))
  apply-Good r r' o ms c s e h proper later =
      let (s', f, h') = arrived_as r' o (rw e at (upgrade_one-Arrives ddl r s h)) in
      step-Good apply ms (running c r s) (running c r' s')
        (applied c r s (at r' s') (e ∙ ap (arrived r') f)) proper (later s' h')

  finished :
      (s : Schema)
      → IsAt r_0004 s
      → (n : ℕ) → Good n [] (performing ddl n [] (running (at r_0004 s) r_0004 s))
  finished s h zero = (h, λ le. ap (at r_0004) h)
  finished s h (suc n) = (h, λ le. ap (at r_0004) h)

  from_0004 :
      (c : Database) (s : Schema)
      → IsProper c
      → IsAt r_0004 s
      → (n : ℕ) → Good n after_0004 (performing ddl n after_0004 (running c r_0004 s))
  from_0004 c s proper h =
      step-Good commit [] (running c r_0004 s) (running (at r_0004 s) r_0004 s) refl proper
        (finished s h)

  from_0003 :
      (c : Database) (s : Schema)
      → IsProper c
      → IsAt r_0003 s
      → (n : ℕ) → Good n after_0003 (performing ddl n after_0003 (running c r_0003 s))
  unfolding upgrade_one
  from_0003 c s proper h =
      apply-Good r_0003 r_0004 (upgrade_0004 ddl s) after_0004 c s refl h proper
        (λ s' h'. from_0004 c s' proper h')

  -- Revision 0003 leaves a schema of 0002, too: its label may be there before it is stamped.
  labelled :
      (s : Schema) → IsAt r_0002 s → (s' : Schema) × (upgrade_0003 ddl s ≡ some s') × IsAt r_0003 s'
  unfolding upgrade_one
  labelled s h =
      let (s', f, h') =
        arrived_as r_0003 (upgrade_0003 ddl s) (upgrade_one-Arrives ddl r_0002 s h) in
      (s', f, h')

  from_0002 :
      (c : Database) (s : Schema)
      → IsProper c
      → IsAt r_0002 s
      → (n : ℕ) → Good n after_0002 (performing ddl n after_0002 (running c r_0002 s))
  from_0002 c s proper h =
      let (s', e, h') = labelled s h in
      step-Good commit _ (running c r_0002 s) (running (at r_0002 s) r_0002 s) refl proper (
        step-Good autocommit_block _ (running (at r_0002 s) r_0002 s)
          (running (at r_0002 s') r_0002 s') (unlocked (at r_0002 s) s s' e) h
          (step-Good stamp_0003 _ (running (at r_0002 s') r_0002 s')
            (running (at r_0002 s') r_0003 s') refl (inr h'.0, h'.1)
            (from_0003 (at r_0002 s') s' (inr h'.0, h'.1) h')))

  from_0001 :
      (c : Database) (s : Schema)
      → IsProper c
      → IsAt r_0001 s
      → (n : ℕ) → Good n after_0001 (performing ddl n after_0001 (running c r_0001 s))
  unfolding upgrade_one
  from_0001 c s proper h =
      apply-Good r_0001 r_0002 (upgrade_0002 ddl s) after_0002 c s refl h proper
        (λ s' h'. from_0002 c s' proper h')

  performing-Good :
      (r : Revision) (s : Schema)
      → IsAt r s
      → (n : ℕ) → Good n (to_head r) (performing ddl n (to_head r) (running (at r s) r s))
  unfolding upgrade_one
  performing-Good base s h =
      apply-Good base r_0001 (upgrade_0001 ddl s) after_0001 (at base s) s refl h h
        (λ s' h'. from_0001 (at base s) s' h h')
  performing-Good r_0001 s h = from_0001 (at r_0001 s) s h h
  performing-Good r_0002 s h = from_0002 (at r_0002 s) s h h
  performing-Good r_0003 s h = from_0003 (at r_0003 s) s h h
  performing-Good r_0004 s h = from_0004 (at r_0004 s) s h h

  -- What an upgrade commits.
  abbrev Commits : ℕ → Database → Option Database → Type 0
  Commits n d none = ⊥
  Commits n d (some d') = IsProper d' × (length (to_head d.revision) ≤ n → d' ≡ head)

  Good-Commits :
      (n : ℕ) (d : Database) (o : Option Run)
      → Good n (to_head d.revision) o
      → Commits n d (committed_of o)
  Good-Commits n d none h = h
  Good-Commits n d (some run) h = h

  do_run_migrations-Commits :
      (n : ℕ) (d : Database) → IsProper d → Commits n d (do_run_migrations ddl alembic n d)
  unfolding do_run_migrations
  do_run_migrations-Commits n d h =
      rw (do_run_migrations, alembic.plan_lem d.revision)
        (Good-Commits n d
          (performing ddl n (to_head d.revision) (record { committed = d; current = d }))
          (performing-Good d.revision d.schema h n))

  committed_one :
      (n : ℕ) (d : Database) (o : Option Database)
      → Commits n d o
      → (d' : Database) × (o ≡ some d')
        × IsProper d'
        × (length (to_head d.revision) ≤ n → d' ≡ head)
  committed_one n d none h = absurd h
  committed_one n d (some d') h = (d', refl, h.0, h.1)

  length-to_head : (r : Revision) → length (to_head r) ≤ 7
  length-to_head base = omega arith
  length-to_head r_0001 = omega arith
  length-to_head r_0002 = omega arith
  length-to_head r_0003 = omega arith
  length-to_head r_0004 = omega arith

  -- From a schema of its revision (the empty one, at the base), however many upgrades to the head lose
  -- their connection, each after any number of its pieces: none of them meets an error, what is committed
  -- is a schema of its revision, and a further upgrade that loses none of its at most seven pieces
  -- commits the head, with the schema of the class `Bet`.
  pub upgrades-Recover :
      (ns : List ℕ) (d : Database)
      → IsProper d
      → (d' : Database) × (upgrades ddl alembic ns d ≡ some d')
        × IsProper d'
        × ((n : ℕ) → 7 ≤ n → do_run_migrations ddl alembic n d' ≡ some head)
  unfolding upgrades
  upgrades-Recover [] d h = (
    d,
    refl,
    h,
    λ n le.
        let (d', e, proper, there) =
          committed_one n d (do_run_migrations ddl alembic n d) (do_run_migrations-Commits n d h) in
        e ∙ ap some (there (omega (arith, length-to_head d.revision))),
  )
  upgrades-Recover (n ∷ ns) d h =
      let (d', e, proper, there) =
        committed_one n d (do_run_migrations ddl alembic n d) (do_run_migrations-Commits n d h) in
      rw (upgrades, e) (upgrades-Recover ns d' proper)
