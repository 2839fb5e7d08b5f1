-- ===== src/BetMaker/Migrations/Head.antt =====
-- Walks over the revisions, and the schemas that they arrive at.
use bsw.Common.{◌≡◌, ◌⊎◌, inl, inr, refl, Bool, true, false, Option, none, some, List, [], ◌∷◌}
use bsw.BetMaker.Migrations.{
  downgrade_0003, Label, pending, won, lost, cancelled_lower, Schema, Database, Revision, base,
  r_0001, r_0002, r_0003, r_0004, Ddl, initial_columns, model_schema, upgrade_0001, upgrade_0002,
  upgrade_0003, upgrade_0004, downgrade_0001, downgrade_0002, downgrade_0004, upgrade_one,
  downgrade_one, migrate,
}

-- The labels before the rename: since 0003 has no way back, 'cancelled' may stay.
abbrev Early : Option (List Label) → Type 0
Early ls =
    (ls ≡ some (pending ∷ won ∷ lost ∷ []))
    ⊎ (ls ≡ some (pending ∷ won ∷ lost ∷ cancelled_lower ∷ []))

-- What a database at a revision can look like.
abbrev pub IsAt : Revision → Schema → Type 0
IsAt base s = s ≡ record { labels = none; columns = none }
IsAt r_0001 s = Early s.labels × (s.columns ≡ some initial_columns)
IsAt r_0002 s = Early s.labels × (s.columns ≡ model_schema.columns)
IsAt r_0003 s =
    (s.labels ≡ some (pending ∷ won ∷ lost ∷ cancelled_lower ∷ []))
    × (s.columns ≡ model_schema.columns)
IsAt r_0004 s = s ≡ model_schema

-- A move succeeds, and arrives at such a schema.
abbrev pub Arrives : Option Database → Type 0
Arrives none = ⊥
Arrives (some d) = IsAt d.revision d.schema

module _ (ddl : Ddl) where
  pub upgrade_one-Arrives : (r : Revision) (s : Schema) → IsAt r s → Arrives (upgrade_one ddl r s)
  unfolding upgrade_one
  upgrade_one-Arrives base s h =
      rw (upgrade_0001, h, ddl.create_type_lem, ddl.create_table_lem) (inl refl, refl)
  upgrade_one-Arrives r_0001 s (inl l, cols) =
      rw (upgrade_0002, ddl.add_column_lem, cols, l, ddl.add_column_lem) (inl refl, refl)
  upgrade_one-Arrives r_0001 s (inr l, cols) =
      rw (upgrade_0002, ddl.add_column_lem, cols, l, ddl.add_column_lem) (inr refl, refl)
  upgrade_one-Arrives r_0002 s (inl l, cols) = rw (upgrade_0003, ddl.add_value_lem, l) (refl, cols)
  upgrade_one-Arrives r_0002 s (inr l, cols) = rw (upgrade_0003, ddl.add_value_lem, l) (refl, cols)
  upgrade_one-Arrives r_0003 s (l, cols) = rw (upgrade_0004, ddl.rename_value_lem, l) (rw cols refl)
  upgrade_one-Arrives r_0004 s h = h

  downgrade_one-Arrives : (r : Revision) (s : Schema) → IsAt r s → Arrives (downgrade_one ddl r s)
  unfolding downgrade_one downgrade_0003
  downgrade_one-Arrives base s h = h
  downgrade_one-Arrives r_0001 s (inl l, cols) =
      rw (downgrade_0001, ddl.drop_table_lem, cols, ddl.drop_type_lem, l) refl
  downgrade_one-Arrives r_0001 s (inr l, cols) =
      rw (downgrade_0001, ddl.drop_table_lem, cols, ddl.drop_type_lem, l) refl
  downgrade_one-Arrives r_0002 s (early, cols) =
      rw (downgrade_0002, ddl.drop_column_lem, cols, ddl.drop_column_lem) (early, refl)
  downgrade_one-Arrives r_0003 s (l, cols) = (inr l, cols)
  downgrade_one-Arrives r_0004 s h = rw (downgrade_0004, h, ddl.rename_value_lem) (refl, refl)

  onward :
      (moves : List Bool) (o : Option Database)
      → Arrives o
      → ((d : Database) → IsAt d.revision d.schema → Arrives (migrate ddl moves d))
      → Arrives (elim o [ none ↦ none | some d ↦ migrate ddl moves d ])
  onward moves none h later = elim h [ ]
  onward moves (some d) h later = later d h

  -- From a schema of its revision (the empty one, at the base) every walk up and down the revisions
  -- succeeds at each of its moves, and arrives at a schema of the revision it ends at: at the head, at
  -- the schema of the class `Bet`.
  pub migrate-Arrives :
      (moves : List Bool) (d : Database) → IsAt d.revision d.schema → Arrives (migrate ddl moves d)
  unfolding migrate
  migrate-Arrives [] d h = h
  migrate-Arrives (true ∷ moves) d h =
      onward moves (upgrade_one ddl d.revision d.schema) (upgrade_one-Arrives d.revision d.schema h)
        (λ d'. migrate-Arrives moves d')
  migrate-Arrives (false ∷ moves) d h =
      onward moves (downgrade_one ddl d.revision d.schema)
        (downgrade_one-Arrives d.revision d.schema h) (λ d'. migrate-Arrives moves d')
