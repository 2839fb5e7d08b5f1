-- ===== src/BetMaker/Migrations.antt =====
-- src/bet_maker/alembic/versions: the four revisions of the schema, up and down, and the schema that
-- src/bet_maker/models/bet.py reads and writes. PostgreSQL's DDL is a parameter.
pub mod Head
pub mod Upgrade
use bsw.Common.{
  ℕ, zero, suc, ◌+◌, ◌≡◌, Bool, true, false, Option, none, some, List, [], ◌∷◌, ◌++◌, map, filter,
  not, any, if◌then◌else◌, ◌==◌,
}

-- The labels of the enum `bet_status`: 'cancelled' and 'CANCELLED' are two.
pub data Label : Type 0 where
  pending won lost cancelled_lower cancelled : Label

pub data ColumnName : Type 0 where
  id event_id amount status created_at updated_at settled_at settled_via : ColumnName

pub data SqlType : Type 0 where
  uuid numeric_12_2 bet_status timestamptz text : SqlType

pub record Column : Type 0 where
  pub name : ColumnName
  pub sql_type : SqlType
  pub nullable : Bool

-- The labels of the type `bet_status` and the columns of the table `bets`, if they are there.
pub record Schema : Type 0 where
  pub labels : Option (List Label)
  pub columns : Option (List Column)

abbrev pub label_no : Label → ℕ
label_no pending = 0
label_no won = 1
label_no lost = 2
label_no cancelled_lower = 3
label_no cancelled = 4

abbrev pub column_no : ColumnName → ℕ
column_no id = 0
column_no event_id = 1
column_no amount = 2
column_no status = 3
column_no created_at = 4
column_no updated_at = 5
column_no settled_at = 6
column_no settled_via = 7

abbrev pub has_label : Label → List Label → Bool
has_label l = any (λ k. label_no l == label_no k)

abbrev pub has_column : ColumnName → List Column → Bool
has_column n = any (λ c. column_no n == column_no c.name)

abbrev pub is_bet_status : SqlType → Bool
is_bet_status uuid = false
is_bet_status numeric_12_2 = false
is_bet_status bet_status = true
is_bet_status timestamptz = false
is_bet_status text = false

-- Whether there is a column of the type `bet_status`, and whether these columns can be made.
abbrev pub depends : List Column → Bool
depends = any (λ c. is_bet_status c.sql_type)

abbrev pub in_use : Option (List Column) → Bool
in_use none = false
in_use (some cs) = depends cs

abbrev pub has_type : Schema → List Column → Bool
has_type s cs = elim s.labels [ none ↦ not (depends cs) | some ls ↦ true ]

-- The statements that the revisions send; `none` is an error of PostgreSQL. A column of a type that
-- is not there is one, and so is dropping a type while a column is of it.
pub record Ddl : Type 0 where
  -- `ENUM(…).create(bind, checkfirst=True)` and `.drop(bind, checkfirst=True)`
  pub create_type : List Label → Schema → Schema
  pub create_type_lem :
      (ls : List Label) (s : Schema)
      → create_type ls s ≡ (elim s.labels [ none ↦ record s { labels = some ls } | some old ↦ s ])
  pub drop_type : Schema → Option Schema
  pub drop_type_lem :
      (s : Schema)
      → drop_type s ≡ (elim s.labels [
        | none ↦ some s
        | some ls ↦ if in_use s.columns then none else some (record s { labels = none })
      ])
  pub create_table : List Column → Schema → Option Schema
  pub create_table_lem :
      (cs : List Column) (s : Schema)
      → create_table cs s ≡ (elim s.columns [
        | none ↦ if has_type s cs then some (record s { columns = some cs }) else none
        | some old ↦ none
      ])
  pub drop_table : Schema → Option Schema
  pub drop_table_lem :
      (s : Schema)
      → drop_table s
        ≡ (elim s.columns [ none ↦ none | some cs ↦ some (record s { columns = none }) ])
  pub add_column : Column → Schema → Option Schema
  pub add_column_lem :
      (c : Column) (s : Schema)
      → add_column c s ≡ (elim s.columns [
        | none ↦ none
        | some cs ↦
            if has_column c.name cs
            then none
            else (if has_type s (c ∷ [])
                then some (record s { columns = some (cs ++ c ∷ []) })
                else none)
      ])
  pub drop_column : ColumnName → Schema → Option Schema
  pub drop_column_lem :
      (n : ColumnName) (s : Schema)
      → drop_column n s ≡ (elim s.columns [
        | none ↦ none
        | some cs ↦
            if has_column n cs
            then some (record s {
              columns = some (filter (λ c. not (column_no n == column_no c.name)) cs);
            })
            else none
      ])
  -- ALTER TYPE … ADD VALUE IF NOT EXISTS, and RENAME VALUE … TO …
  pub add_value : Label → Schema → Option Schema
  pub add_value_lem :
      (l : Label) (s : Schema)
      → add_value l s ≡ (elim s.labels [
        | none ↦ none
        | some ls ↦ some (record s { labels = some (if has_label l ls then ls else ls ++ l ∷ []) })
      ])
  pub rename_value : Label → Label → Schema → Option Schema
  pub rename_value_lem :
      (old new : Label) (s : Schema)
      → rename_value old new s ≡ (elim s.labels [
        | none ↦ none
        | some ls ↦
            if has_label old ls
            then (if has_label new ls
                then none
                else some (record s {
                  labels = some (map (λ l. if label_no old == label_no l then new else l) ls);
                }))
            else none
      ])

abbrev column : ColumnName → SqlType → Bool → Column
column name sql_type nullable = record { name = name; sql_type = sql_type; nullable = nullable }

abbrev pub initial_columns : List Column
initial_columns =
    column id uuid false
    ∷ column event_id uuid false
    ∷ column amount numeric_12_2 false
    ∷ column status bet_status false
    ∷ column created_at timestamptz false
    ∷ column updated_at timestamptz false
    ∷ []

-- The schema of the class `Bet`
abbrev pub model_schema : Schema
model_schema = record {
  labels = some (pending ∷ won ∷ lost ∷ cancelled ∷ []);
  columns =
      some
        (initial_columns ++ column settled_at timestamptz true ∷ column settled_via text true ∷ []);
}

infixl 5 ◌>>=◌
abbrev ◌>>=◌ : Option Schema → (Schema → Option Schema) → Option Schema
none >>= f = none
some s >>= f = f s

module _ (ddl : Ddl) where
  -- 20260515_0001_bets_initial.py
  unfoldable pub upgrade_0001 : Schema → Option Schema
  upgrade_0001 s = ddl.create_table initial_columns (ddl.create_type (pending ∷ won ∷ lost ∷ []) s)

  unfoldable pub downgrade_0001 : Schema → Option Schema
  downgrade_0001 s = do s' ← ddl.drop_table s; ddl.drop_type s'

  -- 20260518_0002_bets_settled_columns.py
  unfoldable pub upgrade_0002 : Schema → Option Schema
  upgrade_0002 s = do
    s' ← ddl.add_column (column settled_at timestamptz true) s
    ddl.add_column (column settled_via text true) s'

  unfoldable pub downgrade_0002 : Schema → Option Schema
  downgrade_0002 s = do s' ← ddl.drop_column settled_via s; ddl.drop_column settled_at s'

  -- 20260518_0003_bet_status_cancelled.py
  unfoldable pub upgrade_0003 : Schema → Option Schema
  upgrade_0003 s = ddl.add_value cancelled_lower s

  unfoldable pub downgrade_0003 : Schema → Option Schema
  downgrade_0003 s = some s

  -- 20260518_0004_bet_status_cancelled_uppercase.py
  unfoldable pub upgrade_0004 : Schema → Option Schema
  upgrade_0004 s = ddl.rename_value cancelled_lower cancelled s

  unfoldable pub downgrade_0004 : Schema → Option Schema
  downgrade_0004 s = ddl.rename_value cancelled cancelled_lower s

-- The revision that a database is at.
pub data Revision : Type 0 where
  base r_0001 r_0002 r_0003 r_0004 : Revision

pub record Database : Type 0 where
  pub revision : Revision
  pub schema : Schema

abbrev pub empty : Database
empty = record { revision = base; schema = record { labels = none; columns = none } }

abbrev pub arrived : Revision → Option Schema → Option Database
arrived r none = none
arrived r (some s) = some (record { revision = r; schema = s })

-- One revision up or down the chain of `down_revision`; there is none above the head or below the base.
unfoldable pub upgrade_one : Ddl → Revision → Schema → Option Database
unfolding upgrade_0001 upgrade_0002 upgrade_0003 upgrade_0004
upgrade_one ddl base s = arrived r_0001 (upgrade_0001 ddl s)
upgrade_one ddl r_0001 s = arrived r_0002 (upgrade_0002 ddl s)
upgrade_one ddl r_0002 s = arrived r_0003 (upgrade_0003 ddl s)
upgrade_one ddl r_0003 s = arrived r_0004 (upgrade_0004 ddl s)
upgrade_one ddl r_0004 s = arrived r_0004 (some s)

unfoldable pub downgrade_one : Ddl → Revision → Schema → Option Database
unfolding downgrade_0001 downgrade_0002 downgrade_0003 downgrade_0004
downgrade_one ddl base s = arrived base (some s)
downgrade_one ddl r_0001 s = arrived base (downgrade_0001 ddl s)
downgrade_one ddl r_0002 s = arrived r_0001 (downgrade_0002 ddl s)
downgrade_one ddl r_0003 s = arrived r_0002 (downgrade_0003 ddl s)
downgrade_one ddl r_0004 s = arrived r_0003 (downgrade_0004 ddl s)

-- A walk over the revisions: up where the test is true.
unfoldable pub migrate : Ddl → List Bool → Database → Option Database
unfolding upgrade_one downgrade_one
migrate ddl [] d = some d
migrate ddl (up ∷ moves) d =
    elim (if up
      then upgrade_one ddl d.revision d.schema
      else downgrade_one ddl d.revision d.schema) [ none ↦ none | some d' ↦ migrate ddl moves d' ]
