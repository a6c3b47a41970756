-- ===== src/Storage/Schema/Insert/Accepted.antt =====
-- The tables after `ensureSchemas`, and the statements they accept.
use pred_sx.Base.{
  ℕ, ◌≡◌, refl, ◌∙◌, true, inl, inr, ◌⊎◌, Option, none, some, List, [], ◌∷◌, String, arith, str_eq,
  if◌then◌else◌, Bool-cases,
}
use text.Mathlib.TextEquality.{eq_iff}
use pred_sx.Base.Dict.{Dict, lookup, lookup-insert}
use pred_sx.Aggregator.Flush.{candle, metric}
use pred_sx.Storage.Schema.{ColumnType, Table, Database, tables, create, create_all, ensure_schemas}
use pred_sx.Storage.Schema.Insert.{
  Statement, Written, trade, event, snapshot, market, on_chain_trade, aggregate, admits, admits_at,
  fits, admits_statement, statement, insert_trade, insert_event, insert_snapshot, insert_market,
  insert_on_chain_trade, insert_aggregate,
}

-- The columns of the first table of that name.
abbrev columns_of : String → List Table → Option (Dict ColumnType)
columns_of name [] = none
columns_of name (t ∷ ts) = if str_eq t.name name then some t.columns else columns_of name ts

-- A table that is there stays as it is.
create-there :
    (t : Table) (name : String) (columns : Dict ColumnType) (db : Database)
    → lookup name db ≡ some columns
    → lookup name (create t db) ≡ some columns
unfolding create
create-there t name columns db h =
    ground (arith, h, lookup-insert t.name name t.columns db, eq_iff t.name name)

create_all-there :
    (ts : List Table) (name : String) (columns : Dict ColumnType) (db : Database)
    → lookup name db ≡ some columns
    → lookup name (create_all ts db) ≡ some columns
unfolding create_all
create_all-there [] name columns db h = h
create_all-there (t ∷ ts) name columns db h =
    create_all-there ts name columns (create t db) (create-there t name columns db h)

create-missing :
    (t : Table) (name : String) (db : Database)
    → lookup name db ≡ none
    → lookup name (create t db) ≡ (if str_eq t.name name then some t.columns else none)
unfolding create
create-missing t name db h =
    ground (arith, h, lookup-insert t.name name t.columns db, eq_iff t.name name)

-- A table that is missing is made with the columns of the list.
create_all-missing :
    (ts : List Table) (name : String) (db : Database)
    → lookup name db ≡ none
    → lookup name (create_all ts db) ≡ columns_of name ts
unfolding create_all
create_all-missing [] name db h = h
create_all-missing (t ∷ ts) name db h = elim (Bool-cases (str_eq t.name name)) [
  | inl this ↦
      rw (columns_of, this)
        (create_all-there ts name t.columns (create t db)
          (create-missing t name db h ∙ rw this refl))
  | inr other ↦
      rw (columns_of, other)
        (create_all-missing ts name (create t db) (create-missing t name db h ∙ rw other refl))
]

-- The database has no such table, or it is the one that `ensureSchemas` makes.
abbrev pub Ours : String → Database → Type 0
Ours name db = (lookup name db ≡ none) ⊎ (lookup name db ≡ columns_of name tables)

ensure_schemas-Ours :
    (name : String) (columns : Dict ColumnType) (db : Database)
    → columns_of name tables ≡ some columns
    → Ours name db
    → lookup name (ensure_schemas db) ≡ some columns
unfolding ensure_schemas
ensure_schemas-Ours name columns db made (inl missing) =
    create_all-missing tables name db missing ∙ made
ensure_schemas-Ours name columns db made (inr there) =
    create_all-there tables name columns db (there ∙ made)

admits_statement-Ours :
    {F : Type 0} (s : Statement F) (columns : Dict ColumnType) (db : Database)
    → columns_of s.table tables ≡ some columns
    → Ours s.table db
    → fits columns s.columns s.values ≡ true
    → admits_statement (ensure_schemas db) s ≡ true
unfolding admits_statement
admits_statement-Ours s columns db made ours h =
    rw (admits_statement, ensure_schemas-Ours s.table columns db made ours) h

module _ {F : Type 0} (strings_json : List String → String) (now : ℕ) where
  -- Where the table that a statement names is missing or as `ensureSchemas` makes it, then after
  -- `ensureSchemas` each statement that the services write is well typed, whatever the event: its
  -- table is there, it has as many values as columns, each of its columns is one of the table, and
  -- each value is of the kind of its column.
  pub admits_statement-ensure_schemas :
      (w : Written F) (db : Database)
      → Ours (statement strings_json now w).table db
      → admits_statement (ensure_schemas db) (statement strings_json now w) ≡ true
  unfolding statement tables insert_trade insert_event insert_snapshot insert_market
      insert_on_chain_trade insert_aggregate fits admits_at admits lookup
  admits_statement-ensure_schemas (trade t) db ours =
      admits_statement-Ours (insert_trade t) _ db refl ours refl
  admits_statement-ensure_schemas (event e) db ours =
      admits_statement-Ours (insert_event e) _ db refl ours refl
  admits_statement-ensure_schemas (snapshot r) db ours =
      admits_statement-Ours (insert_snapshot r) _ db refl ours refl
  admits_statement-ensure_schemas (market e) db ours =
      admits_statement-Ours (insert_market strings_json now e) _ db refl ours refl
  admits_statement-ensure_schemas (on_chain_trade e) db ours =
      admits_statement-Ours (insert_on_chain_trade e) _ db refl ours refl
  admits_statement-ensure_schemas (aggregate (candle m w o h l c v n)) db ours =
      admits_statement-Ours (insert_aggregate (candle m w o h l c v n)) _ db refl ours refl
  admits_statement-ensure_schemas (aggregate (metric m w n v p)) db ours =
      admits_statement-Ours (insert_aggregate (metric m w n v p)) _ db refl ours refl
