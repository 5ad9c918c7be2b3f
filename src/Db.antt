-- ===== src/Db.antt =====
-- The database client that the hub calls (Prisma over Postgres), which is not in this repository:
-- an interface with the documented behaviour of its operations, taken as a parameter wherever the
-- hub reads or writes a table. A table is the list of its rows, in the order in which a query with
-- no `orderBy` returns them.
use project.Base.{
  Bool, List, Option, String, [], any, count, eq_option, eq_string, eq_ℕ, false, find,
  if◌then◌else◌, is_some, map, none, not, select, some, ℕ, ◌++◌, ◌==◌, ◌∷◌, ◌≡◌,
}
use project.Contracts.Auth.{eq_permission, eq_role}
use project.Contracts.Modes.{eq_alert_type, eq_mode, eq_severity}

-- What `upsert` does, by whether the key was found.
abbrev pub upserted : {R : Type 0} → (R → Bool) → R → (R → R) → List R → Option R → List R × R
upserted p new f rows none = (rows ++ new ∷ [], new)
upserted p new f rows (some r) = (map (λ r'. if p r' then f r' else r') rows, f r)

pub record Prisma : Type 1 where
  -- `findMany`, `findFirst`, `findUnique` and `count`, by the `where` clause.
  pub find_many : {R : Type 0} → (R → Bool) → List R → List R
  pub find_first : {R : Type 0} → (R → Bool) → List R → Option R
  pub find_unique : {R : Type 0} → (R → Bool) → List R → Option R
  pub count_rows : {R : Type 0} → (R → Bool) → List R → ℕ
  -- `create`, `updateMany` and `deleteMany`; the last two return the number of rows they touched.
  pub create : {R : Type 0} → R → List R → List R
  pub update_many : {R : Type 0} → (R → Bool) → (R → R) → List R → List R × ℕ
  pub delete_many : {R : Type 0} → (R → Bool) → List R → List R × ℕ
  -- `upsert` on a unique key: the new row where there was none, and the row as it then stands.
  pub upsert : {R : Type 0} → (R → Bool) → R → (R → R) → List R → List R × R
  -- The generated primary key of a new row.
  pub uuid : {R : Type 0} → (R → String) → List R → String
  pub find_many_lem : {R : Type 0} (p : R → Bool) (rows : List R) → find_many p rows ≡ select p rows
  pub find_first_lem :
      {R : Type 0} (p : R → Bool) (rows : List R) → is_some (find_first p rows) ≡ any p rows
  pub find_unique_lem :
      {R : Type 0} (p : R → Bool) (rows : List R) → find_unique p rows ≡ find p rows
  pub count_rows_lem :
      {R : Type 0} (p : R → Bool) (rows : List R) → count_rows p rows ≡ count p rows
  pub create_lem : {R : Type 0} (r : R) (rows : List R) → create r rows ≡ rows ++ r ∷ []
  pub update_many_lem :
      {R : Type 0} (p : R → Bool) (f : R → R) (rows : List R)
      → update_many p f rows ≡ (map (λ r. if p r then f r else r) rows, count p rows)
  pub delete_many_lem :
      {R : Type 0} (p : R → Bool) (rows : List R)
      → delete_many p rows ≡ (select (λ r. not (p r)) rows, count p rows)
  pub upsert_lem :
      {R : Type 0} (p : R → Bool) (new : R) (f : R → R) (rows : List R)
      → upsert p new f rows ≡ upserted p new f rows (find p rows)
  pub uuid_fresh :
      {R : Type 0} (id : R → String) (rows : List R) → any (λ r. id r == uuid id rows) rows ≡ false
