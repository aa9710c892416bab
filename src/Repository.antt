-- ===== src/Repository.antt =====
-- What the program relies on of a TypeORM repository (the `typeorm` package, over Postgres): an
-- interface that every service takes as a parameter. A table is seen as a partial map from primary
-- keys to rows; a `where` clause is a test on rows, a partial update a function that keeps the key.

pub mod Rows
pub mod Updates
pub mod Found
use aio_t_cloud.Base.{
  Text, ◌==◌, ℕ, ◌≤◌, ◌≡◌, Bool, true, false, Option, none, some, List, Memᴰ, All, length,
  if◌then◌else◌,
}

module _ {Row : Type 0} where
  -- A partial update of the rows that match.
  abbrev pub patch : (Row → Bool) → (Row → Row) → Option Row → Option Row
  patch p f none = none
  patch p f (some r) = some (if p r then f r else r)

  -- A deletion of the rows that match.
  abbrev pub drop_if : (Row → Bool) → Option Row → Option Row
  drop_if p none = none
  drop_if p (some r) = if p r then none else some r

-- `key` is the primary key, `id`.
pub record Repository (Row : Type 0) (key : Row → Text) : Type 1 where
  pub Table : Type 0
  -- The row with a primary key.
  pub row : Table → Text → Option Row
  pub row-key : (t : Table) (i : Text) (r : Row) → row t i ≡ some r → key r ≡ i
  -- `find({ where })`
  pub find : (Row → Bool) → Table → List Row
  pub find_sound :
      (p : Row → Bool) (t : Table) → All (λ r. (row t (key r) ≡ some r) × (p r ≡ true)) (find p t)
  pub find_complete :
      (p : Row → Bool) (t : Table) (i : Text) (r : Row)
      → row t i ≡ some r
      → p r ≡ true
      → Memᴰ r (find p t)
  -- `findOne({ where })`, `findOneBy(where)`: some row that matches, `null` if there is none.
  pub find_one : (Row → Bool) → Table → Option Row
  pub find_one-some :
      (p : Row → Bool) (t : Table) (r : Row)
      → find_one p t ≡ some r
      → (row t (key r) ≡ some r) × (p r ≡ true)
  pub find_one-none :
      (p : Row → Bool) (t : Table) (i : Text) (r : Row)
      → find_one p t ≡ none
      → row t i ≡ some r
      → p r ≡ false
  -- `findOne({ where, order: { date: 'DESC' } })`
  pub find_latest : (Row → Bool) → (Row → ℕ) → Table → Option Row
  pub find_latest-some :
      (p : Row → Bool) (date : Row → ℕ) (t : Table) (r : Row)
      → find_latest p date t ≡ some r
      → (row t (key r) ≡ some r) × (p r ≡ true)
  pub find_latest_newest :
      (p : Row → Bool) (date : Row → ℕ) (t : Table) (i : Text) (r s : Row)
      → find_latest p date t ≡ some r
      → row t i ≡ some s
      → p s ≡ true
      → date s ≤ date r
  pub find_latest-none :
      (p : Row → Bool) (date : Row → ℕ) (t : Table) (i : Text) (r : Row)
      → find_latest p date t ≡ none
      → row t i ≡ some r
      → p r ≡ false
  -- `find({ where, order: { date: 'DESC' }, take })`
  pub find_page : (Row → Bool) → (Row → ℕ) → ℕ → Table → List Row
  pub find_page_sound :
      (p : Row → Bool) (date : Row → ℕ) (n : ℕ) (t : Table)
      → All (λ r. (row t (key r) ≡ some r) × (p r ≡ true)) (find_page p date n t)
  pub length-find_page :
      (p : Row → Bool) (date : Row → ℕ) (n : ℕ) (t : Table) → length (find_page p date n t) ≤ n
  -- `save(entity)`: an insert or a full update, by primary key.
  pub save : Row → Table → Table
  pub row-save :
      (r : Row) (t : Table) (i : Text) → row (save r t) i ≡ (if key r == i then some r else row t i)
  -- `update(where, changes)`
  pub update : (Row → Bool) → (Row → Row) → Table → Table
  pub row-update :
      (p : Row → Bool) (f : Row → Row) (t : Table) (i : Text)
      → ((r : Row) → key (f r) ≡ key r)
      → row (update p f t) i ≡ patch p f (row t i)
  -- `remove(entity)`, `delete(where)`
  pub remove : (Row → Bool) → Table → Table
  pub row-remove :
      (p : Row → Bool) (t : Table) (i : Text) → row (remove p t) i ≡ drop_if p (row t i)
  -- The key that the database generates for a new row.
  pub next_id : Table → Text
  pub next_id_fresh : (t : Table) → row t (next_id t) ≡ none
