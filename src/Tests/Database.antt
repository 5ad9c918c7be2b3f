-- ===== src/Tests/Database.antt =====
-- A database that is the lists themselves: it satisfies every law that the hub relies on.
use project.Base.{
  ==_iff, Bool-cases, List, String, [], any, ap, arith, count, eq_string, eq_ℕ, false, find,
  if◌then◌else◌, inl, inr, is_some-find, map, not, refl, select, suc, zero, ℕ, ◌++◌, ◌+◌, ◌==◌, ◌∷◌,
  ◌≡◌, ◌≤◌,
}
use project.Db.{Prisma, upserted}

size : String → ℕ
size String.[] = 0
size (String.◌∷◌ c s) = suc (size s)

fill : ℕ → String
fill zero = String.[]
fill (suc n) = String.◌∷◌ "x" (fill n)

total : {R : Type 0} → (R → String) → List R → ℕ
total id [] = 0
total id (r ∷ rows) = size (id r) + total id rows

size-fill : (n : ℕ) → size (fill n) ≡ n
unfolding size fill
size-fill zero = refl
size-fill (suc n) = ap suc (size-fill n)

fill_fresh :
    {R : Type 0} (id : R → String) (rows : List R) (n : ℕ)
    → total id rows ≤ n
    → any (λ r. id r == fill (suc n)) rows ≡ false
unfolding total any
fill_fresh id [] n h = refl
fill_fresh id (r ∷ rows) n h = elim (Bool-cases (id r == fill (suc n))) [
  | inl e ↦
      let same = ap size ((==_iff (id r) (fill (suc n))).0 e) in
      absurd (omega (arith, same, size-fill (suc n)))
  | inr e ↦ ground (arith, fill_fresh id rows n (omega arith))
]

-- The longest text there is, and one character more.
pub fresh : {R : Type 0} → (R → String) → List R → String
unfolding fill total
fresh id rows = fill (suc (total id rows))

pub fresh_lem :
    {R : Type 0} (id : R → String) (rows : List R) → any (λ r. id r == fresh id rows) rows ≡ false
unfolding fresh
fresh_lem id rows = fill_fresh id rows (total id rows) (omega arith)

abbrev pub list_db : Prisma
list_db = record {
  find_many = select;
  find_first = find;
  find_unique = find;
  count_rows = count;
  create = λ r rows. rows ++ r ∷ [];
  update_many = λ p f rows. (map (λ r. if p r then f r else r) rows, count p rows);
  delete_many = λ p rows. (select (λ r. not (p r)) rows, count p rows);
  upsert = λ p new f rows. upserted p new f rows (find p rows);
  uuid = fresh;
  find_many_lem = λ p rows. refl;
  find_first_lem = is_some-find;
  find_unique_lem = λ p rows. refl;
  count_rows_lem = λ p rows. refl;
  create_lem = λ r rows. refl;
  update_many_lem = λ p f rows. refl;
  delete_many_lem = λ p rows. refl;
  upsert_lem = λ p new f rows. refl;
  uuid_fresh = λ id rows. fresh_lem id rows;
}
