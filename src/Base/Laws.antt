-- ===== src/Base/Laws.antt =====
-- Laws of the list searches.
use mathlib.Core.Path.{◌≡◌, refl, fun_ext, ap}
use mathlib.Core.Bool.{Bool, true, false, ◌&&◌, ◌||◌, not}
use mathlib.Core.Option.{none, some}
use mathlib.Core.List.{List, [], ◌∷◌, ◌++◌, map}
use Prim.Native.Nat.{◌+◌}
use native.Mathlib.Omega.{arith}
use project.Base.Tests.{if◌then◌else◌, is_some}
use project.Base.Lists.{any, all, find, select, count, length}

-- What `updateMany` does to one row.
abbrev pub update_row {ℓ} : {A : Type ℓ} → (A → Bool) → (A → A) → A → A
update_row p f r = if p r then f r else r

module _ {ℓ} {A : Type ℓ} where
  pub any-append : (p : A → Bool) (xs ys : List A) → any p (xs ++ ys) ≡ (any p xs || any p ys)
  unfolding any
  any-append p [] ys = refl
  any-append p (x ∷ xs) ys = ground (arith, any-append p xs ys)

  pub any-snoc : (p : A → Bool) (xs : List A) (y : A) → any p (xs ++ y ∷ []) ≡ (any p xs || p y)
  unfolding any
  any-snoc p [] y = ground arith
  any-snoc p (x ∷ xs) y = ground (arith, any-snoc p xs y)

  pub all-append : (p : A → Bool) (xs ys : List A) → all p (xs ++ ys) ≡ (all p xs && all p ys)
  unfolding all
  all-append p [] ys = refl
  all-append p (x ∷ xs) ys = ground (arith, all-append p xs ys)

  pub all-snoc : (p : A → Bool) (xs : List A) (y : A) → all p (xs ++ y ∷ []) ≡ (all p xs && p y)
  unfolding all
  all-snoc p [] y = ground arith
  all-snoc p (x ∷ xs) y = ground (arith, all-snoc p xs y)

  pub any_mono :
      (p q : A → Bool) (xs : List A)
      → ((x : A) → p x ≡ true → q x ≡ true)
      → any p xs ≡ true
      → any q xs ≡ true
  unfolding any
  any_mono p q [] h e = e
  any_mono p q (x ∷ xs) h e = ground (arith, h x, any_mono p q xs h)

  pub any_none : (p : A → Bool) (xs : List A) → ((x : A) → p x ≡ false) → any p xs ≡ false
  unfolding any
  any_none p [] h = refl
  any_none p (x ∷ xs) h = ground (arith, h x, any_none p xs h)

  pub any_ext : (p q : A → Bool) (xs : List A) → ((x : A) → p x ≡ q x) → any p xs ≡ any q xs
  any_ext p q xs h = ap (λ f. any f xs) (fun_ext h)

  pub all_mono :
      (p q : A → Bool) (xs : List A)
      → ((x : A) → p x ≡ true → q x ≡ true)
      → all p xs ≡ true
      → all q xs ≡ true
  unfolding all
  all_mono p q [] h e = e
  all_mono p q (x ∷ xs) h e = ground (arith, h x, all_mono p q xs h)

  pub all_of : (p : A → Bool) (xs : List A) → ((x : A) → p x ≡ true) → all p xs ≡ true
  unfolding all
  all_of p [] h = refl
  all_of p (x ∷ xs) h = ground (arith, h x, all_of p xs h)

  -- A found element passes the test.
  pub find-eq-some : (p : A → Bool) (xs : List A) {x : A} → find p xs ≡ some x → p x ≡ true
  unfolding find
  find-eq-some p [] e = ground arith
  find-eq-some p (y ∷ xs) {x} e = ground (arith, find-eq-some p xs {x = x})

  pub is_some-find : (p : A → Bool) (xs : List A) → is_some (find p xs) ≡ any p xs
  unfolding find any
  is_some-find p [] = refl
  is_some-find p (x ∷ xs) = ground (arith, is_some-find p xs)

  pub any-select : (p q : A → Bool) (xs : List A) → any q (select p xs) ≡ any (λ x. p x && q x) xs
  unfolding any select
  any-select p q [] = refl
  any-select p q (x ∷ xs) = ground (arith, any-select p q xs)

  pub all-select :
      (p q : A → Bool) (xs : List A)
      → ((x : A) → p x ≡ true → q x ≡ true)
      → all q (select p xs) ≡ true
  unfolding all select
  all-select p q [] h = refl
  all-select p q (x ∷ xs) h = ground (arith, h x, all-select p q xs h)

  pub count-eq-zero : (p : A → Bool) (xs : List A) → any p xs ≡ false → count p xs ≡ 0
  unfolding count any
  count-eq-zero p [] h = refl
  count-eq-zero p (x ∷ xs) h = ground (arith, count-eq-zero p xs)

  pub any_of_count-eq-zero : (p : A → Bool) (xs : List A) → count p xs ≡ 0 → any p xs ≡ false
  unfolding count any
  any_of_count-eq-zero p [] h = refl
  any_of_count-eq-zero p (x ∷ xs) h = ground (arith, any_of_count-eq-zero p xs)

  -- A test that the update keeps is passed by as many rows.
  pub any-update :
      (q p : A → Bool) (f : A → A) (xs : List A)
      → ((x : A) → q (update_row p f x) ≡ q x)
      → any q (map (λ x. if p x then f x else x) xs) ≡ any q xs
  unfolding any
  any-update q p f [] h = refl
  any-update q p f (x ∷ xs) h = ground (arith, h x, any-update q p f xs h)

  -- An update that makes every row fail the test.
  pub any-update_none :
      (q p : A → Bool) (f : A → A) (xs : List A)
      → ((x : A) → q (update_row p f x) ≡ false)
      → any q (map (λ x. if p x then f x else x) xs) ≡ false
  unfolding any
  any-update_none q p f [] h = refl
  any-update_none q p f (x ∷ xs) h = ground (arith, h x, any-update_none q p f xs h)

  -- A row that passes is found again after an update that keeps the test.
  pub find-update :
      (q p : A → Bool) (f : A → A) (xs : List A)
      → ((x : A) → q (update_row p f x) ≡ q x)
      → find q (map (λ x. if p x then f x else x) xs)
        ≡ elim (find q xs) [ none ↦ none | some x ↦ some (update_row p f x) ]
  unfolding find
  find-update q p f [] h = refl
  find-update q p f (x ∷ xs) h = ground (arith, h x, find-update q p f xs h)

  pub find-snoc :
      (q : A → Bool) (xs : List A) (y : A)
      → find q xs ≡ none
      → q y ≡ true
      → find q (xs ++ y ∷ []) ≡ some y
  unfolding find
  find-snoc q [] y e h = ground arith
  find-snoc q (x ∷ xs) y e h = ground (arith, find-snoc q xs y)

  -- `findMany` of a test that no row passes.
  pub select-eq-nil : (p : A → Bool) (xs : List A) → any p xs ≡ false → select p xs ≡ []
  unfolding any select
  select-eq-nil p [] h = refl
  select-eq-nil p (x ∷ xs) h = ground (arith, select-eq-nil p xs)

  -- An update that changes no row.
  pub update_same :
      (p : A → Bool) (f : A → A) (xs : List A)
      → any p xs ≡ false
      → map (λ x. if p x then f x else x) xs ≡ xs
  unfolding any
  update_same p f [] h = refl
  update_same p f (x ∷ xs) h = ground (arith, update_same p f xs)

  pub length-snoc : (xs : List A) (y : A) → length (xs ++ y ∷ []) ≡ length xs + 1
  length-snoc [] y = ground arith
  length-snoc (x ∷ xs) y = omega (arith, length-snoc xs y)

  -- An update carries a test that every row passes to another.
  pub all-update :
      (p q u : A → Bool) (f : A → A) (xs : List A)
      → ((x : A) → p x ≡ true → q (update_row u f x) ≡ true)
      → all p xs ≡ true
      → all q (map (λ x. if u x then f x else x) xs) ≡ true
  unfolding all
  all-update p q u f [] h e = refl
  all-update p q u f (x ∷ xs) h e = ground (arith, h x, all-update p q u f xs h)

  -- Every row that passes is met again, up to `same`, among the selected ones.
  pub select_covers :
      (p : A → Bool) (same : A → A → Bool) (xs : List A)
      → ((x : A) → same x x ≡ true)
      → all (λ x. not (p x) || any (λ r. same r x) (select p xs)) xs ≡ true
  unfolding all any select
  select_covers p same [] h = refl
  select_covers p same (x ∷ xs) h =
      let tail =
        all_mono (λ y. not (p y) || any (λ r. same r y) (select p xs))
          (λ y. not (p y) || any (λ r. same r y) (if p x then x ∷ select p xs else select p xs)) xs
          (λ y e. ground arith) (select_covers p same xs h) in
      ground (arith, h x, tail)

  pub all_and :
      (p q r : A → Bool) (xs : List A)
      → ((x : A) → p x ≡ true → q x ≡ true → r x ≡ true)
      → all p xs ≡ true
      → all q xs ≡ true
      → all r xs ≡ true
  unfolding all
  all_and p q r [] h e e' = refl
  all_and p q r (x ∷ xs) h e e' = ground (arith, h x, all_and p q r xs h)

  pub any_of_all-not :
      (p : A → Bool) (xs : List A) → all (λ x. not (p x)) xs ≡ true → any p xs ≡ false
  unfolding all any
  any_of_all-not p [] e = refl
  any_of_all-not p (x ∷ xs) e = ground (arith, any_of_all-not p xs)

  -- An update that lets no failing row pass.
  pub any-update_closed :
      (q p : A → Bool) (f : A → A) (xs : List A)
      → ((x : A) → q x ≡ false → q (update_row p f x) ≡ false)
      → any q xs ≡ false
      → any q (map (λ x. if p x then f x else x) xs) ≡ false
  unfolding any
  any-update_closed q p f [] h e = refl
  any-update_closed q p f (x ∷ xs) h e = ground (arith, h x, any-update_closed q p f xs h)
