-- ===== src/Base/Counts.antt =====
-- Laws of selections and counts.
use mathlib.Core.Path.{◌≡◌, refl, sym, ◌∙◌}
use mathlib.Core.Logic.{inl, inr}
use mathlib.Core.Bool.{Bool, true, false, not}
use mathlib.Core.List.{List, [], ◌∷◌, ◌++◌, map}
use Prim.Native.Nat.{◌+◌, ◌≤◌}
use native.Mathlib.Omega.{arith}
use project.Base.Tests.{if◌then◌else◌, Bool-cases}
use project.Base.Lists.{any, select, count}
use project.Base.Laws.{update_row}

module _ {ℓ} {A : Type ℓ} where
  -- A test that implies being kept picks the same elements before and after.
  pub select_spared :
      (p q : A → Bool) (xs : List A)
      → ((x : A) → q x ≡ true → p x ≡ false)
      → select q (select (λ r. not (p r)) xs) ≡ select q xs
  unfolding select
  select_spared p q [] h = refl
  select_spared p q (x ∷ xs) h = ground (arith, h x, select_spared p q xs h)

  pub count-snoc : (p : A → Bool) (xs : List A) (y : A) → count p (xs ++ y ∷ []) ≤ count p xs + 1
  unfolding count
  count-snoc p [] y = ground arith
  count-snoc p (x ∷ xs) y = ground (arith, count-snoc p xs y)

  pub count-snoc_none :
      (p : A → Bool) (xs : List A) (y : A) → p y ≡ false → count p (xs ++ y ∷ []) ≡ count p xs
  unfolding count
  count-snoc_none p [] y e = ground arith
  count-snoc_none p (x ∷ xs) y e = ground (arith, count-snoc_none p xs y)

  -- A test that the update keeps is passed by as many elements.
  pub count-update :
      (q p : A → Bool) (f : A → A) (xs : List A)
      → ((x : A) → q (update_row p f x) ≡ q x)
      → count q (map (λ x. if p x then f x else x) xs) ≡ count q xs
  unfolding count
  count-update q p f [] h = refl
  count-update q p f (x ∷ xs) h = ground (arith, h x, count-update q p f xs h)

  -- A selection that keeps whatever passes `q` has as many that pass it.
  pub count-select :
      (p q : A → Bool) (xs : List A)
      → ((x : A) → q x ≡ true → p x ≡ true)
      → count q (select p xs) ≡ count q xs
  unfolding count select
  count-select p q [] h = refl
  count-select p q (x ∷ xs) h = ground (arith, h x, count-select p q xs h)

  pub count_self-select : (q : A → Bool) (xs : List A) → count q (select q xs) ≡ count q xs
  count_self-select q xs = count-select q q xs (λ x e. e)

  -- An element that passes, and its membership.
  pub any_witness :
      (p : A → Bool) (xs : List A)
      → any p xs ≡ true
      → (x : A) × (p x ≡ true) × ((q : A → Bool) → q x ≡ true → any q xs ≡ true)
  unfolding any
  any_witness p [] e = absurd (ground arith)
  any_witness p (x ∷ xs) e = elim (Bool-cases (p x)) [
    | inl f ↦ (x, f, λ q g. rw g refl)
    | inr f ↦
        let (y, passes, inside) = any_witness p xs (sym (rw f refl) ∙ e) in
        (y, passes, λ q g. let rest = inside q g in ground arith)
  ]

  pub count-append_one :
      (p : A → Bool) (xs : List A) (y : A) → count p (xs ++ y ∷ []) ≡ count p xs + count p (y ∷ [])
  unfolding count
  count-append_one p [] y = ground arith
  count-append_one p (x ∷ xs) y = ground (arith, count-append_one p xs y)

  pub count_middle :
      (p : A → Bool) (xs : List A) (y : A) (ys : List A)
      → count p (xs ++ y ∷ ys) ≡ (if p y then 1 else 0) + count p (xs ++ ys)
  unfolding count
  count_middle p [] y ys = ground arith
  count_middle p (x ∷ xs) y ys = ground (arith, count_middle p xs y ys)
