-- ===== src/Base/Equality.antt =====
-- `===` as an interface: a Boolean test that decides equality, with its instances.
use Prim.Native.Nat.{ℕ}
use Prim.Native.String.{String}
use mathlib.Core.Path.{◌≡◌, refl}
use mathlib.Core.Logic.{◌↔◌}
use mathlib.Core.Bool.{Bool, true, false}
use mathlib.Core.Option.{Option, none, some}
use native.Mathlib.Omega.{arith}
use text.Mathlib.Text.{◌==◌ as str_eq}
use text.Mathlib.TextEquality.{eq_iff}
use project.Base.Tests.{nat_eq, nat_eq_iff}

pub record Eq {ℓ} (T : Type ℓ) : Type ℓ where
  pub same : T → T → Bool
  pub same_iff : (x y : T) → (same x y ≡ true) ↔ (x ≡ y)

module _ {ℓ} {T : Type ℓ} where
  infix 50 ◌==◌
  abbrev pub ◌==◌ : ⦃by : Eq T⦄ → T → T → Bool
  ◌==◌ ⦃by⦄ x y = by.same x y

  pub ==_iff : ⦃by : Eq T⦄ → (x y : T) → ((x == y) ≡ true) ↔ (x ≡ y)
  ==_iff ⦃by⦄ = by.same_iff

  pub ==_refl : ⦃by : Eq T⦄ → (x : T) → (x == x) ≡ true
  ==_refl x = (==_iff x x).1 refl

  -- Equality of a nullable value, `null === null` included.
  abbrev pub option_eq : ⦃by : Eq T⦄ → Option T → Option T → Bool
  option_eq none none = true
  option_eq (some x) (some y) = x == y
  option_eq _ _ = false

  pub option_eq_iff : ⦃by : Eq T⦄ → (x y : Option T) → (option_eq x y ≡ true) ↔ (x ≡ y)
  option_eq_iff none none = ground arith
  option_eq_iff (some x) (some y) = ground (arith, ==_iff x y)
  option_eq_iff none (some y) = ground arith
  option_eq_iff (some x) none = ground arith

  instance abbrev pub eq_option : ⦃by : Eq T⦄ → Eq (Option T)
  eq_option = record { same_iff = option_eq_iff; same = option_eq }

instance abbrev pub eq_string : Eq String
eq_string = record { same_iff = eq_iff; same = str_eq }

instance abbrev pub eq_ℕ : Eq ℕ
eq_ℕ = record { same_iff = nat_eq_iff; same = nat_eq }
