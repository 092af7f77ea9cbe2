-- ===== src/Base/Keys.antt =====
-- Equality of keys, as an interface with instances.
use Prim.Native.Nat.{ℕ}
use Prim.Native.String.{String}
use text.Mathlib.Text.{◌==◌ as string_beq}
use text.Mathlib.TextEquality.{eq_iff}
use mathlib.Core.Path.{◌≡◌, refl}
use mathlib.Core.Logic.{◌↔◌}
use mathlib.Core.Bool.{Bool, true, false, ◌&&◌}
use mathlib.Core.List.{List, [], ◌∷◌}
use native.Mathlib.Omega.{arith}
use music_fs.Base.Tests.{◌==◌ as nat_beq, ==_iff}

pub record Eq {ℓ} (A : Type ℓ) : Type ℓ where
  pub beq : A → A → Bool
  pub beq_iff : (a b : A) → (beq a b ≡ true) ↔ (a ≡ b)

abbrev pub same {ℓ} : {A : Type ℓ} ⦃e : Eq A⦄ → A → A → Bool
same ⦃e⦄ = e.beq

pub same_iff {ℓ} : {A : Type ℓ} ⦃e : Eq A⦄ (a b : A) → (same a b ≡ true) ↔ (a ≡ b)
same_iff ⦃e⦄ a b = e.beq_iff a b

instance abbrev pub nat_eq : Eq ℕ
nat_eq = record { beq = nat_beq; beq_iff = ==_iff }

instance abbrev pub string_eq : Eq String
string_eq = record { beq = string_beq; beq_iff = eq_iff }

module _ {ℓ} {A : Type ℓ} where
  abbrev list_beq : (A → A → Bool) → List A → List A → Bool
  list_beq eq [] [] = true
  list_beq eq (x ∷ xs) (y ∷ ys) = eq x y && list_beq eq xs ys
  list_beq eq _ _ = false

  pub list_beq_iff :
      (eq : A → A → Bool)
      → ((a b : A) → (eq a b ≡ true) ↔ (a ≡ b))
      → (xs ys : List A) → (list_beq eq xs ys ≡ true) ↔ (xs ≡ ys)
  list_beq_iff eq h [] [] = (λ _. refl, λ _. refl)
  list_beq_iff eq h [] (y ∷ ys) = (λ p. cc, λ p. cc)
  list_beq_iff eq h (x ∷ xs) [] = (λ p. cc, λ p. cc)
  list_beq_iff eq h (x ∷ xs) (y ∷ ys) = ground (arith, h x y, list_beq_iff eq h xs ys)

  instance abbrev pub list_eq : ⦃e : Eq A⦄ → Eq (List A)
  list_eq ⦃e⦄ = record { beq = list_beq e.beq; beq_iff = list_beq_iff e.beq e.beq_iff }
