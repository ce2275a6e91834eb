-- ===== src/Base/Equality.antt =====
-- Equality tests as an interface, `==`, with one instance for each type of keys.
use Prim.Native.Nat.{ℕ}
use mathlib.Core.Path.{◌≡◌, refl}
use mathlib.Core.Logic.{◌↔◌}
use mathlib.Core.Bool.{Bool, true}
use leetcode_coach_service.Base.Tests.{nat_beq, nat_beq_iff}

-- Keys that can be compared: a Boolean test and its law.
pub record Eq {ℓ} (Key : Type ℓ) : Type ℓ where
  pub beq : (k l : Key) → Bool
  pub beq_iff : (k l : Key) → (beq k l ≡ true) ↔ (k ≡ l)

instance abbrev pub nat_eq : Eq ℕ
nat_eq = record { beq = nat_beq; beq_iff = nat_beq_iff }

infix 50 ◌==◌
abbrev pub ◌==◌ {ℓ} : {Key : Type ℓ} ⦃same : Eq Key⦄ → Key → Key → Bool
◌==◌ ⦃same⦄ k l = same.beq k l

pub beq_refl {ℓ} : {Key : Type ℓ} ⦃same : Eq Key⦄ (k : Key) → (k == k) ≡ true
beq_refl ⦃same⦄ k = (same.beq_iff k k).1 refl
