-- ===== src/Base/Key.antt =====
-- Types whose values the code compares: numbers, and byte strings (`bytes.Equal`, map keys).
use Prim.Native.Nat.{ℕ}
use mathlib.Core.Path.{◌≡◌, refl, ap₂}
use mathlib.Core.List.{List, [], ◌∷◌}
use mathlib.Core.Bool.{Bool, true, false}
use mathlib.Core.Logic.{ite}
use native.Mathlib.Omega.{arith}
unfoldable use native.Mathlib.Decide.{ℕ_discrete}

pub record Key {ℓ} (K : Type ℓ) : Type ℓ where
  pub dec : Discrete K

infix 50 ◌≟◌
abbrev pub ◌≟◌ {ℓ} : {K : Type ℓ} ⦃key : Key K⦄ → Discrete K
◌≟◌ ⦃key⦄ = key.dec

instance abbrev pub nat_key : Key ℕ
nat_key = record { dec = ℕ_discrete }

list_discrete {ℓ} : {K : Type ℓ} → Discrete K → Discrete (List K)
list_discrete d [] [] = yes refl
list_discrete d [] (y ∷ ys) = no (λ e. cc)
list_discrete d (x ∷ xs) [] = no (λ e. cc)
list_discrete d (x ∷ xs) (y ∷ ys) = elim (d x y) [
  | yes p ↦ elim (list_discrete d xs ys) [ yes q ↦ yes (ap₂ ◌∷◌ p q) | no n ↦ no (λ e. n (cc)) ]
  | no n ↦ no (λ e. n (cc))
]

-- A string of bytes: a key, a hash digest or a message.
abbrev pub Bytes : Type 0
Bytes = List ℕ

unfoldable pub bytes_discrete : Discrete Bytes
unfolding list_discrete ℕ_discrete
bytes_discrete = list_discrete ℕ_discrete

instance abbrev pub bytes_key : Key Bytes
bytes_key = record { dec = bytes_discrete }

module _ {ℓ} {K : Type ℓ} ⦃key : Key K⦄ where
  -- The test, as a Boolean.
  abbrev pub same : K → K → Bool
  same a b = ite (a ≟ b) true false

  pub same_refl : (a : K) → same a a ≡ true
  same_refl a = ground arith
