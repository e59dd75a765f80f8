-- ===== src/Base/Keys.antt =====
-- Keys with a Boolean equality, and Go strings as lists of bytes.
use Prim.Native.Nat.{ℕ}
use Prim.Native.Char.{code}
use Prim.Native.String.{String}
use mathlib.Core.Path.{◌≡◌, refl}
use mathlib.Core.Logic.{◌↔◌}
use mathlib.Core.Bool.{Bool, true, false, ◌&&◌}
use mathlib.Core.List.{List, [], ◌∷◌}
use native.Mathlib.Omega.{arith}
use dash_fabric.Base.Tests.{nat_beq, nat_beq_iff}

-- A Go string: its bytes.
abbrev pub Bytes : Type 0
Bytes = List ℕ

-- The bytes of an ASCII literal.
abbrev pub bytes : String → Bytes
bytes String.[] = []
bytes (String.◌∷◌ c rest) = code c ∷ bytes rest

-- What the program asks of a comparable key type.
pub record Eq {ℓ} (K : Type ℓ) : Type ℓ where
  pub beq : K → K → Bool
  pub beq_iff : (j k : K) → (beq j k ≡ true) ↔ (j ≡ k)

abbrev pub bytes_beq : Bytes → Bytes → Bool
bytes_beq [] [] = true
bytes_beq (x ∷ s) (y ∷ t) = nat_beq x y && bytes_beq s t
bytes_beq _ _ = false

bytes_sound : (s t : Bytes) → bytes_beq s t ≡ true → s ≡ t
bytes_sound [] [] h = refl
bytes_sound [] (y ∷ t) h = cc
bytes_sound (x ∷ s) [] h = cc
bytes_sound (x ∷ s) (y ∷ t) h = ground (arith, bytes_sound s t)

bytes_refl : (s : Bytes) → bytes_beq s s ≡ true
bytes_refl [] = refl
bytes_refl (x ∷ s) = ground (arith, bytes_refl s)

pub bytes_beq_iff : (s t : Bytes) → (bytes_beq s t ≡ true) ↔ (s ≡ t)
bytes_beq_iff s t = (bytes_sound s t, λ e. rw e (bytes_refl t))

instance abbrev pub bytes_eq : Eq Bytes
bytes_eq = record { beq_iff = bytes_beq_iff; beq = bytes_beq }

instance abbrev pub nat_eq : Eq ℕ
nat_eq = record { beq_iff = nat_beq_iff; beq = nat_beq }

infix 50 ◌==◌
abbrev pub ◌==◌ {ℓ} : {K : Type ℓ} ⦃keys : Eq K⦄ → K → K → Bool
◌==◌ ⦃keys⦄ = keys.beq
