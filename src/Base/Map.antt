-- ===== src/Base/Map.antt =====
-- `std::unordered_map` as an association list, which the source reads by key, and walks in an
-- order that it does not rely on.
use mathlib.Core.Path.{◌≡◌, refl}
use mathlib.Core.Logic.{◌↔◌}
use mathlib.Core.Bool.{Bool, true}
use mathlib.Core.List.{List, [], ◌∷◌}
use mathlib.Core.Option.{Option, none, some}
use Prim.Native.Nat.{ℕ}
use native.Mathlib.Omega.{arith}
use chatroom.Base.Tests.{if◌then◌else◌, ==_iff, ◌==◌ as nat_beq}
use chatroom.Base.Bytes.{Text, eq_text, eq_text_iff}

-- Keys that a map can compare.
pub record Eq {ℓ} (K : Type ℓ) : Type ℓ where
  pub beq : K → K → Bool
  pub beq_iff : (a b : K) → (beq a b ≡ true) ↔ (a ≡ b)

instance abbrev pub nat_eq : Eq ℕ
nat_eq = record { beq = nat_beq; beq_iff = ==_iff }

instance abbrev pub text_eq : Eq Text
text_eq = record { beq = eq_text; beq_iff = eq_text_iff }

module _ {K V : Type 0} ⦃e : Eq K⦄ where
  -- m.find(k)
  unfoldable pub lookup : K → List (K × V) → Option V
  lookup k [] = none
  lookup k ((j, v) ∷ m) = if e.beq j k then some v else lookup k m

  -- m[k] = v
  unfoldable pub assign : K → V → List (K × V) → List (K × V)
  assign k v [] = (k, v) ∷ []
  assign k v ((j, w) ∷ m) = if e.beq j k then (j, v) ∷ m else (j, w) ∷ assign k v m

  -- m.erase(k)
  unfoldable pub erase : K → List (K × V) → List (K × V)
  erase k [] = []
  erase k ((j, w) ∷ m) = let rest = erase k m in if e.beq j k then rest else (j, w) ∷ rest

  -- The value of m[k], which is `d` where the key was not there,
  abbrev pub at : K → V → List (K × V) → V
  at k d m = elim (lookup k m) [ none ↦ d | some v ↦ v ]

  -- and the map after m[k], which then holds the key.
  unfoldable pub touch : K → V → List (K × V) → List (K × V)
  touch k d m = elim (lookup k m) [ none ↦ assign k d m | some v ↦ m ]

  pub lookup-assign :
      (k j : K) (v : V) (m : List (K × V))
      → lookup j (assign k v m) ≡ (if e.beq k j then some v else lookup j m)
  unfolding lookup assign
  lookup-assign k j v [] = refl
  lookup-assign k j v ((i, w) ∷ m) =
      ground (arith, e.beq_iff k j, e.beq_iff i k, e.beq_iff i j, lookup-assign k j v m)

  pub lookup-erase :
      (k j : K) (m : List (K × V)) → lookup j (erase k m) ≡ (if e.beq k j then none else lookup j m)
  unfolding lookup erase
  lookup-erase k j [] = ground arith
  lookup-erase k j ((i, w) ∷ m) =
      ground (arith, e.beq_iff k j, e.beq_iff i k, e.beq_iff i j, lookup-erase k j m)

  pub lookup-touch :
      (k j : K) (d : V) (m : List (K × V))
      → lookup j (touch k d m) ≡ (if e.beq k j then some (at k d m) else lookup j m)
  unfolding touch
  lookup-touch k j d m = ground (arith, lookup-assign k j d m, e.beq_iff k j)
