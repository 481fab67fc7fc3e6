-- ===== src/Prelude/Keys.antt =====
-- What `std::map` and `std::set` ask of a key: equality and a strict order.
use Prim.Native.Nat.{ℕ}
use mathlib.Core.Path.{◌≡◌, refl}
use mathlib.Core.Logic.{◌↔◌}
use mathlib.Core.Bool.{Bool, true, false, ◌&&◌, ◌||◌}
use mathlib.Core.List.{List, [], ◌∷◌}
use native.Mathlib.Omega.{arith}
use yonderboy.Prelude.Tests.{ltb, ◌==◌ as nat_eq}

pub record Key {ℓ} (K : Type ℓ) : Type ℓ where
  pub beq : K → K → Bool
  pub less : K → K → Bool
  pub beq_iff : (a b : K) → (beq a b ≡ true) ↔ (a ≡ b)
  pub less_asym : (a b : K) → less a b ≡ true → less b a ≡ false

-- Characters are numbers below 256.
abbrev pub Bytes : Type 0
Bytes = List ℕ

unfoldable pub bytes_eq : Bytes → Bytes → Bool
bytes_eq [] [] = true
bytes_eq (x ∷ xs) (y ∷ ys) = nat_eq x y && bytes_eq xs ys
bytes_eq _ _ = false

unfoldable pub bytes_less : Bytes → Bytes → Bool
bytes_less [] [] = false
bytes_less [] (y ∷ ys) = true
bytes_less (x ∷ xs) [] = false
bytes_less (x ∷ xs) (y ∷ ys) = ltb x y || (nat_eq x y && bytes_less xs ys)

pub bytes_eq_iff : (a b : Bytes) → (bytes_eq a b ≡ true) ↔ (a ≡ b)
unfolding bytes_eq
bytes_eq_iff (x ∷ a) (y ∷ b) = ground (arith, bytes_eq_iff a b)
bytes_eq_iff _ _ = ground arith

pub bytes_less_asym : (a b : Bytes) → bytes_less a b ≡ true → bytes_less b a ≡ false
unfolding bytes_less
bytes_less_asym (x ∷ a) (y ∷ b) h = ground (arith, bytes_less_asym a b)
bytes_less_asym _ _ h = ground arith

pub bytes_eq_refl : (a : Bytes) → bytes_eq a a ≡ true
bytes_eq_refl a = (bytes_eq_iff a a).1 refl

pub nat_beq_iff : (a b : ℕ) → (nat_eq a b ≡ true) ↔ (a ≡ b)
nat_beq_iff a b = ground arith

pub nat_less_asym : (a b : ℕ) → ltb a b ≡ true → ltb b a ≡ false
nat_less_asym a b h = ground arith

instance abbrev pub nat_key : Key ℕ
nat_key = record { beq = nat_eq; less = ltb; beq_iff = nat_beq_iff; less_asym = nat_less_asym }

instance abbrev pub bytes_key : Key Bytes
bytes_key = record {
  beq = bytes_eq;
  less = bytes_less;
  beq_iff = bytes_eq_iff;
  less_asym = bytes_less_asym;
}

module _ {ℓ κ} {A : Type ℓ} {B : Type κ} (k : Key A) (l : Key B) where
  abbrev pub pair_beq : A × B → A × B → Bool
  pair_beq (a, b) (c, d) = k.beq a c && l.beq b d

  abbrev pub pair_less : A × B → A × B → Bool
  pair_less (a, b) (c, d) = k.less a c || (k.beq a c && l.less b d)

  pub pair_beq_iff : (p q : A × B) → (pair_beq p q ≡ true) ↔ (p ≡ q)
  pair_beq_iff (a, b) (c, d) = ground (arith, k.beq_iff a c, l.beq_iff b d)

  pub pair_less_asym : (p q : A × B) → pair_less p q ≡ true → pair_less q p ≡ false
  pair_less_asym (a, b) (c, d) h =
      ground
        (arith, k.beq_iff a c, k.beq_iff c a, k.less_asym a c, l.less_asym b d, k.less_asym a a)

instance abbrev pub pair_key {ℓ κ} : {A : Type ℓ} {B : Type κ} ⦃k : Key A⦄ ⦃l : Key B⦄ → Key (A × B)
pair_key ⦃k⦄ ⦃l⦄ = record {
  beq = pair_beq k l;
  less = pair_less k l;
  beq_iff = pair_beq_iff k l;
  less_asym = pair_less_asym k l;
}
