-- ===== src/Prelude/Bits.antt =====
-- The bits of a byte: `(x >> k) & 1`, and what `&`, `|` and `~` make of them.
use Prim.Native.Nat.{
  ℕ, zero, suc, ◌+◌, ◌-◌, ◌*◌, ◌/◌, ◌%◌, ◌^◌, ◌≤◌, ◌<◌, min, max, bit_and, bit_or, digits,
  bit_and-bitwise, bit_or-bitwise,
}
use mathlib.Core.Path.{◌≡◌, refl, ◌∙◌, ap, sym}
use mathlib.Core.Bool.{Bool, true, false, ◌&&◌}
use native.Mathlib.Omega.{arith}
use native.Mathlib.Nat.{pow-suc, mul_assoc}
use bit_torrent_client.Prelude.Tests.{◌==◌, ==_iff, ltb, ltb→lt}

-- `(x >> k) & 1`: one bit falls off for each place.
unfoldable pub bit : ℕ → ℕ → ℕ
bit zero x = x % 2
bit (suc k) x = bit k (x / 2)

pub bit-zero : (k : ℕ) → bit k 0 ≡ 0
unfolding bit
bit-zero zero = refl
bit-zero (suc k) = bit-zero k

pub bit-le : (k x : ℕ) → bit k x ≤ 1
unfolding bit
bit-le zero x = omega arith
bit-le (suc k) x = bit-le k (x / 2)

-- `digits` works on the lowest bits first.
module _ (n a b : ℕ) where
  abbrev and_digits : ℕ
  and_digits = digits (λ y. zero) min n a b

  abbrev or_digits : ℕ
  or_digits = digits (λ y. y) max n a b

bit-and_digits : (k n a b : ℕ) → a ≤ n → bit k (and_digits n a b) ≡ min (bit k a) (bit k b)
unfolding bit
bit-and_digits k zero zero b h = omega (arith, bit-zero k)
bit-and_digits k zero (suc a) b h = absurd (omega arith)
bit-and_digits k (suc n) zero b h = omega (arith, bit-zero k)
bit-and_digits zero (suc n) (suc a) b h = omega arith
bit-and_digits (suc k) (suc n) (suc a) b h =
    let d = and_digits n (suc a / 2) (b / 2) in
    let half : (d * 2 + min (suc a % 2) (b % 2)) / 2 ≡ d = omega arith in
    rw half (bit-and_digits k n (suc a / 2) (b / 2) (omega arith))

pub bit-bit_and : (k a b : ℕ) → bit k (bit_and a b) ≡ min (bit k a) (bit k b)
bit-bit_and k a b = rw bit_and-bitwise (bit-and_digits k a a b (omega arith))

bit-or_digits : (k n a b : ℕ) → a ≤ n → bit k (or_digits n a b) ≡ max (bit k a) (bit k b)
unfolding bit
bit-or_digits k zero zero b h = omega (arith, bit-zero k)
bit-or_digits k zero (suc a) b h = absurd (omega arith)
bit-or_digits k (suc n) zero b h = omega (arith, bit-zero k)
bit-or_digits zero (suc n) (suc a) b h = omega arith
bit-or_digits (suc k) (suc n) (suc a) b h =
    let d = or_digits n (suc a / 2) (b / 2) in
    let half : (d * 2 + max (suc a % 2) (b % 2)) / 2 ≡ d = omega arith in
    rw half (bit-or_digits k n (suc a / 2) (b / 2) (omega arith))

pub bit-bit_or : (k a b : ℕ) → bit k (bit_or a b) ≡ max (bit k a) (bit k b)
bit-bit_or k a b = rw bit_or-bitwise (bit-or_digits k a a b (omega arith))

-- No bit is in both: the sum.
or_digits-disjoint : (w n x a b : ℕ) → x ≡ a * 2 ^ w → b < 2 ^ w → x ≤ n → or_digits n x b ≡ x + b
or_digits-disjoint w zero zero a b e h k = omega arith
or_digits-disjoint w zero (suc x) a b e h k = absurd (omega arith)
or_digits-disjoint w (suc n) zero a b e h k = omega arith
or_digits-disjoint zero (suc n) (suc x) a b e h k =
    let part =
      or_digits-disjoint zero n (suc x / 2) (suc x / 2) (b / 2) (omega arith) (omega arith)
        (omega arith) in
    omega arith
or_digits-disjoint (suc w) (suc n) (suc x) a b e h k =
    let p = pow-suc 2 w in
    let twice : suc x ≡ (a * 2 ^ w) * 2 =
      e ∙ ap (λ (t : ℕ). a * t) p ∙ sym (mul_assoc a (2 ^ w) 2) in
    let part =
      or_digits-disjoint w n (suc x / 2) a (b / 2) (omega arith) (omega arith) (omega arith) in
    omega arith

pub bit_or-disjoint : (w a b : ℕ) → b < 2 ^ w → bit_or (a * 2 ^ w) b ≡ a * 2 ^ w + b
bit_or-disjoint w a b h =
    rw bit_or-bitwise (or_digits-disjoint w _ (a * 2 ^ w) a b refl h (omega arith))

-- `~y` keeps the low eight bits apart.
pub bit-complement : (k y : ℕ) → k < 8 → y < 256 → bit k (255 - y) ≡ 1 - bit k y
unfolding bit
bit-complement zero y h b = omega arith
bit-complement (suc zero) y h b = omega arith
bit-complement (suc (suc zero)) y h b = omega arith
bit-complement (suc (suc (suc zero))) y h b = omega arith
bit-complement (suc (suc (suc (suc zero)))) y h b = omega arith
bit-complement (suc (suc (suc (suc (suc zero))))) y h b = omega arith
bit-complement (suc (suc (suc (suc (suc (suc zero)))))) y h b = omega arith
bit-complement (suc (suc (suc (suc (suc (suc (suc zero))))))) y h b = omega arith
bit-complement (suc (suc (suc (suc (suc (suc (suc (suc k)))))))) y h b = absurd (omega arith)

-- A test tried at each of the eight places of a byte.
eight_places : (ℕ → Bool) → Bool
eight_places t = t 0 && (t 1 && (t 2 && (t 3 && (t 4 && (t 5 && (t 6 && t 7))))))

at_place : (t : ℕ → Bool) (k : ℕ) → k < 8 → eight_places t ≡ true → t k ≡ true
unfolding eight_places
at_place t zero lt e = ground arith
at_place t (suc zero) lt e = ground arith
at_place t (suc (suc zero)) lt e = ground arith
at_place t (suc (suc (suc zero))) lt e = ground arith
at_place t (suc (suc (suc (suc zero)))) lt e = ground arith
at_place t (suc (suc (suc (suc (suc zero))))) lt e = ground arith
at_place t (suc (suc (suc (suc (suc (suc zero)))))) lt e = ground arith
at_place t (suc (suc (suc (suc (suc (suc (suc zero))))))) lt e = ground arith
at_place t (suc (suc (suc (suc (suc (suc (suc (suc k)))))))) lt e = absurd (omega arith)

power_table :
    eight_places
      (λ j. eight_places (λ k. bit k (2 ^ j) == (elim (j == k) [ true ↦ 1 | false ↦ 0 ])))
    ≡ true
unfolding eight_places bit
power_table = refl

-- `1 << j` has the one bit.
pub bit-power : (j k : ℕ) → j < 8 → k < 8 → bit k (2 ^ j) ≡ (elim (j == k) [ true ↦ 1 | false ↦ 0 ])
bit-power j k hj hk = (==_iff _ _).0 (at_place _ k hk (at_place _ j hj power_table))

or_digits-lt : (w n a b : ℕ) → a < 2 ^ w → b < 2 ^ w → a ≤ n → or_digits n a b < 2 ^ w
or_digits-lt w zero zero b ha hb h = hb
or_digits-lt w zero (suc a) b ha hb h = absurd (omega arith)
or_digits-lt w (suc n) zero b ha hb h = hb
or_digits-lt zero (suc n) (suc a) b ha hb h = absurd (omega arith)
or_digits-lt (suc w) (suc n) (suc a) b ha hb h =
    let p = pow-suc 2 w in
    let part = or_digits-lt w n (suc a / 2) (b / 2) (omega arith) (omega arith) (omega arith) in
    omega arith

pub bit_or-lt : (a b : ℕ) → a < 256 → b < 256 → bit_or a b < 256
bit_or-lt a b ha hb = rw bit_or-bitwise (or_digits-lt 8 a a b ha hb (omega arith))

pub power-lt : (j : ℕ) → j < 8 → 2 ^ j < 256
unfolding eight_places
power-lt j h = ltb→lt _ _ (at_place (λ k. ltb (2 ^ k) 256) j h refl)
