-- ===== src/ProgressTracker/Arithmetic.antt =====
-- All that the progress tracker does with a `double`.
use native.Mathlib.Nat.{mul-div_cancel_left}
use bit_torrent_client.Prelude.{
  ℕ, ◌*◌, ◌/◌, ◌^◌, ◌≤◌, ◌<◌, ◌≡◌, refl, ap, true, lt→ltb, ge→ltb, ltb→ge, Bool, false, Option,
  none, some, ltb, if◌then◌else◌, arith,
}
use bit_torrent_client.Prelude.Int.{ℤ, pos, negsuc}

-- `of_int` is the conversion of an `int`. The one to an `int` drops the fraction, and what it does
-- with a value that has no such number in its range, as NaN, is undefined.
pub record Double {ℓ} (W : Type ℓ) : Type ℓ where
  pub of_int : ℤ → W
  pub divide : W → W → W
  pub times : W → W → W
  pub gt : W → W → Bool
  pub to_int : W → Option ℤ

-- What IEEE 754 says of these. `at_least_zero` holds of the numbers from 0 on, infinity included,
-- and `nan` of what is no number.
pub record IsDouble {ℓ} (W : Type ℓ) ⦃d : Double W⦄ : Type (ℓ ⊔ 1) where
  pub at_least_zero : W → Type 0
  pub nan : W → Type 0
  pub of_int-at_least_zero : (n : ℕ) → at_least_zero (d.of_int (pos n))
  pub divide-at_least_zero :
      (x : W) (n : ℕ) → 0 < n → at_least_zero x → at_least_zero (d.divide x (d.of_int (pos n)))
  pub times-at_least_zero :
      (x : W) (n : ℕ) → at_least_zero x → 0 < n → at_least_zero (d.times x (d.of_int (pos n)))
  pub divide_self :
      (n : ℕ) → 0 < n → d.divide (d.of_int (pos n)) (d.of_int (pos n)) ≡ d.of_int (pos 1)
  pub one_times : (n : ℕ) → d.times (d.of_int (pos 1)) (d.of_int (pos n)) ≡ d.of_int (pos n)
  pub gt_irrefl : (n : ℕ) → d.gt (d.of_int (pos n)) (d.of_int (pos n)) ≡ false
  pub to_int-of_int : (n : ℕ) → n < 2 ^ 31 → d.to_int (d.of_int (pos n)) ≡ some (pos n)
  pub to_int_bounded :
      (x : W) (n : ℕ)
      → n < 2 ^ 31
      → at_least_zero x
      → d.gt x (d.of_int (pos n)) ≡ false
      → (m : ℕ) × (d.to_int x ≡ some (pos m)) × (m ≤ n)
  pub nan-divide : nan (d.divide (d.of_int (pos 0)) (d.of_int (pos 0)))
  pub nan-times : (x y : W) → nan x → nan (d.times x y)
  pub gt-nan : (x y : W) → nan x → d.gt x y ≡ false
  pub to_int-nan : (x : W) → nan x → d.to_int x ≡ none

-- The laws can be met: thousandths, with `none` for NaN.
abbrev pub Thousandths : Type 0
Thousandths = Option ℕ

abbrev divide_thousandths : ℕ → ℕ → Thousandths
divide_thousandths a b = if ltb 0 b then some (a * 1000 / b) else none

abbrev of_int_thousandths : ℤ → Thousandths
of_int_thousandths (pos n) = some (n * 1000)
of_int_thousandths (negsuc n) = none

abbrev on_numbers {ℓ} : {A : Type ℓ} → A → (ℕ → ℕ → A) → Thousandths → Thousandths → A
on_numbers nothing f (some a) (some b) = f a b
on_numbers nothing f (some a) none = nothing
on_numbers nothing f none y = nothing

abbrev int_of_thousandths : Thousandths → Option ℤ
int_of_thousandths none = none
int_of_thousandths (some a) = if ltb (a / 1000) (2 ^ 31) then some (pos (a / 1000)) else none

instance abbrev pub thousandths_double : Double Thousandths
thousandths_double = record {
  of_int = of_int_thousandths;
  divide = on_numbers none divide_thousandths;
  times = on_numbers none λ a b. some (a * b / 1000);
  gt = on_numbers false λ a b. ltb b a;
  to_int = int_of_thousandths;
}

abbrev IsNumber : Thousandths → Type 0
IsNumber none = ⊥
IsNumber (some a) = Unit

divide-IsNumber :
    (x : Thousandths) (n : ℕ)
    → 0 < n
    → IsNumber x
    → IsNumber (thousandths_double.divide x (some (n * 1000)))
divide-IsNumber none n positive h = h
divide-IsNumber (some a) n positive h =
    let divisor : ltb 0 (n * 1000) ≡ true = lt→ltb 0 (n * 1000) (omega arith) in rw divisor tt

times-IsNumber :
    (x : Thousandths) (n : ℕ) → IsNumber x → IsNumber (thousandths_double.times x (some (n * 1000)))
times-IsNumber none n h = h
times-IsNumber (some a) n h = tt

divide_itself :
    (n : ℕ) → 0 < n → thousandths_double.divide (some (n * 1000)) (some (n * 1000)) ≡ some 1000
divide_itself n positive =
    let divisor : ltb 0 (n * 1000) ≡ true = lt→ltb 0 (n * 1000) (omega arith) in
    let whole : n * 1000 * 1000 / (n * 1000) ≡ 1000 = mul-div_cancel_left 1000 (omega arith) in
    rw (divisor, whole)

int-bounded :
    (x : Thousandths) (n : ℕ)
    → n < 2 ^ 31
    → IsNumber x
    → thousandths_double.gt x (some (n * 1000)) ≡ false
    → (m : ℕ) × (thousandths_double.to_int x ≡ some (pos m)) × (m ≤ n)
int-bounded none n small h within = absurd h
int-bounded (some a) n small h within =
    let le = ltb→ge _ _ within in
    let fits : ltb (a / 1000) (2 ^ 31) ≡ true = lt→ltb (a / 1000) (2 ^ 31) (omega (arith, le)) in
    (a / 1000, rw fits, omega (arith, le))

int-of : (n : ℕ) → n < 2 ^ 31 → thousandths_double.to_int (some (n * 1000)) ≡ some (pos n)
int-of n small =
    let whole : n * 1000 / 1000 ≡ n = omega arith in rw (whole, lt→ltb n (2 ^ 31) small)

pub thousandths-IsDouble : IsDouble Thousandths
thousandths-IsDouble = record {
  at_least_zero = IsNumber;
  nan = λ x. x ≡ none;
  of_int-at_least_zero = λ n. tt;
  divide-at_least_zero = divide-IsNumber;
  times-at_least_zero = λ x n h positive. times-IsNumber x n h;
  divide_self = divide_itself;
  one_times = λ n. ap some (omega arith);
  gt_irrefl = λ n. ge→ltb (n * 1000) (n * 1000) (omega arith);
  to_int-of_int = int-of;
  to_int_bounded = int-bounded;
  nan-divide = refl;
  nan-times = λ x y e. rw e;
  gt-nan = λ x y e. rw e;
  to_int-nan = λ x e. rw e;
}
