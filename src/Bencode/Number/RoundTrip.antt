-- ===== src/Bencode/Number/RoundTrip.antt =====
-- What `std::to_string` prints, `std::stoul` and `std::stoll` read back.
use bit_torrent_client.Prelude.{
  ℕ, zero, suc, ◌+◌, ◌-◌, ◌/◌, ◌%◌, ◌^◌, ◌<◌, ◌≡◌, ◌≢◌, refl, [], ◌∷◌, ◌++◌, true, false, arith,
  Bytes, ltb, Bool-cases, ok, inl, inr, ge→ltb,
}
use bit_torrent_client.Prelude.Int.{ℤ, pos, negsuc, IsInt64}
use bit_torrent_client.Bencode.Number.{
  is_digit, print_digits, to_string, int_to_string, scan_digits, stoul, stoll, u64_of, i64_of,
}

-- Printing puts digits in front of `out`, the first of which is not `0` unless the number is.
pub print_digits_head :
    (f n : ℕ) (out : Bytes)
    → n < f
    → (c : ℕ) × (s : Bytes) × (print_digits f n out ≡ c ∷ s)
      × (is_digit c ≡ true)
      × (0 < n → c ≢ b'0')
      × (n ≡ 0 → s ≡ out)
unfolding print_digits
print_digits_head zero n out h = absurd (omega arith)
print_digits_head (suc f) n out h = elim (Bool-cases (ltb n 10)) [
  | inl small ↦ rw small (b'0' + n, out, refl, ground arith, (λ p. omega arith), λ p. refl)
  | inr large ↦
      let (c, s, e, d, nz, z) =
        print_digits_head f (n / 10) ((b'0' + n % 10) ∷ out) (ground arith) in
      rw large (c, s, e, d, (λ p. nz (ground arith)), λ p. absurd (ground arith))
]

scan_digits-print_digits :
    (f n : ℕ) (out : Bytes) → n < f → scan_digits (print_digits f n out) 0 ≡ scan_digits out n
unfolding scan_digits print_digits
scan_digits-print_digits zero n out h = absurd (omega arith)
scan_digits-print_digits (suc f) n out h =
    ground (arith, scan_digits-print_digits f (n / 10) ((b'0' + n % 10) ∷ out))

-- What stands behind a printed number.
append-print_digits :
    (f n : ℕ) (out rest : Bytes) → print_digits f n out ++ rest ≡ print_digits f n (out ++ rest)
unfolding print_digits
append-print_digits zero n out rest = refl
append-print_digits (suc f) n out rest =
    ground (arith, append-print_digits f (n / 10) ((b'0' + n % 10) ∷ out) rest)

pub to_string-head :
    (n : ℕ)
    → (c : ℕ) × (s : Bytes) × (to_string n ≡ c ∷ s)
      × (is_digit c ≡ true)
      × (0 < n → c ≢ b'0')
      × (n ≡ 0 → s ≡ [])
unfolding to_string
to_string-head n = print_digits_head (suc n) n [] (omega arith)

scan_digits-to_string : (n : ℕ) → scan_digits (to_string n) 0 ≡ n
unfolding to_string scan_digits
scan_digits-to_string n = scan_digits-print_digits (suc n) n [] (omega arith)

-- A text that begins with a digit has no space to skip and no sign.
stoul-digit :
    (c : ℕ) (s : Bytes) → is_digit c ≡ true → stoul (c ∷ s) ≡ u64_of false (scan_digits (c ∷ s) 0)
unfolding stoul
stoul-digit c s h = ground arith

stoll-digit :
    (c : ℕ) (s : Bytes) → is_digit c ≡ true → stoll (c ∷ s) ≡ i64_of false (scan_digits (c ∷ s) 0)
unfolding stoll
stoll-digit c s h = ground arith

stoll-minus :
    (c : ℕ) (s : Bytes)
    → is_digit c ≡ true
    → stoll (b'-' ∷ c ∷ s) ≡ i64_of true (scan_digits (c ∷ s) 0)
unfolding stoll
stoll-minus c s h = ground arith

module _ (n c : ℕ) (t s : Bytes) (starts : t ≡ c ∷ s) (d : is_digit c ≡ true)
    (e : scan_digits t 0 ≡ n) where
  stoul-numeral : n < 2 ^ 64 → stoul t ≡ ok n
  stoul-numeral h =
      rw starts (rw (stoul-digit c s d, ← starts, e, ge→ltb (2 ^ 64 - 1) n (omega arith)))

  stoll-numeral : n < 2 ^ 63 → stoll t ≡ ok (pos n)
  stoll-numeral h =
      rw starts (rw (stoll-digit c s d, ← starts, e, ge→ltb (2 ^ 63 - 1) n (omega arith)))

  stoll-negative : (m : ℕ) → n ≡ suc m → m < 2 ^ 63 → stoll (b'-' ∷ t) ≡ ok (negsuc m)
  stoll-negative m k h =
      rw starts (rw (stoll-minus c s d, ← starts, e, k, ge→ltb (2 ^ 63) (suc m) (omega arith)))

-- Every `size_t` is read back from its decimal print.
pub stoul-to_string : (n : ℕ) → n < 2 ^ 64 → stoul (to_string n) ≡ ok n
stoul-to_string n h =
    let (c, s, e, d, _, _) = to_string-head n in
    stoul-numeral n c (to_string n) s e d (scan_digits-to_string n) h

-- Every `int64_t` is read back from its decimal print.
pub stoll-int_to_string : (z : ℤ) → IsInt64 z → stoll (int_to_string z) ≡ ok z
unfolding int_to_string
stoll-int_to_string (pos n) h =
    let (c, s, e, d, _, _) = to_string-head n in
    stoll-numeral n c (to_string n) s e d (scan_digits-to_string n) h
stoll-int_to_string (negsuc n) h =
    let (c, s, e, d, _, _) = to_string-head (suc n) in
    stoll-negative (suc n) c (to_string (suc n)) s e d (scan_digits-to_string (suc n)) n refl h
