-- ===== src/Bencode/Number.antt =====
-- The decimal conversions of the standard library that the codec calls: `std::to_string`,
-- `std::stoul` and `std::stoll`, and the classes of characters.
pub mod RoundTrip
use bit_torrent_client.Prelude.{
  ℕ, zero, suc, ◌+◌, ◌-◌, ◌*◌, ◌/◌, ◌%◌, ◌^◌, [], ◌∷◌, Bool, true, false, ◌&&◌, ◌||◌, Bytes, ltb,
  leb, ◌==◌, if◌then◌else◌, Outcome, ok, throws, invalid_argument, out_of_range, ◌>>=◌,
}
use bit_torrent_client.Prelude.Int.{ℤ, pos, negsuc}

abbrev pub is_digit : ℕ → Bool
is_digit c = leb b'0' c && leb c b'9'

abbrev pub is_space : ℕ → Bool
is_space c = c == 32 || (leb 9 c && leb c 13)

-- Digits are written from the last to the first. The fuel `suc n` is more than the digits of `n`.
unfoldable pub print_digits : ℕ → ℕ → Bytes → Bytes
print_digits zero n out = out
print_digits (suc f) n out =
    let more = print_digits f (n / 10) ((b'0' + n % 10) ∷ out) in
    if ltb n 10 then (b'0' + n) ∷ out else more

unfoldable pub to_string : ℕ → Bytes
to_string n = print_digits (suc n) n []

unfoldable pub int_to_string : ℤ → Bytes
int_to_string (pos n) = to_string n
int_to_string (negsuc n) = b'-' ∷ to_string (suc n)

unfoldable pub skip_spaces : Bytes → Bytes
skip_spaces [] = []
skip_spaces (c ∷ s) = if is_space c then skip_spaces s else c ∷ s

-- Whether a minus sign was read, and what follows the optional sign.
unfoldable pub read_sign : Bytes → Bool × Bytes
read_sign [] = (false, [])
read_sign (c ∷ s) =
    if c == b'-' then (true, s) else if c == b'+' then (false, s) else (false, c ∷ s)

abbrev pub starts_digit : Bytes → Bool
starts_digit [] = false
starts_digit (c ∷ s) = is_digit c

-- Digits are read up to the first other character, which ends the number and is no error.
unfoldable pub scan_digits : Bytes → ℕ → ℕ
scan_digits [] n = n
scan_digits (c ∷ s) n = if is_digit c then scan_digits s (n * 10 + (c - b'0')) else n

abbrev pub magnitude : Bytes → Outcome ℕ
magnitude s = if starts_digit s then ok (scan_digits s 0) else throws invalid_argument

-- A minus sign is accepted, and negates the number in `unsigned long`.
abbrev pub u64_of : Bool → ℕ → Outcome ℕ
u64_of negative m =
    if ltb (2 ^ 64 - 1) m
    then throws out_of_range
    else ok (if negative then (2 ^ 64 - m) % 2 ^ 64 else m)

abbrev pub i64_of : Bool → ℕ → Outcome ℤ
i64_of true zero = ok (pos zero)
i64_of true (suc m) = if ltb (2 ^ 63) (suc m) then throws out_of_range else ok (negsuc m)
i64_of false m = if ltb (2 ^ 63 - 1) m then throws out_of_range else ok (pos m)

unfoldable pub stoul : Bytes → Outcome ℕ
unfolding skip_spaces read_sign scan_digits
stoul s = let (negative, rest) = read_sign (skip_spaces s) in magnitude rest >>= u64_of negative

unfoldable pub stoll : Bytes → Outcome ℤ
unfolding skip_spaces read_sign scan_digits
stoll s = let (negative, rest) = read_sign (skip_spaces s) in magnitude rest >>= i64_of negative
