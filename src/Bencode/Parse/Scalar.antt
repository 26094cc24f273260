-- ===== src/Bencode/Parse/Scalar.antt =====
-- An encoded integer and an encoded string are read back at any position of any input.
use bit_torrent_client.Prelude.{
  ℕ, zero, suc, ◌+◌, ◌-◌, ◌/◌, ◌%◌, ◌^◌, ◌<◌, ◌≤◌, ◌≡◌, ◌≢◌, refl, ◌∙◌, [], ◌∷◌, ◌++◌, true, arith,
  Bytes, length, drop, ok, append_assoc, length-append, ap, le→leb, length-drop,
}
use bit_torrent_client.Prelude.Int.{ℤ, pos, negsuc, IsInt64}
use bit_torrent_client.Bencode.{int}
use bit_torrent_client.Bencode.Encode.{encode, encode_str}
use bit_torrent_client.Bencode.Number.{print_digits, to_string, int_to_string, stoul, stoll}
use bit_torrent_client.Bencode.Number.RoundTrip.{
  to_string-head, stoul-to_string, stoll-int_to_string,
}
use bit_torrent_client.Bencode.Parse.{
  all_digits, is_valid_bencode_int, parse_int, read_length, parse_string,
}
use bit_torrent_client.Bencode.Parse.Position.{
  here, further, substr-here, room, Lacks, find_from-here, digits-Lacks,
}

all_digits-print_digits :
    (f n : ℕ) (out : Bytes)
    → n < f
    → all_digits out ≡ true
    → all_digits (print_digits f n out) ≡ true
unfolding print_digits
all_digits-print_digits zero n out h d = absurd (omega arith)
all_digits-print_digits (suc f) n out h d =
    ground (arith, all_digits-print_digits f (n / 10) ((b'0' + n % 10) ∷ out))

all_digits-to_string : (n : ℕ) → all_digits (to_string n) ≡ true
unfolding to_string
all_digits-to_string n = all_digits-print_digits (suc n) n [] (omega arith) refl

valid-digits :
    (c : ℕ) (s : Bytes)
    → all_digits (c ∷ s) ≡ true
    → (c ≡ b'0' → s ≡ [])
    → is_valid_bencode_int (c ∷ s) ≡ true
unfolding is_valid_bencode_int
valid-digits c [] d z = ground arith
valid-digits c (x ∷ s) d z = ground arith

valid-minus :
    (c : ℕ) (s : Bytes)
    → all_digits (c ∷ s) ≡ true
    → c ≢ b'0'
    → is_valid_bencode_int (b'-' ∷ c ∷ s) ≡ true
unfolding is_valid_bencode_int
valid-minus c [] d z = ground arith
valid-minus c (x ∷ s) d z = ground arith

-- A numeral that begins with `0` is `0`.
lone : (n c : ℕ) (s : Bytes) → (0 < n → c ≢ b'0') → (n ≡ 0 → s ≡ []) → c ≡ b'0' → s ≡ []
lone zero c s nz z e = z refl
lone (suc n) c s nz z e = absurd (nz (omega arith) e)

int_to_string-valid : (z : ℤ) → is_valid_bencode_int (int_to_string z) ≡ true
unfolding int_to_string
int_to_string-valid (pos n) =
    let (c, s, e, d, nz, zz) = to_string-head n in
    let ds = all_digits-to_string n in rw e (valid-digits c s (rw e at ds) (lone n c s nz zz))
int_to_string-valid (negsuc n) =
    let (c, s, e, d, nz, zz) = to_string-head (suc n) in
    let ds = all_digits-to_string (suc n) in rw e (valid-minus c s (rw e at ds) (nz (omega arith)))

int_to_string-Lacks : (z : ℤ) → Lacks b'e' (int_to_string z)
unfolding int_to_string
int_to_string-Lacks (pos n) = digits-Lacks b'e' (to_string n) refl (all_digits-to_string n)
int_to_string-Lacks (negsuc n) =
    (omega arith, digits-Lacks b'e' (to_string (suc n)) refl (all_digits-to_string (suc n)))

-- Both stop where the encoding ends.
module _ (input : Bytes) (p : ℕ) where
  parse_int-text :
      (z : ℤ) (t rest : Bytes)
      → is_valid_bencode_int t ≡ true
      → Lacks b'e' t
      → stoll t ≡ ok z
      → drop p input ≡ b'i' ∷ (t ++ b'e' ∷ rest)
      → parse_int input p ≡ ok (int z, (p + 1 + length t) + 1)
  unfolding parse_int
  parse_int-text z t rest valid lacks read at =
      let at1 = further input p (b'i' ∷ []) (t ++ b'e' ∷ rest) (p + 1) at refl in
      let len : p + 1 + length t - (p + 1) ≡ length t = omega arith in
      rw (
        here input p b'i' (t ++ b'e' ∷ rest) at,
        find_from-here input (p + 1) b'e' t rest at1 lacks,
        len,
        substr-here input (p + 1) t (b'e' ∷ rest) at1,
        valid,
        read,
      )

  pub parse_int-encode :
      (z : ℤ) (rest : Bytes)
      → IsInt64 z
      → drop p input ≡ encode (int z) ++ rest
      → parse_int input p ≡ ok (int z, p + length (encode (int z)))
  unfolding encode
  parse_int-encode z rest h at =
      let t = int_to_string z in
      let text =
        parse_int-text z t rest (int_to_string-valid z) (int_to_string-Lacks z)
          (stoll-int_to_string z h) (at ∙ ap (◌∷◌ b'i') (append_assoc t (b'e' ∷ []) rest)) in
      let stop : p + 1 + length t + 1 ≡ p + suc (length (t ++ b'e' ∷ [])) =
        omega (arith, length-append t (b'e' ∷ [])) in
      text ∙ ap (λ (q : ℕ). ok (int z, q)) stop

  parse_string-text :
      (s t rest : Bytes)
      → length input < 2 ^ 64
      → Lacks b':' t
      → stoul t ≡ ok (length s)
      → drop p input ≡ t ++ b':' ∷ (s ++ rest)
      → parse_string input p ≡ ok (s, p + length t + 1 + length s)
  unfolding parse_string read_length
  parse_string-text s t rest small lacks read at =
      let at1 = further input p t (b':' ∷ (s ++ rest)) (p + length t) at refl in
      let at2 = further input (p + length t) (b':' ∷ []) (s ++ rest) (p + length t + 1) at1 refl in
      let len : p + length t - p ≡ length t = omega arith in
      let fits = room input (p + length t) b':' (s ++ rest) at1 in
      let inside : p + length t + 1 + length s ≤ length input =
        omega (arith, length-append s rest) in
      let whole : (p + length t + 1 + length s) % 2 ^ 64 ≡ p + length t + 1 + length s =
        omega arith in
      rw (
        find_from-here input p b':' t (s ++ rest) at lacks,
        len,
        substr-here input p t (b':' ∷ (s ++ rest)) at,
        read,
        whole,
        le→leb _ _ inside,
        substr-here input (p + length t + 1) s rest at2,
      )

  pub parse_string-encode_str :
      (s rest : Bytes)
      → length input < 2 ^ 64
      → drop p input ≡ encode_str s ++ rest
      → parse_string input p ≡ ok (s, p + length (encode_str s))
  unfolding encode_str
  parse_string-encode_str s rest small at =
      let t = to_string (length s) in
      let at' = at ∙ append_assoc t (b':' ∷ s) rest in
      let fits = length-drop p input in
      let total = ap length at' in
      let behind = length-append t (b':' ∷ (s ++ rest)) in
      let inside = length-append s rest in
      let text =
        parse_string-text s t rest small
          (digits-Lacks b':' t refl (all_digits-to_string (length s)))
          (stoul-to_string (length s) (omega arith)) at' in
      let stop : p + length t + 1 + length s ≡ p + length (t ++ b':' ∷ s) =
        omega (arith, length-append t (b':' ∷ s)) in
      text ∙ ap (λ (q : ℕ). ok (s, q)) stop
