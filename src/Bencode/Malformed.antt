-- ===== src/Bencode/Malformed.antt =====
-- Inputs on which decoding does not end, or reads out of bounds.
use bit_torrent_client.Prelude.{
  ◌-◌, ◌*◌, sym, ℕ, zero, suc, ◌+◌, ◌<◌, ◌^◌, ◌≡◌, refl, [], ◌∷◌, ◌++◌, arith, Bytes, codes, length,
  le→leb, ok, fault, out_of_fuel, true, append-nil, get_elem?-ge, get_elem?, none,
}
use bit_torrent_client.Bencode.{Fields, str, end, emplace}
use bit_torrent_client.Bencode.Encode.{encode_str}
use bit_torrent_client.Bencode.Number.{stoul}
use bit_torrent_client.Bencode.Parse.{
  parse, parse_value, parse_string, read_length, substr, find_from, index_of, more_items,
  expect_char, dict_loop,
}
use bit_torrent_client.Bencode.Ends.{encode_str-head}
use bit_torrent_client.Bencode.Parse.Dispatch.{digit_dispatch, more_items-here}
use bit_torrent_client.Bencode.Parse.Scalar.{parse_string-encode_str}

-- `d0:0:-5:`, and anything behind it.
abbrev looping : Bytes → Bytes
looping rest = codes "d0:0:-5:" ++ rest

module _ (rest : Bytes) where
  key_wraps : parse_string (looping rest) 5 ≡ ok (substr (looping rest) 8 (2 ^ 64 - 5), 3)
  unfolding parse_string read_length find_from index_of stoul
  key_wraps = rw (le→leb 3 (length (looping rest)) (omega arith))

  key_first : parse_string (looping rest) 1 ≡ ok ([], 3)
  unfolding parse_string read_length find_from index_of stoul
  key_first = rw (le→leb 3 (length (looping rest)) (omega arith))

  value_second : parse_string (looping rest) 3 ≡ ok ([], 5)
  unfolding parse_string read_length find_from index_of stoul
  value_second = rw (le→leb 5 (length (looping rest)) (omega arith))

  value_at_three : (f : ℕ) → parse_value (suc f) (looping rest) 3 1 ≡ ok (str [], 5)
  unfolding parse_value
  value_at_three f = rw value_second

  -- The loop is back where it was after one key and one value.
  loop_from_five : (f : ℕ) (acc : Fields) → dict_loop f (looping rest) 5 0 acc ≡ out_of_fuel
  unfolding dict_loop more_items
  loop_from_five zero acc = refl
  loop_from_five (suc zero) acc = rw key_wraps
  loop_from_five (suc (suc f)) acc =
      rw (key_wraps, value_second)
        (loop_from_five (suc f) (emplace (substr (looping rest) 8 (2 ^ 64 - 5)) (str []) acc))

  value_from_zero : (f : ℕ) → parse_value f (looping rest) 0 0 ≡ out_of_fuel
  unfolding parse_value expect_char more_items
  value_from_zero zero = refl
  value_from_zero (suc zero) = refl
  value_from_zero (suc (suc zero)) = refl
  value_from_zero (suc (suc (suc zero))) = rw key_first
  value_from_zero (suc (suc (suc (suc f)))) =
      rw (key_first, value_second, loop_from_five (suc f) (emplace [] (str []) end))

-- Decoding never ends on an input that begins with `d0:0:-5:`: whatever the fuel is, it runs out.
pub parse_value_never_ends :
    (f : ℕ) (rest : Bytes) → parse_value f (codes "d0:0:-5:" ++ rest) 0 0 ≡ out_of_fuel
parse_value_never_ends f rest = value_from_zero rest f

module _ (k : Bytes) (small : suc (length (encode_str k)) < 2 ^ 64) where
  cut : Bytes
  cut = b'd' ∷ encode_str k

  key_then_nothing : parse_string cut 1 ≡ ok (k, 1 + length (encode_str k))
  unfolding cut
  key_then_nothing = parse_string-encode_str cut 1 k [] small (sym (append-nil (encode_str k)))

  past_the_end : get_elem? cut (1 + length (encode_str k)) ≡ none
  unfolding cut
  past_the_end = get_elem?-ge cut (1 + length (encode_str k)) (omega arith)

  more_at_key : more_items cut 1 ≡ true
  unfolding cut
  more_at_key =
      let (c, t, e, digit) = encode_str-head k in
      rw (more_items-here cut 1 c t e, (digit_dispatch c digit).1)

  value_cut : (f : ℕ) → parse_value (suc (suc (suc (suc f)))) cut 0 0 ≡ fault
  unfolding parse_value expect_char cut
  value_cut f = rw (more_at_key, key_then_nothing, past_the_end)

  value_cut_enough : (f : ℕ) → 3 < f → parse_value f cut 0 0 ≡ fault
  value_cut_enough zero lt = absurd (omega arith)
  value_cut_enough (suc zero) lt = absurd (omega arith)
  value_cut_enough (suc (suc zero)) lt = absurd (omega arith)
  value_cut_enough (suc (suc (suc zero))) lt = absurd (omega arith)
  value_cut_enough (suc (suc (suc (suc f)))) lt = value_cut f

-- A dictionary cut off behind its first key makes the decoder read past the end of its input, if
-- that is shorter than 2 ^ 64 bytes.
pub parse_cut_after_key :
    (k : Bytes) → suc (length (encode_str k)) < 2 ^ 64 → parse (b'd' ∷ encode_str k) ≡ fault
unfolding parse cut
parse_cut_after_key k small =
    let fuel = 1002 * (suc (length (encode_str k)) + 4) in
    let cut_off : parse_value fuel (cut k small) 0 0 ≡ fault =
      value_cut_enough k small fuel (omega arith) in
    rw cut_off refl
