-- ===== src/Bencode/Examples.antt =====
-- Runs of the codec, those of tests/bencode_parser_tests.cpp among them.
use bit_torrent_client.Prelude.{
  ℕ, zero, suc, ◌^◌, ◌≤◌, ◌<◌, ◌≡◌, ◌≢◌, arith, refl, ap, inl, inr, Option-cases, or_throw,
  invalid_argument, [], ◌∷◌, ◌++◌, length, drop, codes, Bytes, none, Outcome, ok, throws, fault,
  out_of_fuel, out_of_range, runtime_error,
}
use bit_torrent_client.Prelude.Int.{pos, negsuc}
use bit_torrent_client.Bencode.{
  Value, int, str, list, dict, nil, cons, end, field, bytes_lt, emplace,
}
use bit_torrent_client.Bencode.Number.{stoul, stoll, int_to_string, to_string, print_digits}
use bit_torrent_client.Bencode.Encode.{encode, encode_str}
use bit_torrent_client.Bencode.Parse.{
  parse, parse_value, parse_int, parse_string, find_from, index_of, is_valid_bencode_int,
  expect_char, more_items, read_length,
}
use bit_torrent_client.Bencode.WellFormed.{IsWellFormed, nest}
use bit_torrent_client.Bencode.RoundTrip.{parse-encode}
use bit_torrent_client.Bencode.Total.Scalar.{LengthsFit}
use bit_torrent_client.Bencode.Total.{parse-ne-out_of_fuel}
use bit_torrent_client.Bencode.Sound.{parse-IsWellFormed, parse-encode-parse}
use bit_torrent_client.Bencode.Malformed.{parse_value_never_ends, parse_cut_after_key}

nested :
    parse (codes "d3:fooi-42e1:ali0e0:ee")
    ≡ ok (
        dict (
          field
            (codes "a")
            (list (cons (int (pos 0)) (cons (str []) nil)))
            (field (codes "foo") (int (negsuc 41)) end)))
unfolding parse parse_value parse_int parse_string read_length find_from index_of
    is_valid_bencode_int expect_char more_items stoul stoll emplace bytes_lt
nested = refl

wrapped : parse (codes "d0:0:-5:") ≡ out_of_fuel
unfolding parse parse_value parse_int parse_string read_length find_from index_of
    is_valid_bencode_int expect_char more_items stoul stoll emplace bytes_lt
wrapped = refl

short : parse (codes "d3:foo") ≡ fault
unfolding parse parse_value parse_int parse_string read_length find_from index_of
    is_valid_bencode_int expect_char more_items stoul stoll emplace bytes_lt
short = refl

encoded : encode (dict (field (codes "a") (int (negsuc 41)) end)) ≡ codes "d1:ai-42ee"
unfolding encode encode_str to_string int_to_string print_digits
encoded = refl

big : parse (codes "i9223372036854775808e") ≡ throws out_of_range
unfolding parse parse_value parse_int find_from index_of is_valid_bencode_int stoll
big = refl

-- `{"a": [-42, "x"]}`.
abbrev sample : Value
sample = dict (field (codes "a") (list (cons (int (negsuc 41)) (cons (str (codes "x")) nil))) end)

abbrev sample_bytes : Bytes
sample_bytes = codes "d1:ali-42e1:xee"

sample-encoded : encode sample ≡ sample_bytes
unfolding encode encode_str to_string int_to_string print_digits
sample-encoded = refl

sample-IsWellFormed : IsWellFormed sample
unfolding IsWellFormed
sample-IsWellFormed = ((tt, tt), ((omega arith, (tt, tt)), tt))

sample-nest : nest sample ≤ 1000
unfolding nest
sample-nest = omega arith

sample-length : (rest : Bytes) → length rest < 100 → length (encode sample ++ rest) < 2 ^ 64
sample-length rest h = rw sample-encoded (omega (arith, h))

sample-parsed : parse sample_bytes ≡ ok sample
unfolding parse parse_value parse_int parse_string read_length find_from index_of
    is_valid_bencode_int expect_char more_items stoul stoll emplace bytes_lt
sample-parsed = refl

parse-encode_example : parse (encode sample ++ codes "!") ≡ ok sample
parse-encode_example =
    parse-encode sample (codes "!") sample-IsWellFormed sample-nest
      (sample-length (codes "!") (omega arith))

parse-IsWellFormed_example : IsWellFormed sample × (nest sample ≤ 1000)
parse-IsWellFormed_example = parse-IsWellFormed sample_bytes sample-parsed

small : length (encode sample) < 2 ^ 64
small = rw sample-encoded (omega arith)

parse-encode-parse_example : parse (encode sample) ≡ ok sample
parse-encode-parse_example = parse-encode-parse sample_bytes sample-parsed small

no_colon : (s : Bytes) (p : ℕ) → index_of b':' s ≡ none → index_of b':' (drop p s) ≡ none
unfolding index_of
no_colon s zero h = h
no_colon [] (suc p) h = h
no_colon (x ∷ s) (suc p) h =
    no_colon s p
      (elim (Option-cases (index_of b':' s)) [ inl e ↦ e | inr (j, e) ↦ absurd (ground arith) ])

spam-LengthsFit : LengthsFit (codes "4:spam")
unfolding read_length find_from index_of stoul
spam-LengthsFit zero len start e =
    let numeral : ◌≡◌ {A = Outcome (ℕ × ℕ)} (ok (4, 2)) (ok (len, start)) = e in
    let same : ◌≡◌ {A = ℕ × ℕ} (4, 2) (len, start) = cc in
    omega (arith, ap (λ (r : ℕ × ℕ). r.0) same, ap (λ (r : ℕ × ℕ). r.1) same)
spam-LengthsFit (suc zero) len start e = absurd (cc)
spam-LengthsFit (suc (suc p)) len start e = absurd (
    let none_left = no_colon (codes "spam") p refl in
    let thrown : throws invalid_argument ≡ ok (len, start) = rw (none_left, or_throw) at e in cc)

parse-ne-out_of_fuel_example : parse (codes "4:spam") ≢ out_of_fuel
parse-ne-out_of_fuel_example = parse-ne-out_of_fuel (codes "4:spam") spam-LengthsFit

parse_value_never_ends_example :
    parse_value 1000 (codes "d0:0:-5:" ++ codes "tail") 0 0 ≡ out_of_fuel
parse_value_never_ends_example = parse_value_never_ends 1000 (codes "tail")

foo-length : suc (length (encode_str (codes "foo"))) < 2 ^ 64
unfolding encode_str to_string print_digits
foo-length = omega arith

parse_cut_after_key_example : parse (b'd' ∷ encode_str (codes "foo")) ≡ fault
parse_cut_after_key_example = parse_cut_after_key (codes "foo") foo-length

-- A key whose length wraps takes the reader back to its own dictionary, down to the depth limit.
deeper_and_deeper : parse (codes "d-4:") ≡ throws runtime_error
unfolding parse parse_value parse_string read_length find_from index_of stoul more_items expect_char
deeper_and_deeper = refl
