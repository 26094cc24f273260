-- ===== src/Bencode/Sound.antt =====
-- What decoding returns is a value that the program's types can hold, nested within the limit.
use bit_torrent_client.Prelude.{
  ℕ, zero, suc, ◌+◌, ◌-◌, ◌≤◌, ◌<◌, ◌≡◌, ◌^◌, max, ◌*◌, append-nil, refl, Bool, true, false, [],
  ◌∷◌, arith, Bytes, length, get_elem?, Option-cases, Bool-cases, inl, inr, ok, Returns,
  Returns-bind, Returns-any,
}
use bit_torrent_client.Prelude.Int.{IsInt64}
use bit_torrent_client.Bencode.{Value, Fields, dict, end, field, bytes_lt, emplace}
use bit_torrent_client.Bencode.Number.{stoll, i64_of, magnitude, read_sign, skip_spaces}
use bit_torrent_client.Bencode.Parse.{
  parse, parse_value, parse_list, parse_dict, list_loop, dict_loop, more_items, expect_char,
  parse_int, parse_string, find_from, substr, max_recursion_depth,
}
use bit_torrent_client.Bencode.Encode.{encode}
use bit_torrent_client.Bencode.RoundTrip.{parse-encode}
use bit_torrent_client.Bencode.WellFormed.{
  Below, IsSorted, IsWellFormed, ItemsWellFormed, FieldsWellFormed, nest, nest_items, nest_fields,
}

i64_of-IsInt64 : (negative : Bool) (m : ℕ) → Returns IsInt64 (i64_of negative m)
i64_of-IsInt64 true zero = omega arith
i64_of-IsInt64 true (suc m) = ground arith
i64_of-IsInt64 false m = ground arith

stoll-IsInt64 : (s : Bytes) → Returns IsInt64 (stoll s)
unfolding stoll
stoll-IsInt64 s =
    Returns-bind (λ n. Unit {0}) IsInt64 _ _ (Returns-any (magnitude (read_sign (skip_spaces s)).1))
      λ m h. i64_of-IsInt64 (read_sign (skip_spaces s)).0 m

parse_int-Sound :
    (input : Bytes) (p : ℕ) → Returns (λ r. IsWellFormed r.0 × (nest r.0 ≡ 0)) (parse_int input p)
unfolding parse_int IsWellFormed nest
parse_int-Sound input p = elim (Option-cases (find_from input b'e' (p + 1))) [
  | inl e ↦ ground arith
  | inr (i, e) ↦ ground (arith, stoll-IsInt64 (substr input (p + 1) (i - (p + 1))))
]

bytes_lt_trans :
    (xs ys zs : Bytes) → bytes_lt xs ys ≡ true → bytes_lt ys zs ≡ true → bytes_lt xs zs ≡ true
unfolding bytes_lt
bytes_lt_trans [] [] zs h k = absurd (cc)
bytes_lt_trans [] (y ∷ ys) [] h k = absurd (cc)
bytes_lt_trans [] (y ∷ ys) (z ∷ zs) h k = refl
bytes_lt_trans (x ∷ xs) [] zs h k = absurd (cc)
bytes_lt_trans (x ∷ xs) (y ∷ ys) [] h k = absurd (cc)
bytes_lt_trans (x ∷ xs) (y ∷ ys) (z ∷ zs) h k = ground (arith, bytes_lt_trans xs ys zs)

Below-trans : (k j : Bytes) (fs : Fields) → bytes_lt k j ≡ true → Below j fs → Below k fs
Below-trans k j end h b = tt
Below-trans k j (field i v fs) h b = (bytes_lt_trans k j i h b.0, Below-trans k j fs h b.1)

emplace-Below :
    (j k : Bytes) (v : Value) (fs : Fields)
    → bytes_lt j k ≡ true
    → Below j fs
    → Below j (emplace k v fs)
unfolding emplace
emplace-Below j k v end h b = (h, tt)
emplace-Below j k v (field i w fs) h b = ground (arith, emplace-Below j k v fs h b.1)

-- A map stays in the order of its keys.
pub emplace-IsSorted :
    (k : Bytes) (v : Value) (fs : Fields) → IsSorted fs → IsSorted (emplace k v fs)
unfolding emplace
emplace-IsSorted k v end h = (tt, tt)
emplace-IsSorted k v (field i w fs) h = elim (Bool-cases (bytes_lt k i)) [
  | inl less ↦ rw less ((less, Below-trans k i fs less h.0), h)
  | inr other ↦ elim (Bool-cases (bytes_lt i k)) [
    | inl more ↦ rw (other, more) (emplace-Below i k v fs more h.0, emplace-IsSorted k v fs h.1)
    | inr same ↦ rw (other, same) h
  ]
]

emplace-FieldsWellFormed :
    (k : Bytes) (v : Value) (fs : Fields)
    → IsWellFormed v
    → FieldsWellFormed fs
    → FieldsWellFormed (emplace k v fs)
unfolding emplace FieldsWellFormed
emplace-FieldsWellFormed k v end h hs = (h, tt)
emplace-FieldsWellFormed k v (field i w fs) h hs =
    ground (arith, emplace-FieldsWellFormed k v fs h hs.1)

nest_fields-emplace :
    (k : Bytes) (v : Value) (fs : Fields)
    → nest_fields (emplace k v fs) ≤ max (suc (nest v)) (nest_fields fs)
unfolding emplace nest_fields
nest_fields-emplace k v end = omega arith
nest_fields-emplace k v (field i w fs) = ground (arith, nest_fields-emplace k v fs)

-- A value read at `depth` is well formed, and its parts are within the limit.
abbrev Fits : ℕ → Value → Type 0
Fits depth v = IsWellFormed v × (depth + nest v ≤ max_recursion_depth)

module _ (input : Bytes) where
  mutual
    unfolding parse_value IsWellFormed nest

    parse_value-Fits : (f p depth : ℕ) → Returns (λ r. Fits depth r.0) (parse_value f input p depth)
    parse_value-Fits zero p depth = tt
    parse_value-Fits (suc f) p depth = elim (Option-cases (get_elem? input p)) [
      | inl e ↦ ground arith
      | inr (c, e) ↦
          ground
            (arith, parse_int-Sound input p, parse_list-Fits f p depth, parse_dict-Fits f p depth)
    ]

    parse_list-Fits :
        (f p depth : ℕ)
        → depth ≤ max_recursion_depth
        → Returns (λ r. Fits depth r.0) (parse_list f input p depth)
    parse_list-Fits zero p depth d = tt
    parse_list-Fits (suc f) p depth d =
        Returns-bind (λ q. Unit {0}) _ _ _ (Returns-any (expect_char input p b'l'))
          λ start _.
            Returns-bind (λ r. ItemsWellFormed r.0 × (depth + nest_items r.0 ≤ max_recursion_depth))
              _ _ _ (list_loop-Fits f start depth d)
              λ (xs, stop) h.
                Returns-bind (λ q. Unit {0}) _ _ _ (Returns-any (expect_char input stop b'e'))
                  λ after _. h

    list_loop-Fits :
        (f p depth : ℕ)
        → depth ≤ max_recursion_depth
        → Returns
            (λ r. ItemsWellFormed r.0 × (depth + nest_items r.0 ≤ max_recursion_depth))
            (list_loop f input p depth)
    list_loop-Fits zero p depth d = tt
    list_loop-Fits (suc f) p depth d = elim (Bool-cases (more_items input p)) [
      | inl e ↦ rw e (
          Returns-bind (λ r. Fits (depth + 1) r.0) _ _ _ (parse_value-Fits f p (depth + 1))
            λ (v, next) hv.
              Returns-bind
                (λ r. ItemsWellFormed r.0 × (depth + nest_items r.0 ≤ max_recursion_depth)) _ _ _
                (list_loop-Fits f next depth d) λ (xs, stop) h. ((hv.0, h.0), omega arith))
      | inr e ↦ rw e (tt, omega arith)
    ]

    parse_dict-Fits :
        (f p depth : ℕ)
        → depth ≤ max_recursion_depth
        → Returns (λ r. Fits depth r.0) (parse_dict f input p depth)
    parse_dict-Fits zero p depth d = tt
    parse_dict-Fits (suc f) p depth d =
        Returns-bind (λ q. Unit {0}) _ _ _ (Returns-any (expect_char input p b'd'))
          λ start _.
            Returns-bind (λ r. Fits depth (dict r.0)) _ _ _
              (dict_loop-Fits f start depth end ((tt, tt), omega arith))
              λ (fs, stop) h.
                Returns-bind (λ q. Unit {0}) _ _ _ (Returns-any (expect_char input stop b'e'))
                  λ after _. h

    dict_loop-Fits :
        (f p depth : ℕ) (acc : Fields)
        → Fits depth (dict acc)
        → Returns (λ r. Fits depth (dict r.0)) (dict_loop f input p depth acc)
    dict_loop-Fits zero p depth acc d = tt
    dict_loop-Fits (suc f) p depth acc d = elim (Bool-cases (more_items input p)) [
      | inl e ↦ rw e (
          Returns-bind (λ r. Unit {0}) _ _ _ (Returns-any (parse_string input p))
            λ (k, middle) _.
              Returns-bind (λ r. Fits (depth + 1) r.0) _ _ _ (parse_value-Fits f middle (depth + 1))
                λ (v, next) hv. dict_loop-Fits f next depth (emplace k v acc) (
                  (emplace-IsSorted k v acc d.0.0, emplace-FieldsWellFormed k v acc hv.0 d.0.1),
                  omega (arith, nest_fields-emplace k v acc),
                ))
      | inr e ↦ rw e d
    ]

-- Whatever bytes are decoded, a value that comes out is well formed: its integers fit 64 bits, its
-- maps are in the strict order of their keys, and it is nested at most 1000 deep.
pub parse-IsWellFormed :
    (input : Bytes) {v : Value} → parse input ≡ ok v → IsWellFormed v × (nest v ≤ 1000)
unfolding parse
parse-IsWellFormed input {v} e =
    ground (arith, parse_value-Fits input (1002 * (length input + 4)) 0 0)

-- A decoded value survives being encoded and decoded again, if its encoding is shorter than 2 ^ 64
-- bytes.
pub parse-encode-parse :
    (input : Bytes) {v : Value}
    → parse input ≡ ok v
    → length (encode v) < 2 ^ 64
    → parse (encode v) ≡ ok v
parse-encode-parse input {v} e small =
    let (wf, deep) = parse-IsWellFormed input e in
    rw append-nil at (parse-encode v [] wf deep (rw append-nil small))
