-- ===== src/Bencode/RoundTrip.antt =====
-- Decoding an encoded value gives the value.
use bit_torrent_client.Prelude.{
  ℕ, zero, suc, ◌+◌, ◌*◌, ◌^◌, ◌≤◌, ◌<◌, ◌≡◌, refl, ◌∙◌, ap, [], ◌∷◌, ◌++◌, arith, Bytes, length,
  drop, ok, append_assoc, append-nil, length-append,
}
use bit_torrent_client.Prelude.Int.{ℤ}
use bit_torrent_client.Bencode.{Value, Items, Fields, int, str, list, dict, nil, cons, end, field}
use bit_torrent_client.Bencode.Encode.{encode, encode_str, encode_items, encode_fields}
use bit_torrent_client.Bencode.Parse.{
  parse, parse_value, parse_list, parse_dict, list_loop, dict_loop,
}
use bit_torrent_client.Bencode.Parse.Position.{further}
use bit_torrent_client.Bencode.Parse.Dispatch.{
  digit_dispatch, expect_char-here, more_items-here, parse_value-int, parse_value-str,
  parse_value-list, parse_value-dict,
}
use bit_torrent_client.Bencode.Parse.Scalar.{parse_int-encode, parse_string-encode_str}
use bit_torrent_client.Bencode.WellFormed.{
  IsSorted, IsWellFormed, ItemsWellFormed, FieldsWellFormed, nest, nest_items, nest_fields,
}
use bit_torrent_client.Bencode.Ends.{
  append_fields, append_fields-step, append_fields-end, emplace-last, encode_str-head, encode-head,
}

module _ (input : Bytes) (small : length input < 2 ^ 64) where
  abbrev ReadsValue : Value → Type 0
  ReadsValue v =
      (p depth f : ℕ) (rest : Bytes)
      → IsWellFormed v
      → depth + nest v ≤ 1000
      → drop p input ≡ encode v ++ rest
      → 3 * length (encode v) ≤ f
      → parse_value f input p depth ≡ ok (v, p + length (encode v))

  abbrev ReadsItems : Items → Type 0
  ReadsItems xs =
      (p depth f : ℕ) (rest : Bytes)
      → ItemsWellFormed xs
      → depth + nest_items xs ≤ 1000
      → drop p input ≡ encode_items xs ++ b'e' ∷ rest
      → 3 * length (encode_items xs) < f
      → list_loop f input p depth ≡ ok (xs, p + length (encode_items xs))

  abbrev ReadsFields : Fields → Type 0
  ReadsFields fs =
      (p depth f : ℕ) (rest : Bytes) (acc : Fields)
      → FieldsWellFormed fs
      → IsSorted (append_fields acc fs)
      → depth + nest_fields fs ≤ 1000
      → drop p input ≡ encode_fields fs ++ b'e' ∷ rest
      → 3 * length (encode_fields fs) < f
      → dict_loop f input p depth acc ≡ ok (append_fields acc fs, p + length (encode_fields fs))

  fuel-pos : (v : Value) → 0 < length (encode v)
  fuel-pos v = let (c, t, e, _) = encode-head v in omega (arith, ap length e)

  reads-int : (z : ℤ) → ReadsValue (int z)
  unfolding IsWellFormed nest encode
  reads-int z p depth zero rest wf d at h = absurd (omega (arith, fuel-pos (int z)))
  reads-int z p depth (suc f) rest wf d at h =
      parse_value-int input p b'i' _ at f depth (omega arith) refl
      ∙ parse_int-encode input p z rest wf at

  reads-str : (s : Bytes) → ReadsValue (str s)
  unfolding nest encode
  reads-str s p depth zero rest wf d at h = absurd (omega (arith, fuel-pos (str s)))
  reads-str s p depth (suc f) rest wf d at h =
      let (c, t, e, digit) = encode_str-head s in
      let start = at ∙ ap (λ (x : Bytes). x ++ rest) e in
      parse_value-str input p c (t ++ rest) start f depth (omega arith) digit
      ∙ rw (parse_string-encode_str input p s rest small at)

  reads-list : (xs : Items) → ReadsItems xs → ReadsValue (list xs)
  unfolding IsWellFormed nest encode parse_list
  reads-list xs ih p depth zero rest wf d at h = absurd (omega arith)
  reads-list xs ih p depth (suc zero) rest wf d at h = absurd (omega arith)
  reads-list xs ih p depth (suc (suc f)) rest wf d at h =
      let body = encode_items xs in
      let at0 = at ∙ ap (◌∷◌ b'l') (append_assoc body (b'e' ∷ []) rest) in
      let at1 = further input p (b'l' ∷ []) (body ++ b'e' ∷ rest) (p + 1) at0 refl in
      let at2 = further input (p + 1) body (b'e' ∷ rest) (p + 1 + length body) at1 refl in
      let more = length-append body (b'e' ∷ []) in
      parse_value-list input p b'l' _ at0 (suc f) depth (omega arith) refl
      ∙ rw (
        expect_char-here input p b'l' _ at0 (p + 1) refl,
        ih (p + 1) depth f rest wf d at1 (omega arith),
        expect_char-here input (p + 1 + length body) b'e' rest at2
            (p + suc (length (body ++ b'e' ∷ []))) (omega arith),
      )

  reads-dict : (fs : Fields) → ReadsFields fs → ReadsValue (dict fs)
  unfolding IsWellFormed nest encode parse_dict
  reads-dict fs ih p depth zero rest wf d at h = absurd (omega arith)
  reads-dict fs ih p depth (suc zero) rest wf d at h = absurd (omega arith)
  reads-dict fs ih p depth (suc (suc f)) rest wf d at h =
      let body = encode_fields fs in
      let at0 = at ∙ ap (◌∷◌ b'd') (append_assoc body (b'e' ∷ []) rest) in
      let at1 = further input p (b'd' ∷ []) (body ++ b'e' ∷ rest) (p + 1) at0 refl in
      let at2 = further input (p + 1) body (b'e' ∷ rest) (p + 1 + length body) at1 refl in
      let more = length-append body (b'e' ∷ []) in
      parse_value-dict input p b'd' _ at0 (suc f) depth (omega arith) refl
      ∙ rw (
        expect_char-here input p b'd' _ at0 (p + 1) refl,
        ih (p + 1) depth f rest end wf.1 wf.0 d at1 (omega arith),
        expect_char-here input (p + 1 + length body) b'e' rest at2
            (p + suc (length (body ++ b'e' ∷ []))) (omega arith),
      )

  reads-nil : ReadsItems nil
  unfolding list_loop encode_items
  reads-nil p depth zero rest wf d at h = absurd (omega arith)
  reads-nil p depth (suc f) rest wf d at h =
      rw (more_items-here input p b'e' rest at) (ground arith)

  reads-cons : (v : Value) (xs : Items) → ReadsValue v → ReadsItems xs → ReadsItems (cons v xs)
  unfolding list_loop encode_items ItemsWellFormed nest_items
  reads-cons v xs ihv ihs p depth zero rest wf d at h = absurd (omega arith)
  reads-cons v xs ihv ihs p depth (suc f) rest wf d at h =
      let (c, t, e, other) = encode-head v in
      let body = encode_items xs in
      let at0 = at ∙ append_assoc (encode v) body (b'e' ∷ rest) in
      let start = at0 ∙ ap (λ (x : Bytes). x ++ (body ++ b'e' ∷ rest)) e in
      let at1 = further input p (encode v) (body ++ b'e' ∷ rest) (p + length (encode v)) at0 refl in
      let total = length-append (encode v) body in
      let some_fuel = fuel-pos v in
      let stop : p + length (encode v) + length body ≡ p + length (encode v ++ body) =
        omega arith in
      rw (
        more_items-here input p c _ start,
        other,
        ihv p (depth + 1) f (body ++ b'e' ∷ rest) wf.0 (omega arith) at0 (omega arith),
        ihs (p + length (encode v)) depth f rest wf.1 (omega arith) at1 (omega arith),
        stop,
      )

  reads-end : ReadsFields end
  unfolding dict_loop encode_fields
  reads-end p depth zero rest acc wf sorted d at h = absurd (omega arith)
  reads-end p depth (suc f) rest acc wf sorted d at h =
      rw (more_items-here input p b'e' rest at, append_fields-end acc) (ground arith)

  reads-field :
      (k : Bytes) (v : Value) (fs : Fields)
      → ReadsValue v
      → ReadsFields fs
      → ReadsFields (field k v fs)
  unfolding dict_loop encode_fields FieldsWellFormed nest_fields
  reads-field k v fs ihv ihs p depth zero rest acc wf sorted d at h = absurd (omega arith)
  reads-field k v fs ihv ihs p depth (suc f) rest acc wf sorted d at h =
      let (c, t, e, digit) = encode_str-head k in
      let body = encode_fields fs in
      let key = encode_str k in
      let end_of_key = p + length key in
      let at0 =
        at
        ∙ append_assoc key (encode v ++ body) (b'e' ∷ rest)
        ∙ ap (◌++◌ key) (append_assoc (encode v) body (b'e' ∷ rest)) in
      let start = at0 ∙ ap (λ (x : Bytes). x ++ (encode v ++ (body ++ b'e' ∷ rest))) e in
      let at1 = further input p key (encode v ++ (body ++ b'e' ∷ rest)) end_of_key at0 refl in
      let at2 =
        further input end_of_key (encode v) (body ++ b'e' ∷ rest) (end_of_key + length (encode v))
          at1 refl in
      let total = length-append key (encode v ++ body) in
      let part = length-append (encode v) body in
      let some_fuel = fuel-pos v in
      let stop : end_of_key + length (encode v) + length body
          ≡ p + length (key ++ (encode v ++ body)) =
        omega arith in
      let last = append_fields-step acc k v fs in
      rw (
        more_items-here input p c _ start,
        (digit_dispatch c digit).1,
        parse_string-encode_str input p k (encode v ++ (body ++ b'e' ∷ rest)) small at0,
        ihv end_of_key (depth + 1) f (body ++ b'e' ∷ rest) wf.0 (omega arith) at1 (omega arith),
        emplace-last acc k v fs sorted,
        ihs (end_of_key + length (encode v)) depth f rest (append_fields acc (field k v end)) wf.1
            (rw last sorted) (omega arith) at2 (omega arith),
        stop,
        last,
      )

  reads : (v : Value) → ReadsValue v
  reads v = elim v as ReadsValue ReadsItems ReadsFields [
    | int z ↦ reads-int z
    | str s ↦ reads-str s
    | list (xs → ih) ↦ reads-list xs ih
    | dict (fs → ih) ↦ reads-dict fs ih
    | nil ↦ reads-nil
    | cons (w → ihv) (xs → ihs) ↦ reads-cons w xs ihv ihs
    | end ↦ reads-end
    | field k (w → ihv) (fs → ihs) ↦ reads-field k w fs ihv ihs
  ]

-- Decoding the encoding of a well-formed value gives the value back, whatever bytes follow it, if
-- it is nested at most 1000 deep and the input is shorter than 2 ^ 64 bytes.
pub parse-encode :
    (v : Value) (rest : Bytes)
    → IsWellFormed v
    → nest v ≤ 1000
    → length (encode v ++ rest) < 2 ^ 64
    → parse (encode v ++ rest) ≡ ok v
unfolding parse
parse-encode v rest wf d small =
    let input = encode v ++ rest in
    let total = length-append (encode v) rest in
    rw
      (reads input small v 0 0 (1002 * (length input + 4)) rest wf (omega arith) refl (omega arith))

-- Two well-formed values with the same encoding are the same, if they are nested at most 1000 deep
-- and the encoding is shorter than 2 ^ 64 bytes.
pub encode_injective :
    (v w : Value)
    → IsWellFormed v
    → IsWellFormed w
    → nest v ≤ 1000
    → nest w ≤ 1000
    → length (encode v) < 2 ^ 64
    → encode v ≡ encode w
    → v ≡ w
encode_injective v w wv ww dv dw small e =
    let nothing = append-nil (encode v) in
    let nothing' = append-nil (encode w) in
    let first = parse-encode v [] wv dv (rw nothing small) in
    let second = parse-encode w [] ww dw (rw (nothing', ← e) small) in
    cc (first, second, nothing, nothing', e)
