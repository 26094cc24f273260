-- ===== src/Bencode/Ends.antt =====
-- Where an encoded value begins, and where a key above all others goes in a map.
use bit_torrent_client.Prelude.{
  ℕ, ◌≡◌, refl, ap, [], ◌∷◌, ◌++◌, true, false, arith, Bytes, length, ◌==◌,
}
use bit_torrent_client.Bencode.{Value, Fields, int, str, list, dict, end, field, bytes_lt, emplace}
use bit_torrent_client.Bencode.Encode.{encode, encode_str}
use bit_torrent_client.Bencode.Number.{is_digit}
use bit_torrent_client.Bencode.Number.RoundTrip.{to_string-head}
use bit_torrent_client.Bencode.Parse.Dispatch.{digit_dispatch}
use bit_torrent_client.Bencode.WellFormed.{Below, IsSorted}

abbrev pub append_fields : Fields → Fields → Fields
append_fields end gs = gs
append_fields (field k v fs) gs = field k v (append_fields fs gs)

pub append_fields-step :
    (acc : Fields) (k : Bytes) (v : Value) (fs : Fields)
    → append_fields (append_fields acc (field k v end)) fs ≡ append_fields acc (field k v fs)
append_fields-step end k v fs = refl
append_fields-step (field j w acc) k v fs = ap (field j w) (append_fields-step acc k v fs)

pub append_fields-end : (acc : Fields) → append_fields acc end ≡ acc
append_fields-end end = refl
append_fields-end (field j w acc) = ap (field j w) (append_fields-end acc)

Below-last :
    (j : Bytes) (acc : Fields) (k : Bytes) (v : Value) (fs : Fields)
    → Below j (append_fields acc (field k v fs))
    → bytes_lt j k ≡ true
Below-last j end k v fs h = h.0
Below-last j (field i w acc) k v fs h = Below-last j acc k v fs h.1

pub bytes_lt_asym : (xs ys : Bytes) → bytes_lt xs ys ≡ true → bytes_lt ys xs ≡ false
unfolding bytes_lt
bytes_lt_asym [] [] h = refl
bytes_lt_asym [] (y ∷ ys) h = refl
bytes_lt_asym (x ∷ xs) [] h = absurd (cc)
bytes_lt_asym (x ∷ xs) (y ∷ ys) h = ground (arith, bytes_lt_asym xs ys)

-- A key above all others goes to the end of the map.
pub emplace-last :
    (acc : Fields) (k : Bytes) (v : Value) (fs : Fields)
    → IsSorted (append_fields acc (field k v fs))
    → emplace k v acc ≡ append_fields acc (field k v end)
unfolding emplace
emplace-last end k v fs h = refl
emplace-last (field j w acc) k v fs h =
    let less = Below-last j acc k v fs h.0 in
    rw (bytes_lt_asym j k less, less, emplace-last acc k v fs h.1)

-- What the dispatch and the loops see of an encoded value.
pub encode_str-head :
    (s : Bytes) → (c : ℕ) × (t : Bytes) × (encode_str s ≡ c ∷ t) × (is_digit c ≡ true)
unfolding encode_str
encode_str-head s =
    let (c, t, e, d, _, _) = to_string-head (length s) in
    (c, t ++ b':' ∷ s, ap (λ (x : Bytes). x ++ b':' ∷ s) e, d)

pub encode-head : (v : Value) → (c : ℕ) × (t : Bytes) × (encode v ≡ c ∷ t) × ((c == b'e') ≡ false)
unfolding encode
encode-head (int z) = (b'i', _, refl, refl)
encode-head (str s) = let (c, t, e, d) = encode_str-head s in (c, t, e, (digit_dispatch c d).1)
encode-head (list xs) = (b'l', _, refl, refl)
encode-head (dict fs) = (b'd', _, refl, refl)
