-- ===== src/Metadata/Dictionary.antt =====
-- `parseInfoDict` and the dictionary that `calculateInfoHash` encodes.
use mathlib.Core.List.{flatten}
use bit_torrent_client.Prelude.{
  ℕ, zero, suc, ◌*◌, ◌/◌, ◌%◌, ◌^◌, ◌≤◌, ◌<◌, ◌≡◌, inl, inr, refl, sym, subst, ap, [], ◌∷◌, List,
  Bool, true, false, ◌||◌, arith, Bytes, length, ◌==◌, Bool-cases, ==_iff, lt→ltb, some,
  Option-cases, ok, runtime_error, take-append, drop-append, Returns, Returns-bind, Returns-any,
  guard,
}
use bit_torrent_client.Prelude.Int.{ℤ, pos, negsuc, to_u64, IsInt64}
use bit_torrent_client.Bencode.{
  Fields, Value, int, str, list, dict, extract_int, extract_str, extract_dict, find, field, end,
  assign, bytes_lt,
}
use bit_torrent_client.Bencode.Find.{extract_int-find, extract_str-find}
use bit_torrent_client.Bencode.WellFormed.{IsWellFormed, FieldsWellFormed, nest}
use bit_torrent_client.Bencode.Encode.{encode}
use bit_torrent_client.Bencode.RoundTrip.{encode_injective}
use bit_torrent_client.Metadata.{
  Info, rows, parse_piece_hashes, parse_info_dict, is_positive, is_nonnegative, info_fields, to_i64,
  piece_length_key, length_key, name_key, pieces_key,
}
use bit_torrent_client.Metadata.Pieces.{AllOfLength, IsInfo, parse_piece_hashes_lem}

find-IsWellFormed :
    (k : Bytes) (fs : Fields) {v : Value}
    → FieldsWellFormed fs
    → find k fs ≡ some v
    → IsWellFormed v
unfolding find FieldsWellFormed
find-IsWellFormed k end h e = absurd (cc)
find-IsWellFormed k (field j w fs) {v} h e = elim (Bool-cases (bytes_lt k j || bytes_lt j k)) [
  | inl other ↦ find-IsWellFormed k fs h.1 (rw (other, find) at e)
  | inr same ↦
      let w_is : some w ≡ some v = rw (same, find) at e in
      let same_v : w ≡ v = cc in subst (λ x. IsWellFormed x) same_v h.0
]

extract_int-IsInt64 :
    (fs : Fields) (key : Bytes) → FieldsWellFormed fs → Returns IsInt64 (extract_int fs key)
unfolding extract_int IsWellFormed
extract_int-IsInt64 fs key h = elim (Option-cases (find key fs)) [
  | inl e ↦ rw (e, Returns) tt
  | inr (int z, e) ↦ rw (e, Returns) (find-IsWellFormed key fs h e)
  | inr (str s, e) ↦ rw (e, Returns) tt
  | inr (list xs, e) ↦ rw (e, Returns) tt
  | inr (dict gs, e) ↦ rw (e, Returns) tt
]

pub extract_dict-FieldsWellFormed :
    (fs : Fields) (key : Bytes)
    → FieldsWellFormed fs
    → Returns FieldsWellFormed (extract_dict fs key)
unfolding extract_dict IsWellFormed
extract_dict-FieldsWellFormed fs key h = elim (Option-cases (find key fs)) [
  | inl e ↦ rw (e, Returns) tt
  | inr (int z, e) ↦ rw (e, Returns) tt
  | inr (str s, e) ↦ rw (e, Returns) tt
  | inr (list xs, e) ↦ rw (e, Returns) tt
  | inr (dict gs, e) ↦ rw (e, Returns) (find-IsWellFormed key fs h e).1
]

positive-Fits : (z : ℤ) → IsInt64 z → is_positive z ≡ true → (0 < to_u64 z) × (to_u64 z < 2 ^ 63)
positive-Fits (pos zero) h e = absurd (cc)
positive-Fits (pos (suc n)) h e = (omega arith, omega arith)
positive-Fits (negsuc n) h e = absurd (cc)

nonnegative-Fits : (z : ℤ) → IsInt64 z → is_nonnegative z ≡ true → to_u64 z < 2 ^ 63
nonnegative-Fits (pos n) h e = omega arith
nonnegative-Fits (negsuc n) h e = absurd (cc)

pub rows-flatten :
    (width : ℕ) (xs : List Bytes) → AllOfLength width xs → rows width (length xs) (flatten xs) ≡ xs
unfolding rows flatten
rows-flatten width [] h = refl
rows-flatten width (x ∷ xs) h = rw (
  take-append x (flatten xs) width (sym h.0),
  drop-append x (flatten xs) width (sym h.0),
  rows-flatten width xs h.1,
)

Returns-guard : (b : Bool) → Returns (λ _. b ≡ true) (guard b runtime_error)
Returns-guard true = refl
Returns-guard false = tt

abbrev AreHashes : Bytes → List Bytes → Type 0
AreHashes s hashes = AllOfLength 20 hashes × (length hashes * 20 ≡ length s) × (flatten hashes ≡ s)

Returns-parse_piece_hashes : (s : Bytes) → Returns (AreHashes s) (parse_piece_hashes s)
Returns-parse_piece_hashes s = elim (parse_piece_hashes_lem s) [
  | inl (whole, (hashes, e, widths, size, joined)) ↦ rw (e, Returns) (widths, size, joined)
  | inr (part, e) ↦ rw (e, Returns) tt
]

-- Whatever `parseInfoDict` returns for a well-formed dictionary has what the rest of the client
-- relies on: the assertion in it holds, the hashes are the pieces string in rows of 20, the piece
-- length is positive, and both lengths fit a signed number of 64 bits.
pub parse_info_dict-IsInfo :
    (fs : Fields) → FieldsWellFormed fs → Returns IsInfo (parse_info_dict fs)
unfolding parse_info_dict
parse_info_dict-IsInfo fs h =
    Returns-bind IsInt64 IsInfo _ _ (extract_int-IsInt64 fs piece_length_key h) λ pl pl_fits.
      Returns-bind (λ _. is_positive pl ≡ true) IsInfo _ _ (Returns-guard (is_positive pl))
        λ _ positive.
          Returns-bind (λ _. Unit {0}) IsInfo _ _ (Returns-any (extract_str fs pieces_key))
            λ s _.
              Returns-bind (AreHashes s) IsInfo _ _ (Returns-parse_piece_hashes s) λ hashes are.
                Returns-bind IsInt64 IsInfo _ _ (extract_int-IsInt64 fs length_key h) λ fl fl_fits.
                  Returns-bind (λ _. is_nonnegative fl ≡ true) IsInfo _ _
                    (Returns-guard (is_nonnegative fl))
                    λ _ nonnegative.
                      Returns-bind (λ _. Unit {0}) IsInfo _ _
                        (Returns-any (extract_str fs name_key))
                        λ name _. record {
                          hashes = are.0;
                          raw = are.2;
                          size = are.1;
                          positive = (positive-Fits pl pl_fits positive).0;
                          piece_fits = (positive-Fits pl pl_fits positive).1;
                          file_fits = nonnegative-Fits fl fl_fits nonnegative;
                        }

parse_piece_hashes-flatten :
    (hashes : List Bytes) (s : Bytes) → AreHashes s hashes → parse_piece_hashes s ≡ ok hashes
unfolding parse_piece_hashes
parse_piece_hashes-flatten hashes s (widths, size, joined) =
    let whole : (length s % 20 == 0) ≡ true = (==_iff (length s % 20) 0).1 (omega arith) in
    let count : length s / 20 ≡ length hashes = omega arith in
    rw (whole, count, sym joined) (ap ok (rows-flatten 20 hashes widths))

pub to_i64_lem : (n : ℕ) → n < 2 ^ 63 → to_i64 n ≡ pos n
to_i64_lem n h = rw (lt→ltb n (2 ^ 63) h)

is_positive_lem : (n : ℕ) → 0 < n → is_positive (pos n) ≡ true
is_positive_lem zero h = absurd (omega arith)
is_positive_lem (suc n) h = refl

wrap_lem : (n : ℕ) → n < 2 ^ 63 → n % 2 ^ 64 ≡ n
wrap_lem n h = omega arith

-- A dictionary that says this of a torrent is read as it says.
pub parse_info_dict-find :
    (fs : Fields) (info : Info)
    → IsInfo info
    → find piece_length_key fs ≡ some (int (pos info.piece_length))
    → find pieces_key fs ≡ some (str info.raw_pieces)
    → find length_key fs ≡ some (int (pos info.file_length))
    → find name_key fs ≡ some (str info.file_name)
    → parse_info_dict fs ≡ ok info
unfolding parse_info_dict
parse_info_dict-find fs info h piece_length pieces file_length name = rw (
  extract_int-find fs piece_length_key piece_length,
  is_positive_lem info.piece_length h.positive,
  extract_str-find fs pieces_key pieces,
  parse_piece_hashes-flatten info.piece_hashes info.raw_pieces (h.hashes, h.size, h.raw),
  extract_int-find fs length_key file_length,
  extract_str-find fs name_key name,
  wrap_lem info.piece_length h.piece_fits,
  wrap_lem info.file_length h.file_fits,
)

-- For a record with the properties that `parseInfoDict` ensures, the dictionary whose encoding is
-- hashed has all that the client keeps: `parseInfoDict` reads the same record back from it.
parse_info_dict-info_fields :
    (info : Info) → IsInfo info → parse_info_dict (info_fields info) ≡ ok info
unfolding parse_info_dict info_fields extract_int extract_str find assign bytes_lt
parse_info_dict-info_fields info h = rw (
  to_i64_lem info.piece_length h.piece_fits,
  to_i64_lem info.file_length h.file_fits,
  is_positive_lem info.piece_length h.positive,
  parse_piece_hashes-flatten info.piece_hashes info.raw_pieces (h.hashes, h.size, h.raw),
  wrap_lem info.piece_length h.piece_fits,
  wrap_lem info.file_length h.file_fits,
)

pub info_fields-IsWellFormed : (info : Info) → IsInfo info → IsWellFormed (dict (info_fields info))
unfolding IsWellFormed info_fields assign bytes_lt
info_fields-IsWellFormed info h =
    rw (to_i64_lem info.piece_length h.piece_fits, to_i64_lem info.file_length h.file_fits)
      (
        (((refl, (refl, (refl, tt))), ((refl, (refl, tt)), ((refl, tt), (tt, tt))))),
        (h.file_fits, (tt, (h.piece_fits, (tt, tt)))),
      )

nest-info_fields : (info : Info) → nest (dict (info_fields info)) ≤ 1000
unfolding nest info_fields assign bytes_lt
nest-info_fields info = omega arith

-- Two records with the properties that `parseInfoDict` ensures are the same, if the dictionaries
-- that are hashed for them have the same encoding, shorter than 2 ^ 64 bytes.
pub encode-info_fields-injective :
    (a b : Info)
    → IsInfo a
    → IsInfo b
    → length (encode (dict (info_fields a))) < 2 ^ 64
    → encode (dict (info_fields a)) ≡ encode (dict (info_fields b))
    → a ≡ b
encode-info_fields-injective a b ha hb small e =
    let same_dict : dict (info_fields a) ≡ dict (info_fields b) =
      encode_injective (dict (info_fields a)) (dict (info_fields b)) (info_fields-IsWellFormed a ha)
        (info_fields-IsWellFormed b hb) (nest-info_fields a) (nest-info_fields b) small e in
    let same_fields : info_fields a ≡ info_fields b = cc in
    let read_a = parse_info_dict-info_fields a ha in
    let read_b = parse_info_dict-info_fields b hb in let same : ok a ≡ ok b = cc in cc
