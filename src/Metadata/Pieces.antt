-- ===== src/Metadata/Pieces.antt =====
-- The piece hashes, and what `parseInfoDict` promises of the record that it returns.
use mathlib.Core.List.{flatten}
use bit_torrent_client.Prelude.{
  ℕ, zero, suc, ◌+◌, ◌*◌, ◌/◌, ◌%◌, ◌^◌, ◌<◌, ◌≡◌, ◌≢◌, ◌⊎◌, inl, inr, refl, ◌∙◌, ap, [], ◌∷◌, ◌++◌,
  List, arith, Bytes, length, take, drop, ◌==◌, Bool-cases, ==_iff, ok, throws, runtime_error,
  length-take, length-drop, take-append-drop,
}
use bit_torrent_client.Metadata.{Info, rows, parse_piece_hashes, hash_length}

abbrev pub AllOfLength : ℕ → List Bytes → Type 0
AllOfLength n [] = Unit {0}
AllOfLength n (x ∷ xs) = (length x ≡ n) × AllOfLength n xs

pub rows_lem :
    (width n : ℕ) (s : Bytes)
    → length s ≡ n * width
    → AllOfLength width (rows width n s)
      × (length (rows width n s) ≡ n)
      × (flatten (rows width n s) ≡ s)
unfolding rows flatten
rows_lem width zero [] h = (tt, refl, refl)
rows_lem width zero (x ∷ s) h = absurd (omega arith)
rows_lem width (suc n) s h =
    let size = ap (λ (t : ℕ). t) h in
    let expand : suc n * width ≡ width + n * width = omega arith in
    let rest = rows_lem width n (drop width s) (omega (arith, length-drop width s)) in
    (
      (omega (arith, length-take width s), rest.0),
      ap suc rest.1,
      ap (◌++◌ (take width s)) rest.2 ∙ take-append-drop width s,
    )

-- A pieces string is accepted exactly if its length is a multiple of 20; then the hashes have 20
-- bytes each and, one behind the other, are the string.
pub parse_piece_hashes_lem :
    (s : Bytes)
    → ((length s % 20 ≡ 0)
        × ((hashes : List Bytes) × (parse_piece_hashes s ≡ ok hashes)
            × AllOfLength 20 hashes
            × (length hashes * 20 ≡ length s)
            × (flatten hashes ≡ s)))
      ⊎ ((length s % 20 ≢ 0) × (parse_piece_hashes s ≡ throws runtime_error))
unfolding parse_piece_hashes
parse_piece_hashes_lem s = elim (Bool-cases (length s % 20 == 0)) [
  | inl e ↦
      let whole = (==_iff (length s % 20) 0).0 e in
      let size : length s ≡ length s / 20 * 20 = omega arith in
      let (widths, count, joined) = rows_lem 20 (length s / 20) s size in
      inl (whole, (rows 20 (length s / 20) s, rw e, widths, omega arith, joined))
  | inr e ↦ inr ((λ whole. ground arith), rw e)
]

-- What the rest of the client relies on: the assertion in `parseInfoDict` holds, a piece length is
-- positive, and both lengths fit a signed number of 64 bits.
pub record IsInfo (info : Info) : Type 0 where
  pub hashes : AllOfLength 20 info.piece_hashes
  pub raw : flatten info.piece_hashes ≡ info.raw_pieces
  pub size : length info.piece_hashes * hash_length ≡ length info.raw_pieces
  pub positive : 0 < info.piece_length
  pub piece_fits : info.piece_length < 2 ^ 63
  pub file_fits : info.file_length < 2 ^ 63
