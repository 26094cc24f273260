-- ===== src/Tracker/Peers.antt =====
-- The peers of a tracker's reply.
use mathlib.Core.List.{flatten}
use bit_torrent_client.Prelude.{
  ℕ, zero, suc, ◌+◌, ◌*◌, ◌/◌, ◌%◌, ◌<◌, ◌≡◌, ◌≢◌, ◌⊎◌, inl, inr, refl, List, arith, Bytes, length,
  drop, ◌==◌, Bool-cases, ==_iff, ok, throws, runtime_error, drop-drop, lt→ltb, ge→ltb,
}
use bit_torrent_client.Metadata.{rows}
use bit_torrent_client.Metadata.Pieces.{AllOfLength, rows_lem}
use bit_torrent_client.Tracker.{six_loop, to_six_byte_arrays}

-- The loop gives the rows of six bytes that are left.
six_loop-rows :
    (n f i : ℕ) (blob : Bytes)
    → i + n * 6 ≡ length blob
    → n < f
    → six_loop f i blob ≡ ok (rows 6 n (drop i blob))
unfolding six_loop rows
six_loop-rows n zero i blob e h = absurd (omega arith)
six_loop-rows zero (suc f) i blob e h = rw (ge→ltb i (length blob) (omega arith))
six_loop-rows (suc n) (suc f) i blob e h = rw (
  lt→ltb i (length blob) (omega arith),
  six_loop-rows n f (i + 6) blob (omega arith) (omega arith),
  drop-drop i 6 (i + 6) blob refl,
)

-- A peers blob is accepted exactly if its length is a multiple of 6; then the loop ends, the peers
-- have 6 bytes each and, one behind the other, are the blob.
pub to_six_byte_arrays_lem :
    (blob : Bytes)
    → ((length blob % 6 ≡ 0)
        × ((peers : List Bytes) × (to_six_byte_arrays blob ≡ ok peers)
            × AllOfLength 6 peers
            × (length peers * 6 ≡ length blob)
            × (flatten peers ≡ blob)))
      ⊎ ((length blob % 6 ≢ 0) × (to_six_byte_arrays blob ≡ throws runtime_error))
unfolding to_six_byte_arrays
to_six_byte_arrays_lem blob = elim (Bool-cases (length blob % 6 == 0)) [
  | inl e ↦
      let whole = (==_iff (length blob % 6) 0).0 e in
      let size : length blob ≡ length blob / 6 * 6 = omega arith in
      let (widths, count, joined) = rows_lem 6 (length blob / 6) blob size in
      inl (
        whole,
        (
          rows 6 (length blob / 6) blob,
          rw e (
              six_loop-rows (length blob / 6) (suc (length blob)) 0 blob (omega arith)
                (omega arith)),
          widths,
          omega arith,
          joined,
        ),
      )
  | inr e ↦ inr ((λ whole. ground arith), rw e)
]
