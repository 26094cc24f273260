-- ===== src/PieceManager/Ends.antt =====
-- Every operation of the piece manager ends by itself, in any state and on any arguments.
use bit_torrent_client.Prelude.{
  ℕ, List, ◌/◌, zero, suc, ◌+◌, ◌-◌, ◌==◌, Bool, true, false, none, some, arith, Bytes, length,
  get_elem?, ltb, if◌then◌else◌, Outcome, ok, throws, fault, out_of_fuel, Bool-cases, Option-cases,
  inl, inr, bit_and, IsSettled, IsSettled-bind, IsSettled-or_fault, IsSettled-if, IsSettled-elim,
  IsSettled-ok, IsSettled-throws, IsSettled-fault, unsettled,
}
use bit_torrent_client.Prelude.Bits.{bit}
use bit_torrent_client.Metadata.{TorrentMetadata}
use bit_torrent_client.FileHandler.{FileHandler, write_piece}
use bit_torrent_client.PieceManager.{
  PieceManager, PendingPiece, get_piece_length, find_gap, get_next_block_for_piece, scan_bits,
  scan_bytes, request_block, return_block, ensure_pending, set_piece, mark_finished, settle,
  verify_hash, finish_piece, receive, deliver_block,
}
use bit_torrent_client.PieceManager.BlockSet.{Block}
use bit_torrent_client.PieceManager.Gap.{find_gap_lem}

IsSettled-get_piece_length :
    (metadata : TorrentMetadata) (index : ℕ) → IsSettled (get_piece_length metadata index)
unfolding get_piece_length
IsSettled-get_piece_length metadata index =
    IsSettled-if _ _ _
      (IsSettled-if _ _ _ (IsSettled-fault _)
        (IsSettled-if _ _ _ (IsSettled-ok _) (IsSettled-ok _)))
      (IsSettled-ok _)

IsSettled-find_gap :
    (pending : List Block) (index len offset : ℕ)
    → IsSettled (find_gap (suc len) pending index len offset)
IsSettled-find_gap pending index len offset =
    let (g, e, p) = find_gap_lem (suc len) pending index len offset (omega arith) in
    rw e (IsSettled-ok g)

IsSettled-next_block :
    (pm : PieceManager) (index : ℕ) → IsSettled (get_next_block_for_piece pm index)
unfolding get_next_block_for_piece
IsSettled-next_block pm index =
    IsSettled-bind _ _ (IsSettled-get_piece_length pm.metadata index) λ len.
      IsSettled-bind _ _ (IsSettled-or_fault (get_elem? pm.next_offsets index)) λ offset.
        IsSettled-bind _ _ (IsSettled-find_gap pm.pending_blocks index len offset)
          λ gap. IsSettled-elim gap _ _ (IsSettled-ok _) (λ block. IsSettled-ok _)

IsSettled-scan_bits : (b i needed : ℕ) (pm : PieceManager) → IsSettled (scan_bits b i needed pm)
unfolding scan_bits
IsSettled-scan_bits zero i needed pm = IsSettled-ok _
IsSettled-scan_bits (suc b) i needed pm =
    IsSettled-if (bit b needed == 1) _ _
      (IsSettled-bind _ _ (IsSettled-next_block pm _) λ (found, q).
        IsSettled-elim found _ _ (IsSettled-scan_bits b i needed q) (λ block. IsSettled-ok _))
      (IsSettled-scan_bits b i needed pm)

IsSettled-scan_bytes :
    (rounds i : ℕ) (peer : Bytes) (pm : PieceManager) → IsSettled (scan_bytes rounds i peer pm)
unfolding scan_bytes
IsSettled-scan_bytes zero i peer pm = IsSettled-ok _
IsSettled-scan_bytes (suc rounds) i peer pm =
    IsSettled-bind _ _ (IsSettled-or_fault (get_elem? pm.bitfield i)) λ my.
      IsSettled-bind _ _ (IsSettled-or_fault (get_elem? peer i)) λ theirs.
        IsSettled-bind _ _
          (IsSettled-if (ltb 0 (bit_and theirs (255 - my))) _ _ (IsSettled-scan_bits 8 i _ pm)
            (IsSettled-ok (none, pm)))
          λ (found, q).
            IsSettled-elim found _ _ (IsSettled-scan_bytes rounds (i + 1) peer q)
              (λ block. IsSettled-ok (some block, q))

pub IsSettled-request_block : (pm : PieceManager) (peer : Bytes) → IsSettled (request_block pm peer)
unfolding request_block
IsSettled-request_block pm peer = IsSettled-scan_bytes (length pm.bitfield) 0 peer pm

pub IsSettled-return_block : (pm : PieceManager) (block : Block) → IsSettled (return_block pm block)
unfolding return_block
IsSettled-return_block pm block =
    IsSettled-if _ _ _
      (IsSettled-bind _ _ (IsSettled-or_fault (get_elem? pm.next_offsets block.piece_index))
        (λ next. IsSettled-ok _))
      (IsSettled-ok _)

IsSettled-settle {ℓ} :
    {A : Type ℓ} (pm : PieceManager) (m : Outcome (A × PieceManager))
    → IsSettled m
    → IsSettled (settle pm m).1
unfolding IsSettled
IsSettled-settle pm (ok a) h = IsSettled-ok a.0
IsSettled-settle pm (throws e) h = tt
IsSettled-settle pm fault h = tt
IsSettled-settle pm out_of_fuel h = absurd h

IsSettled-mark_finished : (pm : PieceManager) (idx : ℕ) → IsSettled (mark_finished pm idx)
unfolding mark_finished set_piece
IsSettled-mark_finished pm idx =
    IsSettled-bind _ _
      (IsSettled-bind _ _ (IsSettled-or_fault (get_elem? pm.bitfield (idx / 8)))
        (λ byte. IsSettled-ok _))
      (λ q. IsSettled-ok _)

IsSettled-write_piece :
    (fh : FileHandler) (index : ℕ) (new : Bytes) → IsSettled (write_piece fh index new)
unfolding write_piece
IsSettled-write_piece fh index new =
    IsSettled-if _ _ _ (IsSettled-fault _)
      (IsSettled-if _ _ _ (IsSettled-ok _) (IsSettled-throws _ _))

IsSettled-ensure_pending : (pm : PieceManager) (idx : ℕ) → IsSettled (ensure_pending pm idx)
unfolding ensure_pending
IsSettled-ensure_pending pm idx = elim (Option-cases (pm.pending_pieces idx)) [
  | inl absent ↦
      rw (absent, ensure_pending)
        (IsSettled-bind _ _ (IsSettled-get_piece_length pm.metadata idx) (λ len. IsSettled-ok _))
  | inr (piece, e) ↦ rw (e, ensure_pending) (IsSettled-ok _)
]

module _ (sha1 : Bytes → Bytes) where
  IsSettled-finish_piece :
      (pm : PieceManager) (idx : ℕ) (piece new : Bytes)
      → IsSettled (finish_piece sha1 pm idx piece new).1
  unfolding finish_piece verify_hash
  IsSettled-finish_piece pm idx piece new = IsSettled-settle pm _ (
      IsSettled-bind _ _
        (IsSettled-bind _ _ (IsSettled-or_fault (get_elem? pm.verification_hashes idx))
          (λ expected. IsSettled-ok _))
        (λ verified.
          IsSettled-if verified _ _
            (IsSettled-bind _ _ (IsSettled-write_piece pm.file_handler idx new)
              (λ fh. IsSettled-bind _ _ (IsSettled-mark_finished _ idx) (λ done. IsSettled-ok _)))
            (IsSettled-ok _)))

  IsSettled-receive :
      (pm : PieceManager) (pending : PendingPiece) (idx offset : ℕ) (new : Bytes)
      → IsSettled (receive sha1 pm pending idx offset new).1
  unfolding receive
  IsSettled-receive pm pending idx offset new =
      elim (Bool-cases (ltb (length pending.buffer) (offset + length new))) [
        | inl e ↦ rw e (IsSettled-ok false)
        | inr e ↦ elim (Bool-cases (pending.blocks_received + 1 == pending.total_blocks_needed)) [
          | inl full ↦ rw (e, full, if◌then◌else◌) (IsSettled-finish_piece _ idx _ new)
          | inr short ↦ rw (e, short, if◌then◌else◌) (IsSettled-ok true)
        ]
      ]

  pub IsSettled-deliver_block :
      (pm : PieceManager) (idx offset : ℕ) (new : Bytes)
      → IsSettled (deliver_block sha1 pm idx offset new).1
  unfolding deliver_block
  IsSettled-deliver_block pm idx offset new = elim (Option-cases (get_elem? pm.finished idx)) [
    | inl absent ↦ rw (absent, deliver_block) (IsSettled-fault _)
    | inr (true, e) ↦ rw (e, deliver_block) (IsSettled-ok true)
    | inr (false, e) ↦
        rw (e, deliver_block) (begun (ensure_pending pm idx) (IsSettled-ensure_pending pm idx))
  ]
    where
      begun :
          (m : Outcome (PendingPiece × PieceManager))
          → IsSettled m
          → IsSettled
              (elim m as (λ _. PieceManager × Outcome Bool) [
                | ok (pending, q) ↦ receive sha1 q pending idx offset new
                | throws e ↦ (pm, throws e)
                | fault ↦ (pm, fault)
                | out_of_fuel ↦ (pm, out_of_fuel)
              ]).1
      begun (ok (pending, q)) h = IsSettled-receive q pending idx offset new
      begun (throws e) h = IsSettled-throws _ e
      begun fault h = IsSettled-fault _
      begun out_of_fuel h = absurd (unsettled _ h)
