-- ===== src/PieceManager/Invariant.antt =====
-- The well-formedness of the piece manager's state.
use bit_torrent_client.Prelude.{
  ℕ, ◌+◌, ◌-◌, ◌/◌, ◌%◌, ◌^◌, ◌≤◌, ◌<◌, ◌≡◌, refl, List, Bool, false, Option, some, arith, length,
  get_elem?, ok, ◌==◌, Bool-cases, inl, inr, length-replicate,
}
use bit_torrent_client.Metadata.{TorrentMetadata}
use bit_torrent_client.FileHandler.{Disk, open_file}
use bit_torrent_client.ProgressTracker.{ProgressTracker}
use bit_torrent_client.PieceManager.{
  PieceManager, PendingPiece, block_len, num_pieces, get_piece_length, init,
}
use bit_torrent_client.PieceManager.BlockSet.{All}
use bit_torrent_client.PieceManager.Marks.{Marks, init-Marks}

-- A pending piece is not finished, has a buffer of its length, and lacks a block at least.
pub record IsPending (metadata : TorrentMetadata) (finished : List Bool) (i : ℕ) (p : PendingPiece)
    : Type 0 where
  pub unfinished : get_elem? finished i ≡ some false
  pub sized : get_piece_length metadata i ≡ ok (length p.buffer)
  pub needed : p.total_blocks_needed ≡ (length p.buffer + block_len - 1) / block_len
  pub short : p.blocks_received < p.total_blocks_needed

-- What the metadata must be like: pieces have a length that 32 bits hold, and are few enough for
-- their indices to be 32-bit numbers.
pub record IsSupported (metadata : TorrentMetadata) : Type 0 where
  pub nonzero : 0 < metadata.info.piece_length % 2 ^ 32
  pub few : length metadata.info.piece_hashes + 15 < 2 ^ 32

pub record IsValid (pm : PieceManager) : Type 0 where
  pub supported : IsSupported pm.metadata
  pub place : pm.file_handler.piece_size ≡ pm.metadata.info.piece_length
  pub hashes : pm.verification_hashes ≡ pm.metadata.info.piece_hashes
  pub offsets : length pm.next_offsets ≡ num_pieces pm
  pub marks : Marks (num_pieces pm) pm.finished pm.bitfield pm.pieces_finished
  pub pending :
      (i : ℕ) (p : PendingPiece)
      → pm.pending_pieces i ≡ some p
      → IsPending pm.metadata pm.finished i p
  pub blocks : All (λ b. b.piece_index < num_pieces pm) pm.pending_blocks

-- With supported metadata, each piece has a length that is not zero and at most the nominal one.
pub get_piece_length_lem :
    (metadata : TorrentMetadata) (i : ℕ)
    → IsSupported metadata
    → (len : ℕ) × (get_piece_length metadata i ≡ ok len)
      × (0 < len)
      × (len ≤ metadata.info.piece_length % 2 ^ 32)
unfolding get_piece_length
get_piece_length_lem metadata i s =
    let pl = metadata.info.piece_length % 2 ^ 32 in
    let total = metadata.info.file_length % 2 ^ 32 in
    elim (Bool-cases (i + 1 == length metadata.info.piece_hashes)) [
      | inr inner ↦ (pl, rw inner, s.nonzero, omega arith)
      | inl last ↦ elim (Bool-cases (total % pl == 0)) [
        | inl even ↦ (pl, ground (arith, s.nonzero), s.nonzero, omega arith)
        | inr odd ↦ (total % pl, ground (arith, s.nonzero), ground arith, grind (arith, s.nonzero))
      ]
    ]

-- A new piece manager is well formed, if its metadata are supported: the piece length is not zero
-- in 32 bits, and the indices of the pieces fit 32 bits.
pub init-IsValid :
    (metadata : TorrentMetadata) (disk : Disk) (progress : Option ProgressTracker)
    → IsSupported metadata
    → IsValid (init metadata disk progress)
unfolding init open_file
init-IsValid metadata disk progress s = record {
  supported = s;
  place = refl;
  hashes = refl;
  offsets = length-replicate (length metadata.info.piece_hashes) 0;
  marks = init-Marks (length metadata.info.piece_hashes);
  pending = λ i p h. absurd (cc);
  blocks = tt;
}
