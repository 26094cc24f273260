-- ===== src/PieceManager.antt =====
-- include/app/piece_manager.hpp and src/app/piece_manager.cpp. Every public method but `isComplete`
-- holds the mutex from its first line to its last, so each is one step on the state. A method
-- returns the new state beside its outcome, since an exception does not undo what was done before
-- it.
pub mod BlockSet
pub mod Marks
pub mod Invariant
pub mod Complete
pub mod Gap
pub mod Request
pub mod Return
pub mod Pending
pub mod Finish
pub mod Delivery
pub mod Deliver
pub mod Ends
pub mod Counts
pub mod System
mod Examples
use bit_torrent_client.Prelude.{
  ℕ, zero, suc, ◌+◌, ◌-◌, ◌*◌, ◌/◌, ◌%◌, ◌^◌, [], ◌∷◌, ◌++◌, List, Bool, true, false, ◌&&◌, Option,
  none, some, Bytes, bytes_eq, length, take, drop, get_elem?, set, replicate, ltb, leb, ◌==◌,
  if◌then◌else◌, Outcome, ok, throws, fault, out_of_fuel, or_fault, ◌>>=◌, ◌>>◌, min, bit_and,
  bit_or,
}
use bit_torrent_client.Prelude.Bits.{bit}
use bit_torrent_client.Metadata.{Info, TorrentMetadata}
use mathlib.Core.Option
use bit_torrent_client.ProgressTracker.{ProgressTracker, notify_progress}
use bit_torrent_client.FileHandler.{FileHandler, Disk, open_file, write_piece}
use BlockSet.{Block, contains, insert, erase}

abbrev pub block_len : ℕ
block_len = 16384

pub record PendingPiece : Type 0 where
  pub buffer : Bytes
  pub blocks_received : ℕ
  pub total_blocks_needed : ℕ

abbrev pub is_finished : PendingPiece → Bool
is_finished p = p.blocks_received == p.total_blocks_needed

-- `notified` counts the calls of `notify_one` on the condition variable.
pub record PieceManager : Type 0 where
  pub metadata : TorrentMetadata
  pub file_handler : FileHandler
  pub bitfield : Bytes
  pub pending_pieces : ℕ → Option PendingPiece
  pub verification_hashes : List Bytes
  pub finished : List Bool
  pub pieces_finished : ℕ
  pub pending_blocks : List Block
  pub next_offsets : List ℕ
  pub progress : Option ProgressTracker
  pub notified : ℕ

abbrev pub num_pieces : PieceManager → ℕ
num_pieces pm = length pm.metadata.info.piece_hashes

-- The constructor. The file handler is given the piece length twice.
unfoldable pub init : TorrentMetadata → Disk → Option ProgressTracker → PieceManager
init metadata disk progress = record {
  metadata = metadata;
  file_handler = open_file disk metadata.info.piece_length metadata.info.piece_length;
  bitfield = replicate ((length metadata.info.piece_hashes + 7) / 8) 0;
  pending_pieces = λ i. none;
  verification_hashes = metadata.info.piece_hashes;
  finished = replicate (length metadata.info.piece_hashes) false;
  pieces_finished = 0;
  pending_blocks = [];
  next_offsets = replicate (length metadata.info.piece_hashes) 0;
  progress = progress;
  notified = 0;
}

unfoldable pub update :
    (ℕ → Option PendingPiece) → ℕ → Option PendingPiece → ℕ → Option PendingPiece
update m i p j = if i == j then p else m j

-- `_getPieceLength`, in 32-bit arithmetic. `size() - 1` of no pieces is no index of 32 bits.
unfoldable pub get_piece_length : TorrentMetadata → ℕ → Outcome ℕ
get_piece_length metadata index =
    let piece_length = metadata.info.piece_length % 2 ^ 32 in
    let total_size = metadata.info.file_length % 2 ^ 32 in
    if index + 1 == length metadata.info.piece_hashes
    then if piece_length == 0
      then fault
      else if total_size % piece_length == 0
      then ok piece_length
      else ok (total_size % piece_length)
    else ok piece_length

abbrev pub block_at : ℕ → ℕ → ℕ → Block
block_at index piece_length offset = record {
  piece_index = index;
  offset = offset;
  size = min block_len (piece_length - offset);
}

-- The loop of `_getNextBlockForPiece`: the first block from `offset` on that is not pending.
unfoldable pub find_gap : ℕ → List Block → ℕ → ℕ → ℕ → Outcome (Option Block)
find_gap zero pending index piece_length offset = out_of_fuel
find_gap (suc f) pending index piece_length offset =
    let block = block_at index piece_length offset in
    let rest = find_gap f pending index piece_length (offset + block.size) in
    if ltb offset piece_length
    then if contains block pending then rest else ok (some block)
    else ok none

-- `_getNextBlockForPiece`. Each round moves the offset on, so a round for each byte is enough.
unfoldable pub get_next_block_for_piece : PieceManager → ℕ → Outcome (Option Block × PieceManager)
get_next_block_for_piece pm index = do
  piece_length ← get_piece_length pm.metadata index
  current_offset ← or_fault (get_elem? pm.next_offsets index)
  gap ← find_gap (suc piece_length) pm.pending_blocks index piece_length current_offset
  elim gap [
    | none ↦ ok (none, pm)
    | some block ↦ ok (
      some block,
      record pm {
        pending_blocks = insert block pm.pending_blocks;
        next_offsets = set pm.next_offsets index (block.offset + block.size);
      },
    )
  ]

-- The inner loop of `requestBlock`: bits `b - 1` down to 0 of the bytes' difference.
unfoldable pub scan_bits : ℕ → ℕ → ℕ → PieceManager → Outcome (Option Block × PieceManager)
scan_bits zero i needed pm = ok (none, pm)
scan_bits (suc b) i needed pm =
    let rest = λ (q : PieceManager). scan_bits b i needed q in
    if bit b needed == 1
    then (get_next_block_for_piece pm ((i * 8 + (7 - b)) % 2 ^ 32) >>= λ (found, q). elim found [
      | none ↦ rest q
      | some block ↦ ok (some block, q)
    ])
    else rest pm

-- The outer loop, over the `rounds` bytes from byte `i` on.
unfoldable pub scan_bytes : ℕ → ℕ → Bytes → PieceManager → Outcome (Option Block × PieceManager)
scan_bytes zero i peer_bitfield pm = ok (none, pm)
scan_bytes (suc rounds) i peer_bitfield pm = do
  my_byte ← or_fault (get_elem? pm.bitfield i)
  peer_byte ← or_fault (get_elem? peer_bitfield i)
  let needed = bit_and peer_byte (255 - my_byte)
  (found, q) ← (if ltb 0 needed then scan_bits 8 i needed pm else ok (none, pm))
  let rest = scan_bytes rounds (i + 1) peer_bitfield q
  elim found [ none ↦ rest | some block ↦ ok (some block, q) ]

unfoldable pub request_block : PieceManager → Bytes → Outcome (Option Block × PieceManager)
request_block pm peer_bitfield = scan_bytes (length pm.bitfield) 0 peer_bitfield pm

abbrev pub is_complete : PieceManager → Bool
is_complete pm = leb (length pm.metadata.info.piece_hashes) pm.pieces_finished

-- `_hasPiece`.
unfoldable pub has_piece : PieceManager → ℕ → Outcome Bool
has_piece pm index = do
  byte ← or_fault (get_elem? pm.bitfield (index / 8))
  ok (bit (7 - index % 8) byte == 1)

-- `_setPiece`.
unfoldable pub set_piece : PieceManager → ℕ → Outcome PieceManager
set_piece pm index = do
  byte ← or_fault (get_elem? pm.bitfield (index / 8))
  ok (record pm { bitfield = set pm.bitfield (index / 8) (bit_or byte (2 ^ (7 - index % 8))) })

-- `returnBlock`.
unfoldable pub return_block : PieceManager → Block → Outcome (Bool × PieceManager)
return_block pm block =
    let erased = record pm { pending_blocks = erase block pm.pending_blocks } in
    if contains block pm.pending_blocks
    then (or_fault (get_elem? pm.next_offsets block.piece_index) >>= λ next. ok (
      true,
      if ltb block.offset next
          then record erased { next_offsets = set pm.next_offsets block.piece_index block.offset }
          else erased,
    ))
    else ok (false, pm)

-- The state behind the test `_finished[idx]` and the creation of the pending piece.
unfoldable pub ensure_pending : PieceManager → ℕ → Outcome (PendingPiece × PieceManager)
ensure_pending pm idx = elim (pm.pending_pieces idx) [
  | some piece ↦ ok (piece, pm)
  | none ↦ do
    len ← get_piece_length pm.metadata idx
    let piece : PendingPiece = record {
      buffer = replicate len 0;
      blocks_received = 0;
      total_blocks_needed = (len + block_len - 1) / block_len;
    }
    ok (piece, record pm { pending_pieces = update pm.pending_pieces idx (some piece) })
]

-- `std::copy_n` into the buffer.
unfoldable pub copy_into : Bytes → ℕ → Bytes → Bytes
copy_into buffer offset new = take offset buffer ++ (new ++ drop (offset + length new) buffer)

-- The piece is verified: `_finished[idx] = true` up to the wake-up of the orchestrator.
unfoldable pub mark_finished : PieceManager → ℕ → Outcome PieceManager
mark_finished pm idx = do
  let erased = record pm {
    finished = set pm.finished idx true;
    pending_pieces = update pm.pending_pieces idx none;
  }
  marked ← set_piece erased idx
  let counted = record marked {
    pieces_finished = marked.pieces_finished + 1;
    progress = Option.map notify_progress marked.progress;
  }
  ok (if is_complete counted then record counted { notified = counted.notified + 1 } else counted)

-- A result that leaves the state where it was, if it is no value.
abbrev pub settle {ℓ} :
    {A : Type ℓ} → PieceManager → Outcome (A × PieceManager) → PieceManager × Outcome A
settle pm (ok (a, q)) = (q, ok a)
settle pm (throws e) = (pm, throws e)
settle pm fault = (pm, fault)
settle pm out_of_fuel = (pm, out_of_fuel)

abbrev store_piece : PieceManager → ℕ → Bytes → Outcome (Bool × PieceManager)
store_piece pm idx new = do
  fh ← write_piece pm.file_handler idx new
  done ← mark_finished (record pm { file_handler = fh }) idx
  ok (true, done)

module _ (sha1 : Bytes → Bytes) where
  -- `_verifyHash`. Lists of bytes are compared as the arrays are.
  unfoldable pub verify_hash : PieceManager → ℕ → Bytes → Outcome Bool
  verify_hash pm index piece = do
    expected ← or_fault (get_elem? pm.verification_hashes index)
    ok (bytes_eq expected (sha1 piece))

  -- The branch of a piece that has all its blocks. What is written is the block that came last.
  unfoldable pub finish_piece : PieceManager → ℕ → Bytes → Bytes → PieceManager × Outcome Bool
  finish_piece pm idx piece new = settle pm do
    verified ← verify_hash pm idx piece
    let written = store_piece pm idx new
    if verified
        then written
        else ok (
          false,
          record pm {
            pending_pieces = update pm.pending_pieces idx none;
            next_offsets = set pm.next_offsets idx 0;
          },
        )

  -- The branch of a piece that is not finished, from the bounds check on.
  unfoldable pub receive : PieceManager → PendingPiece → ℕ → ℕ → Bytes → PieceManager × Outcome Bool
  receive pm pending idx offset new =
      if ltb (length pending.buffer) (offset + length new)
      then (pm, ok false)
      else let piece = record pending {
        buffer = copy_into pending.buffer offset new;
        blocks_received = pending.blocks_received + 1;
      } in
        let q = record pm {
          pending_pieces = update pm.pending_pieces idx (some piece);
          pending_blocks = erase (block_at idx (length piece.buffer) offset) pm.pending_blocks;
        } in
        if is_finished piece then finish_piece q idx piece.buffer new else (q, ok true)

  -- `deliverBlock`.
  unfoldable pub deliver_block : PieceManager → ℕ → ℕ → Bytes → PieceManager × Outcome Bool
  deliver_block pm idx offset new = elim (get_elem? pm.finished idx) [
    | none ↦ (pm, fault)
    | some true ↦ (pm, ok true)
    | some false ↦ elim (ensure_pending pm idx) [
      | ok (pending, q) ↦ receive q pending idx offset new
      | throws e ↦ (pm, throws e)
      | fault ↦ (pm, fault)
      | out_of_fuel ↦ (pm, out_of_fuel)
    ]
  ]
