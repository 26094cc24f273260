-- ===== src/PieceManager/Delivery.antt =====
-- The outcomes of `deliverBlock`.
use bit_torrent_client.Prelude.{
  ℕ, ◌+◌, ◌-◌, ◌/◌, replicate, ◌≤◌, ◌<◌, ◌≡◌, ◌≢◌, Bool, true, false, none, some, Bytes, length,
  get_elem?, set, Outcome, if◌then◌else◌, ok,
}
use bit_torrent_client.FileHandler.{write_piece}
use bit_torrent_client.PieceManager.{
  PieceManager, PendingPiece, block_len, block_at, get_piece_length, copy_into, is_complete,
}
use bit_torrent_client.PieceManager.BlockSet.{erase}

-- The pending piece that a delivery works on: the one that was there, with the blocks that it has,
-- or an empty one, if there was none.
pub data Held (pm : PieceManager) (idx : ℕ) (p : PendingPiece) : Type 0 where
  was_there : pm.pending_pieces idx ≡ some p → Held pm idx p
  made_new :
      (len : ℕ)
      → pm.pending_pieces idx ≡ none
      → get_piece_length pm.metadata idx ≡ ok len
      → p ≡ record {
        buffer = replicate len 0;
        blocks_received = 0;
        total_blocks_needed = (len + block_len - 1) / block_len;
      }
      → Held pm idx p

pub record Before (pm : PieceManager) (idx : ℕ) : Type 0 where
  pub piece : PendingPiece
  pub held : Held pm idx piece

-- What one delivery can come to, by the branches of `deliverBlock`: `q` is the state after it, and
-- `result` what it returns.
pub data Delivery (sha1 : Bytes → Bytes) (pm : PieceManager) (idx offset : ℕ) (new : Bytes)
    (q : PieceManager) (result : Outcome Bool) : Type 0 where
  -- The piece is finished already.
  known :
      get_elem? pm.finished idx ≡ some true
      → q ≡ pm
      → result ≡ ok true
      → Delivery sha1 pm idx offset new q result
  -- The block does not fit in the piece.
  refused :
      (len : ℕ)
      → get_piece_length pm.metadata idx ≡ ok len
      → len < offset + length new
      → q.finished ≡ pm.finished
      → q.file_handler ≡ pm.file_handler
      → q.pending_blocks ≡ pm.pending_blocks
      → q.metadata ≡ pm.metadata
      → result ≡ ok false
      → Delivery sha1 pm idx offset new q result
  -- The block is stored, and the piece lacks others.
  stored :
      (before : Before pm idx) (piece : PendingPiece)
      → q.pending_pieces idx ≡ some piece
      → piece.buffer ≡ copy_into before.piece.buffer offset new
      → piece.blocks_received ≡ before.piece.blocks_received + 1
      → offset + length new ≤ length piece.buffer
      → q.finished ≡ pm.finished
      → q.file_handler ≡ pm.file_handler
      → q.pending_blocks ≡ erase (block_at idx (length piece.buffer) offset) pm.pending_blocks
      → q.metadata ≡ pm.metadata
      → result ≡ ok true
      → Delivery sha1 pm idx offset new q result
  -- The piece is complete and its hash is the expected one.
  completed :
      (piece : Bytes)
      → get_piece_length pm.metadata idx ≡ ok (length piece)
      → get_elem? pm.metadata.info.piece_hashes idx ≡ some (sha1 piece)
      → (before : Before pm idx) → piece ≡ copy_into before.piece.buffer offset new
      → q.finished ≡ set pm.finished idx true
      → q.pieces_finished ≡ pm.pieces_finished + 1
      → q.pending_pieces idx ≡ none
      → write_piece pm.file_handler idx new ≡ ok q.file_handler
      → q.notified ≡ pm.notified + (if is_complete q then 1 else 0)
      → q.pending_blocks ≡ erase (block_at idx (length piece) offset) pm.pending_blocks
      → q.metadata ≡ pm.metadata
      → result ≡ ok true
      → Delivery sha1 pm idx offset new q result
  -- The piece is complete and its hash is another one: it is thrown away.
  mismatched :
      (piece expected : Bytes)
      → get_piece_length pm.metadata idx ≡ ok (length piece)
      → get_elem? pm.metadata.info.piece_hashes idx ≡ some expected
      → expected ≢ sha1 piece
      → (before : Before pm idx) → piece ≡ copy_into before.piece.buffer offset new
      → q.finished ≡ pm.finished
      → q.file_handler ≡ pm.file_handler
      → q.pending_pieces idx ≡ none
      → get_elem? q.next_offsets idx ≡ some 0
      → q.pending_blocks ≡ erase (block_at idx (length piece) offset) pm.pending_blocks
      → q.metadata ≡ pm.metadata
      → result ≡ ok false
      → Delivery sha1 pm idx offset new q result
