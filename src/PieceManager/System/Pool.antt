-- ===== src/PieceManager/System/Pool.antt =====
-- What the piece manager promises its sessions, without the representation: which pieces are
-- finished, and which blocks are asked for.
use bit_torrent_client.Prelude.{
  ℕ, ◌+◌, ◌≤◌, ◌≢◌, ok, ◌<◌, ◌≡◌, Bool, true, false, ◌&&◌, ◌==◌, if◌then◌else◌, Option, none, some,
  List, Bytes, length, get_elem?,
}
use bit_torrent_client.PieceManager.{PieceManager, get_piece_length, copy_into}
use bit_torrent_client.PieceManager.BlockSet.{Block, contains}
use bit_torrent_client.PieceManager.Delivery.{Before, Delivery}
use bit_torrent_client.PieceManager.System.{Step, requested, delivered, returned}

pub record Pool : Type 0 where
  pub done : ℕ → Bool
  pub asked : ℕ → ℕ → Bool

abbrev pub mark : (ℕ → ℕ → Bool) → ℕ → ℕ → Bool → ℕ → ℕ → Bool
mark asked i o b j p = if j == i && p == o then b else asked j p

abbrev pub finish_at : (ℕ → Bool) → ℕ → ℕ → Bool
finish_at done i j = if j == i then true else done j

abbrev pub is_set : Option Bool → Bool
is_set (some true) = true
is_set (some false) = false
is_set none = false

abbrev pub block_of : ℕ → ℕ → Block
block_of i o = record { piece_index = i; offset = o; size = 0 }

abbrev pub pool : List Bool → List Block → Pool
pool finished pending = record {
  done = λ i. is_set (get_elem? finished i);
  asked = λ i o. contains (block_of i o) pending;
}

-- The pool that a state of the piece manager stands for.
abbrev pub view : PieceManager → Pool
view pm = pool pm.finished pm.pending_blocks

abbrev pub marked : PieceManager → ℕ → ℕ → Bool → Pool
marked pm i o b = record (view pm) { asked = mark (view pm).asked i o b }

-- An operation, with what it is given, and for a request and a return what it answers.
pub data Op : Type 0 where
  requests : Option Block → Op
  delivers : (idx offset : ℕ) (new : Bytes) → Op
  returns : Block → Bool → Op

abbrev pub op : {sha1 : Bytes → Bytes} {pm q : PieceManager} → Step sha1 pm q → Op
op (requested peer found e) = requests found
op (delivered idx offset new inside e) = delivers idx offset new
op (returned block done e) = returns block done

-- What each operation may make of the pool.
pub data Change (sha1 : Bytes → Bytes) (pm : PieceManager) : Op → Pool → Type 0 where
  none_left : {q : Pool} → q ≡ view pm → Change sha1 pm (requests none) q
  -- A block is asked for only if its piece is not finished and nobody has asked for it.
  ask :
      {q : Pool} (b : Block)
      → (view pm).done b.piece_index ≡ false
      → (view pm).asked b.piece_index b.offset ≡ false
      → q ≡ marked pm b.piece_index b.offset true
      → Change sha1 pm (requests (some b)) q
  give_back :
      {q : Pool} (b : Block)
      → (view pm).asked b.piece_index b.offset ≡ true
      → q ≡ marked pm b.piece_index b.offset false
      → Change sha1 pm (returns b true) q
  not_asked :
      {q : Pool} (b : Block)
      → (view pm).asked b.piece_index b.offset ≡ false
      → q ≡ view pm
      → Change sha1 pm (returns b false) q
  late :
      {q : Pool} {i o : ℕ} {new : Bytes}
      → (view pm).done i ≡ true
      → q ≡ view pm
      → Change sha1 pm (delivers i o new) q
  too_long :
      {q : Pool} {i o : ℕ} {new : Bytes} (len : ℕ)
      → get_piece_length pm.metadata i ≡ ok len
      → len < o + length new
      → q ≡ view pm
      → Change sha1 pm (delivers i o new) q
  store :
      {q : Pool} {i o : ℕ} {new : Bytes} (before : Before pm i)
      → o + length new ≤ length (copy_into before.piece.buffer o new)
      → q ≡ marked pm i o false
      → Change sha1 pm (delivers i o new) q
  -- A piece is finished only if the buffer, with the block copied in, has the hash of the torrent.
  finish :
      {q : Pool} {i o : ℕ} {new : Bytes} (before : Before pm i)
      → get_elem? pm.metadata.info.piece_hashes i
        ≡ some (sha1 (copy_into before.piece.buffer o new))
      → q ≡ record { done = finish_at (view pm).done i; asked = (marked pm i o false).asked }
      → Change sha1 pm (delivers i o new) q
  throw_away :
      {q : Pool} {i o : ℕ} {new : Bytes} (before : Before pm i) (expected : Bytes)
      → get_elem? pm.metadata.info.piece_hashes i ≡ some expected
      → expected ≢ sha1 (copy_into before.piece.buffer o new)
      → q ≡ marked pm i o false
      → Change sha1 pm (delivers i o new) q
