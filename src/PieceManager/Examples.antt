-- ===== src/PieceManager/Examples.antt =====
-- Runs of the piece manager on a torrent of eight pieces of three bytes.
use bit_torrent_client.Prelude.{
  none, ℕ, ◌/◌, ◌<◌, ◌≡◌, ◌↔◌, ◌⊎◌, refl, arith, [], ◌∷◌, true, false, Option, some, Bytes, codes,
  replicate, get_elem?, get_elem?-lt, bytes_eq, ok,
}
use bit_torrent_client.Prelude.Bits.{bit}
use bit_torrent_client.Metadata.{TorrentMetadata}
use bit_torrent_client.FileHandler.{working_disk, stream_write, open_file, write_piece}
use bit_torrent_client.PieceManager.{
  PieceManager, init, scan_bytes, scan_bits, ensure_pending, receive, finish_piece, verify_hash,
  mark_finished, copy_into, set_piece, update, num_pieces, is_complete, deliver_block,
  request_block, return_block, find_gap, get_piece_length, get_next_block_for_piece, block_at,
}
use bit_torrent_client.PieceManager.BlockSet.{Block, contains}
use bit_torrent_client.PieceManager.Invariant.{IsValid, IsSupported, init-IsValid}
use bit_torrent_client.PieceManager.Request.Byte.{IsPeerField, Requested}
use bit_torrent_client.PieceManager.Request.Scan.{request_block_lem, request_block-IsValid}
use bit_torrent_client.PieceManager.Return.{IsReturned, return_block_lem}
use bit_torrent_client.PieceManager.Delivery.{Delivery}
use bit_torrent_client.PieceManager.Deliver.{deliver_block_lem}
use bit_torrent_client.PieceManager.Complete.{is_complete_iff}

abbrev metadata : TorrentMetadata
metadata = record {
  announce = [];
  comment = [];
  creation_date = 0;
  info_hash = [];
  info = record {
    piece_hashes = replicate 8 (1 ∷ 2 ∷ 3 ∷ []);
    raw_pieces = [];
    piece_length = 3;
    file_length = 24;
    file_name = codes "a";
  };
}

-- A hash that is its own argument.
abbrev plain : Bytes → Bytes
plain b = b

abbrev fresh : PieceManager
fresh = init metadata (working_disk []) none

metadata-IsSupported : IsSupported metadata
metadata-IsSupported = record { nonzero = omega arith; few = omega arith }

fresh-IsValid : IsValid fresh
fresh-IsValid = init-IsValid metadata (working_disk []) none metadata-IsSupported

full_field : IsPeerField 8 (255 ∷ [])
full_field = record {
  width = refl;
  spare = λ i b h e. absurd (let lt = get_elem?-lt (255 ∷ []) (i / 8) e in omega arith);
}

fresh-open : fresh.file_handler.is_open ≡ true
unfolding init open_file
fresh-open = refl

fresh-pieces : num_pieces fresh ≡ 8
unfolding init
fresh-pieces = refl

fresh_field : IsPeerField (num_pieces fresh) (255 ∷ [])
unfolding init
fresh_field = full_field

-- The block that a peer with all pieces is asked for first, and the state behind the request.
abbrev first : Block
first = block_at 0 3 0

abbrev asked : PieceManager
asked = elim (request_block fresh (255 ∷ [])) [ ok (found, q) ↦ q | _ ↦ fresh ]

granted : request_block fresh (255 ∷ []) ≡ ok (some first, asked)
unfolding request_block init scan_bytes scan_bits get_next_block_for_piece get_piece_length find_gap
    bit contains
granted = refl

whole_piece : (deliver_block plain fresh 7 0 (1 ∷ 2 ∷ 3 ∷ [])).1 ≡ ok true
unfolding deliver_block init ensure_pending receive finish_piece verify_hash mark_finished
    write_piece stream_write copy_into get_piece_length set_piece update open_file bytes_eq
whole_piece = refl

deliver_block_lem_example :
    let r = deliver_block plain fresh 7 0 (1 ∷ 2 ∷ 3 ∷ []) in
    Delivery plain fresh 7 0 (1 ∷ 2 ∷ 3 ∷ []) r.0 r.1 × IsValid r.0
deliver_block_lem_example =
    deliver_block_lem plain fresh 7 0 (1 ∷ 2 ∷ 3 ∷ []) fresh-IsValid (omega (arith, fresh-pieces))
      fresh-open

request_block_lem_example :
    (r : Option Block × PieceManager) × (request_block fresh (255 ∷ []) ≡ ok r)
    × Requested fresh (255 ∷ []) (λ j. Unit {0}) r
request_block_lem_example = request_block_lem fresh (255 ∷ []) fresh-IsValid fresh_field

asked-IsValid : IsValid asked
asked-IsValid = request_block-IsValid fresh (255 ∷ []) fresh-IsValid fresh_field granted

return_block_lem_example :
    ((contains first asked.pending_blocks ≡ true)
      × ((q : PieceManager) × (return_block asked first ≡ ok (true, q))
          × IsReturned asked first q
          × IsValid q))
    ⊎ ((contains first asked.pending_blocks ≡ false)
        × (return_block asked first ≡ ok (false, asked)))
return_block_lem_example = return_block_lem asked first asked-IsValid

is_complete_iff_example :
    (is_complete fresh ≡ true)
    ↔ ((i : ℕ) → i < num_pieces fresh → get_elem? fresh.finished i ≡ some true)
is_complete_iff_example = is_complete_iff fresh fresh-IsValid
