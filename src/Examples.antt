-- ===== src/Examples.antt =====
-- Runs of the readers, the loader, the tracker's reply, the handshake and the sessions.
use mathlib.Core.List.{flatten}
use bit_torrent_client.FileHandler.{working_disk}
use bit_torrent_client.Prelude.{
  none, ◌&&◌, not, ◌==◌, ◌+◌, ◌/◌, if◌then◌else◌, ◌^◌, ◌<◌, ◌≡◌, ◌↔◌, refl, arith, [], ◌∷◌, ◌++◌,
  true, false, Bytes, codes, length, replicate, ok, throws, system_error,
}
use bit_torrent_client.Bytes.{ByteWriter, read_u32, write_u32}
use bit_torrent_client.Bytes.RoundTrip.{read_u32-write_u32}
use bit_torrent_client.Bencode.{dict, bytes_lt, assign}
use bit_torrent_client.Bencode.Encode.{encode, encode_str}
use bit_torrent_client.Bencode.Number.{to_string, int_to_string, print_digits}
use bit_torrent_client.Metadata.{TorrentMetadata, Info, info_fields}
use bit_torrent_client.Metadata.Pieces.{IsInfo}
use bit_torrent_client.Metadata.Dictionary.{encode-info_fields-injective}
use bit_torrent_client.Handshake.{serialize_handshake, verify_handshake, handshake_len}
use bit_torrent_client.Handshake.Laws.{verify_handshake-serialize_handshake}
use bit_torrent_client.PeerManager.{
  PeerManager, empty_thread, init, start, stop, deserialize_peer_buffer,
}
use bit_torrent_client.PeerManager.Threads.{stop-start-init}
use bit_torrent_client.PieceManager
use bit_torrent_client.PieceManager.{PieceManager}
use bit_torrent_client.PieceManager.BlockSet.{Block, contains}
use bit_torrent_client.PieceManager.Invariant.{IsValid, init-IsValid}
use bit_torrent_client.PeerSession.{new_session, send_request, handle_bitfield_message}
use bit_torrent_client.PeerSession.Connection.{World, ready}
use bit_torrent_client.PeerSession.Blocks.{send_request-failed, handle_bitfield_message-ready}

abbrev one_byte : ByteWriter
one_byte = record { bytes = 7 ∷ [] }

read_u32-write_u32_example :
    read_u32 (record { buffer = (write_u32 one_byte 3000000000).bytes ++ 9 ∷ []; cursor = 1 })
    ≡ ok (
      3000000000,
      record { buffer = (write_u32 one_byte 3000000000).bytes ++ 9 ∷ []; cursor = 5 },
    )
read_u32-write_u32_example = read_u32-write_u32 one_byte 3000000000 (9 ∷ []) (omega arith)

-- A torrent of one piece.
abbrev one_hash : Bytes
one_hash = replicate 20 7

abbrev info : Info
info = record {
  piece_hashes = one_hash ∷ [];
  raw_pieces = one_hash;
  piece_length = 16384;
  file_length = 10;
  file_name = codes "a";
}

info-IsInfo : IsInfo info
unfolding flatten
info-IsInfo = record {
  hashes = (refl, tt);
  raw = refl;
  size = refl;
  positive = omega arith;
  piece_fits = omega arith;
  file_fits = omega arith;
}

info-length : length (encode (dict (info_fields info))) < 2 ^ 64
unfolding encode encode_str to_string int_to_string print_digits info_fields assign bytes_lt
info-length = omega arith

encode-info_fields-injective_example : info ≡ info
encode-info_fields-injective_example =
    encode-info_fields-injective info info info-IsInfo info-IsInfo info-length refl

verify_handshake-serialize_handshake_example :
    (packet : Bytes) × (serialize_handshake one_hash (replicate 20 8) ≡ ok packet)
    × (length packet ≡ handshake_len)
    × ((verify_handshake packet one_hash ≡ true) ↔ (one_hash ≡ one_hash))
verify_handshake-serialize_handshake_example =
    verify_handshake-serialize_handshake one_hash (replicate 20 8) one_hash refl (omega arith)

abbrev no_peers : PeerManager
no_peers = record {
  peers = [];
  info_hash = one_hash;
  peer_id = [];
  thread_pool = replicate 4 empty_thread;
  sessions = [];
}

no_peers-init : init [] one_hash [] ≡ ok no_peers
unfolding init deserialize_peer_buffer
no_peers-init = refl

stop-start-init_example : stop (start no_peers) ≡ throws system_error
stop-start-init_example = stop-start-init [] one_hash [] no_peers-init

-- A session whose next write fails.
abbrev metadata : TorrentMetadata
metadata = record {
  announce = [];
  comment = [];
  creation_date = 0;
  info_hash = one_hash;
  info = info;
}

abbrev block : Block
block = record { piece_index = 0; offset = 0; size = 10 }

abbrev pieces : PieceManager
pieces = record (PieceManager.init metadata (working_disk []) none) { pending_blocks = block ∷ [] }

abbrev world : World
world = record {
  session = record new_session { pending_blocks = block ∷ [] };
  pieces = pieces;
  is_open = true;
  incoming = [];
  is_silent = false;
  has_endpoint = true;
  writes = false ∷ [];
  sent = [];
  others = [];
}

pieces-IsValid : IsValid pieces
unfolding PieceManager.init
pieces-IsValid =
    let v =
      init-IsValid metadata (working_disk []) none
        (record { nonzero = omega arith; few = omega arith }) in
    record {
      supported = v.supported;
      place = v.place;
      hashes = v.hashes;
      offsets = v.offsets;
      marks = v.marks;
      pending = v.pending;
      blocks = (omega arith, tt);
    }

send_request-failed_example :
    contains block (send_request block world).0.pieces.pending_blocks
    ≡ (contains block pieces.pending_blocks && not (contains block (block ∷ [])))
send_request-failed_example = send_request-failed block world pieces-IsValid refl refl block

handle_bitfield_message-ready_example :
    ((handle_bitfield_message (1 ∷ 2 ∷ []) world).0.session.state ≡ ready)
    × ((handle_bitfield_message (1 ∷ 2 ∷ []) world).0.session.peer_bitfield
        ≡ (if 2 == (PieceManager.num_pieces pieces + 7) / 8 then 1 ∷ 2 ∷ [] else []))
handle_bitfield_message-ready_example = handle_bitfield_message-ready (1 ∷ 2 ∷ []) world
