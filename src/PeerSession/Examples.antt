-- ===== src/PeerSession/Examples.antt =====
-- A session with a peer that answers the handshake, unchokes and goes.
use bit_torrent_client.FileHandler.{working_disk}
use bit_torrent_client.Prelude.{
  none, length, ◌≤◌, refl, [], ◌∷◌, ◌++◌, true, false, arith, Bytes, codes, replicate,
}
use bit_torrent_client.Metadata.{TorrentMetadata}
use bit_torrent_client.Handshake.{protocol}
use bit_torrent_client.PieceManager.{init}
use bit_torrent_client.PieceManager.System.{here}
use bit_torrent_client.PeerSession.{max_pipeline_size, serve, new_session}
use bit_torrent_client.PeerSession.Connection.{World}
use bit_torrent_client.PieceManager.BlockSet.{All}
use bit_torrent_client.PieceManager.System.Safety.{IsSafe}
use bit_torrent_client.PieceManager.System.Download.{init-IsSafe}
use bit_torrent_client.PeerSession.Protocol.{IsMessage}
use bit_torrent_client.PeerSession.Bound.{length-serve}
use bit_torrent_client.PeerSession.Loop.{serve-IsMessage}

abbrev info_hash : Bytes
info_hash = replicate 20 7

abbrev metadata : TorrentMetadata
metadata = record {
  announce = [];
  comment = [];
  creation_date = 0;
  info_hash = info_hash;
  info = record {
    piece_hashes = replicate 2 (1 ∷ 2 ∷ 3 ∷ []);
    raw_pieces = [];
    piece_length = 3;
    file_length = 6;
    file_name = codes "a";
  };
}

abbrev plain : Bytes → Bytes
plain b = b

-- The peer's handshake, and a message of type 1.
abbrev answer : Bytes
answer =
    19 ∷ (protocol ++ (replicate 8 0 ++ (info_hash ++ (replicate 20 9 ++ 0 ∷ 0 ∷ 0 ∷ 1 ∷ 1 ∷ []))))

abbrev world : World
world = record {
  session = new_session;
  pieces = init metadata (working_disk []) none;
  is_open = true;
  incoming = answer;
  is_silent = false;
  has_endpoint = true;
  writes = [];
  sent = [];
  others = (λ pm. pm) ∷ [];
}

world-IsSafe : IsSafe world.pieces
world-IsSafe =
    init-IsSafe plain metadata (working_disk []) none
      (record { nonzero = omega arith; few = omega arith }) refl

serve-IsMessage_example :
    All
      (IsMessage world.pieces.metadata)
      (serve 100 plain true info_hash (replicate 20 8) world).0.sent
serve-IsMessage_example =
    serve-IsMessage plain 100 true info_hash (replicate 20 8) world ((λ pm. here), tt) (omega arith)
      world-IsSafe refl

length-serve_example :
    length (serve 100 plain true info_hash (replicate 20 8) world).0.session.pending_blocks
    ≤ max_pipeline_size
length-serve_example = length-serve 100 plain true info_hash (replicate 20 8) world (omega arith)
