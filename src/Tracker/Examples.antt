-- ===== src/Tracker/Examples.antt =====
-- A tracker's reply of two peers.
use mathlib.Core.List.{flatten}
use bit_torrent_client.Prelude.{
  ◌≡◌, ◌<◌, ◌≤◌, ◌^◌, refl, arith, List, [], ◌∷◌, codes, length, some, ok,
}
use bit_torrent_client.Prelude.Int.{pos}
use bit_torrent_client.Bencode.{Fields, dict, field, end, int, str, find, bytes_lt}
use bit_torrent_client.Bencode.Encode.{encode, encode_str}
use bit_torrent_client.Bencode.Number.{to_string, int_to_string, print_digits}
use bit_torrent_client.Bencode.WellFormed.{IsWellFormed, nest}
use bit_torrent_client.Handshake.{Peer}
use bit_torrent_client.PeerManager.{deserialize_peer_buffer}
use bit_torrent_client.Tracker.{TrackerResponse, parse_tracker_response}
use bit_torrent_client.Tracker.RoundTrip.{compact_all, parse_tracker_response-encode}

abbrev peers : List Peer
peers =
    (record { port = 6881; ip = 10 ∷ 0 ∷ 0 ∷ 1 ∷ [] })
    ∷ (record { port = 80; ip = 10 ∷ 0 ∷ 0 ∷ 2 ∷ [] })
    ∷ []

abbrev reply : Fields
reply =
    field (codes "interval") (int (pos 1800))
      (field (codes "peers") (str (flatten (compact_all peers))) end)

reply-IsWellFormed : IsWellFormed (dict reply)
unfolding IsWellFormed bytes_lt
reply-IsWellFormed = (((refl, tt), (tt, tt)), (omega arith, (tt, tt)))

reply-nest : nest (dict reply) ≤ 1000
unfolding nest
reply-nest = omega arith

reply-length : length (encode (dict reply)) < 2 ^ 64
unfolding encode encode_str to_string int_to_string print_digits flatten
reply-length = omega arith

reply-interval : find (codes "interval") reply ≡ some (int (pos 1800))
unfolding find bytes_lt
reply-interval = refl

reply-peers : find (codes "peers") reply ≡ some (str (flatten (compact_all peers)))
unfolding find bytes_lt
reply-peers = refl

parse_tracker_response-encode_example :
    (r : TrackerResponse) × (parse_tracker_response (encode (dict reply)) ≡ ok r)
    × (r.interval ≡ pos 1800)
    × (deserialize_peer_buffer r.peers_blob ≡ ok peers)
parse_tracker_response-encode_example =
    parse_tracker_response-encode reply 1800 peers reply-IsWellFormed reply-nest reply-length
      reply-interval (omega arith) reply-peers ((refl, omega arith), ((refl, omega arith), tt))
