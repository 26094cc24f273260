-- ===== src/Tracker/Requests.antt =====
-- What the client asks the tracker, and a reply that it can use.
use mathlib.Core.List.{flatten}
use bit_torrent_client.Prelude.{
  ℕ, ◌≤◌, ◌<◌, ◌≡◌, ◌^◌, List, Bytes, codes, length, get_elem?, ap, ◌∙◌, true, some, ok, ◌==◌,
  ==_iff,
}
use bit_torrent_client.Prelude.Int.{pos}
use bit_torrent_client.Bencode.{Fields, dict, int, str, find}
use bit_torrent_client.Bencode.Encode.{encode}
use bit_torrent_client.Bencode.WellFormed.{IsWellFormed, nest}
use bit_torrent_client.Handshake.{Peer}
use bit_torrent_client.Metadata.{TorrentMetadata}
use bit_torrent_client.PeerManager.{deserialize_peer_buffer}
use bit_torrent_client.PieceManager.BlockSet.{All}
use bit_torrent_client.Tracker.{
  TrackerResponse, UrlLibrary, Response, characters, announce_params, build_tracker_url,
  announce_to_tracker, announce_and_get_peers, parse_tracker_response,
}
use bit_torrent_client.Tracker.RoundTrip.{compact_all, IsPeer, parse_tracker_response-encode}

abbrev pub IsCharacter : ℕ → Type 0
IsCharacter c = (k : ℕ) × (get_elem? characters k ≡ some c)

-- The text is the encoding of a dictionary with these peers.
pub record IsReply (text : Bytes) (peers : List Peer) : Type 0 where
  pub fields : Fields
  pub interval : ℕ
  pub well_formed : IsWellFormed (dict fields)
  pub shallow : nest (dict fields) ≤ 1000
  pub encoded : text ≡ encode (dict fields)
  pub short : length text < 2 ^ 64
  pub interval_held : find (codes "interval") fields ≡ some (int (pos interval))
  pub interval_fits : interval < 2 ^ 31
  pub peers_held : find (codes "peers") fields ≡ some (str (flatten (compact_all peers)))
  pub all_peers : All IsPeer peers

-- The URL that the client asks.
abbrev pub announce_url : (ada : UrlLibrary) → TorrentMetadata → Bytes → ada.Url → Bytes
announce_url ada metadata peer_id url =
    ada.get_href (ada.set_search url (ada.params_to_string (announce_params metadata peer_id)))

module _ (ada : UrlLibrary) (get : Bytes → Response) (metadata : TorrentMetadata) (peer_id : Bytes)
    (url : ada.Url) (parsed : ada.parse_url metadata.announce ≡ some url) where
  built : build_tracker_url ada metadata peer_id ≡ ok (announce_url ada metadata peer_id url)
  unfolding build_tracker_url
  built = rw (parsed, build_tracker_url)

  accepted :
      (get (announce_url ada metadata peer_id url)).status_code ≡ 200
      → announce_to_tracker get (announce_url ada metadata peer_id url)
        ≡ ok (get (announce_url ada metadata peer_id url))
  unfolding announce_to_tracker
  accepted status =
      let e : ((get (announce_url ada metadata peer_id url)).status_code == 200) ≡ true =
        (==_iff _ _).1 status in
      rw e

  pub announce_and_get_peers-IsReply :
      (peers : List Peer)
      → (get (announce_url ada metadata peer_id url)).status_code ≡ 200
      → IsReply (get (announce_url ada metadata peer_id url)).text peers
      → (r : TrackerResponse) × (announce_and_get_peers ada get metadata peer_id ≡ ok r)
        × (deserialize_peer_buffer r.peers_blob ≡ ok peers)
  unfolding announce_and_get_peers
  announce_and_get_peers-IsReply peers status reply =
      let (r, e, interval, same) =
        parse_tracker_response-encode reply.fields reply.interval peers reply.well_formed
          reply.shallow (rw reply.encoded at reply.short) reply.interval_held reply.interval_fits
          reply.peers_held reply.all_peers in
      (r, rw (built, accepted status) (ap parse_tracker_response reply.encoded ∙ e), same)
