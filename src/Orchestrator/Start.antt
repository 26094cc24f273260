-- ===== src/Orchestrator/Start.antt =====
-- What a download starts from.
use bit_torrent_client.Prelude.{
  ◌^◌, ◌<◌, ◌≡◌, refl, true, none, some, arith, List, Bool, Option, Bytes, length, ok,
  if◌then◌else◌, replicate, ◌++◌, Returns, Returns-bind, Returns-any,
}
use bit_torrent_client.Prelude.Int.{pos, to_i32}
use bit_torrent_client.FileHandler.{is_openable}
use bit_torrent_client.Handshake.{Peer}
use bit_torrent_client.Metadata.{TorrentMetadata, parse_torrent_data}
use bit_torrent_client.Metadata.Loaded.{IsLoaded, parse_torrent_data-IsLoaded}
use bit_torrent_client.ProgressTracker.{ProgressTracker, progress_tracker}
use bit_torrent_client.PieceManager.{PieceManager}
use bit_torrent_client.PieceManager
use bit_torrent_client.PieceManager.Invariant.{IsSupported}
use bit_torrent_client.PieceManager.System.{Reach}
use bit_torrent_client.PieceManager.System.Safety.{IsSafe, Reach-IsSafe}
use bit_torrent_client.PieceManager.System.Download.{init-IsSafe}
use bit_torrent_client.PeerManager
use bit_torrent_client.PeerManager.{deserialize_peer_buffer, start, empty_thread, running}
use bit_torrent_client.Tracker.{generate_id, announce_and_get_peers}
use bit_torrent_client.Tracker.Requests.{IsReply, announce_url, announce_and_get_peers-IsReply}
use bit_torrent_client.Orchestrator.{Outside, Orchestrator, orchestrator, begin_download}

IsLoaded-IsSupported :
    (metadata : TorrentMetadata)
    → IsLoaded metadata
    → metadata.info.piece_length < 2 ^ 32
    → IsSupported metadata
IsLoaded-IsSupported metadata l small = record {
  nonzero = omega (arith, l.info.positive);
  few = omega (arith, l.info.size, l.short);
}

-- The progress tracker of a download, if there is one.
abbrev pub tracker_of : Orchestrator → Option ProgressTracker
tracker_of o =
    if o.logging
    then none
    else some (progress_tracker (to_i32 (pos (length o.metadata.info.piece_hashes))) (pos 100))

module _ (out : Outside) where
  abbrev pub first_state : Orchestrator → PieceManager
  first_state o = PieceManager.init o.metadata out.disk (tracker_of o)

  orchestrator-IsLoaded :
      (path : Bytes) (logging : Bool)
      → ((b : Bytes) → length (out.sha1 b) ≡ 20)
      → Returns (λ (o : Orchestrator). IsLoaded o.metadata) (orchestrator out path logging)
  unfolding orchestrator
  orchestrator-IsLoaded path logging width =
      Returns-bind IsLoaded (λ (o : Orchestrator). IsLoaded o.metadata)
        (parse_torrent_data out.file_system out.sha1 path) _
        (parse_torrent_data-IsLoaded out.sha1 width out.file_system path) (λ metadata l. l)

  abbrev StartsFrom : Orchestrator → PieceManager × PeerManager.PeerManager → Type 0
  StartsFrom o r = r.0 ≡ first_state o

  begin_download-StartsFrom : (o : Orchestrator) → Returns (StartsFrom o) (begin_download out o)
  unfolding begin_download
  begin_download-StartsFrom o =
      Returns-bind (λ _. Unit {0}) (StartsFrom o) _ _ (Returns-any (generate_id 20 out.draw))
        λ peer_id _.
          Returns-bind (λ _. Unit {0}) (StartsFrom o) _ _
            (Returns-any (announce_and_get_peers out.ada out.http_get o.metadata peer_id))
            λ r _.
              Returns-bind (λ _. Unit {0}) (StartsFrom o)
                (PeerManager.init r.peers_blob o.metadata.info_hash peer_id) _ (Returns-any _)
                (λ peers _. refl)

  -- From the torrent file to the states of the download: whatever file is loaded and whatever the
  -- tracker answers, the piece manager is well formed with its file open in every state that
  -- operations of the sessions lead to. The blocks that they deliver may have any offset and bytes,
  -- for pieces of the torrent: an index that is no piece is undefined behaviour, and nothing is
  -- said of what follows it. This is if the piece length fits 32 bits, the file can be opened, and
  -- the hash function returns 20 bytes.
  pub download-IsSafe :
      (path : Bytes) (logging : Bool) {o : Orchestrator} {pieces q : PieceManager}
      {peers : PeerManager.PeerManager}
      → ((b : Bytes) → length (out.sha1 b) ≡ 20)
      → is_openable out.disk ≡ true
      → orchestrator out path logging ≡ ok o
      → o.metadata.info.piece_length < 2 ^ 32
      → begin_download out o ≡ ok (pieces, peers)
      → Reach out.sha1 pieces q
      → IsSafe q
  download-IsSafe path logging {o} {pieces} width opened loaded small begun r =
      let l = rw (loaded, Returns) at (orchestrator-IsLoaded path logging width) in
      let first : pieces ≡ first_state o = rw (begun, Returns) at (begin_download-StartsFrom o) in
      Reach-IsSafe
        (rw first (
          init-IsSafe out.sha1 o.metadata out.disk (tracker_of o)
            (IsLoaded-IsSupported o.metadata l small) opened))
        r

  -- The tracker that the metadata name answers the client with these peers.
  pub record Announces (metadata : TorrentMetadata) (peers : List Peer) : Type 0 where
    pub peer_id : Bytes
    pub generated : generate_id 20 out.draw ≡ ok peer_id
    pub url : out.ada.Url
    pub parsed : out.ada.parse_url metadata.announce ≡ some url
    pub accepted : (out.http_get (announce_url out.ada metadata peer_id url)).status_code ≡ 200
    pub reply : IsReply (out.http_get (announce_url out.ada metadata peer_id url)).text peers

  abbrev started : Orchestrator → List Peer → Bytes → PeerManager.PeerManager
  started o peers peer_id = record {
    peers = peers;
    info_hash = o.metadata.info_hash;
    peer_id = peer_id;
    thread_pool = replicate 4 empty_thread ++ replicate 4 running;
    sessions = peers;
  }

  -- Such an answer is enough for a download to begin, with a session for each peer.
  pub begin_download-Announces :
      (o : Orchestrator) (peers : List Peer)
      → Announces o.metadata peers
      → (pm : PeerManager.PeerManager) × (begin_download out o ≡ ok (first_state o, pm))
        × (pm.sessions ≡ peers)
  unfolding begin_download PeerManager.init start
  begin_download-Announces o peers a =
      let (r, e, same) =
        announce_and_get_peers-IsReply out.ada out.http_get o.metadata a.peer_id a.url a.parsed
          peers a.accepted a.reply in
      (started o peers a.peer_id, rw (a.generated, e, same), refl)
