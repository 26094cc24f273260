-- ===== src/Orchestrator.antt =====
-- src/app/torrent_orchestrator.cpp: how a download is put together.
pub mod Wait
pub mod Start
mod Examples
use bit_torrent_client.Prelude.{
  ℕ, Bool, true, false, none, some, Bytes, length, if◌then◌else◌, Outcome, ok, ◌>>=◌,
}
use bit_torrent_client.Prelude.Int.{pos, to_i32}
use bit_torrent_client.FileHandler.{Disk}
use bit_torrent_client.ProgressTracker.{progress_tracker}
use bit_torrent_client.Metadata.{TorrentMetadata, FileSystem, parse_torrent_data}
use bit_torrent_client.Tracker.{UrlLibrary, Response, generate_id, announce_and_get_peers}
use bit_torrent_client.PieceManager.{PieceManager}
use bit_torrent_client.PieceManager
use bit_torrent_client.PeerManager.{start, stop}
use bit_torrent_client.PeerManager
use Wait.{Waiting, has_passed}

-- The libraries and the outside world, as the client uses them.
pub record Outside : Type 1 where
  pub file_system : FileSystem
  pub sha1 : Bytes → Bytes
  pub ada : UrlLibrary
  pub http_get : Bytes → Response
  pub draw : ℕ → ℕ
  pub disk : Disk

pub record Orchestrator : Type 0 where
  pub metadata : TorrentMetadata
  pub logging : Bool

module _ (out : Outside) where
  -- The constructor.
  unfoldable pub orchestrator : Bytes → Bool → Outcome Orchestrator
  orchestrator path logging = do
    metadata ← parse_torrent_data out.file_system out.sha1 path
    ok (record { metadata = metadata; logging = logging })

  -- `download`, up to the wait: the two managers, with the sessions started.
  unfoldable pub begin_download : Orchestrator → Outcome (PieceManager × PeerManager.PeerManager)
  begin_download o = do
    peer_id ← generate_id 20 out.draw
    tracker_response ← announce_and_get_peers out.ada out.http_get o.metadata peer_id
    let progress =
        if o.logging
        then none
        else some (progress_tracker (to_i32 (pos (length o.metadata.info.piece_hashes))) (pos 100))
    let pieces = PieceManager.init o.metadata out.disk progress
    peers ← PeerManager.init tracker_response.peers_blob o.metadata.info_hash peer_id
    ok (pieces, start peers)

-- The end of `download`, behind `cv.wait`: whether it is come to depends on the wait, as the turns
-- of the threads have left it.
unfoldable pub finish_download : Waiting → PeerManager.PeerManager → Outcome Bool
finish_download waiting peers =
    if has_passed waiting.waiter then (stop peers >>= λ _. ok true) else ok false
