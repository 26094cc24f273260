-- ===== src/Main/Start.antt =====
-- A run of the program that comes to its download.
mod Examples
use bit_torrent_client.Prelude.{
  ℕ, ◌≤◌, inl, ◌≡◌, refl, ◌∙◌, Bytes, List, length, ok, if◌then◌else◌, Returns,
}
use bit_torrent_client.Bencode.{Fields, dict}
use bit_torrent_client.Bencode.Encode.{encode}
use bit_torrent_client.Bencode.WellFormed.{IsWellFormed, nest}
use bit_torrent_client.Handshake.{Peer}
use bit_torrent_client.Metadata.{
  TorrentMetadata, calculate_info_hash, max_torrent_size, parse_torrent_data,
}
use bit_torrent_client.Metadata.Load.{Describes, IsFile, parse_torrent_data-Describes}
use bit_torrent_client.PieceManager.{PieceManager}
use bit_torrent_client.Orchestrator.Wait.{Waiting, has_passed}
use bit_torrent_client.PeerManager
use bit_torrent_client.Orchestrator.{Outside, Orchestrator, orchestrator, begin_download}
use bit_torrent_client.Orchestrator.Start.{Announces, begin_download-Announces, first_state}
use bit_torrent_client.Tracker.{announce_and_get_peers}
use bit_torrent_client.Main.{
  Settings, Ending, terminates, waits, faults, leave, main, arguments, ArgumentParser,
  read_settings, parse_args,
}
use bit_torrent_client.Main.Outcomes.{begin_download-IsStarted, leave_lem}

-- The arguments are read as these settings.
pub record AreRead (app : ArgumentParser) (argv : List Bytes) (settings : Settings) : Type 0 where
  pub parsed : app.Parsed
  pub accepted : app.parse_args arguments argv ≡ ok (inl parsed)
  pub settings_read : read_settings app parsed ≡ ok settings

-- What the loader makes of the metadata.
abbrev pub loaded : Outside → Settings → TorrentMetadata → Orchestrator
loaded out settings metadata = record {
  metadata = record metadata { info_hash = calculate_info_hash out.sha1 metadata.info };
  logging = settings.verbose;
}

module _ (out : Outside) (app : ArgumentParser) (turns : PieceManager → Waiting)
    (argv : List Bytes) where
  -- The program comes to its download: the arguments name a file with the encoding of a well-formed
  -- dictionary, 10 MB at most and not nested deeper than 1000, that describes a torrent; and the
  -- tracker of the torrent answers with peers. Then the download begins with a session for each of
  -- the peers and with the piece manager of the torrent. If the turns of the threads take the
  -- orchestrator past its wait, the program ends by `std::terminate`; if they do not, it waits.
  pub main-Announces :
      (settings : Settings) (root : Fields) (metadata : TorrentMetadata) (peers : List Peer)
      → AreRead app argv settings
      → IsWellFormed (dict root)
      → nest (dict root) ≤ 1000
      → length (encode (dict root)) ≤ max_torrent_size
      → IsFile out.file_system settings.torrent_path (encode (dict root))
      → Describes root metadata
      → Announces out (loaded out settings metadata).metadata peers
      → let o = loaded out settings metadata in
        (pm : PeerManager.PeerManager) × (begin_download out o ≡ ok (first_state out o, pm))
        × (pm.sessions ≡ peers)
        × (main out app turns argv
            ≡ (if has_passed (turns (first_state out o)).waiter then terminates else waits))
  unfolding main parse_args orchestrator
  main-Announces settings root metadata peers read wf shallow small file describes announces =
      let o = loaded out settings metadata in
      let found =
        parse_torrent_data-Describes root wf shallow small out.file_system out.sha1
          settings.torrent_path metadata file describes in
      let (pm, begun, same) = begin_download-Announces out o peers announces in
      let pool = rw (begun, Returns) at (begin_download-IsStarted out o) in
      (
        pm,
        begun,
        same,
        rw (read.accepted, read.settings_read, found, begun)
            (leave_lem (turns (first_state out o)) pm pool),
      )
