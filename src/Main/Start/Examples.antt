-- ===== src/Main/Start/Examples.antt =====
-- A run that comes to its download: a torrent of one piece, and a tracker that knows one peer.
use mathlib.Core.List.{flatten}
use bit_torrent_client.Prelude.{
  inl, ◌≤◌, ◌≡◌, refl, arith, ◌∷◌, List, [], true, false, some, Bytes, codes, length, replicate, ok,
  throws, invalid_argument, if◌then◌else◌, Returns,
}
use bit_torrent_client.Prelude.Int.{pos}
use bit_torrent_client.Bencode.{Fields, field, end, int, str, dict, find, bytes_lt}
use bit_torrent_client.Bencode.Encode.{encode, encode_str}
use bit_torrent_client.Bencode.Number.{to_string, int_to_string, print_digits}
use bit_torrent_client.Bencode.WellFormed.{IsWellFormed, nest}
use bit_torrent_client.FileHandler.{working_disk}
use bit_torrent_client.Handshake.{Peer}
use bit_torrent_client.Metadata.{TorrentMetadata, FileSystem, max_torrent_size, parse_torrent_data}
use bit_torrent_client.Metadata.Pieces.{IsInfo}
use bit_torrent_client.Metadata.Load.{Describes, IsFile, parse_torrent_data-Describes}
use bit_torrent_client.Metadata.Loaded.{IsLoaded, parse_torrent_data-IsLoaded}
use bit_torrent_client.PeerManager
use bit_torrent_client.PieceManager.System.{here}
use bit_torrent_client.PieceManager.System.Safety.{IsSafe}
use bit_torrent_client.Tracker.{generate_id, generate_from}
use bit_torrent_client.Tracker.RoundTrip.{compact_all}
use bit_torrent_client.Tracker.Requests.{IsReply}
use bit_torrent_client.Orchestrator.{Outside, orchestrator, begin_download}
use bit_torrent_client.Orchestrator.Start.{
  Announces, begin_download-Announces, download-IsSafe, first_state,
}
use bit_torrent_client.Orchestrator.Wait.{at_test, has_passed}
use bit_torrent_client.Main.{ArgumentParser, Settings, terminates, waits, main, read_settings}
use bit_torrent_client.Main.Start.{AreRead, loaded, main-Announces}

abbrev info_dict : Fields
info_dict = field (codes "length") (int (pos 3)) (
    field (codes "name") (str (codes "a")) (
      field (codes "piece length") (int (pos 3))
        (field (codes "pieces") (str (replicate 20 7)) end)))

abbrev root : Fields
root = field (codes "announce") (str (codes "url")) (
    field (codes "comment") (str [])
      (field (codes "creation date") (int (pos 5)) (field (codes "info") (dict info_dict) end)))

root-IsWellFormed : IsWellFormed (dict root)
unfolding IsWellFormed bytes_lt
root-IsWellFormed = ground arith

root-nest : nest (dict root) ≤ 1000
unfolding nest
root-nest = omega arith

root-length : length (encode (dict root)) ≤ max_torrent_size
unfolding encode encode_str to_string int_to_string print_digits
root-length = omega arith

abbrev metadata : TorrentMetadata
metadata = record {
  announce = codes "url";
  comment = [];
  creation_date = 5;
  info_hash = [];
  info = record {
    piece_hashes = replicate 20 7 ∷ [];
    raw_pieces = replicate 20 7;
    piece_length = 3;
    file_length = 3;
    file_name = codes "a";
  };
}

info-IsInfo : IsInfo metadata.info
unfolding flatten
info-IsInfo = record {
  hashes = (refl, tt);
  raw = refl;
  size = refl;
  positive = omega arith;
  piece_fits = omega arith;
  file_fits = omega arith;
}

root-Describes : Describes root metadata
unfolding find bytes_lt
root-Describes = record {
  comment = refl;
  announce = refl;
  creation_date = refl;
  date_fits = omega arith;
  info_dict = info_dict;
  info_held = refl;
  piece_length = refl;
  file_length = refl;
  file_name = refl;
  pieces = refl;
  info = info-IsInfo;
}

abbrev peers : List Peer
peers = (record { port = 80; ip = 10 ∷ 0 ∷ 0 ∷ 2 ∷ [] }) ∷ []

abbrev reply : Fields
reply =
    field (codes "interval") (int (pos 1800))
      (field (codes "peers") (str (flatten (compact_all peers))) end)

reply-IsReply : IsReply (encode (dict reply)) peers
unfolding IsWellFormed bytes_lt nest find encode encode_str to_string int_to_string print_digits
    flatten
reply-IsReply = record {
  fields = reply;
  interval = 1800;
  well_formed = (((refl, tt), (tt, tt)), (omega arith, (tt, tt)));
  shallow = omega arith;
  encoded = refl;
  short = omega arith;
  interval_held = refl;
  interval_fits = omega arith;
  peers_held = refl;
  all_peers = ((refl, omega arith), tt);
}

abbrev files : FileSystem
files = record {
  exists = λ path. true;
  opens = λ path. true;
  file_size = λ path. some (length (encode (dict root)));
  read = λ path size. some (encode (dict root));
}

-- A hash that is the same for everything.
abbrev hash : Bytes → Bytes
hash bytes = replicate 20 7

hash-length : (bytes : Bytes) → length (hash bytes) ≡ 20
hash-length bytes = refl

abbrev outside : Outside
outside = record {
  file_system = files;
  sha1 = hash;
  ada = record {
    Url = Bytes;
    parse_url = λ url. some url;
    set_search = λ url search. search;
    get_href = λ url. url;
    params_to_string = λ params. [];
  };
  http_get = λ url. record { status_code = 200; text = encode (dict reply) };
  draw = λ round. 0;
  disk = working_disk [];
}

abbrev parser : ArgumentParser
parser = record {
  Parsed = Bytes;
  parse_args =
      λ arguments argv. elim argv [ [] ↦ throws invalid_argument | path ∷ rest ↦ ok (inl path) ];
  get_string = λ parsed name. ok parsed;
  get_bool = λ parsed name. ok false;
}

abbrev path : Bytes
path = codes "a.torrent"

abbrev settings : Settings
settings = record { torrent_path = path; verbose = false }

settings-AreRead : AreRead parser (path ∷ []) settings
unfolding read_settings
settings-AreRead = record { parsed = path; accepted = refl; settings_read = refl }

root-IsFile : IsFile files path (encode (dict root))
root-IsFile = record { exists = refl; opens = refl; file_size = refl; read = refl }

generated : generate_id 20 outside.draw ≡ ok (replicate 20 b'0')
unfolding generate_id generate_from
generated = refl

abbrev metadata_loaded : TorrentMetadata
metadata_loaded = (loaded outside settings metadata).metadata

peers-Announces : Announces outside metadata_loaded peers
peers-Announces = record {
  peer_id = replicate 20 b'0';
  generated = generated;
  url = codes "url";
  parsed = refl;
  accepted = refl;
  reply = reply-IsReply;
}

parse_torrent_data-IsLoaded_example : Returns IsLoaded (parse_torrent_data files hash path)
parse_torrent_data-IsLoaded_example = parse_torrent_data-IsLoaded hash hash-length files path

orchestrator-loads : orchestrator outside path false ≡ ok (loaded outside settings metadata)
unfolding orchestrator
orchestrator-loads = rw (
    parse_torrent_data-Describes root root-IsWellFormed root-nest root-length files hash path
      metadata root-IsFile root-Describes)

download-IsSafe_example : IsSafe (first_state outside (loaded outside settings metadata))
download-IsSafe_example =
    download-IsSafe outside path false hash-length refl orchestrator-loads (omega arith)
      (begin_download-Announces outside (loaded outside settings metadata) peers peers-Announces).1
      here

main-Announces_example :
    let o = loaded outside settings metadata in
    (pm : PeerManager.PeerManager) × (begin_download outside o ≡ ok (first_state outside o, pm))
    × (pm.sessions ≡ peers)
    × (main outside parser at_test (path ∷ [])
        ≡ (if has_passed (at_test (first_state outside o)).waiter then terminates else waits))
main-Announces_example =
    main-Announces outside parser at_test (path ∷ []) settings root metadata peers settings-AreRead
      root-IsWellFormed root-nest root-length root-IsFile root-Describes peers-Announces
