-- ===== src/Tracker.antt =====
-- src/core/tracker_communicator.cpp. The URL library, the HTTP client and the random generator are
-- parameters.
pub mod Peers
pub mod RoundTrip
pub mod Requests
mod Examples
use bit_torrent_client.Prelude.{
  ℕ, zero, suc, ◌+◌, ◌-◌, ◌%◌, ◌^◌, ◌<◌, [], ◌∷◌, List, Bool, Option, none, some, Bytes, codes,
  length, take, drop, get_elem?, ltb, ◌==◌, if◌then◌else◌, Outcome, ok, throws, fault, out_of_fuel,
  runtime_error, or_fault, or_throw, ◌>>=◌,
}
use bit_torrent_client.Prelude.Int.{ℤ, pos, negsuc, to_i32}
use bit_torrent_client.Bencode.{extract_int, extract_str}
use bit_torrent_client.Bencode.Number.{to_string}
use bit_torrent_client.Bencode.Parse.{parse}
use bit_torrent_client.Metadata.{TorrentMetadata, as_dict}

pub record TrackerResponse : Type 0 where
  pub interval : ℤ
  pub peers_blob : List Bytes

-- The loop of `toSixByteArrays`, from byte `i` on.
unfoldable pub six_loop : ℕ → ℕ → Bytes → Outcome (List Bytes)
six_loop zero i blob = out_of_fuel
six_loop (suc f) i blob =
    let rest = six_loop f (i + 6) blob in
    if ltb i (length blob) then (rest >>= λ peers. ok (take 6 (drop i blob) ∷ peers)) else ok []

unfoldable pub to_six_byte_arrays : Bytes → Outcome (List Bytes)
to_six_byte_arrays blob =
    if length blob % 6 == 0 then six_loop (suc (length blob)) 0 blob else throws runtime_error

unfoldable pub parse_tracker_response : Bytes → Outcome TrackerResponse
parse_tracker_response response = do
  value ← parse response
  fields ← or_throw (as_dict value) runtime_error
  interval ← extract_int fields (codes "interval")
  peer_blob ← extract_str fields (codes "peers")
  peers ← to_six_byte_arrays peer_blob
  ok (record { interval = to_i32 interval; peers_blob = peers })

abbrev pub characters : Bytes
characters = codes "0123456789ABCDEFGHIJKLMNOPQRSTUVWXYZabcdefghijklmnopqrstuvwxyz"

-- `draw i` is the number that the generator gives in round `i`.
unfoldable pub generate_from : ℕ → ℕ → (ℕ → ℕ) → Outcome Bytes
generate_from zero i draw = ok []
generate_from (suc n) i draw = do
  c ← or_fault (get_elem? characters (draw i))
  rest ← generate_from n (i + 1) draw
  ok (c ∷ rest)

unfoldable pub generate_id : ℕ → (ℕ → ℕ) → Outcome Bytes
generate_id count draw = generate_from count 0 draw

-- What the client uses of the URL library `ada`.
pub record UrlLibrary : Type 1 where
  pub Url : Type 0
  pub parse_url : Bytes → Option Url
  pub set_search : Url → Bytes → Url
  pub get_href : Url → Bytes
  pub params_to_string : List (Bytes × Bytes) → Bytes

pub record Response : Type 0 where
  pub status_code : ℕ
  pub text : Bytes

abbrev pub announce_params : TorrentMetadata → Bytes → List (Bytes × Bytes)
announce_params metadata peer_id =
    (codes "info_hash", metadata.info_hash)
    ∷ (codes "peer_id", peer_id)
    ∷ (codes "uploaded", codes "0")
    ∷ (codes "downloaded", codes "0")
    ∷ (codes "compact", codes "1")
    ∷ (codes "left", to_string metadata.info.file_length)
    ∷ []

module _ (ada : UrlLibrary) where
  -- The parsed URL is used before the test that there is one.
  unfoldable pub build_tracker_url : TorrentMetadata → Bytes → Outcome Bytes
  build_tracker_url metadata peer_id = elim (ada.parse_url metadata.announce) [
    | none ↦ fault
    | some url ↦ ok (
        ada.get_href (ada.set_search url (ada.params_to_string (announce_params metadata peer_id))))
  ]

unfoldable pub announce_to_tracker : (Bytes → Response) → Bytes → Outcome Response
announce_to_tracker get url =
    let r = get url in if r.status_code == 200 then ok r else throws runtime_error

module _ (ada : UrlLibrary) (get : Bytes → Response) where
  unfoldable pub announce_and_get_peers : TorrentMetadata → Bytes → Outcome TrackerResponse
  announce_and_get_peers metadata peer_id = do
    url ← build_tracker_url ada metadata peer_id
    resp ← announce_to_tracker get url
    parse_tracker_response resp.text
