-- ===== src/Tracker/RoundTrip.antt =====
-- A tracker's reply, from the peers that the tracker encodes to those that the client connects to.
use mathlib.Core.List.{flatten}
use bit_torrent_client.Prelude.{
  ℕ, ◌+◌, ◌*◌, ◌/◌, ◌%◌, ◌^◌, ◌≤◌, ◌<◌, ◌≡◌, ◌++◌, inl, inr, refl, subst, append-nil, sym, ◌∙◌, ap,
  List, [], ◌∷◌, arith, Bytes, codes, length, some, ok, lt→ltb, length-append,
}
use bit_torrent_client.Prelude.Int.{pos, to_i32}
use bit_torrent_client.Bencode.{Fields, dict, int, str, find}
use bit_torrent_client.Bencode.Find.{extract_int-find, extract_str-find}
use bit_torrent_client.Bencode.Encode.{encode}
use bit_torrent_client.Bencode.Parse.{parse}
use bit_torrent_client.Bencode.RoundTrip.{parse-encode}
use bit_torrent_client.Bencode.WellFormed.{IsWellFormed, nest}
use bit_torrent_client.Handshake.{Peer}
use bit_torrent_client.Metadata.{rows}
use bit_torrent_client.Metadata.Dictionary.{rows-flatten}
use bit_torrent_client.Metadata.Pieces.{AllOfLength}
use bit_torrent_client.PeerManager.{deserialize_peer, deserialize_peer_buffer}
use bit_torrent_client.PeerManager.Buffer.{deserialize_peer_lem}
use bit_torrent_client.PieceManager.BlockSet.{All}
use bit_torrent_client.Tracker.{TrackerResponse, to_six_byte_arrays, parse_tracker_response}
use bit_torrent_client.Tracker.Peers.{to_six_byte_arrays_lem}

-- The six bytes that stand for a peer.
abbrev pub compact : Peer → Bytes
compact p = p.ip ++ p.port / 256 ∷ p.port % 256 ∷ []

abbrev pub IsPeer : Peer → Type 0
IsPeer p = (length p.ip ≡ 4) × (p.port < 2 ^ 16)

abbrev pub compact_all : List Peer → List Bytes
compact_all [] = []
compact_all (p ∷ ps) = compact p ∷ compact_all ps

compact_all-length : (ps : List Peer) → All IsPeer ps → AllOfLength 6 (compact_all ps)
compact_all-length [] h = tt
compact_all-length (p ∷ ps) ((ip, port), h) = (
  omega (arith, ip, length-append p.ip (p.port / 256 ∷ p.port % 256 ∷ [])),
  compact_all-length ps h,
)

four : (ip : Bytes) → length ip ≡ 4 → (a b c d : ℕ) × (ip ≡ a ∷ b ∷ c ∷ d ∷ [])
four (a ∷ b ∷ c ∷ d ∷ []) e = (a, b, c, d, refl)
four [] e = absurd (omega arith)
four (a ∷ []) e = absurd (omega arith)
four (a ∷ b ∷ []) e = absurd (omega arith)
four (a ∷ b ∷ c ∷ []) e = absurd (omega arith)
four (a ∷ b ∷ c ∷ d ∷ x ∷ xs) e = absurd (omega arith)

deserialize_peer-compact : (p : Peer) → IsPeer p → deserialize_peer (compact p) ≡ ok p
deserialize_peer-compact p (size, small) =
    let (a, b, c, d, e) = four p.ip size in
    let port : p.port / 256 * 256 + p.port % 256 ≡ p.port = omega arith in
    ap (λ ip. deserialize_peer (ip ++ p.port / 256 ∷ p.port % 256 ∷ [])) e
    ∙ deserialize_peer_lem a b c d (p.port / 256) (p.port % 256) (omega arith) (omega arith)
    ∙ ap (λ n. ok (record { port = n; ip = a ∷ b ∷ c ∷ d ∷ [] })) port
    ∙ ap (λ ip. ok (record { port = p.port; ip = ip })) (sym e)

deserialize_peer_buffer-compact_all :
    (ps : List Peer) → All IsPeer ps → deserialize_peer_buffer (compact_all ps) ≡ ok ps
unfolding deserialize_peer_buffer
deserialize_peer_buffer-compact_all [] h = refl
deserialize_peer_buffer-compact_all (p ∷ ps) (good, h) =
    rw (deserialize_peer-compact p good, deserialize_peer_buffer-compact_all ps h)

-- Rows of six bytes are told by what they are one behind the other.
six_unique :
    (xs ys : List Bytes)
    → AllOfLength 6 xs
    → AllOfLength 6 ys
    → length xs ≡ length ys
    → flatten xs ≡ flatten ys
    → xs ≡ ys
six_unique xs ys hx hy n e =
    sym (rows-flatten 6 xs hx)
    ∙ ap (λ k. rows 6 k (flatten xs)) n
    ∙ ap (rows 6 (length ys)) e
    ∙ rows-flatten 6 ys hy

flatten-length : (xs : List Bytes) → AllOfLength 6 xs → length (flatten xs) ≡ length xs * 6
unfolding flatten
flatten-length [] h = refl
flatten-length (x ∷ xs) (six, h) =
    omega (arith, six, flatten-length xs h, length-append x (flatten xs))

to_six_byte_arrays-flatten :
    (xs : List Bytes) → AllOfLength 6 xs → to_six_byte_arrays (flatten xs) ≡ ok xs
to_six_byte_arrays-flatten xs h = elim (to_six_byte_arrays_lem (flatten xs)) [
  | inl (whole, (rows, e, widths, size, joined)) ↦
      e ∙ ap ok (six_unique rows xs widths h (omega (arith, size, flatten-length xs h)) joined)
  | inr (part, e) ↦ absurd (part (omega (arith, flatten-length xs h)))
]

-- A tracker's reply comes through: a dictionary with an interval of 31 bits and with the peers in
-- six bytes each, and whatever else, is encoded, and the client reads the interval and the same
-- peers from it, in their order. The addresses have four bytes and the ports 16 bits; the
-- dictionary is well formed and not nested deeper than 1000, and the reply is shorter than 2 ^ 64
-- bytes.
pub parse_tracker_response-encode :
    (fields : Fields) (interval : ℕ) (peers : List Peer)
    → IsWellFormed (dict fields)
    → nest (dict fields) ≤ 1000
    → length (encode (dict fields)) < 2 ^ 64
    → find (codes "interval") fields ≡ some (int (pos interval))
    → interval < 2 ^ 31
    → find (codes "peers") fields ≡ some (str (flatten (compact_all peers)))
    → All IsPeer peers
    → (r : TrackerResponse) × (parse_tracker_response (encode (dict fields)) ≡ ok r)
      × (r.interval ≡ pos interval)
      × (deserialize_peer_buffer r.peers_blob ≡ ok peers)
unfolding parse_tracker_response
parse_tracker_response-encode fields interval peers wf shallow small at fits held good =
    let read : parse (encode (dict fields)) ≡ ok (dict fields) =
      subst (λ bytes. parse bytes ≡ ok (dict fields)) (append-nil (encode (dict fields)))
        (parse-encode (dict fields) [] wf shallow (rw (append-nil (encode (dict fields))) small)) in
    let blob = to_six_byte_arrays-flatten (compact_all peers) (compact_all-length peers good) in
    let low : interval % 2 ^ 64 % 2 ^ 32 ≡ interval = omega arith in
    (
      record { interval = to_i32 (pos interval); peers_blob = compact_all peers },
      rw (
        read,
        extract_int-find fields (codes "interval") at,
        extract_str-find fields (codes "peers") held,
        blob,
      ),
      rw (low, lt→ltb interval (2 ^ 31) fits),
      deserialize_peer_buffer-compact_all peers good,
    )
