-- ===== src/PeerManager/Buffer.antt =====
-- From the rows of the tracker's reply to peers.
use bit_torrent_client.Prelude.{
  ℕ, suc, ◌+◌, ◌*◌, ◌%◌, ◌^◌, ◌<◌, ◌≡◌, refl, ap, [], ◌∷◌, List, Bytes, arith, length, ok, bit_or,
}
use bit_torrent_client.Prelude.Bits.{bit_or-disjoint}
use bit_torrent_client.Handshake.{Peer}
use bit_torrent_client.Metadata.Pieces.{AllOfLength}
use bit_torrent_client.PeerManager.{deserialize_peer, deserialize_peer_buffer}

-- Six bytes are the address, as it stands, and the port, with its high byte first, if the last two
-- are less than 256.
pub deserialize_peer_lem :
    (a b c d high low : ℕ)
    → high < 256
    → low < 256
    → deserialize_peer (a ∷ b ∷ c ∷ d ∷ high ∷ low ∷ [])
      ≡ ok (record { port = high * 256 + low; ip = a ∷ b ∷ c ∷ d ∷ [] })
unfolding deserialize_peer
deserialize_peer_lem a b c d high low h l =
    let port : bit_or (high * 2 ^ 8) low % 2 ^ 16 ≡ high * 256 + low =
      omega (arith, bit_or-disjoint 8 high low l) in
    rw port

abbrev pub IpsOfLength : List Peer → Type 0
IpsOfLength [] = Unit {0}
IpsOfLength (p ∷ ps) = (length p.ip ≡ 4) × IpsOfLength ps

-- Every row of six bytes becomes a peer: the loop never reads past a row, and no peer is lost.
deserialize_peer_buffer_lem :
    (entries : List Bytes)
    → AllOfLength 6 entries
    → (peers : List Peer) × (deserialize_peer_buffer entries ≡ ok peers)
      × (length peers ≡ length entries)
      × IpsOfLength peers
unfolding deserialize_peer_buffer deserialize_peer
deserialize_peer_buffer_lem [] h = ([], refl, refl, tt)
deserialize_peer_buffer_lem ((a ∷ b ∷ c ∷ d ∷ high ∷ low ∷ []) ∷ entries) h =
    let (peers, e, size, ips) = deserialize_peer_buffer_lem entries h.1 in
    (
      (record { port = bit_or (high * 2 ^ 8) low % 2 ^ 16; ip = a ∷ b ∷ c ∷ d ∷ [] }) ∷ peers,
      rw e,
      ap suc size,
      (refl, ips),
    )
deserialize_peer_buffer_lem ([] ∷ entries) h = absurd (let e = h.0 in omega arith)
deserialize_peer_buffer_lem ((a ∷ []) ∷ entries) h = absurd (let e = h.0 in omega arith)
deserialize_peer_buffer_lem ((a ∷ b ∷ []) ∷ entries) h = absurd (let e = h.0 in omega arith)
deserialize_peer_buffer_lem ((a ∷ b ∷ c ∷ []) ∷ entries) h = absurd (let e = h.0 in omega arith)
deserialize_peer_buffer_lem ((a ∷ b ∷ c ∷ d ∷ []) ∷ entries) h = absurd (let e = h.0 in omega arith)
deserialize_peer_buffer_lem ((a ∷ b ∷ c ∷ d ∷ high ∷ []) ∷ entries) h =
    absurd (let e = h.0 in omega arith)
deserialize_peer_buffer_lem ((a ∷ b ∷ c ∷ d ∷ high ∷ low ∷ x ∷ xs) ∷ entries) h =
    absurd (let e = h.0 in omega arith)
