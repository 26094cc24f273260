-- ===== src/Handshake.antt =====
-- include/core/peer_communicator.hpp and src/core/peer_communicator.cpp: the first message that
-- two peers exchange.
pub mod Laws
use bit_torrent_client.Prelude.{
  ℕ, ◌+◌, [], ◌∷◌, ◌++◌, Bool, true, false, Option, none, some, Bytes, bytes_eq, codes, length,
  take, drop, get_elem?, replicate, ltb, ◌==◌, if◌then◌else◌, Outcome, ok, fault, or_fault, ◌>>=◌,
  min,
}
use bit_torrent_client.Bencode.Number.{to_string}

-- The type of a message is its number on the wire.
pub data MsgId : Type 0 where
  choke unchoke interested not_interested have bitfield request piece cancel : MsgId

abbrev pub msg_code : MsgId → ℕ
msg_code choke = 0
msg_code unchoke = 1
msg_code interested = 2
msg_code not_interested = 3
msg_code have = 4
msg_code bitfield = 5
msg_code request = 6
msg_code piece = 7
msg_code cancel = 8

abbrev pub protocol_len : ℕ
protocol_len = 0x13

abbrev pub protocol : Bytes
protocol = codes "BitTorrent protocol"

abbrev pub handshake_len : ℕ
handshake_len = 68

-- `std::copy_n` out of a buffer: past its end it is undefined.
abbrev pub copy_n : ℕ → Bytes → Outcome Bytes
copy_n n source = if ltb (length source) n then fault else ok (take n source)

-- `HandshakePacket`, in the order of its fields.
pub record HandshakePacket : Type 0 where
  pub pstrlen : ℕ
  pub pstr : Bytes
  pub reserved : Bytes
  pub info_hash : Bytes
  pub peer_id : Bytes

abbrev pub packet_bytes : HandshakePacket → Bytes
packet_bytes p = p.pstrlen ∷ (p.pstr ++ (p.reserved ++ (p.info_hash ++ p.peer_id)))

unfoldable pub serialize_handshake : Bytes → Bytes → Outcome Bytes
serialize_handshake info_hash peer_id = do
  pstr ← copy_n (min 19 (length protocol)) protocol
  hash ← copy_n 20 info_hash
  id ← copy_n 20 peer_id
  ok (
      packet_bytes (record {
        pstrlen = protocol_len;
        pstr = pstr;
        reserved = replicate 8 0;
        info_hash = hash;
        peer_id = id;
      }))

-- The response is an array of 68 bytes, the hash one of 20.
unfoldable pub verify_handshake : Bytes → Bytes → Bool
verify_handshake response expected_info_hash = elim response [
  | [] ↦ false
  | first ∷ rest ↦
      if first == protocol_len
      then if bytes_eq (take protocol_len rest) protocol
        then bytes_eq (take 20 (drop 28 (first ∷ rest))) expected_info_hash
        else false
      else false
]

pub record Peer : Type 0 where
  pub port : ℕ
  pub ip : Bytes

-- `getIpStr`, over an address of four bytes.
unfoldable pub get_ip_str : Peer → Outcome Bytes
get_ip_str p = do
  a ← or_fault (get_elem? p.ip 0)
  b ← or_fault (get_elem? p.ip 1)
  c ← or_fault (get_elem? p.ip 2)
  d ← or_fault (get_elem? p.ip 3)
  let dot = b'.' ∷ []
  ok (to_string a ++ (dot ++ (to_string b ++ (dot ++ (to_string c ++ (dot ++ to_string d))))))
