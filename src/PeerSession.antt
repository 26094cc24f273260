-- ===== src/PeerSession.antt =====
-- include/app/peer_session.hpp and src/app/peer_session.cpp: one connection to a peer, as a
-- coroutine over a socket and the piece manager that all sessions share.
--
-- The socket is what the peer sends, whether the connection ends behind that or stays open with a
-- silent peer, and which of the writes succeed. Four threads run the coroutines: the other sessions
-- may run where this one waits and before each of its operations on the piece manager, and `others`
-- says what they do to it each time, in order.
pub mod Connection
pub mod Blocks
pub mod Protocol
pub mod Course
pub mod Steps
pub mod Messages
pub mod Pipeline
pub mod Bound
pub mod Loop
mod Examples
use bit_torrent_client.Prelude.{
  ℕ, zero, suc, ◌+◌, ◌-◌, ◌/◌, ◌%◌, [], ◌∷◌, List, Bool, true, false, ◌&&◌, not, Option, none, some,
  Bytes, length, ltb, ◌==◌, if◌then◌else◌, Outcome, ok, throws, fault, out_of_fuel, runtime_error,
  system_error, get_elem?,
}
use bit_torrent_client.Bytes.{
  ByteWriter, empty_writer, write_u32, write_u8, ByteReader, reader, read_u32, read_remaining,
  from_u32_bytes,
}
use bit_torrent_client.Handshake.{
  MsgId, choke, unchoke, have, bitfield, request, piece, interested, msg_code, serialize_handshake,
  verify_handshake, handshake_len,
}
use bit_torrent_client.PieceManager.{num_pieces, deliver_block, request_block, return_block}
use bit_torrent_client.PieceManager.BlockSet.{Block, insert, erase}
use Connection.{
  PeerState, connecting, handshaking, bitfield_wait, ready, error, PeerSession, World, Session,
  return, ◌>>=◌, ◌>>◌, get, modify, run_others, set_state, async_read, async_write, raise, lift,
  is_error, try_then,
}

abbrev pub max_pipeline_size : ℕ
max_pipeline_size = 32

-- `_returnBlocks`: the set of the session itself stays as it is.
unfoldable pub return_each : List Block → Session (Unit {0})
return_each [] = return tt
return_each (b ∷ bs) = do
  modify run_others
  w ← get
  (done, pm) ← lift (return_block w.pieces b)
  modify λ w. record w { pieces = pm }
  return_each bs

unfoldable pub return_blocks : Session (Unit {0})
return_blocks = do w ← get; return_each w.session.pending_blocks

-- The message that asks for a block.
unfoldable pub request_message : Block → Bytes
request_message b =
    (write_u32
      (write_u32 (write_u32 (write_u8 (write_u32 empty_writer 13) (msg_code request)) b.piece_index)
        b.offset)
      b.size).bytes

-- The write, and what follows it. A block that was not sent is not put into the session's set.
unfoldable pub send_request : Block → Session (Unit {0})
send_request b = do
  sent ← async_write (request_message b)
  if sent
      then modify (λ w. record w {
        session = record w.session { pending_blocks = insert b w.session.pending_blocks };
      })
      else return_blocks

-- `_requestBlock`.
unfoldable pub request_one : Session (Unit {0})
request_one = do
  modify run_others
  w ← get
  (found, pm) ← lift (request_block w.pieces w.session.peer_bitfield)
  modify λ w. record w { pieces = pm }
  elim found [ none ↦ return tt | some b ↦ send_request b ]

unfoldable pub request_times : ℕ → Session (Unit {0})
request_times zero = return tt
request_times (suc n) = do request_one; request_times n

-- `MAX_PIPELINE_SIZE - _pendingBlocks.size()` rounds, or none if that is negative.
unfoldable pub fill_pipeline : Session (Unit {0})
fill_pipeline = do w ← get; request_times (max_pipeline_size - length w.session.pending_blocks)

-- `_handleBitfield`.
unfoldable pub handle_bitfield : Bytes → Session (Unit {0})
handle_bitfield payload = do
  w ← get
  if length payload == (num_pieces w.pieces + 7) / 8
      then modify (λ w. record w { session = record w.session { peer_bitfield = payload } })
      else set_state error

-- The branch of a PIECE message. The session is left if the block was not accepted.
unfoldable pub handle_piece : (Bytes → Bytes) → Bytes → Session (Unit {0})
handle_piece sha1 payload = do
  (index, r) ← lift (read_u32 (reader payload))
  (offset, s) ← lift (read_u32 r)
  modify run_others
  w ← get
  let (pm, result) = deliver_block sha1 w.pieces index offset (read_remaining s)
  modify λ w. record w { pieces = pm }
  accepted ← lift result
  let block : Block = record { piece_index = index; offset = offset; size = length payload - 8 }
  if accepted
      then (modify (λ w. record w {
        session = record w.session { pending_blocks = erase block w.session.pending_blocks };
      })
          >> fill_pipeline)
      else return tt

-- The branch of a BITFIELD message. The outcome of the write is not looked at, and the state is set
-- to READY also behind a malformed bitfield.
unfoldable pub handle_bitfield_message : Bytes → Session (Unit {0})
handle_bitfield_message payload = do
  handle_bitfield payload
  sent ← async_write (write_u8 (write_u32 empty_writer 1) (msg_code interested)).bytes
  set_state ready

-- `_handleMessage`, by the number of the message's type.
unfoldable pub handle_message : (Bytes → Bytes) → ℕ → Bytes → Session (Unit {0})
handle_message sha1 msg_id payload =
    if msg_id == msg_code choke
    then modify (λ w. record w { session = record w.session { peer_choking = true } })
    else if msg_id == msg_code unchoke
    then (modify (λ w. record w { session = record w.session { peer_choking = false } })
        >> fill_pipeline)
    else if msg_id == msg_code bitfield
    then handle_bitfield_message payload
    else if msg_id == msg_code piece
    then handle_piece sha1 payload
    else return tt

-- The number that four bytes in network order stand for.
abbrev pub ntohl : Bytes → ℕ
ntohl (a ∷ b ∷ c ∷ d ∷ []) = from_u32_bytes a b c d
ntohl _ = 0

-- `_readMsgLen`.
unfoldable pub read_msg_len : Session ℕ
read_msg_len = do
  bytes ← async_read 4
  elim bytes [
    | none ↦ (set_state error >> return_blocks >> raise runtime_error)
    | some network_len ↦ return (ntohl network_len)
  ]

-- The message that was read: its type is its first byte.
unfoldable pub handle_body : (Bytes → Bytes) → Bytes → Session (Unit {0})
handle_body sha1 [] = lift fault
handle_body sha1 (msg_id ∷ payload) = handle_message sha1 msg_id payload

-- The loop of `run`. A unit of fuel for each round.
unfoldable pub run_loop : ℕ → (Bytes → Bytes) → Session (Unit {0})
run_loop zero sha1 = lift out_of_fuel
run_loop (suc f) sha1 = do
  w ← get
  let again = run_loop f sha1
  let message = λ (len : ℕ). async_read len >>= λ body. elim body [
    | none ↦ (set_state error >> return_blocks)
    | some buffer ↦ (handle_body sha1 buffer >> again)
  ]
  let round = try_then read_msg_len (λ len. if len == 0 then again else message len) (return tt)
  if w.is_open && not (is_error w.session.state) then round else return tt

unfoldable pub run : ℕ → (Bytes → Bytes) → Session (Unit {0})
run fuel sha1 = set_state bitfield_wait >> run_loop fuel sha1

-- `connect`: the attempt is one wait, and `reached` says whether it succeeds.
unfoldable pub connect : Bool → Session (Unit {0})
connect reached = do
  set_state connecting
  modify run_others
  if reached then return tt else set_state error

-- The log line at the end asks for the remote endpoint, which throws if the peer has gone.
unfoldable pub endpoint : Session (Unit {0})
endpoint = do w ← get; if w.has_endpoint then return tt else raise system_error

-- `doHandshake`. The write is whole if it succeeds.
unfoldable pub do_handshake : Bytes → Bytes → Session (Unit {0})
do_handshake info_hash peer_id = do
  set_state handshaking
  handshake ← lift (serialize_handshake info_hash peer_id)
  written ← async_write handshake
  let answer : Session (Unit {0}) = do
    response ← async_read handshake_len
    elim response [
      | none ↦ set_state error
      | some bytes ↦ if verify_handshake bytes info_hash then endpoint else set_state error
    ]
  if written then answer else set_state error

-- A new session.
abbrev pub new_session : PeerSession
new_session = record {
  am_choking = true;
  am_interested = false;
  peer_choking = true;
  peer_interested = false;
  state = connecting;
  peer_bitfield = [];
  pending_blocks = [];
}

-- The coroutine that the peer manager spawns for a peer. Nothing looks at the state between the
-- steps: a failed handshake is noticed by the loop of `run` alone, which has set the state anew.
unfoldable pub serve : ℕ → (Bytes → Bytes) → Bool → Bytes → Bytes → Session (Unit {0})
serve fuel sha1 reached info_hash peer_id = do
  connect reached
  do_handshake info_hash peer_id
  run fuel sha1
