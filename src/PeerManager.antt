-- ===== src/PeerManager.antt =====
-- src/app/peer_manager.cpp: the peers of the tracker's reply, and the threads that serve them.
pub mod Buffer
pub mod Threads
use bit_torrent_client.Prelude.{
  ℕ, zero, suc, ◌+◌, ◌*◌, ◌%◌, ◌^◌, [], ◌∷◌, ◌++◌, List, Bool, true, false, Bytes, take, get_elem?,
  replicate, Outcome, ok, throws, system_error, or_fault, ◌>>=◌, bit_or,
}
use bit_torrent_client.Handshake.{Peer, copy_n}

-- One round of the loop of `_deserializePeerBuffer`: four bytes of address, two of port.
unfoldable pub deserialize_peer : Bytes → Outcome Peer
deserialize_peer entry = do
  ip ← copy_n 4 entry
  high ← or_fault (get_elem? entry 4)
  low ← or_fault (get_elem? entry 5)
  ok (record { port = bit_or (high * 2 ^ 8) low % 2 ^ 16; ip = ip })

unfoldable pub deserialize_peer_buffer : List Bytes → Outcome (List Peer)
deserialize_peer_buffer [] = ok []
deserialize_peer_buffer (entry ∷ entries) = do
  peer ← deserialize_peer entry
  peers ← deserialize_peer_buffer entries
  ok (peer ∷ peers)

-- A `std::thread`: one that was default-constructed runs nothing and cannot be joined.
pub data Thread : Type 0 where
  empty_thread : Thread
  running : Thread
  joined : Thread

pub record PeerManager : Type 0 where
  pub peers : List Peer
  pub info_hash : Bytes
  pub peer_id : Bytes
  pub thread_pool : List Thread
  pub sessions : List Peer

-- The constructor: `_threadPool(4)` makes four empty threads.
unfoldable pub init : List Bytes → Bytes → Bytes → Outcome PeerManager
init peer_buffer info_hash peer_id = do
  peers ← deserialize_peer_buffer peer_buffer
  ok (record {
    peers = peers;
    info_hash = info_hash;
    peer_id = peer_id;
    thread_pool = replicate 4 empty_thread;
    sessions = [];
  })

-- `start`: a session for each peer, then four threads behind those of the pool.
unfoldable pub start : PeerManager → PeerManager
start pm = record pm {
  sessions = pm.sessions ++ pm.peers;
  thread_pool = pm.thread_pool ++ replicate 4 running;
}

-- `std::thread::join`.
abbrev pub join : Thread → Outcome Thread
join empty_thread = throws system_error
join running = ok joined
join joined = throws system_error

unfoldable pub join_all : List Thread → Outcome (List Thread)
join_all [] = ok []
join_all (t ∷ ts) = do t' ← join t; ts' ← join_all ts; ok (t' ∷ ts')

-- The pool that the loop of `stop` leaves, also if it throws: the threads before the first that
-- cannot be joined are joined.
unfoldable pub join_until : List Thread → List Thread
join_until [] = []
join_until (running ∷ ts) = joined ∷ join_until ts
join_until (t ∷ ts) = t ∷ ts

-- The destructor, which is that of its threads: whether a thread is still running, which ends the
-- whole program.
unfoldable pub destroy_threads : List Thread → Bool
destroy_threads [] = false
destroy_threads (running ∷ ts) = true
destroy_threads (t ∷ ts) = destroy_threads ts

unfoldable pub stop : PeerManager → Outcome PeerManager
stop pm = do threads ← join_all pm.thread_pool; ok (record pm { thread_pool = threads })
