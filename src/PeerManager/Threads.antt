-- ===== src/PeerManager/Threads.antt =====
-- The end of a download: the threads are joined.
use bit_torrent_client.Prelude.{
  ◌≡◌, List, Bytes, replicate, ok, throws, system_error, Returns, Returns-bind, Returns-any, refl,
}
use bit_torrent_client.PeerManager.{
  PeerManager, empty_thread, init, start, stop, join_all, deserialize_peer_buffer,
}

-- Nothing but the four empty threads is in the pool that the constructor makes.
init-pool :
    (peer_buffer : List Bytes) (info_hash peer_id : Bytes)
    → Returns (λ pm. pm.thread_pool ≡ replicate 4 empty_thread) (init peer_buffer info_hash peer_id)
unfolding init
init-pool peer_buffer info_hash peer_id =
    Returns-bind (λ _. Unit {0}) (λ pm. pm.thread_pool ≡ replicate 4 empty_thread) _ _
      (Returns-any (deserialize_peer_buffer peer_buffer)) λ peers _. refl

empty_head :
    (pm : PeerManager)
    → pm.thread_pool ≡ replicate 4 empty_thread
    → stop (start pm) ≡ throws system_error
unfolding start stop join_all
empty_head pm h = rw h

-- Whatever the tracker replied, `stop` throws on a peer manager that the constructor made and
-- `start` ran on: the four threads that the constructor leaves empty cannot be joined.
pub stop-start-init :
    (peer_buffer : List Bytes) (info_hash peer_id : Bytes) {pm : PeerManager}
    → init peer_buffer info_hash peer_id ≡ ok pm
    → stop (start pm) ≡ throws system_error
unfolding init start stop join_all
stop-start-init peer_buffer info_hash peer_id {pm} e =
    empty_head pm (rw (e, Returns) at (init-pool peer_buffer info_hash peer_id))
