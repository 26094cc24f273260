-- ===== src/PeerSession/Blocks.antt =====
-- What becomes of the blocks that a session asked for.
use bit_torrent_client.Prelude.{
  ◌≡◌, refl, sym, ◌∙◌, ap, Outcome, ◌&&◌, not, if◌then◌else◌, [], ◌∷◌, List, Bool, true, false, inl,
  inr, ◌++◌, ◌⊎◌, ◌+◌, ◌/◌, ok, Bytes, Bool-cases, ◌==◌, length, arith,
}
use bit_torrent_client.Bytes.{write_u8, write_u32, empty_writer}
use bit_torrent_client.Handshake.{msg_code, interested}
use bit_torrent_client.PieceManager.{PieceManager, num_pieces}
use bit_torrent_client.PieceManager.BlockSet.{Block, contains, same_block}
use bit_torrent_client.PieceManager.Invariant.{IsValid}
use bit_torrent_client.PieceManager.Return.{IsReturned, return_block_lem, same-contains}
use bit_torrent_client.PeerSession.{
  return_each, return_blocks, send_request, handle_bitfield_message, handle_bitfield,
  request_message,
}
use bit_torrent_client.PeerSession.Connection.{
  PeerSession, World, run_others, ready, error, async_write,
}

pub writes-cases :
    (bs : List Bool) → (bs ≡ []) ⊎ ((b : Bool) × (rest : List Bool) × (bs ≡ b ∷ rest))
writes-cases [] = inl refl
writes-cases (b ∷ bs) = inr (b, bs, refl)

pub run_others-session : (w : World) → (run_others w).session ≡ w.session
unfolding run_others
run_others-session w = waited w.others
  where
    waited :
        (fs : List (PieceManager → PieceManager))
        → (elim fs as (λ _. World) [
          | [] ↦ w
          | f ∷ fs ↦ record w { pieces = f w.pieces; others = fs }
        ]).session
          ≡ w.session
    waited [] = refl
    waited (f ∷ fs) = refl

pub async_write-session :
    (message : Bytes) (w : World) → (async_write message w).0.session ≡ w.session
unfolding async_write
async_write-session message w = elim (writes-cases (run_others w).writes) [
  | inl e ↦ rw (e, async_write) (run_others-session w)
  | inr (true, rest, e) ↦ rw (e, async_write) (run_others-session w)
  | inr (false, rest, e) ↦ rw (e, async_write) (run_others-session w)
]

and_false : (b : Bool) → (b && false) ≡ false
and_false true = refl
and_false false = refl

run_others_none : (w : World) → w.others ≡ [] → run_others w ≡ w
unfolding run_others
run_others_none w none_left = rw none_left refl

given_back :
    (pending rest : List Block) (b x : Block)
    → contains b pending ≡ false
    → (contains x pending && not (contains x rest))
      ≡ (contains x pending && not (contains x (b ∷ rest)))
unfolding contains
given_back pending rest b x gone = elim (Bool-cases (same_block x b)) [
  | inl same ↦
      let absent : contains x pending ≡ false = same-contains x b pending same ∙ gone in
      rw absent refl
  | inr apart ↦ rw apart refl
]

-- Giving blocks back always succeeds, whatever has become of them since: they are not pending any
-- more, and every other block is pending or not as before.
return_each_lem :
    (blocks : List Block) (w : World)
    → IsValid w.pieces
    → w.others ≡ []
    → (q : PieceManager) × (return_each blocks w ≡ (record w { pieces = q }, ok tt))
      × ((x : Block)
          → contains x q.pending_blocks
            ≡ (contains x w.pieces.pending_blocks && not (contains x blocks)))
unfolding return_each contains
return_each_lem [] w v none_left = (w.pieces, refl, λ x. ground arith)
return_each_lem (b ∷ bs) w v none_left = elim (return_block_lem w.pieces b v) [
  | inl (held, (q, e, returned, valid)) ↦
      let (r, er, all) = return_each_lem bs (record w { pieces = q }) valid none_left in
      (r, rw (run_others_none w none_left, e) er, λ x. all x ∙ taken x q returned)
  | inr (gone, e) ↦
      let (r, er, all) = return_each_lem bs w v none_left in
      (
        r,
        rw (run_others_none w none_left, e) er,
        λ x. all x ∙ given_back w.pieces.pending_blocks bs b x gone,
      )
]
  where
    taken :
        (x : Block) (q : PieceManager)
        → IsReturned w.pieces b q
        → (contains x q.pending_blocks && not (contains x bs))
          ≡ (contains x w.pieces.pending_blocks && not (contains x (b ∷ bs)))
    taken x q r = elim (Bool-cases (same_block x b)) [
      | inl same ↦
          let free : contains x q.pending_blocks ≡ false =
            same-contains x b q.pending_blocks same ∙ r.free in
          rw (free, same, contains) (sym (and_false (contains x w.pieces.pending_blocks)))
      | inr apart ↦ rw (r.others x apart, contains, apart) refl
    ]

async_write-failed :
    (message : Bytes) (w : World) {later : List Bool}
    → w.writes ≡ false ∷ later
    → w.others ≡ []
    → async_write message w ≡ (record w { writes = later }, ok false)
unfolding async_write run_others
async_write-failed message w writes others = rw (others, writes) refl

-- If the write of a request fails, every block of the session's set is given back, and every other
-- block, the one of the request too if it is not in the set, is pending or not as it was before.
-- This is from a well-formed shared state and if nobody else runs meanwhile.
pub send_request-failed :
    (b : Block) (w : World) {later : List Bool}
    → IsValid w.pieces
    → w.writes ≡ false ∷ later
    → w.others ≡ []
    → (x : Block)
    → contains x (send_request b w).0.pieces.pending_blocks
      ≡ (contains x w.pieces.pending_blocks && not (contains x w.session.pending_blocks))
unfolding send_request return_blocks
send_request-failed b w {later} v writes others x =
    let (q, e, all) =
      return_each_lem w.session.pending_blocks (record w { writes = later }) v others in
    rw (async_write-failed (request_message b) w writes others, e) (all x)

-- A write ends in whether it succeeded.
async_write_lem :
    (message : Bytes) (w : World) → (r : World × Bool) × (async_write message w ≡ (r.0, ok r.1))
unfolding async_write
async_write_lem message w = elim (writes-cases (run_others w).writes) [
  | inl e ↦ (
    (record (run_others w) { sent = (run_others w).sent ++ message ∷ [] }, true),
    rw (e, async_write, e) refl,
  )
  | inr (true, rest, e) ↦ (
    (record (run_others w) { writes = rest; sent = (run_others w).sent ++ message ∷ [] }, true),
    rw (e, async_write) refl,
  )
  | inr (false, rest, e) ↦
      ((record (run_others w) { writes = rest }, false), rw (e, async_write) refl)
]

-- A bitfield of the right size is stored, and behind one of a wrong size the one that was there
-- stays. The session is READY in both cases.
pub handle_bitfield_message-ready :
    (payload : Bytes) (w : World)
    → ((handle_bitfield_message payload w).0.session.state ≡ ready)
      × ((handle_bitfield_message payload w).0.session.peer_bitfield ≡ (
          if length payload == (num_pieces w.pieces + 7) / 8
          then payload
          else w.session.peer_bitfield))
unfolding handle_bitfield_message handle_bitfield
handle_bitfield_message-ready payload w =
    elim (Bool-cases (length payload == (num_pieces w.pieces + 7) / 8)) [
      | inl e ↦
          let q = record w { session = record w.session { peer_bitfield = payload } } in
          let (r, f) = async_write_lem message q in
          let same : r.0.session ≡ q.session = sent_session q r f in
          rw (e, f) (refl, ap (λ (s : PeerSession). s.peer_bitfield) same)
      | inr e ↦
          let q = record w { session = record w.session { state = error } } in
          let (r, f) = async_write_lem message q in
          let same : r.0.session ≡ q.session = sent_session q r f in
          rw (e, f) (refl, ap (λ (s : PeerSession). s.peer_bitfield) same)
    ]
  where
    message : Bytes
    message = (write_u8 (write_u32 empty_writer 1) (msg_code interested)).bytes

    sent_session :
        (q : World) (r : World × Bool)
        → async_write message q ≡ (r.0, ok r.1)
        → r.0.session ≡ q.session
    sent_session q r f =
        sym (ap (λ (x : World × Outcome Bool). x.0.session) f) ∙ async_write-session message q
