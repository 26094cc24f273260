-- ===== src/PeerSession/Loop.antt =====
-- The loop of a session, and the session as a whole.
use bit_torrent_client.Prelude.{
  [], ℕ, zero, suc, ◌==◌, ◌<◌, ◌≡◌, ◌≢◌, refl, Bool, ◌&&◌, not, none, some, arith, Bytes, length,
  inl, inr, Outcome, ok, throws, fault, out_of_fuel, Error, runtime_error, no_answer,
  IsSettled-throws,
}
use bit_torrent_client.PieceManager.System.{Reach}
use bit_torrent_client.PieceManager.BlockSet.{All}
use bit_torrent_client.PeerSession.Protocol.{IsMessage}
use bit_torrent_client.PieceManager.System.Safety.{IsSafe, Reach-IsSafe}
use bit_torrent_client.PeerSession.{
  return_blocks, read_msg_len, handle_body, run_loop, run, serve, connect, do_handshake, ntohl,
}
use bit_torrent_client.PeerSession.Connection.{
  World, Session, ◌>>◌, and_then, after_try, raise, return, error, set_state, async_read, is_error,
}
use bit_torrent_client.PeerSession.Steps.{Runs-return_blocks}
use bit_torrent_client.PeerSession.Messages.{
  async_read-cases, Runs-handle_body, Runs-connect, Runs-do_handshake,
}
use bit_torrent_client.PeerSession.Course.{
  Fair, Course, Runs, Course-refl, Course-trans, Course-own, Runs-from, Runs-ok, Runs-if, Runs-then,
  Runs-try,
}

-- The world of a session that has met an error.
abbrev failed : World → World
failed w = record w { session = record w.session { state = error } }

read_msg_len-ended :
    (w q : World)
    → async_read 4 w ≡ (q, ok none)
    → read_msg_len w ≡ and_then (return_blocks (failed q)) (λ _. raise runtime_error)
unfolding read_msg_len
read_msg_len-ended w q e = rw e refl

read_msg_len-read :
    (w q : World) (bytes : Bytes)
    → async_read 4 w ≡ (q, ok (some bytes))
    → read_msg_len w ≡ (q, ok (ntohl bytes))
unfolding read_msg_len
read_msg_len-read w q bytes e = rw e refl

read_msg_len-silent :
    (w q : World) → async_read 4 w ≡ (q, throws no_answer) → read_msg_len w ≡ (q, throws no_answer)
unfolding read_msg_len
read_msg_len-silent w q e = rw e refl

raise-never_ok :
    {A B : Type 0} (r : World × Outcome A) (e : Error) (b : B)
    → (and_then r (λ _. raise e)).1 ≢ ok b
raise-never_ok (q, ok a) e b h = cc
raise-never_ok (q, throws x) e b h = cc
raise-never_ok (q, fault) e b h = cc
raise-never_ok (q, out_of_fuel) e b h = cc

module _ (sha1 : Bytes → Bytes) where
  -- The connection ends before the length of a message.
  Runs-ended :
      (w q : World) (f : ℕ → Session (Unit {0}))
      → async_read 4 w ≡ (q, ok none)
      → Course sha1 w q
      → Runs sha1 w (after_try (read_msg_len w) f (return tt))
  Runs-ended w q f e c =
      let back = Runs-return_blocks sha1 (failed q) c.fair in
      let raised =
        Runs-then {B = ℕ} (return_blocks (failed q)) (λ _. raise runtime_error) back
          (λ _ _. record {
            course = Course-refl back.course.fair;
            settled = IsSettled-throws ℕ runtime_error;
          }) in
      rw (read_msg_len-ended w q e) (
        Runs-try _ f (return tt) (Runs-from (Course-trans c (Course-own q _ c.fair)) raised)
          (λ len h. absurd (raise-never_ok (return_blocks (failed q)) runtime_error len h))
          (λ v d. Runs-ok tt (Course-refl d.fair)))

  -- A message is read and handled, and `again` is what follows.
  Runs-message :
      (again : Session (Unit {0})) (f : ℕ)
      → ((v : World) → Fair sha1 v.others → length v.incoming < f → Runs sha1 v (again v))
      → (q : World) (len : ℕ) → Fair sha1 q.others
      → length q.incoming < f
      → Runs sha1 q (
          and_then (async_read len q) (λ body. elim body [
            | none ↦ (set_state error >> return_blocks)
            | some buffer ↦ (handle_body sha1 buffer >> again)
          ]))
  Runs-message again f h q len fair enough = elim (async_read-cases sha1 len q fair) [
    | inl (v, e, c) ↦ rw e (
        Runs-from (Course-trans c (Course-own v _ c.fair))
          (Runs-return_blocks sha1 (failed v) c.fair))
    | inr (inr (v, e, c)) ↦ rw e (record { course = c; settled = IsSettled-throws _ no_answer })
    | inr (inl (v, buffer, e, c, less)) ↦
        let body = Runs-handle_body sha1 buffer v c.fair in
        rw e (
          Runs-from c (
            Runs-then (handle_body sha1 buffer v) _ body λ _ _.
              h (handle_body sha1 buffer v).0 body.course.fair
                (omega (arith, body.course.shorter))))
  ]

  Runs-run_loop :
      (f : ℕ) (w : World)
      → Fair sha1 w.others
      → length w.incoming < f
      → Runs sha1 w (run_loop f sha1 w)
  unfolding run_loop
  Runs-run_loop zero w fair enough = absurd (omega arith)
  Runs-run_loop (suc f) w fair enough =
      Runs-if (w.is_open && not (is_error w.session.state)) _ (return tt)
        (elim (async_read-cases sha1 4 w fair) [
          | inl (q, e, c) ↦ Runs-ended w q _ e c
          | inr (inr (q, e, c)) ↦
              rw (read_msg_len-silent w q e)
                (record { course = c; settled = IsSettled-throws _ no_answer })
          | inr (inl (q, bytes, e, c, less)) ↦ rw (read_msg_len-read w q bytes e) (
              Runs-from c (
                Runs-if (ntohl bytes == 0) _ _ (Runs-run_loop f q c.fair (omega arith)) (
                  Runs-message (run_loop f sha1) f (Runs-run_loop f) q (ntohl bytes) c.fair
                    (omega arith))))
        ])
        (Runs-ok tt (Course-refl fair))

  Runs-run :
      (f : ℕ) (w : World) → Fair sha1 w.others → length w.incoming < f → Runs sha1 w (run f sha1 w)
  unfolding run
  Runs-run f w fair enough = Runs-from (Course-own w _ fair) (Runs-run_loop f _ fair enough)

  Runs-serve :
      (f : ℕ) (reached : Bool) (info_hash peer_id : Bytes) (w : World)
      → Fair sha1 w.others
      → length w.incoming < f
      → Runs sha1 w (serve f sha1 reached info_hash peer_id w)
  unfolding serve
  Runs-serve f reached info_hash peer_id w fair enough =
      let first = Runs-connect sha1 reached w fair in
      let q = (connect reached w).0 in
      Runs-then (connect reached w) _ first λ _ _.
        let second = Runs-do_handshake sha1 info_hash peer_id q first.course.fair in
        Runs-then (do_handshake info_hash peer_id q) _ second λ _ _.
          Runs-run f (do_handshake info_hash peer_id q).0 second.course.fair
            (omega (arith, first.course.shorter, second.course.shorter))

pub serve-Reach :
    (sha1 : Bytes → Bytes) (f : ℕ) (reached : Bool) (info_hash peer_id : Bytes) (w : World)
    → Fair sha1 w.others
    → length w.incoming < f
    → Reach sha1 w.pieces (serve f sha1 reached info_hash peer_id w).0.pieces
serve-Reach sha1 f reached info_hash peer_id w fair enough =
    (Runs-serve sha1 f reached info_hash peer_id w fair enough).course.reach

-- Whatever the peer sends, a session sends messages of the protocol only, byte for byte: a
-- handshake, the interest, and requests for blocks that lie inside their pieces and have one byte
-- at least and 16384 at most. This is from a well-formed piece manager with the file open, if what
-- the others do each time that they run is a sequence of its operations, and with a round of the
-- loop for each byte that the peer sends and one more.
pub serve-IsMessage :
    (sha1 : Bytes → Bytes) (f : ℕ) (reached : Bool) (info_hash peer_id : Bytes) (w : World)
    → Fair sha1 w.others
    → length w.incoming < f
    → IsSafe w.pieces
    → w.sent ≡ []
    → All (IsMessage w.pieces.metadata) (serve f sha1 reached info_hash peer_id w).0.sent
serve-IsMessage sha1 f reached info_hash peer_id w fair enough safe silent =
    (Runs-serve sha1 f reached info_hash peer_id w fair enough).course.talk safe (rw silent tt)

-- A session leaves the shared piece manager well formed and its file open, if it was so before,
-- whatever the peer sends. This is if what the others do each time that they run is a sequence of
-- the piece manager's operations, and with a round of the loop for each byte that the peer sends
-- and one more.
pub serve-IsSafe :
    (sha1 : Bytes → Bytes) (f : ℕ) (reached : Bool) (info_hash peer_id : Bytes) (w : World)
    → Fair sha1 w.others
    → length w.incoming < f
    → IsSafe w.pieces
    → IsSafe (serve f sha1 reached info_hash peer_id w).0.pieces
serve-IsSafe sha1 f reached info_hash peer_id w fair enough safe =
    Reach-IsSafe safe (serve-Reach sha1 f reached info_hash peer_id w fair enough)
