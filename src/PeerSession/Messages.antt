-- ===== src/PeerSession/Messages.antt =====
-- What a session does with the messages it receives, and with those it waits for.
use bit_torrent_client.Prelude.{
  ℕ, ◌+◌, ◌/◌, ◌==◌, ◌≤◌, ◌≡◌, refl, [], ◌∷◌, Bool, if◌then◌else◌, ◌⊎◌, none, some, arith, Bytes,
  length, length-drop, drop, take, ltb, ltb→ge, Bool-cases, Option-cases, get_elem?-lt, inl, inr,
  ok, out_of_range, system_error, no_answer, throws, get_elem?, IsSettled, IsSettled-ok,
  IsSettled-throws, IsSettled-fault, IsSettled-bind, IsSettled-if, IsSettled-or_fault,
}
use bit_torrent_client.Bytes.{
  ByteReader, reader, read_u32, read_remaining, write_u8, write_u32, empty_writer,
}
use bit_torrent_client.Handshake.{
  msg_code, choke, unchoke, bitfield, piece, interested, handshake_len, serialize_handshake,
  verify_handshake,
}
use bit_torrent_client.PieceManager.{num_pieces, deliver_block}
use bit_torrent_client.PieceManager.Ends.{IsSettled-deliver_block}
use bit_torrent_client.PieceManager.System.{delivered}
use bit_torrent_client.PeerSession.{
  handle_bitfield, handle_piece, handle_bitfield_message, handle_message, handle_body, connect,
  do_handshake, endpoint,
}
use bit_torrent_client.PeerSession.Connection.{
  World, and_then, return, error, run_others, async_read, async_write, set_state, connecting,
  handshaking,
}
use bit_torrent_client.PeerSession.Protocol.{
  interest, hello, interested_message, serialize_handshake-bytes,
}
use bit_torrent_client.PeerSession.Steps.{Course-run_others, Runs-async_write, Runs-fill_pipeline}
use bit_torrent_client.PeerSession.Course.{
  Fair, Course, Runs, Course-refl, Course-trans, Course-own, Course-step, Runs-from, Runs-ok,
  Runs-if, Runs-elim, Runs-then, Runs-lift,
}

IsSettled-read_u32 : (r : ByteReader) → IsSettled (read_u32 r)
unfolding read_u32
IsSettled-read_u32 r = IsSettled-if _ _ _ (IsSettled-throws _ out_of_range) (
    IsSettled-bind _ _ (IsSettled-or_fault (get_elem? r.buffer r.cursor)) λ a.
      IsSettled-bind _ _ (IsSettled-or_fault (get_elem? r.buffer (r.cursor + 1))) λ b.
        IsSettled-bind _ _ (IsSettled-or_fault (get_elem? r.buffer (r.cursor + 2))) λ c.
          IsSettled-bind _ _ (IsSettled-or_fault (get_elem? r.buffer (r.cursor + 3)))
            λ d. IsSettled-ok _)

IsSettled-serialize_handshake : (hash id : Bytes) → IsSettled (serialize_handshake hash id)
unfolding serialize_handshake
IsSettled-serialize_handshake hash id =
    IsSettled-bind _ _
      (IsSettled-if (ltb (length hash) 20) _ _ (IsSettled-fault _) (IsSettled-ok (take 20 hash)))
      λ h.
        IsSettled-bind _ _
          (IsSettled-if (ltb (length id) 20) _ _ (IsSettled-fault _) (IsSettled-ok (take 20 id)))
          λ i. IsSettled-ok _

module _ (sha1 : Bytes → Bytes) where
  -- A read takes its bytes off what the peer sends, or the connection has ended, or it never ends.
  pub async_read-cases :
      (n : ℕ) (w : World)
      → Fair sha1 w.others
      → ((q : World) × (async_read n w ≡ (q, ok none)) × Course sha1 w q)
        ⊎ (((q : World) × (bytes : Bytes) × (async_read n w ≡ (q, ok (some bytes)))
              × Course sha1 w q
              × (length q.incoming + n ≤ length w.incoming))
            ⊎ ((q : World) × (async_read n w ≡ (q, throws no_answer)) × Course sha1 w q))
  unfolding async_read
  async_read-cases n w fair =
      let c = Course-run_others sha1 w fair in
      let left = length-drop n (run_others w).incoming in
      let ended : Course sha1 w (record (run_others w) { incoming = [] }) = record {
        reach = c.reach;
        fair = c.fair;
        shorter = omega arith;
        talk = c.talk;
      } in
      elim (Bool-cases (ltb (length (run_others w).incoming) n)) [
        | inl e ↦ elim (Bool-cases (run_others w).is_silent) [
          | inl s ↦ inr (inr (record (run_others w) { incoming = [] }, rw (e, s) refl, ended))
          | inr s ↦ inl (record (run_others w) { incoming = [] }, rw (e, s) refl, ended)
        ]
        | inr e ↦ inr (
            inl (
              record (run_others w) { incoming = drop n (run_others w).incoming },
              take n (run_others w).incoming,
              rw e refl,
              record {
                reach = c.reach;
                fair = c.fair;
                shorter = omega (arith, left, c.shorter);
                talk = c.talk;
              },
              omega (arith, left, c.shorter, ltb→ge _ _ e),
            ))
      ]

  Runs-async_read : (n : ℕ) (w : World) → Fair sha1 w.others → Runs sha1 w (async_read n w)
  Runs-async_read n w fair = elim (async_read-cases n w fair) [
    | inl (q, e, c) ↦ rw e (Runs-ok none c)
    | inr (inl (q, bytes, e, c, less)) ↦ rw e (Runs-ok (some bytes) c)
    | inr (inr (q, e, c)) ↦ rw e (record { course = c; settled = IsSettled-throws _ no_answer })
  ]

  Runs-handle_bitfield :
      (payload : Bytes) (w : World) → Fair sha1 w.others → Runs sha1 w (handle_bitfield payload w)
  unfolding handle_bitfield
  Runs-handle_bitfield payload w fair =
      Runs-if (length payload == (num_pieces w.pieces + 7) / 8) _ (set_state error)
        (Runs-ok tt (Course-own w _ fair)) (Runs-ok tt (Course-own w _ fair))

  Runs-handle_bitfield_message :
      (payload : Bytes) (w : World)
      → Fair sha1 w.others
      → Runs sha1 w (handle_bitfield_message payload w)
  unfolding handle_bitfield_message
  Runs-handle_bitfield_message payload w fair =
      let first = Runs-handle_bitfield payload w fair in
      Runs-then (handle_bitfield payload w) _ first λ _ _.
        let q = (handle_bitfield payload w).0 in
        let message = (write_u8 (write_u32 empty_writer 1) (msg_code interested)).bytes in
        let write =
          Runs-async_write sha1 message q first.course.fair (λ s. interest interested_message) in
        Runs-then (async_write message q) _ write
          λ sent _. Runs-ok tt (Course-own (async_write message q).0 _ write.course.fair)

  -- An index that is no piece is undefined behaviour: the operation is not carried out.
  delivering :
      (w : World)
      → Fair sha1 w.others
      → (index offset : ℕ) (new : Bytes)
      → Course sha1 w (record w { pieces = (deliver_block sha1 w.pieces index offset new).0 })
  unfolding deliver_block
  delivering w fair index offset new = elim (Option-cases (get_elem? w.pieces.finished index)) [
    | inl e ↦ rw (e, deliver_block) (Course-refl fair)
    | inr (done, e) ↦
        Course-step w (deliver_block sha1 w.pieces index offset new).0 fair
          (delivered index offset new (get_elem?-lt w.pieces.finished index e) refl)
  ]

  Runs-handle_piece :
      (payload : Bytes) (w : World) → Fair sha1 w.others → Runs sha1 w (handle_piece sha1 payload w)
  unfolding handle_piece
  Runs-handle_piece payload w fair =
      Runs-lift (read_u32 (reader payload)) _ fair (IsSettled-read_u32 (reader payload))
        λ (index, r) _. Runs-lift (read_u32 r) _ fair (IsSettled-read_u32 r) λ (offset, s) _.
          let v = run_others w in
          let c = Course-run_others sha1 w fair in
          let d = deliver_block sha1 v.pieces index offset (read_remaining s) in
          let q = record v { pieces = d.0 } in
          Runs-from (Course-trans c (delivering v c.fair index offset (read_remaining s))) (
            Runs-lift d.1 _ c.fair
              (IsSettled-deliver_block sha1 v.pieces index offset (read_remaining s))
              λ accepted _.
                Runs-if accepted _ _
                  (Runs-from (Course-own q _ c.fair) (Runs-fill_pipeline sha1 _ c.fair))
                  (Runs-ok tt (Course-refl c.fair)))

  Runs-handle_message :
      (id : ℕ) (payload : Bytes) (w : World)
      → Fair sha1 w.others
      → Runs sha1 w (handle_message sha1 id payload w)
  unfolding handle_message
  Runs-handle_message id payload w fair =
      Runs-if (id == msg_code choke) _ _ (Runs-ok tt (Course-own w _ fair)) (
        Runs-if (id == msg_code unchoke) _ _
          (Runs-from (Course-own w _ fair) (Runs-fill_pipeline sha1 _ fair))
          (Runs-if (id == msg_code bitfield) _ _ (Runs-handle_bitfield_message payload w fair) (
            Runs-if (id == msg_code piece) _ _ (Runs-handle_piece payload w fair)
              (Runs-ok tt (Course-refl fair)))))

  pub Runs-handle_body :
      (body : Bytes) (w : World) → Fair sha1 w.others → Runs sha1 w (handle_body sha1 body w)
  unfolding handle_body
  Runs-handle_body [] w fair = record { course = Course-refl fair; settled = IsSettled-fault _ }
  Runs-handle_body (id ∷ payload) w fair = Runs-handle_message id payload w fair

  pub Runs-connect :
      (reached : Bool) (w : World) → Fair sha1 w.others → Runs sha1 w (connect reached w)
  unfolding connect
  Runs-connect reached w fair =
      let c = Course-trans (Course-own w _ fair) (
        Course-run_others sha1 (record w { session = record w.session { state = connecting } })
          fair) in
      Runs-from c (
        Runs-if reached _ (set_state error) (Runs-ok tt (Course-refl c.fair))
          (Runs-ok tt (Course-own _ _ c.fair)))

  Runs-endpoint : (w : World) → Fair sha1 w.others → Runs sha1 w (endpoint w)
  unfolding endpoint
  Runs-endpoint w fair =
      Runs-if w.has_endpoint (return tt) _ (Runs-ok tt (Course-refl fair))
        (record { course = Course-refl fair; settled = IsSettled-throws _ system_error })

  pub Runs-do_handshake :
      (info_hash peer_id : Bytes) (w : World)
      → Fair sha1 w.others
      → Runs sha1 w (do_handshake info_hash peer_id w)
  unfolding do_handshake
  Runs-do_handshake info_hash peer_id w fair =
      let v = record w { session = record w.session { state = handshaking } } in
      Runs-from (Course-own w v.session fair) (
        Runs-lift (serialize_handshake info_hash peer_id) _ fair
          (IsSettled-serialize_handshake info_hash peer_id)
          λ handshake said.
            let write =
              Runs-async_write sha1 handshake v fair
                (λ s. hello info_hash peer_id (serialize_handshake-bytes info_hash peer_id said)) in
            Runs-then (async_write handshake v) _ write λ written _.
              Runs-if written _ (set_state error)
                (answered (async_write handshake v).0 write.course.fair)
                (Runs-ok tt (Course-own _ _ write.course.fair)))
    where
      answered :
          (q : World)
          → Fair sha1 q.others
          → Runs sha1 q (
              and_then (async_read handshake_len q) (λ response. elim response [
                | none ↦ set_state error
                | some bytes ↦
                    if verify_handshake bytes info_hash then endpoint else set_state error
              ]))
      answered q fair =
          let reading = Runs-async_read handshake_len q fair in
          let v = (async_read handshake_len q).0 in
          Runs-then (async_read handshake_len q) _ reading λ response _.
            Runs-elim response (set_state error) _ (Runs-ok tt (Course-own v _ reading.course.fair))
              (λ bytes _.
                Runs-if (verify_handshake bytes info_hash) endpoint (set_state error)
                  (Runs-endpoint v reading.course.fair)
                  (Runs-ok tt (Course-own v _ reading.course.fair)))
