-- ===== src/PeerSession/Bound.antt =====
-- The bound on the blocks that a session asks for, along the whole session.
use bit_torrent_client.Prelude.{
  ℕ, zero, suc, ◌+◌, ◌-◌, ◌/◌, ◌≤◌, ◌==◌, ◌&&◌, not, List, [], ◌∷◌, Bool, true, false, Option, none,
  some, arith, Bytes, length, ltb, Outcome, ok, throws, fault, out_of_fuel, runtime_error,
  system_error, invalid_argument, out_of_range, length_error, no_answer, inl, inr, if◌then◌else◌,
  Bool-cases,
}
use bit_torrent_client.Bytes.{reader, read_u32, read_remaining, write_u8, write_u32, empty_writer}
use bit_torrent_client.Handshake.{
  msg_code, choke, unchoke, bitfield, piece, interested, handshake_len, serialize_handshake,
  verify_handshake,
}
use bit_torrent_client.PieceManager.{num_pieces, deliver_block}
use bit_torrent_client.PieceManager.BlockSet.{Block, erase}
use bit_torrent_client.PeerSession.{
  return_blocks, fill_pipeline, max_pipeline_size, handle_bitfield, handle_piece,
  handle_bitfield_message, handle_message, read_msg_len, handle_body, run_loop, run, connect,
  do_handshake, endpoint, serve,
}
use bit_torrent_client.PeerSession.Connection.{
  World, Session, and_then, after_try, run_others, async_read, async_write, set_state, error,
  connecting, handshaking, return, ◌>>◌, ◌>>=◌, is_error,
}
use bit_torrent_client.PeerSession.Blocks.{run_others-session, async_write-session}
use bit_torrent_client.PeerSession.Pipeline.{Holds, after, return_each-Holds, length-fill_pipeline}

-- A step that keeps to the bound.
abbrev Bounded {ℓ} : {A : Type ℓ} → Session A → Type 0
Bounded m = (w : World) → Holds max_pipeline_size w → Holds max_pipeline_size (m w).0

module _ {ℓ κ} {A : Type ℓ} {B : Type κ} where
  Bounded-then :
      (r : World × Outcome A) (f : A → Session B)
      → Holds max_pipeline_size r.0
      → ((a : A) → Bounded (f a))
      → Holds max_pipeline_size (and_then r f).0
  Bounded-then r f h k =
      after max_pipeline_size max_pipeline_size r f h (omega arith) (λ a h'. k a r.0 h')

  Bounded-try :
      (r : World × Outcome A) (f : A → Session B) (handler : Session B)
      → Holds max_pipeline_size r.0
      → ((a : A) → Bounded (f a))
      → Bounded handler
      → Holds max_pipeline_size (after_try r f handler).0
  Bounded-try (w, ok a) f handler h k c = k a w h
  Bounded-try (w, throws runtime_error) f handler h k c = c w h
  Bounded-try (w, throws system_error) f handler h k c = c w h
  Bounded-try (w, throws invalid_argument) f handler h k c = h
  Bounded-try (w, throws out_of_range) f handler h k c = h
  Bounded-try (w, throws length_error) f handler h k c = h
  Bounded-try (w, throws no_answer) f handler h k c = h
  Bounded-try (w, fault) f handler h k c = h
  Bounded-try (w, out_of_fuel) f handler h k c = h

Bounded-if {ℓ} :
    {A : Type ℓ} (b : Bool) (m n : Session A) → Bounded m → Bounded n → Bounded (if b then m else n)
Bounded-if true m n h k = h
Bounded-if false m n h k = k

Bounded-elim {ℓ κ} :
    {A : Type ℓ} {B : Type κ} (o : Option A) (m : Session B) (f : A → Session B)
    → Bounded m
    → ((a : A) → Bounded (f a))
    → Bounded (elim o as (λ _. Session B) [ none ↦ m | some a ↦ f a ])
Bounded-elim none m f h k = h
Bounded-elim (some a) m f h k = k a

length-erase : (b : Block) (xs : List Block) → length (erase b xs) ≤ length xs
unfolding erase
length-erase b [] = omega arith
length-erase b (x ∷ xs) = ground (arith, length-erase b xs)

Bounded-fill_pipeline : Bounded fill_pipeline
Bounded-fill_pipeline w h = omega (arith, length-fill_pipeline w)

Bounded-return_blocks : Bounded return_blocks
unfolding return_blocks
Bounded-return_blocks w h = return_each-Holds w.session.pending_blocks w max_pipeline_size h

Bounded-async_write : (message : Bytes) → Bounded (async_write message)
Bounded-async_write message w h = rw (async_write-session message w) h

Bounded-async_read : (n : ℕ) → Bounded (async_read n)
unfolding async_read
Bounded-async_read n w h = elim (Bool-cases (ltb (length (run_others w).incoming) n)) [
  | inl e ↦ rw (e, async_read, run_others-session w) h
  | inr e ↦ rw (e, async_read, run_others-session w) h
]

Bounded-handle_bitfield : (payload : Bytes) → Bounded (handle_bitfield payload)
unfolding handle_bitfield
Bounded-handle_bitfield payload w h =
    Bounded-if (length payload == (num_pieces w.pieces + 7) / 8) _ (set_state error) (λ v h'. h')
      (λ v h'. h') w h

Bounded-handle_bitfield_message : (payload : Bytes) → Bounded (handle_bitfield_message payload)
unfolding handle_bitfield_message
Bounded-handle_bitfield_message payload w h =
    Bounded-then (handle_bitfield payload w) _ (Bounded-handle_bitfield payload w h) λ _ q h'.
      let message = (write_u8 (write_u32 empty_writer 1) (msg_code interested)).bytes in
      Bounded-then (async_write message q) _ (Bounded-async_write message q h') λ _ v h''. h''

module _ (sha1 : Bytes → Bytes) where
  Bounded-handle_piece : (payload : Bytes) → Bounded (handle_piece sha1 payload)
  unfolding handle_piece
  Bounded-handle_piece payload w h =
      Bounded-then (w, read_u32 (reader payload)) _ h
        λ (index, r) q h1.
          Bounded-then (q, read_u32 r) _ h1
            λ (offset, s) v0 h2'.
              let v = run_others v0 in
              let h2 : Holds max_pipeline_size v = rw (run_others-session v0) h2' in
              let d = deliver_block sha1 v.pieces index offset (read_remaining s) in
              Bounded-then (record v { pieces = d.0 }, d.1) _ h2
                λ accepted u h3.
                  Bounded-if accepted _ _
                    (λ x h4. Bounded-fill_pipeline _ (
                      omega (
                        arith,
                        length-erase
                            (record {
                              piece_index = index;
                              offset = offset;
                              size = length payload - 8;
                            })
                            x.session.pending_blocks,
                      )))
                    (λ x h4. h4) u h3

  Bounded-handle_message : (id : ℕ) (payload : Bytes) → Bounded (handle_message sha1 id payload)
  unfolding handle_message
  Bounded-handle_message id payload =
      Bounded-if (id == msg_code choke) _ _ (λ w h. h)
        (Bounded-if (id == msg_code unchoke) _ _ (λ w h. Bounded-fill_pipeline _ h)
          (Bounded-if (id == msg_code bitfield) _ _ (Bounded-handle_bitfield_message payload)
            (Bounded-if (id == msg_code piece) _ _ (Bounded-handle_piece payload) (λ w h. h))))

  Bounded-handle_body : (body : Bytes) → Bounded (handle_body sha1 body)
  unfolding handle_body
  Bounded-handle_body [] w h = h
  Bounded-handle_body (id ∷ payload) w h = Bounded-handle_message id payload w h

  Bounded-read_msg_len : Bounded read_msg_len
  unfolding read_msg_len
  Bounded-read_msg_len w h = Bounded-then (async_read 4 w) _ (Bounded-async_read 4 w h) λ bytes.
      Bounded-elim bytes _ _
        (λ q h'.
          Bounded-then (return_blocks (record q { session = record q.session { state = error } })) _
            (Bounded-return_blocks _ h') (λ _ v h''. h''))
        (λ network_len q h'. h')

  Bounded-run_loop : (f : ℕ) → Bounded (run_loop f sha1)
  unfolding run_loop
  Bounded-run_loop zero w h = h
  Bounded-run_loop (suc f) w h =
      Bounded-if (w.is_open && not (is_error w.session.state)) _ (return tt)
        (λ q h'.
          Bounded-try (read_msg_len q) _ (return tt) (Bounded-read_msg_len q h')
            (λ len.
              Bounded-if (len == 0) _ _ (Bounded-run_loop f) (message len (Bounded-run_loop f)))
            (λ v h''. h''))
        (λ q h'. h') w h
    where
      message :
          (len : ℕ)
          → Bounded (run_loop f sha1)
          → Bounded (
              async_read len >>= λ body. elim body [
                | none ↦ (set_state error >> return_blocks)
                | some buffer ↦ (handle_body sha1 buffer >> run_loop f sha1)
              ])
      message len again q h' =
          Bounded-then (async_read len q) _ (Bounded-async_read len q h') λ body.
            Bounded-elim body _ _ (λ v h''. Bounded-return_blocks _ h'')
              (λ buffer v h''.
                Bounded-then (handle_body sha1 buffer v) _ (Bounded-handle_body buffer v h'')
                  (λ _. again))

Bounded-connect : (reached : Bool) → Bounded (connect reached)
unfolding connect
Bounded-connect reached w h =
    let v = record w { session = record w.session { state = connecting } } in
    Bounded-if reached (return tt) (set_state error) (λ q h'. h') (λ q h'. h') (run_others v)
      (rw (run_others-session v) h)

Bounded-endpoint : Bounded endpoint
unfolding endpoint
Bounded-endpoint w h = Bounded-if w.has_endpoint (return tt) _ (λ q h'. h') (λ q h'. h') w h

Bounded-do_handshake : (info_hash peer_id : Bytes) → Bounded (do_handshake info_hash peer_id)
unfolding do_handshake
Bounded-do_handshake info_hash peer_id w h =
    Bounded-then
      (
        record w { session = record w.session { state = handshaking } },
        serialize_handshake info_hash peer_id,
      )
      _ h
      λ handshake v h1.
        Bounded-then (async_write handshake v) _ (Bounded-async_write handshake v h1) λ written.
          Bounded-if written _ (set_state error)
            (λ q h2.
              Bounded-then (async_read handshake_len q) _ (Bounded-async_read handshake_len q h2)
                λ response.
                  Bounded-elim response (set_state error) _ (λ u h3. h3)
                    (λ bytes.
                      Bounded-if (verify_handshake bytes info_hash) endpoint (set_state error)
                        Bounded-endpoint (λ u h3. h3)))
            (λ q h2. h2)

-- A session whose set of pending blocks has 32 at most when it begins has 32 at most when it ends,
-- after any number of rounds of its loop, whatever the peer sends, whatever the other sessions do,
-- whichever of the writes fail, and however it ends.
pub length-serve :
    (f : ℕ) (sha1 : Bytes → Bytes) (reached : Bool) (info_hash peer_id : Bytes) (w : World)
    → length w.session.pending_blocks ≤ max_pipeline_size
    → length (serve f sha1 reached info_hash peer_id w).0.session.pending_blocks ≤ max_pipeline_size
unfolding serve run
length-serve f sha1 reached info_hash peer_id w h =
    Bounded-then (connect reached w) _ (Bounded-connect reached w h) λ _ q h1.
      Bounded-then (do_handshake info_hash peer_id q) _
        (Bounded-do_handshake info_hash peer_id q h1) λ _ v h2. Bounded-run_loop sha1 f _ h2
