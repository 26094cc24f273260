-- ===== src/PieceManager/Deliver.antt =====
-- `deliverBlock`: what a block that arrives does to the state.
use bit_torrent_client.Prelude.{
  ℕ, ◌+◌, ◌*◌, ◌%◌, ◌^◌, ◌≤◌, ◌<◌, ◌≡◌, ◌≢◌, inl, inr, refl, sym, ◌∙◌, subst, ap, Bool, true, false,
  Option, none, some, arith, Bytes, bytes_eq, bytes_eq_iff, length, get_elem?, set, ltb, ◌==◌,
  Outcome, ok, Bool-cases, get_elem?-exists, get_elem?-set_self, length-set, ltb→lt, ltb→ge, lt→ltb,
  ge→ltb,
}
use bit_torrent_client.FileHandler.{FileHandler, stream_write, write_piece}
use bit_torrent_client.FileHandler.Stream.{stream_write-keeps, write_piece-open}
use bit_torrent_client.PieceManager.{
  PieceManager, PendingPiece, block_at, num_pieces, update, copy_into, verify_hash, finish_piece,
  receive, deliver_block,
}
use bit_torrent_client.PieceManager.BlockSet.{erase, All, All-erase}
use bit_torrent_client.PieceManager.Invariant.{IsValid, IsPending, get_piece_length_lem}
use bit_torrent_client.PieceManager.Pending.{
  PendingOk, PendingExcept, IsValidExcept, update-other, with_pending, update-some, update-none,
  ensure_pending_lem, length-copy_into,
}
use bit_torrent_client.PieceManager.Delivery.{
  Delivery, Held, Before, known, refused, stored, completed, mismatched,
}
use bit_torrent_client.PieceManager.Finish.{
  idx-lt, marked, marked-IsValid, woken-IsValid, mark_finished_lem, woken-fields, woken-notified,
}

update_self :
    (m : ℕ → Option PendingPiece) (i : ℕ) (entry : Option PendingPiece) → update m i entry i ≡ entry
unfolding update
update_self m i entry = ground arith

-- A pair of a state and a result is a delivery, and leaves the state well formed.
abbrev Delivers :
    (Bytes → Bytes) → PieceManager → ℕ → ℕ → Bytes → PieceManager × Outcome Bool → Type 0
Delivers sha1 pm idx offset new r = Delivery sha1 pm idx offset new r.0 r.1 × IsValid r.0

module _ (sha1 : Bytes → Bytes) (pm : PieceManager) (idx offset : ℕ) (new : Bytes) (v : IsValid pm)
    (open_piece : get_elem? pm.finished idx ≡ some false)
    (writable : pm.file_handler.is_open ≡ true) (m : ℕ → Option PendingPiece)
    (others : PendingOk pm.metadata pm.finished m) (before : PendingPiece)
    (pending : IsPending pm.metadata pm.finished idx before)
    (fits : offset + length new ≤ length before.buffer) (held : Held pm idx before) where
  abbrev old : Before pm idx
  old = record { piece = before; held = held }

  abbrev buffer : Bytes
  buffer = copy_into before.buffer offset new

  abbrev piece : PendingPiece
  piece = record before { buffer = buffer; blocks_received = before.blocks_received + 1 }

  abbrev received : PieceManager
  received = record pm {
    pending_pieces = update m idx (some piece);
    pending_blocks = erase (block_at idx (length buffer) offset) pm.pending_blocks;
  }

  abbrev write_done : FileHandler
  write_done = stream_write pm.file_handler (idx * pm.file_handler.piece_size % 2 ^ 64) new

  abbrev stored_state : PieceManager
  stored_state = record received { file_handler = write_done }

  blocks-ok : All (λ b. b.piece_index < num_pieces pm) received.pending_blocks
  blocks-ok =
      All-erase (λ b. b.piece_index < num_pieces pm) (block_at idx (length buffer) offset)
        pm.pending_blocks v.blocks

  others-ok : PendingExcept idx pm.metadata pm.finished received.pending_pieces
  others-ok = update-other pm.metadata pm.finished m idx (some piece) (λ i p _ e. others i p e)

  stored-IsValidExcept : IsValidExcept idx stored_state
  stored-IsValidExcept = record {
    supported = v.supported;
    place = (stream_write-keeps pm.file_handler _ new).1 ∙ v.place;
    hashes = v.hashes;
    offsets = v.offsets;
    marks = v.marks;
    others = others-ok;
    blocks = blocks-ok;
  }

  size-kept : length buffer ≡ length before.buffer
  size-kept = length-copy_into before.buffer offset new fits

  piece-IsPending :
      before.blocks_received + 1 ≢ before.total_blocks_needed
      → IsPending pm.metadata pm.finished idx piece
  piece-IsPending lacking = record {
    unfinished = open_piece;
    sized = rw size-kept pending.sized;
    needed = rw size-kept pending.needed;
    short = omega (arith, pending.short);
  }

  -- The piece lacks other blocks.
  received-IsValid : before.blocks_received + 1 ≢ before.total_blocks_needed → IsValid received
  received-IsValid lacking = record {
    supported = v.supported;
    place = v.place;
    hashes = v.hashes;
    offsets = v.offsets;
    marks = v.marks;
    pending =
        update-some pm.metadata pm.finished m idx piece (piece-IsPending lacking)
          (λ i p _ e. others i p e);
    blocks = blocks-ok;
  }

  abbrev dropped : PieceManager
  dropped = record received {
    pending_pieces = update received.pending_pieces idx none;
    next_offsets = set pm.next_offsets idx 0;
  }

  dropped-IsValid : IsValid dropped
  dropped-IsValid = record {
    supported = v.supported;
    place = v.place;
    hashes = v.hashes;
    offsets = length-set pm.next_offsets idx 0 ∙ v.offsets;
    marks = v.marks;
    pending = update-none pm.metadata pm.finished received.pending_pieces idx others-ok;
    blocks = blocks-ok;
  }

  -- The assertion of `writePiece` holds.
  new-small : length new ≤ pm.file_handler.piece_size
  new-small =
      let (len, e, positive, le) = get_piece_length_lem pm.metadata idx v.supported in
      let same : length before.buffer ≡ len = cc (e, pending.sized) in
      omega (arith, fits, same, le, v.place)

  write_lem : write_piece pm.file_handler idx new ≡ ok write_done
  write_lem = write_piece-open pm.file_handler idx new writable new-small

  in_range : idx < num_pieces pm
  in_range = idx-lt stored_state idx stored-IsValidExcept open_piece

  finish-match :
      get_elem? pm.verification_hashes idx ≡ some (sha1 buffer)
      → Delivers sha1 pm idx offset new (finish_piece sha1 received idx buffer new)
  unfolding finish_piece verify_hash
  finish-match found =
      let (byte, byte_at, done) =
        mark_finished_lem stored_state idx stored-IsValidExcept open_piece in
      let q = marked stored_state idx stored-IsValidExcept open_piece byte in
      let valid = marked-IsValid stored_state idx stored-IsValidExcept open_piece byte byte_at in
      let fields = woken-fields stored_state idx stored-IsValidExcept open_piece q in
      rw (found, (bytes_eq_iff (sha1 buffer) (sha1 buffer)).1 refl, write_lem, done)
        (
          completed buffer (rw size-kept pending.sized)
              (subst (λ hs. get_elem? hs idx ≡ some (sha1 buffer)) v.hashes found) old refl fields.0
              fields.1
              (ap (λ (f : ℕ → Option PendingPiece). f idx) fields.2
                ∙ update_self received.pending_pieces idx none)
              (write_lem ∙ ap ok (sym fields.3))
              (woken-notified stored_state idx stored-IsValidExcept open_piece q) fields.4 fields.5
              refl,
          woken-IsValid stored_state idx stored-IsValidExcept open_piece q valid,
        )

  finish-mismatch :
      (expected : Bytes)
      → get_elem? pm.verification_hashes idx ≡ some expected
      → bytes_eq expected (sha1 buffer) ≡ false
      → Delivers sha1 pm idx offset new (finish_piece sha1 received idx buffer new)
  unfolding finish_piece verify_hash
  finish-mismatch expected found e =
      rw (found, e)
        (
          mismatched buffer expected (rw size-kept pending.sized)
              (subst (λ hs. get_elem? hs idx ≡ some expected) v.hashes found)
              (λ same. cc (e, (bytes_eq_iff expected (sha1 buffer)).1 same)) old refl refl refl
              (update_self received.pending_pieces idx none)
              (get_elem?-set_self pm.next_offsets idx 0 (omega (arith, in_range, v.offsets))) refl
              refl refl,
          dropped-IsValid,
        )

  finish-Delivers : Delivers sha1 pm idx offset new (finish_piece sha1 received idx buffer new)
  finish-Delivers =
      let (expected, found) =
        get_elem?-exists pm.verification_hashes idx (omega (arith, in_range, ap length v.hashes)) in
      elim (Bool-cases (bytes_eq expected (sha1 buffer))) [
        | inl e ↦ finish-match (found ∙ ap some ((bytes_eq_iff expected (sha1 buffer)).0 e))
        | inr e ↦ finish-mismatch expected found e
      ]

  receive-Delivers :
      Delivers sha1 pm idx offset new (receive sha1 (with_pending pm m) before idx offset new)
  unfolding receive
  receive-Delivers =
      let inside = ge→ltb (length before.buffer) (offset + length new) fits in
      elim (Bool-cases (before.blocks_received + 1 == before.total_blocks_needed)) [
        | inl all ↦ rw (inside, all) finish-Delivers
        | inr some_lack ↦
            rw (inside, some_lack)
              (
                stored old piece (update_self m idx (some piece)) refl refl (rw size-kept fits) refl
                    refl refl refl refl,
                received-IsValid (λ e. ground arith),
              )
      ]

receive-refused :
    (sha1 : Bytes → Bytes) (pm : PieceManager) (idx offset : ℕ) (new : Bytes)
    → IsValid pm
    → (m : ℕ → Option PendingPiece) → PendingOk pm.metadata pm.finished m
    → (before : PendingPiece) → IsPending pm.metadata pm.finished idx before
    → length before.buffer < offset + length new
    → Delivers sha1 pm idx offset new (receive sha1 (with_pending pm m) before idx offset new)
unfolding receive
receive-refused sha1 pm idx offset new v m others before pending big =
    rw (lt→ltb (length before.buffer) (offset + length new) big) (
      refused (length before.buffer) pending.sized big refl refl refl refl refl,
      record {
        supported = v.supported;
        place = v.place;
        hashes = v.hashes;
        offsets = v.offsets;
        marks = v.marks;
        pending = others;
        blocks = v.blocks;
      },
    )

-- In a well-formed state with the file open, a delivery for a piece that exists ends in one of the
-- five ways of `Delivery`, never in a fault or an exception, and leaves the state well formed.
pub deliver_block_lem :
    (sha1 : Bytes → Bytes) (pm : PieceManager) (idx offset : ℕ) (new : Bytes)
    → IsValid pm
    → idx < num_pieces pm
    → pm.file_handler.is_open ≡ true
    → let r = deliver_block sha1 pm idx offset new in
      Delivery sha1 pm idx offset new r.0 r.1 × IsValid r.0
unfolding deliver_block
deliver_block_lem sha1 pm idx offset new v lt writable =
    let (flag, at) = get_elem?-exists pm.finished idx (omega (arith, lt, v.marks.flags)) in
    by_flag flag at
  where
    by_flag :
        (flag : Bool)
        → get_elem? pm.finished idx ≡ some flag
        → Delivers sha1 pm idx offset new (deliver_block sha1 pm idx offset new)
    by_flag true at = rw (at, deliver_block) (known at refl refl, v)
    by_flag false at =
        let (piece, m, e, pending, others, held) = ensure_pending_lem pm idx v at in
        rw (at, deliver_block, e, deliver_block)
          (elim (Bool-cases (ltb (length piece.buffer) (offset + length new))) [
            | inl big ↦
                receive-refused sha1 pm idx offset new v m others piece pending (ltb→lt _ _ big)
            | inr small ↦
                receive-Delivers sha1 pm idx offset new v at writable m others piece pending
                  (ltb→ge _ _ small) held
          ])
