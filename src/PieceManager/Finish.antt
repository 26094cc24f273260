-- ===== src/PieceManager/Finish.antt =====
-- The bookkeeping of a piece that is complete and verified.
use bit_torrent_client.Prelude.{
  ℕ, ◌+◌, ◌-◌, ◌/◌, ◌%◌, ◌^◌, ◌<◌, ◌≡◌, inl, inr, refl, true, false, none, some, arith, get_elem?,
  set, if◌then◌else◌, ok, Bool-cases, get_elem?-exists, get_elem?-lt, bit_or,
}
use bit_torrent_client.PieceManager.{
  PieceManager, num_pieces, update, set_piece, mark_finished, is_complete,
}
use mathlib.Core.Option
use bit_torrent_client.ProgressTracker.{notify_progress}
use bit_torrent_client.PieceManager.Marks.{mark-Marks}
use bit_torrent_client.PieceManager.Invariant.{IsValid}
use bit_torrent_client.PieceManager.Pending.{IsValidExcept, update-finished}

module _ (pm : PieceManager) (idx : ℕ) (v : IsValidExcept idx pm)
    (open_piece : get_elem? pm.finished idx ≡ some false) where
  pub idx-lt : idx < num_pieces pm
  idx-lt = omega (arith, get_elem?-lt pm.finished idx open_piece, v.marks.flags)

  -- The state behind the bookkeeping of a finished piece.
  abbrev pub marked : ℕ → PieceManager
  marked byte = record pm {
    finished = set pm.finished idx true;
    pending_pieces = update pm.pending_pieces idx none;
    bitfield = set pm.bitfield (idx / 8) (bit_or byte (2 ^ (7 - idx % 8)));
    pieces_finished = pm.pieces_finished + 1;
    progress = Option.map notify_progress pm.progress;
  }

  abbrev pub woken : PieceManager → PieceManager
  woken q = if is_complete q then record q { notified = q.notified + 1 } else q

  pub marked-IsValid :
      (byte : ℕ) → get_elem? pm.bitfield (idx / 8) ≡ some byte → IsValid (marked byte)
  marked-IsValid byte at = record {
    supported = v.supported;
    place = v.place;
    hashes = v.hashes;
    offsets = v.offsets;
    marks = mark-Marks v.marks idx byte open_piece at;
    pending = update-finished pm.metadata pm.finished pm.pending_pieces idx v.others;
    blocks = v.blocks;
  }

  pub woken-IsValid : (q : PieceManager) → IsValid q → IsValid (woken q)
  woken-IsValid q h = elim (Bool-cases (is_complete q)) [
    | inl e ↦ rw e (record {
      supported = h.supported;
      place = h.place;
      hashes = h.hashes;
      offsets = h.offsets;
      marks = h.marks;
      pending = h.pending;
      blocks = h.blocks;
    })
    | inr e ↦ rw e h
  ]

  pub mark_finished_lem :
      (byte : ℕ) × (get_elem? pm.bitfield (idx / 8) ≡ some byte)
      × (mark_finished pm idx ≡ ok (woken (marked byte)))
  unfolding mark_finished set_piece
  mark_finished_lem =
      let (byte, at) =
        get_elem?-exists pm.bitfield (idx / 8) (omega (arith, idx-lt, v.marks.width)) in
      (byte, at, rw at)

  pub woken-fields :
      (q : PieceManager)
      → ((woken q).finished ≡ q.finished)
        × ((woken q).pieces_finished ≡ q.pieces_finished)
        × ((woken q).pending_pieces ≡ q.pending_pieces)
        × ((woken q).file_handler ≡ q.file_handler)
        × ((woken q).pending_blocks ≡ q.pending_blocks)
        × ((woken q).metadata ≡ q.metadata)
  woken-fields q = elim (Bool-cases (is_complete q)) [
    | inl e ↦ rw e (refl, refl, refl, refl, refl, refl)
    | inr e ↦ rw e (refl, refl, refl, refl, refl, refl)
  ]

  -- The orchestrator is notified if this piece was the last one.
  pub woken-notified :
      (q : PieceManager)
      → (woken q).notified ≡ q.notified + (if is_complete (woken q) then 1 else 0)
  woken-notified q = elim (Bool-cases (is_complete q)) [
    | inl e ↦ rw (e, e)
    | inr e ↦ rw (e, e) (omega arith)
  ]
