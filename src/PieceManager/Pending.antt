-- ===== src/PieceManager/Pending.antt =====
-- The map of pending pieces under `deliverBlock`.
use native.Mathlib.Decide.{ℕ_discrete}
use bit_torrent_client.Prelude.{
  ℕ, ◌+◌, ◌-◌, ◌/◌, ◌≤◌, ◌<◌, ◌≡◌, ◌≢◌, refl, inl, inr, ◌∙◌, List, ◌++◌, Bool, true, false, Option,
  none, some, arith, Bytes, length, take, drop, get_elem?, set, replicate, ◌==◌, ==_iff, ne→==, ok,
  Bool-cases, Option-cases, get_elem?-set_ne, length-append, length-take, length-drop,
  length-replicate,
}
use bit_torrent_client.Metadata.{TorrentMetadata}
use bit_torrent_client.PieceManager.{
  PieceManager, PendingPiece, block_len, num_pieces, update, get_piece_length, copy_into,
  ensure_pending,
}
use bit_torrent_client.PieceManager.BlockSet.{All}
use bit_torrent_client.PieceManager.Delivery.{Held, was_there, made_new}
use bit_torrent_client.PieceManager.Marks.{Marks}
use bit_torrent_client.PieceManager.Invariant.{
  IsValid, IsPending, IsSupported, get_piece_length_lem,
}

abbrev pub PendingOk : TorrentMetadata → List Bool → (ℕ → Option PendingPiece) → Type 0
PendingOk md finished m = (i : ℕ) (p : PendingPiece) → m i ≡ some p → IsPending md finished i p

-- The same, but for one piece.
abbrev pub PendingExcept : ℕ → TorrentMetadata → List Bool → (ℕ → Option PendingPiece) → Type 0
PendingExcept idx md finished m =
    (i : ℕ) (p : PendingPiece) → idx ≢ i → m i ≡ some p → IsPending md finished i p

module _ (md : TorrentMetadata) (finished : List Bool) (m : ℕ → Option PendingPiece) (idx : ℕ) where
  pub update-some :
      (piece : PendingPiece)
      → IsPending md finished idx piece
      → PendingExcept idx md finished m
      → PendingOk md finished (update m idx (some piece))
  unfolding update
  update-some piece h others i p e = elim (Bool-cases (idx == i)) [
    | inl here ↦ let same : p ≡ piece = cc (rw here at e) in rw (same, ← (==_iff idx i).0 here) h
    | inr other ↦ others i p (λ same. ground arith) (rw other at e)
  ]

  pub update-other :
      (entry : Option PendingPiece)
      → PendingExcept idx md finished m
      → PendingExcept idx md finished (update m idx entry)
  unfolding update
  update-other entry others i p apart e = others i p apart (rw (ne→== idx i apart) at e)

  pub update-none : PendingExcept idx md finished m → PendingOk md finished (update m idx none)
  unfolding update
  update-none others i p e = elim (Bool-cases (idx == i)) [
    | inl here ↦ absurd (cc (rw here at e))
    | inr other ↦ others i p (λ same. ground arith) (rw other at e)
  ]

  gone : (i : ℕ) → idx ≡ i → (p : PendingPiece) → update m idx none i ≡ some p → ⊥
  unfolding update
  gone i here p e = ground arith

  -- Once a piece is finished and no longer pending, the others are as they were.
  pub update-finished :
      PendingExcept idx md finished m → PendingOk md (set finished idx true) (update m idx none)
  update-finished others i p e = elim (ℕ_discrete idx i) [
    | yes here ↦ absurd (gone i here p e)
    | no apart ↦
        let h = update-none others i p e in
        record {
          unfinished = get_elem?-set_ne finished idx i true apart ∙ h.unfinished;
          sized = h.sized;
          needed = h.needed;
          short = h.short;
        }
  ]

-- The piece manager while a delivery has one pending piece in its hands.
pub record IsValidExcept (idx : ℕ) (pm : PieceManager) : Type 0 where
  pub supported : IsSupported pm.metadata
  pub place : pm.file_handler.piece_size ≡ pm.metadata.info.piece_length
  pub hashes : pm.verification_hashes ≡ pm.metadata.info.piece_hashes
  pub offsets : length pm.next_offsets ≡ num_pieces pm
  pub marks : Marks (num_pieces pm) pm.finished pm.bitfield pm.pieces_finished
  pub others : PendingExcept idx pm.metadata pm.finished pm.pending_pieces
  pub blocks : All (λ b. b.piece_index < num_pieces pm) pm.pending_blocks

pub length-copy_into :
    (buffer : Bytes) (offset : ℕ) (new : Bytes)
    → offset + length new ≤ length buffer
    → length (copy_into buffer offset new) ≡ length buffer
unfolding copy_into
length-copy_into buffer offset new h = omega (
  arith,
  length-append (take offset buffer) (new ++ drop (offset + length new) buffer),
  length-append new (drop (offset + length new) buffer),
  length-take offset buffer,
  length-drop (offset + length new) buffer,
)

-- The state but for the map of pending pieces.
abbrev pub with_pending : PieceManager → (ℕ → Option PendingPiece) → PieceManager
with_pending pm m = record pm { pending_pieces = m }

fresh-IsPending :
    (pm : PieceManager) (idx len : ℕ)
    → get_elem? pm.finished idx ≡ some false
    → get_piece_length pm.metadata idx ≡ ok len
    → 0 < len
    → IsPending pm.metadata pm.finished idx (record {
      buffer = replicate len 0;
      blocks_received = 0;
      total_blocks_needed = (len + block_len - 1) / block_len;
    })
fresh-IsPending pm idx len open_piece sized pos =
    let size = length-replicate {A = ℕ} len 0 in
    record { unfinished = open_piece; sized = rw size sized; needed = rw size; short = omega arith }

abbrev fresh_piece : ℕ → PendingPiece
fresh_piece len = record {
  buffer = replicate len 0;
  blocks_received = 0;
  total_blocks_needed = (len + block_len - 1) / block_len;
}

ensure_pending-fresh :
    (pm : PieceManager) (idx len : ℕ)
    → pm.pending_pieces idx ≡ none
    → get_piece_length pm.metadata idx ≡ ok len
    → ensure_pending pm idx
      ≡ ok
          (fresh_piece len, with_pending pm (update pm.pending_pieces idx (some (fresh_piece len))))
unfolding ensure_pending
ensure_pending-fresh pm idx len e sized = rw (e, ensure_pending, sized)

ensure_pending-old :
    (pm : PieceManager) (idx : ℕ) (piece : PendingPiece)
    → pm.pending_pieces idx ≡ some piece
    → ensure_pending pm idx ≡ ok (piece, with_pending pm pm.pending_pieces)
unfolding ensure_pending
ensure_pending-old pm idx piece e = rw (e, ensure_pending)

pub ensure_pending_lem :
    (pm : PieceManager) (idx : ℕ)
    → IsValid pm
    → get_elem? pm.finished idx ≡ some false
    → (piece : PendingPiece) × (m : ℕ → Option PendingPiece) × (ensure_pending pm idx
        ≡ ok (piece, with_pending pm m))
      × IsPending pm.metadata pm.finished idx piece
      × PendingOk pm.metadata pm.finished m
      × Held pm idx piece
ensure_pending_lem pm idx v open_piece = elim (Option-cases (pm.pending_pieces idx)) [
  | inr (piece, e) ↦ (
    piece,
    pm.pending_pieces,
    ensure_pending-old pm idx piece e,
    v.pending idx piece e,
    v.pending,
    was_there e,
  )
  | inl e ↦
      let (len, sized, positive, _) = get_piece_length_lem pm.metadata idx v.supported in
      let fresh = fresh-IsPending pm idx len open_piece sized positive in
      (
        fresh_piece len,
        update pm.pending_pieces idx (some (fresh_piece len)),
        ensure_pending-fresh pm idx len e sized,
        fresh,
        update-some pm.metadata pm.finished pm.pending_pieces idx (fresh_piece len) fresh
            (λ i p _ e. v.pending i p e),
        made_new len e sized refl,
      )
]
