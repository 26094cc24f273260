-- ===== src/PieceManager/Counts.antt =====
-- What each operation tells the progress tracker.
use mathlib.Core.Option
use bit_torrent_client.Prelude.{
  ℕ, ◌+◌, ◌/◌, ◌≡◌, ◌⊎◌, inl, inr, refl, ◌∙◌, ap, Bool, true, false, none, Bytes, length, get_elem?,
  set, ltb, ◌==◌, ◌>>=◌, if◌then◌else◌, Outcome, ok, throws, fault, out_of_fuel, Bool-cases,
  Option-cases, Returns, Returns-bind, Returns-any,
}
use bit_torrent_client.ProgressTracker.{notify_progress}
use bit_torrent_client.FileHandler.{write_piece}
use bit_torrent_client.PieceManager.{
  PieceManager, PendingPiece, ensure_pending, set_piece, mark_finished, settle, finish_piece,
  verify_hash, receive, deliver_block, update, return_block, get_piece_length, is_complete,
}
use bit_torrent_client.PieceManager.BlockSet.{Block, contains}

-- The counts of finished pieces are as they were.
abbrev pub Kept : PieceManager → PieceManager → Type 0
Kept pm q = (q.progress ≡ pm.progress) × (q.pieces_finished ≡ pm.pieces_finished)

-- The tracker is told of one more.
abbrev pub Told : PieceManager → PieceManager → Type 0
Told pm q =
    (q.progress ≡ Option.map notify_progress pm.progress)
    × (q.pieces_finished ≡ pm.pieces_finished + 1)

abbrev pub Counts : PieceManager → PieceManager → Type 0
Counts pm q = Kept pm q ⊎ Told pm q

settle-Counts :
    (pm : PieceManager) (m : Outcome (Bool × PieceManager))
    → Returns (λ r. Counts pm r.1) m
    → Counts pm (settle pm m).0
settle-Counts pm (ok (a, q)) h = h
settle-Counts pm (throws e) h = inl (refl, refl)
settle-Counts pm fault h = inl (refl, refl)
settle-Counts pm out_of_fuel h = inl (refl, refl)

set_piece-Kept : (pm : PieceManager) (idx : ℕ) → Returns (Kept pm) (set_piece pm idx)
unfolding set_piece
set_piece-Kept pm idx = elim (Option-cases (get_elem? pm.bitfield (idx / 8))) [
  | inl e ↦ rw e tt
  | inr (byte, e) ↦ rw e (refl, refl)
]

mark_finished-Told : (pm : PieceManager) (idx : ℕ) → Returns (Told pm) (mark_finished pm idx)
unfolding mark_finished
mark_finished-Told pm idx = Returns-bind (Kept pm) (Told pm) _ _ (set_piece-Kept _ idx) woken
  where
    counted : PieceManager → PieceManager
    counted marked = record marked {
      pieces_finished = marked.pieces_finished + 1;
      progress = Option.map notify_progress marked.progress;
    }

    woken :
        (marked : PieceManager)
        → Kept pm marked
        → Told pm (
            if is_complete (counted marked)
            then record (counted marked) { notified = (counted marked).notified + 1 }
            else counted marked)
    woken marked (told, count) = elim (Bool-cases (is_complete (counted marked))) [
      | inl e ↦ rw e (ap (λ p. Option.map notify_progress p) told, ap (λ n. n + 1) count)
      | inr e ↦ rw e (ap (λ p. Option.map notify_progress p) told, ap (λ n. n + 1) count)
    ]

module _ (sha1 : Bytes → Bytes) where
  finish_piece-Counts :
      (pm : PieceManager) (idx : ℕ) (piece new : Bytes)
      → Counts pm (finish_piece sha1 pm idx piece new).0
  unfolding finish_piece
  finish_piece-Counts pm idx piece new = settle-Counts pm _ (
      Returns-bind (λ _. Unit {0}) (λ (r : Bool × PieceManager). Counts pm r.1)
        (verify_hash sha1 pm idx piece) _ (Returns-any (verify_hash sha1 pm idx piece))
        λ verified _. by_result verified)
    where
      by_result :
          (verified : Bool)
          → Returns
              (λ (r : Bool × PieceManager). Counts pm r.1)
              (if verified
                then (write_piece pm.file_handler idx new >>= λ fh.
                    mark_finished (record pm { file_handler = fh }) idx >>= λ done. ok (true, done))
                else ok (
                  false,
                  record pm {
                    pending_pieces = update pm.pending_pieces idx none;
                    next_offsets = set pm.next_offsets idx 0;
                  },
                ))
      by_result false = inl (refl, refl)
      by_result true =
          Returns-bind (λ _. Unit {0}) (λ (r : Bool × PieceManager). Counts pm r.1)
            (write_piece pm.file_handler idx new) _
            (Returns-any (write_piece pm.file_handler idx new))
            λ fh _.
              Returns-bind (Told (record pm { file_handler = fh }))
                (λ (r : Bool × PieceManager). Counts pm r.1)
                (mark_finished (record pm { file_handler = fh }) idx) _
                (mark_finished-Told (record pm { file_handler = fh }) idx) (λ done told. inr told)

  receive-Counts :
      (pm : PieceManager) (pending : PendingPiece) (idx offset : ℕ) (new : Bytes)
      → Counts pm (receive sha1 pm pending idx offset new).0
  unfolding receive
  receive-Counts pm pending idx offset new =
      elim (Bool-cases (ltb (length pending.buffer) (offset + length new))) [
        | inl big ↦ rw big (inl (refl, refl))
        | inr fits ↦
            elim (Bool-cases (pending.blocks_received + 1 == pending.total_blocks_needed)) [
              | inl all ↦ rw (fits, all) (finish_piece-Counts _ idx _ new)
              | inr short ↦ rw (fits, short) (inl (refl, refl))
            ]
      ]

  ensure_pending-Kept :
      (pm : PieceManager) (idx : ℕ)
      → Returns (λ (r : PendingPiece × PieceManager). Kept pm r.1) (ensure_pending pm idx)
  unfolding ensure_pending
  ensure_pending-Kept pm idx = elim (Option-cases (pm.pending_pieces idx)) [
    | inr (piece, e) ↦ rw (e, ensure_pending) (refl, refl)
    | inl e ↦
        rw (e, ensure_pending)
          (Returns-bind (λ _. Unit {0}) (λ (r : PendingPiece × PieceManager). Kept pm r.1)
            (get_piece_length pm.metadata idx) _ (Returns-any (get_piece_length pm.metadata idx))
            (λ len _. (refl, refl)))
  ]

  -- Every delivery counts a piece for the tracker exactly if it counts one for itself.
  pub deliver_block-Counts :
      (pm : PieceManager) (idx offset : ℕ) (new : Bytes)
      → Counts pm (deliver_block sha1 pm idx offset new).0
  unfolding deliver_block
  deliver_block-Counts pm idx offset new = elim (Option-cases (get_elem? pm.finished idx)) [
    | inl absent ↦ rw (absent, deliver_block) (inl (refl, refl))
    | inr (true, e) ↦ rw (e, deliver_block) (inl (refl, refl))
    | inr (false, e) ↦
        rw (e, deliver_block) (begun (ensure_pending pm idx) (ensure_pending-Kept pm idx))
  ]
    where
      begun :
          (m : Outcome (PendingPiece × PieceManager))
          → Returns (λ (r : PendingPiece × PieceManager). Kept pm r.1) m
          → Counts pm
              (elim m as (λ _. PieceManager × Outcome Bool) [
                | ok (pending, q) ↦ receive sha1 q pending idx offset new
                | throws e ↦ (pm, throws e)
                | fault ↦ (pm, fault)
                | out_of_fuel ↦ (pm, out_of_fuel)
              ]).0
      begun (ok (pending, q)) (told, count) = elim (receive-Counts q pending idx offset new) [
        | inl (told', count') ↦ inl (told' ∙ told, count' ∙ count)
        | inr (told', count') ↦
            inr
              (told' ∙ ap (λ p. Option.map notify_progress p) told, count' ∙ ap (λ n. n + 1) count)
      ]
      begun (throws e) h = inl (refl, refl)
      begun fault h = inl (refl, refl)
      begun out_of_fuel h = inl (refl, refl)

pub return_block-Kept :
    (pm : PieceManager) (block : Block)
    → Returns (λ (r : Bool × PieceManager). Kept pm r.1) (return_block pm block)
unfolding return_block
return_block-Kept pm block = elim (Bool-cases (contains block pm.pending_blocks)) [
  | inr gone ↦ rw gone (refl, refl)
  | inl held ↦ elim (Option-cases (get_elem? pm.next_offsets block.piece_index)) [
    | inl absent ↦ rw (held, absent) tt
    | inr (next, at) ↦ elim (Bool-cases (ltb block.offset next)) [
      | inl back ↦ rw (held, at, back) (refl, refl)
      | inr ahead ↦ rw (held, at, ahead) (refl, refl)
    ]
  ]
]
