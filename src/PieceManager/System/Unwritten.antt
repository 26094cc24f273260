-- ===== src/PieceManager/System/Unwritten.antt =====
-- What does not reach the file.
use bit_torrent_client.Prelude.{
  ℕ, ◌+◌, ◌*◌, ◌^◌, ◌<◌, ◌≤◌, ◌≡◌, inl, inr, ap, Bool, true, false, some, arith, Bytes, length,
  get_elem?, get_elem?-lt, Outcome,
}
use bit_torrent_client.FileHandler.Stream.{IsSound}
use bit_torrent_client.FileHandler.Contents.{write_at_behind}
use bit_torrent_client.PieceManager.{PieceManager, deliver_block}
use bit_torrent_client.PieceManager.Delivery.{
  Delivery, known, refused, stored, completed, mismatched,
}
use bit_torrent_client.PieceManager.System.Safety.{IsSafe, deliver_block-cases}
use bit_torrent_client.PieceManager.System.Contents.{write_piece-contents}

module _ (pm q : PieceManager) (idx : ℕ) (before : get_elem? pm.finished idx ≡ some false)
    (after : get_elem? q.finished idx ≡ some true) where
  changed : {A : Type 0} → q.finished ≡ pm.finished → A
  changed fin = absurd (let same = ap (λ fs. get_elem? fs idx) fin in cc)

  Delivery-unwritten :
      {sha1 : Bytes → Bytes} {offset : ℕ} {new : Bytes} {result : Outcome Bool}
      → IsSafe pm
      → pm.metadata.info.piece_length < 2 ^ 31
      → IsSound pm.file_handler
      → (k : ℕ) → length new ≤ k
      → Delivery sha1 pm idx offset new q result
      → get_elem? q.file_handler.contents (idx * pm.metadata.info.piece_length + k)
        ≡ get_elem? pm.file_handler.contents (idx * pm.metadata.info.piece_length + k)
  Delivery-unwritten s small sound k le (known e same r) =
      changed (ap (λ (x : PieceManager). x.finished) same)
  Delivery-unwritten s small sound k le (refused n sized big fin file blocks meta r) = changed fin
  Delivery-unwritten s small sound k le
        (stored before piece at buffer count fits fin file blocks meta r) =
      changed fin
  Delivery-unwritten {new = new} s small sound k le
        (completed piece sized hash before buffer fin count gone written notified blocks meta r) =
      let (contents, sound', kept) =
        write_piece-contents pm.metadata s.valid.supported small pm.file_handler idx new
          (get_elem?-lt pm.metadata.info.piece_hashes idx hash) s.valid.place sound written in
      rw contents (
        write_at_behind pm.file_handler.contents new (idx * pm.metadata.info.piece_length)
          (idx * pm.metadata.info.piece_length + k) (omega arith))
  Delivery-unwritten s small sound k le
        (mismatched piece expected sized hash apart before buffer fin file gone next blocks meta
          r) =
      changed fin

-- When a block finishes its piece, the file is as it was from the length of that block behind the
-- start of the piece on, whatever the other blocks of the piece were. This is from a well-formed
-- state with the file open and a sound stream, if 31 bits hold the piece length.
pub deliver_block-unwritten :
    (sha1 : Bytes → Bytes) (pm : PieceManager) (idx offset : ℕ) (new : Bytes) (k : ℕ)
    → IsSafe pm
    → pm.metadata.info.piece_length < 2 ^ 31
    → IsSound pm.file_handler
    → get_elem? pm.finished idx ≡ some false
    → get_elem? (deliver_block sha1 pm idx offset new).0.finished idx ≡ some true
    → length new ≤ k
    → get_elem?
        (deliver_block sha1 pm idx offset new).0.file_handler.contents
        (idx * pm.metadata.info.piece_length + k)
      ≡ get_elem? pm.file_handler.contents (idx * pm.metadata.info.piece_length + k)
deliver_block-unwritten sha1 pm idx offset new k s small sound before after le =
    elim (deliver_block-cases sha1 pm idx offset new s) [
      | inl same ↦
          ap
            (λ (x : PieceManager).
              get_elem? x.file_handler.contents (idx * pm.metadata.info.piece_length + k))
            same
      | inr (d, valid) ↦ Delivery-unwritten pm _ idx before after s small sound k le d
    ]
