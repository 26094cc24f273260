-- ===== src/PieceManager/Complete.antt =====
-- When the download counts as complete.
use bit_torrent_client.Prelude.{ℕ, ◌<◌, ◌≡◌, ◌↔◌, true, some, arith, get_elem?}
use bit_torrent_client.PieceManager.{PieceManager, num_pieces, is_complete}
use bit_torrent_client.PieceManager.Invariant.{IsValid}
use bit_torrent_client.PieceManager.Marks.{count_true_full, count_true_all}

-- In a well-formed state `isComplete` holds exactly if the flag of every piece is set.
pub is_complete_iff :
    (pm : PieceManager)
    → IsValid pm
    → (is_complete pm ≡ true) ↔ ((i : ℕ) → i < num_pieces pm → get_elem? pm.finished i ≡ some true)
is_complete_iff pm v = (
  (λ e i lt.
      count_true_full pm.finished (ground (arith, v.marks.flags, v.marks.counted)) i
        (omega (arith, v.marks.flags))),
  (λ all.
      let full = count_true_all pm.finished (λ i lt. all i (omega (arith, v.marks.flags))) in
      ground (arith, v.marks.flags, v.marks.counted)),
)
