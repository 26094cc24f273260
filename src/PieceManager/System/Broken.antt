-- ===== src/PieceManager/System/Broken.antt =====
-- The file behind a write that failed.
use bit_torrent_client.Prelude.{
  ℕ, ◌<◌, ◌≡◌, inl, inr, refl, sym, ◌∙◌, ap, true, false, some, none, Bytes, List, get_elem?,
  Option, ok,
}
use bit_torrent_client.FileHandler.{FileHandler, write_piece}
use bit_torrent_client.FileHandler.Stream.{stream_write-broken, write_piece-written}
use bit_torrent_client.PieceManager.{PieceManager, is_complete, num_pieces}
use bit_torrent_client.PieceManager.BlockSet.{Block}
use bit_torrent_client.PieceManager.Request.Untrusted.{Grants}
use bit_torrent_client.PieceManager.System.{
  Step, requested, delivered, returned, Reach, here, later,
}
use bit_torrent_client.PieceManager.System.Safety.{
  IsSafe, Reach-IsSafe, Delivery-IsWritten, requested-Grants, return_block-cases,
  deliver_block-cases,
}
use bit_torrent_client.PieceManager.System.Download.{
  Arrival, Arrives, deliver_all, deliver_all-Reach, deliver_all_complete,
}

-- The stream is not good, and the file has these contents.
abbrev pub IsBroken : Bytes → FileHandler → Type 0
IsBroken contents fh = (fh.contents ≡ contents) × (fh.is_good ≡ false)

write_piece-IsBroken :
    {contents : Bytes} (fh : FileHandler) {done : FileHandler} (idx : ℕ) (new : Bytes)
    → write_piece fh idx new ≡ ok done
    → IsBroken contents fh
    → IsBroken contents done
write_piece-IsBroken fh idx new written (old, bad) =
    let (same, still) = stream_write-broken fh _ new bad in
    rw (write_piece-written fh idx new written) (same ∙ old, still)

Grants-file :
    (pm : PieceManager) (r : Option Block × PieceManager)
    → Grants pm r
    → r.1.file_handler ≡ pm.file_handler
Grants-file pm (none, q) same = ap (λ (x : PieceManager). x.file_handler) same
Grants-file pm (some block, q) (lacking, g) = ap (λ (x : PieceManager). x.file_handler) g.state

Step-IsBroken :
    {sha1 : Bytes → Bytes} {contents : Bytes} {pm q : PieceManager}
    → Step sha1 pm q
    → IsSafe pm
    → IsBroken contents pm.file_handler
    → IsBroken contents q.file_handler
Step-IsBroken {pm = pm} (requested peer found e) s b =
    rw (Grants-file pm (found, _) (requested-Grants pm peer s.valid e)) b
Step-IsBroken {sha1} {contents} {pm} (delivered idx offset new inside e) s b =
    rw (sym e) (elim (deliver_block-cases sha1 pm idx offset new s) [
      | inl same ↦ rw same b
      | inr (d, valid) ↦ elim (Delivery-IsWritten d) [
        | inl file ↦ rw file b
        | inr written ↦ write_piece-IsBroken pm.file_handler idx new written b
      ]
    ])
Step-IsBroken {contents = contents} {pm = pm} (returned block done e) s b =
    elim (return_block-cases pm block s.valid e) [
      | inl same ↦ rw same b
      | inr (ret, valid) ↦ rw ret.file b
    ]

Reach-IsBroken :
    {sha1 : Bytes → Bytes} {contents : Bytes} {pm q : PieceManager}
    → IsSafe pm
    → Reach sha1 pm q
    → IsBroken contents pm.file_handler
    → IsBroken contents q.file_handler
Reach-IsBroken s here b = b
Reach-IsBroken s (later r step) b = Step-IsBroken step (Reach-IsSafe s r) (Reach-IsBroken s r b)

-- A failed write goes unnoticed. From a well-formed state with the file open and a stream that is
-- not good: when every piece is delivered, in any order, each whole and with the right hash, the
-- download counts as complete, and the file has the contents that it had. This is if each piece is
-- one block.
pub deliver_all-unnoticed :
    (sha1 : Bytes → Bytes) (pm : PieceManager) (came : List Arrival)
    → IsSafe pm
    → pm.file_handler.is_good ≡ false
    → Arrives sha1 pm.metadata came
    → ((i : ℕ)
        → i < num_pieces pm
        → (k : ℕ) × (a : Arrival) × (get_elem? came k ≡ some a) × (a.index ≡ i))
    → (is_complete (deliver_all sha1 came pm) ≡ true)
      × ((deliver_all sha1 came pm).file_handler.contents ≡ pm.file_handler.contents)
deliver_all-unnoticed sha1 pm came s bad right all = (
  (deliver_all_complete sha1 came pm s right all).0,
  (Reach-IsBroken s (deliver_all-Reach sha1 came pm s right) (refl, bad)).0,
)
