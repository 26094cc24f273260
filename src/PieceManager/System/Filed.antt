-- ===== src/PieceManager/System/Filed.antt =====
-- Every finished piece is in the file, if the peers deliver whole pieces.
use bit_torrent_client.Prelude.{
  ℕ, ◌^◌, ◌<◌, ◌≡◌, inl, inr, refl, sym, ◌∙◌, subst, ap, Bool, Option, none, some, Bytes, length,
  Outcome, ok,
}
use bit_torrent_client.PieceManager.{PieceManager, get_piece_length, deliver_block}
use bit_torrent_client.PieceManager.Delivery.{
  Delivery, known, refused, stored, completed, mismatched,
}
use bit_torrent_client.PieceManager.BlockSet.{Block}
use bit_torrent_client.PieceManager.Request.Untrusted.{Grants}
use bit_torrent_client.PieceManager.System.{
  Step, requested, delivered, returned, Reach, here, later,
}
use bit_torrent_client.PieceManager.System.Safety.{
  IsSafe, Reach-IsSafe, requested-Grants, return_block-cases, deliver_block-cases, Reach-metadata,
}
use bit_torrent_client.PieceManager.System.Contents.{
  IsFiled, IsWhole, AllWhole, completed-IsFiled, IsFiled-same, copy_into-whole,
}

Delivery-IsFiled :
    {sha1 : Bytes → Bytes} {pm q : PieceManager} {idx : ℕ} {new : Bytes} {result : Outcome Bool}
    → IsSafe pm
    → pm.metadata.info.piece_length < 2 ^ 31
    → get_piece_length pm.metadata idx ≡ ok (length new)
    → Delivery sha1 pm idx 0 new q result
    → IsFiled sha1 pm
    → IsFiled sha1 q
Delivery-IsFiled s small len (known e same r) f = subst (IsFiled _) (sym same) f
Delivery-IsFiled s small len (refused n sized big fin file blocks meta r) f =
    IsFiled-same meta file fin f
Delivery-IsFiled s small len (stored before piece at buffer count fits fin file blocks meta r) f =
    IsFiled-same meta file fin f
Delivery-IsFiled {sha1} {pm} {q} {idx} {new} s small len
      (completed piece sized hash before buffer fin count gone written notified blocks meta r) f =
    let same_length : length piece ≡ length new = cc (len, sized) in
    let same = copy_into-whole before.piece.buffer new piece buffer same_length in
    completed-IsFiled pm.metadata s.valid.supported small sha1 pm q idx new refl len
      (hash ∙ ap (λ (x : Bytes). some (sha1 x)) same) meta fin written f
Delivery-IsFiled s small len
      (mismatched piece expected sized hash apart before buffer fin file gone next blocks meta r)
      f =
    IsFiled-same meta file fin f

Grants-IsFiled :
    {sha1 : Bytes → Bytes} (pm : PieceManager) (r : Option Block × PieceManager)
    → Grants pm r
    → IsFiled sha1 pm
    → IsFiled sha1 r.1
Grants-IsFiled pm (none, q) same f = subst (IsFiled _) (sym same) f
Grants-IsFiled pm (some b, q) (lacking, g) f =
    subst (IsFiled _) (sym g.state) (IsFiled-same refl refl refl f)

pub Step-IsFiled :
    {sha1 : Bytes → Bytes} {pm q : PieceManager} (step : Step sha1 pm q)
    → IsSafe pm
    → pm.metadata.info.piece_length < 2 ^ 31
    → IsWhole step
    → IsFiled sha1 pm
    → IsFiled sha1 q
Step-IsFiled {pm = pm} (requested peer found e) s small whole f =
    Grants-IsFiled pm (found, _) (requested-Grants pm peer s.valid e) f
Step-IsFiled {sha1} {pm} (delivered idx offset new inside e) s small (first, len) f =
    subst (IsFiled sha1) e (elim (deliver_block-cases sha1 pm idx offset new s) [
      | inl same ↦ subst (IsFiled sha1) (sym same) f
      | inr (d, valid) ↦
          Delivery-IsFiled s small len
            (subst
              (λ o.
                Delivery sha1 pm idx o new (deliver_block sha1 pm idx offset new).0
                  (deliver_block sha1 pm idx offset new).1)
              first d)
            f
    ])
Step-IsFiled {pm = pm} (returned block done e) s small whole f =
    elim (return_block-cases pm block s.valid e) [
      | inl same ↦ subst (IsFiled _) (sym same) f
      | inr (ret, valid) ↦ IsFiled-same ret.torrent ret.file ret.unfinished f
    ]

-- From a well-formed state with the file open, in which every finished piece is in the file and no
-- write to come fails: after any sequence of operations in which each delivery carries a whole
-- piece, right or wrong, every finished piece is in the file, at its place, with the hash that the
-- torrent names for it. This is if 31 bits hold the piece length.
pub Reach-IsFiled :
    {sha1 : Bytes → Bytes} {pm q : PieceManager} (r : Reach sha1 pm q)
    → IsSafe pm
    → pm.metadata.info.piece_length < 2 ^ 31
    → AllWhole r
    → IsFiled sha1 pm
    → IsFiled sha1 q
Reach-IsFiled here s small whole f = f
Reach-IsFiled (later r step) s small (whole, last) f =
    Step-IsFiled step (Reach-IsSafe s r) (rw (Reach-metadata s r) small) last
      (Reach-IsFiled r s small whole f)
