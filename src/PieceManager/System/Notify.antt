-- ===== src/PieceManager/System/Notify.antt =====
-- When the piece manager wakes the orchestrator up.
use bit_torrent_client.Prelude.{
  ℕ, ◌+◌, ◌<◌, ◌≡◌, inl, inr, sym, ◌∙◌, subst, ap, Bool, true, false, Option, none, some, arith,
  Bytes, get_elem?, get_elem?-lt, if◌then◌else◌, Outcome, Option-cases,
}
use bit_torrent_client.PieceManager.{PieceManager, num_pieces, deliver_block, is_complete}
use bit_torrent_client.PieceManager.BlockSet.{Block}
use bit_torrent_client.PieceManager.Invariant.{IsValid}
use bit_torrent_client.PieceManager.Complete.{is_complete_iff}
use bit_torrent_client.PieceManager.Request.Untrusted.{Grants}
use bit_torrent_client.PieceManager.Delivery.{
  Delivery, known, refused, stored, completed, mismatched,
}
use bit_torrent_client.PieceManager.System.{Step, requested, delivered, returned, here, later}
use bit_torrent_client.PieceManager.System.Safety.{
  IsSafe, Step-IsSafe, Step-metadata, requested-Grants, return_block-cases, deliver_block-cases,
}
use bit_torrent_client.PieceManager.System.Verified.{Reach-kept}

-- Only a flag that is set can complete the download.
same_complete :
    (pm q : PieceManager)
    → IsValid pm
    → IsValid q
    → q.finished ≡ pm.finished
    → q.metadata ≡ pm.metadata
    → is_complete q ≡ true
    → is_complete pm ≡ true
same_complete pm q v w fin meta done =
    (is_complete_iff pm v).1 (λ i lt. rw fin at ((is_complete_iff q w).0 done i (rw meta lt)))

module _ (pm q : PieceManager) (lacking : is_complete pm ≡ false)
    (done : is_complete q ≡ true) where
  apart : {A : Type 0} → q ≡ pm → A
  apart e = absurd (let still = ap is_complete e in cc)

  Delivery-notified :
      {sha1 : Bytes → Bytes} {idx offset : ℕ} {new : Bytes} {result : Outcome Bool}
      → IsValid pm
      → IsValid q
      → Delivery sha1 pm idx offset new q result
      → q.notified ≡ pm.notified + 1
  Delivery-notified v w (known e same r) = apart same
  Delivery-notified v w (refused len sized big fin file blocks meta r) =
      absurd (let still = same_complete pm q v w fin meta done in cc)
  Delivery-notified v w (stored before piece at buffer count fits fin file blocks meta r) =
      absurd (let still = same_complete pm q v w fin meta done in cc)
  Delivery-notified v w
        (completed piece sized hash before buffer fin count gone written notified blocks meta r) =
      notified ∙ ap (λ (b : Bool). pm.notified + (if b then 1 else 0)) done
  Delivery-notified v w
        (mismatched piece expected sized hash apart before buffer fin file gone next blocks meta
          r) =
      absurd (let still = same_complete pm q v w fin meta done in cc)

  Grants-never_completes : (found : Option Block) {A : Type 0} → Grants pm (found, q) → A
  Grants-never_completes none same = apart same
  Grants-never_completes (some b) (open_piece, g) =
      absurd (let still = ap is_complete g.state in cc)

-- From a well-formed state with the file open, the operation that completes the download notifies
-- the orchestrator, exactly once.
pub Step-notified :
    {sha1 : Bytes → Bytes} {pm q : PieceManager}
    → IsSafe pm
    → Step sha1 pm q
    → is_complete pm ≡ false
    → is_complete q ≡ true
    → q.notified ≡ pm.notified + 1
Step-notified {pm = pm} {q = q} s (requested peer found e) lacking done =
    Grants-never_completes pm q lacking done found (requested-Grants pm peer s.valid e)
Step-notified {sha1} {pm} {q} s (delivered idx offset new inside e) lacking done =
    elim (deliver_block-cases sha1 pm idx offset new s) [
      | inl same ↦ apart pm q lacking done (sym e ∙ same)
      | inr (d, v) ↦
          subst (λ (x : PieceManager). is_complete x ≡ true → x.notified ≡ pm.notified + 1) e
            (λ done'. Delivery-notified pm _ lacking done' s.valid v d) done
    ]
Step-notified {pm = pm} {q = q} s (returned block found e) lacking done =
    elim (return_block-cases pm block s.valid e) [
      | inl same ↦ apart pm q lacking done same
      | inr (ret, v) ↦
          absurd (let still = same_complete pm q s.valid v ret.unfinished ret.torrent done in cc)
    ]

pub Step-complete :
    {sha1 : Bytes → Bytes} {pm q : PieceManager}
    → IsSafe pm
    → Step sha1 pm q
    → is_complete pm ≡ true
    → is_complete q ≡ true
Step-complete {pm = pm} {q = q} s step done =
    (is_complete_iff q (Step-IsSafe step s).valid).1 (λ i lt.
      Reach-kept i s (later here step)
        ((is_complete_iff pm s.valid).0 done i (rw (Step-metadata s step) at lt)))

deliver_block-ignored :
    (sha1 : Bytes → Bytes) (pm : PieceManager) (idx offset : ℕ) (new : Bytes)
    → IsSafe pm
    → is_complete pm ≡ true
    → (deliver_block sha1 pm idx offset new).0 ≡ pm
unfolding deliver_block
deliver_block-ignored sha1 pm idx offset new s done =
    elim (Option-cases (get_elem? pm.finished idx)) [
      | inl absent ↦ rw (absent, deliver_block)
      | inr (flag, e) ↦
          let lt : idx < num_pieces pm =
            omega (arith, get_elem?-lt pm.finished idx e, s.valid.marks.flags) in
          rw ((is_complete_iff pm s.valid).0 done idx lt, deliver_block)
    ]

-- Once the download is complete, nobody is notified any more.
pub Step-quiet :
    {sha1 : Bytes → Bytes} {pm q : PieceManager}
    → IsSafe pm
    → Step sha1 pm q
    → is_complete pm ≡ true
    → q.notified ≡ pm.notified
Step-quiet {pm = pm} s (requested peer none e) done =
    ap (λ (x : PieceManager). x.notified) (requested-Grants pm peer s.valid e)
Step-quiet {pm = pm} s (requested peer (some block) e) done =
    ap (λ (x : PieceManager). x.notified) (requested-Grants pm peer s.valid e).1.state
Step-quiet {sha1} {pm} s (delivered idx offset new inside e) done =
    ap (λ (x : PieceManager). x.notified)
      (sym e ∙ deliver_block-ignored sha1 pm idx offset new s done)
Step-quiet {pm = pm} s (returned block found e) done =
    elim (return_block-cases pm block s.valid e) [
      | inl same ↦ ap (λ (x : PieceManager). x.notified) same
      | inr (ret, v) ↦ ret.quiet
    ]
