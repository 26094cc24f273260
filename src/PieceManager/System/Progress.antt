-- ===== src/PieceManager/System/Progress.antt =====
-- The progress tracker while the sessions run.
use bit_torrent_client.Prelude.{
  ◌^◌, ◌<◌, ◌≤◌, ◌≡◌, inl, inr, refl, sym, ◌∙◌, subst, ap, true, Option, none, some, arith, Bytes,
  length, ok, Returns, leb→le,
}
use mathlib.Core.Option
use bit_torrent_client.Prelude.Int.{pos, to_i32}
use bit_torrent_client.Metadata.{TorrentMetadata}
use bit_torrent_client.FileHandler.{Disk, is_openable}
use bit_torrent_client.ProgressTracker.{
  ProgressTracker, Bar, progress_tracker, notify_progress, log_progress,
}
use bit_torrent_client.ProgressTracker.Arithmetic.{Double, IsDouble}
use bit_torrent_client.ProgressTracker.Shown.{HasMarks, log_progress_full, to_i32_small}
use bit_torrent_client.PieceManager.{PieceManager, init, num_pieces, is_complete}
use bit_torrent_client.PieceManager.BlockSet.{Block}
use bit_torrent_client.PieceManager.Marks.{count_true-le}
use bit_torrent_client.PieceManager.Invariant.{IsValid, IsSupported}
use bit_torrent_client.PieceManager.Counts.{Counts, deliver_block-Counts, return_block-Kept}
use bit_torrent_client.PieceManager.Request.Untrusted.{Grants}
use bit_torrent_client.PieceManager.System.{
  Step, requested, delivered, returned, Reach, here, later,
}
use bit_torrent_client.PieceManager.System.Safety.{
  IsSafe, Step-IsSafe, Reach-IsSafe, Step-metadata, Reach-metadata, requested-Grants,
}
use bit_torrent_client.PieceManager.System.Download.{init-IsSafe, init-metadata}

requested-Counts :
    (pm : PieceManager) (r : Option Block × PieceManager) → Grants pm r → Counts pm r.1
requested-Counts pm (none, q) same = rw same (inl (refl, refl))
requested-Counts pm (some block, q) (lacking, g) = rw g.state (inl (refl, refl))

Step-Counts :
    {sha1 : Bytes → Bytes} {pm q : PieceManager} → Step sha1 pm q → IsSafe pm → Counts pm q
Step-Counts {pm = pm} (requested peer found e) s =
    requested-Counts pm (found, _) (requested-Grants pm peer s.valid e)
Step-Counts {sha1} {pm} (delivered idx offset new inside e) s =
    subst (Counts pm) e (deliver_block-Counts sha1 pm idx offset new)
Step-Counts {pm = pm} (returned block done e) s =
    inl (rw (e, Returns) at (return_block-Kept pm block))

-- The tracker has the number of pieces, and how many of them are finished.
pub record IsTracked (pm : PieceManager) : Type 0 where
  pub tracker : ProgressTracker
  pub told : pm.progress ≡ some tracker
  pub total : tracker.total_pieces ≡ pos (num_pieces pm)
  pub count : tracker.finished_pieces ≡ pm.pieces_finished

pieces_finished_le : (pm : PieceManager) → IsValid pm → pm.pieces_finished ≤ num_pieces pm
pieces_finished_le pm v = omega (arith, count_true-le pm.finished, v.marks.flags, v.marks.counted)

Counts-IsTracked :
    (pm q : PieceManager)
    → q.metadata ≡ pm.metadata
    → q.pieces_finished < 2 ^ 32
    → Counts pm q
    → IsTracked pm
    → IsTracked q
unfolding notify_progress
Counts-IsTracked pm q meta small (inl (told, count)) t = record {
  tracker = t.tracker;
  told = told ∙ t.told;
  total = rw meta t.total;
  count = t.count ∙ sym count;
}
Counts-IsTracked pm q meta small (inr (told, count)) t = record {
  tracker = notify_progress t.tracker;
  told = told ∙ ap (λ p. Option.map notify_progress p) t.told;
  total = rw meta t.total;
  count = omega (arith, t.count, count, small);
}

-- Whatever the sessions do, the tracker has the number of finished pieces. This is from a
-- well-formed state with the file open in which it has it.
pub Reach-IsTracked :
    {sha1 : Bytes → Bytes} {pm q : PieceManager}
    → IsSafe pm
    → Reach sha1 pm q
    → IsTracked pm
    → IsTracked q
Reach-IsTracked s here t = t
Reach-IsTracked {q = q} s (later r step) t =
    let s' = Reach-IsSafe s r in
    let v = (Step-IsSafe step s').valid in
    Counts-IsTracked _ q (Step-metadata s' step)
      (omega (arith, pieces_finished_le q v, v.supported.few)) (Step-Counts step s')
      (Reach-IsTracked s r t)

-- The tracker that the orchestrator makes for a torrent.
abbrev pub new_tracker : TorrentMetadata → ProgressTracker
new_tracker metadata = progress_tracker (to_i32 (pos (length metadata.info.piece_hashes))) (pos 100)

pub init-IsTracked :
    (metadata : TorrentMetadata) (disk : Disk)
    → length metadata.info.piece_hashes < 2 ^ 31
    → IsTracked (init metadata disk (some (new_tracker metadata)))
unfolding init progress_tracker
init-IsTracked metadata disk few = record {
  tracker = new_tracker metadata;
  told = refl;
  total = to_i32_small (length metadata.info.piece_hashes) few;
  count = refl;
}

-- Once a download with a progress tracker is complete, whatever blocks of the torrent's pieces the
-- sessions delivered, asked for and returned meanwhile, a line that the tracker prints has the full
-- bar of 100 marks. This is for a torrent with a piece at least and with fewer than 2^31, with
-- supported metadata and a file that can be opened, and by the laws of `double`.
pub Reach-HasMarks {ℓ} :
    {W : Type ℓ} ⦃d : Double W⦄ (laws : IsDouble W) {sha1 : Bytes → Bytes}
    (metadata : TorrentMetadata) (disk : Disk) {q : PieceManager}
    → IsSupported metadata
    → is_openable disk ≡ true
    → 0 < length metadata.info.piece_hashes
    → length metadata.info.piece_hashes < 2 ^ 31
    → Reach sha1 (init metadata disk (some (new_tracker metadata))) q
    → is_complete q ≡ true
    → (t : ProgressTracker) × (bar : Bar W) × (q.progress ≡ some t)
      × (log_progress t ≡ ok bar)
      × HasMarks bar 100
Reach-HasMarks laws {sha1} metadata disk {q} supported opened some_piece few r done =
    let s = init-IsSafe sha1 metadata disk (some (new_tracker metadata)) supported opened in
    let t = Reach-IsTracked s r (init-IsTracked metadata disk few) in
    let m = Reach-metadata s r ∙ init-metadata sha1 metadata disk (some (new_tracker metadata)) in
    let n = length metadata.info.piece_hashes in
    let size : num_pieces q ≡ n = ap (λ (x : TorrentMetadata). length x.info.piece_hashes) m in
    let le = pieces_finished_le q (Reach-IsSafe s r).valid in
    let ge = leb→le (num_pieces q) q.pieces_finished done in
    let all : t.tracker.finished_pieces ≡ n = omega (arith, t.count, size, le, ge) in
    let (bar, e, marks) =
      log_progress_full laws t.tracker n (t.total ∙ ap pos size) some_piece few all in
    (t.tracker, bar, t.told, e, marks)
