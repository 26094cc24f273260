-- ===== src/PieceManager/System/Download.antt =====
-- A download that comes to its end: every piece arrives, in any order.
use bit_torrent_client.Prelude.{
  ℕ, zero, suc, ◌^◌, ◌<◌, ◌≤◌, ◌≡◌, ◌≢◌, refl, sym, ◌∙◌, subst, ap, Bool, true, false, Option, some,
  arith, List, [], ◌∷◌, Bytes, length, get_elem?, replicate, Outcome, ok, get_elem?-lt,
  get_elem?-set_self,
}
use bit_torrent_client.Metadata.{TorrentMetadata}
use bit_torrent_client.FileHandler.{Disk, is_openable, open_file}
use bit_torrent_client.FileHandler.Stream.{AllSucceed}
use bit_torrent_client.ProgressTracker.{ProgressTracker}
use bit_torrent_client.PieceManager.{
  PieceManager, block_len, get_piece_length, deliver_block, is_complete, init, num_pieces,
}
use bit_torrent_client.PieceManager.BlockSet.{All}
use bit_torrent_client.PieceManager.Invariant.{
  IsValid, IsSupported, init-IsValid, get_piece_length_lem,
}
use bit_torrent_client.PieceManager.Complete.{is_complete_iff}
use bit_torrent_client.PieceManager.Delivery.{
  Delivery, known, refused, stored, completed, mismatched,
}
use bit_torrent_client.PieceManager.Deliver.{deliver_block_lem}
use bit_torrent_client.PieceManager.System.{Step, delivered, Reach, here, later, Reach-trans}
use bit_torrent_client.PieceManager.System.Safety.{
  IsSafe, Step-IsSafe, Reach-IsSafe, Reach-metadata,
}
use bit_torrent_client.PieceManager.System.Verified.{Reach-kept}
use bit_torrent_client.PieceManager.System.Contents.{IsFiled, IsStored, copy_into-whole}
use bit_torrent_client.PieceManager.System.Filed.{Step-IsFiled}

-- The bytes of a piece of one block, whole and with the hash that the torrent names.
abbrev pub IsPiece : (Bytes → Bytes) → TorrentMetadata → ℕ → Bytes → Type 0
IsPiece sha1 metadata i piece =
    (get_piece_length metadata i ≡ ok (length piece))
    × (length piece ≤ block_len)
    × (get_elem? metadata.info.piece_hashes i ≡ some (sha1 piece))

pub record Arrival : Type 0 where
  pub index : ℕ
  pub piece : Bytes

unfoldable pub deliver_all : (Bytes → Bytes) → List Arrival → PieceManager → PieceManager
deliver_all sha1 [] pm = pm
deliver_all sha1 (a ∷ rest) pm = deliver_all sha1 rest (deliver_block sha1 pm a.index 0 a.piece).0

module _ (sha1 : Bytes → Bytes) where
  Delivery-finishes :
      (pm q : PieceManager) (i : ℕ) (new : Bytes) {result : Outcome Bool}
      → IsSafe pm
      → IsValid q
      → IsPiece sha1 pm.metadata i new
      → Delivery sha1 pm i 0 new q result
      → get_elem? q.finished i ≡ some true
  Delivery-finishes pm q i new s v (len, one, hash) (known e same r) = rw same e
  Delivery-finishes pm q i new s v (len, one, hash) (refused n sized big fin file blocks meta r) =
      let same : length new ≡ n = cc (len, sized) in absurd (omega (arith, same, big))
  Delivery-finishes pm q i new s v (len, one, hash)
        (stored before piece at buffer count fits fin file blocks meta r) =
      let p = v.pending i piece at in
      let (n, en, positive, le) = get_piece_length_lem pm.metadata i s.valid.supported in
      let same : length new ≡ n = cc (len, en) in
      let sized : get_piece_length pm.metadata i ≡ ok (length piece.buffer) = rw meta at p.sized in
      let same' : length piece.buffer ≡ n = cc (sized, en) in
      absurd (omega (arith, p.short, p.needed, count, one, positive, same, same'))
  Delivery-finishes pm q i new s v (len, one, hash)
        (completed piece sized found before buffer fin count gone written notified blocks meta r) =
      rw fin (
        get_elem?-set_self pm.finished i true
          (omega (arith, get_elem?-lt pm.metadata.info.piece_hashes i hash, s.valid.marks.flags)))
  Delivery-finishes pm q i new s v (len, one, hash)
        (mismatched piece expected sized found apart before buffer fin file gone next blocks meta
          r) =
      let same_length : length piece ≡ length new = cc (len, sized) in
      let same = copy_into-whole before.piece.buffer new piece buffer same_length in
      let known_hash : expected ≡ sha1 new = cc (found, hash) in
      absurd (apart (known_hash ∙ ap sha1 (sym same)))

  -- The right bytes finish their piece.
  pub deliver_block-finishes :
      (pm : PieceManager) (i : ℕ) (new : Bytes)
      → IsSafe pm
      → IsPiece sha1 pm.metadata i new
      → get_elem? (deliver_block sha1 pm i 0 new).0.finished i ≡ some true
  deliver_block-finishes pm i new s right =
      let lt = get_elem?-lt pm.metadata.info.piece_hashes i right.2 in
      let (d, v) = deliver_block_lem sha1 pm i 0 new s.valid lt s.writable in
      Delivery-finishes pm _ i new s v right d

  -- What arrives is right.
  abbrev pub Arrives : TorrentMetadata → List Arrival → Type 0
  Arrives metadata came = All (λ (a : Arrival). IsPiece sha1 metadata a.index a.piece) came

  -- One delivery.
  module _ (a : Arrival) (pm : PieceManager) (s : IsSafe pm)
      (right : IsPiece sha1 pm.metadata a.index a.piece) where
    abbrev one_step : Step sha1 pm (deliver_block sha1 pm a.index 0 a.piece).0
    one_step =
        delivered a.index 0 a.piece
          (omega (
            arith,
            get_elem?-lt pm.metadata.info.piece_hashes a.index right.2,
            s.valid.marks.flags,
          ))
          refl

    after_one : IsSafe (deliver_block sha1 pm a.index 0 a.piece).0
    after_one = Step-IsSafe one_step s

    same_torrent : (deliver_block sha1 pm a.index 0 a.piece).0.metadata ≡ pm.metadata
    same_torrent = Reach-metadata s (later here one_step)

    rest_right :
        (rest : List Arrival)
        → Arrives pm.metadata rest
        → Arrives (deliver_block sha1 pm a.index 0 a.piece).0.metadata rest
    rest_right rest rights = subst (λ m. Arrives m rest) (sym same_torrent) rights

  pub deliver_all-Reach :
      (came : List Arrival) (pm : PieceManager)
      → IsSafe pm
      → Arrives pm.metadata came
      → Reach sha1 pm (deliver_all sha1 came pm)
  unfolding deliver_all
  deliver_all-Reach [] pm s right = here
  deliver_all-Reach (a ∷ rest) pm s (right, rights) =
      Reach-trans (later here (one_step a pm s right))
        (deliver_all-Reach rest _ (after_one a pm s right) (rest_right a pm s right rest rights))

  deliver_all-finished :
      (came : List Arrival) (pm : PieceManager) (k : ℕ) {a : Arrival}
      → IsSafe pm
      → Arrives pm.metadata came
      → get_elem? came k ≡ some a
      → get_elem? (deliver_all sha1 came pm).finished a.index ≡ some true
  unfolding deliver_all
  deliver_all-finished [] pm k s right at = absurd (cc)
  deliver_all-finished (b ∷ rest) pm zero {a} s (right, rights) at =
      let same : b ≡ a = cc in
      let done = deliver_block-finishes pm b.index b.piece s right in
      subst
        (λ (x : Arrival).
          get_elem? (deliver_all sha1 rest (deliver_block sha1 pm b.index 0 b.piece).0).finished
            x.index
          ≡ some true)
        same
        (Reach-kept b.index (after_one b pm s right)
          (deliver_all-Reach rest _ (after_one b pm s right) (rest_right b pm s right rest rights))
          done)
  deliver_all-finished (b ∷ rest) pm (suc k) s (right, rights) at =
      deliver_all-finished rest _ k (after_one b pm s right) (rest_right b pm s right rest rights)
        at

  -- Every piece arrives.
  pub deliver_all_complete :
      (came : List Arrival) (pm : PieceManager)
      → IsSafe pm
      → Arrives pm.metadata came
      → ((i : ℕ)
          → i < num_pieces pm
          → (k : ℕ) × (a : Arrival) × (get_elem? came k ≡ some a) × (a.index ≡ i))
      → (is_complete (deliver_all sha1 came pm) ≡ true)
        × ((i : ℕ)
            → i < num_pieces pm
            → get_elem? (deliver_all sha1 came pm).finished i ≡ some true)
  deliver_all_complete came pm s right all =
      let q = deliver_all sha1 came pm in
      let r = deliver_all-Reach came pm s right in
      let finished : (i : ℕ) → i < num_pieces pm → get_elem? q.finished i ≡ some true = λ i lt.
        let (k, a, at, e) = all i lt in
        subst (λ j. get_elem? q.finished j ≡ some true) e
          (deliver_all-finished came pm k s right at) in
      (
        (is_complete_iff q (Reach-IsSafe s r).valid).1
            (λ i lt. finished i (rw (Reach-metadata s r) at lt)),
        finished,
      )

  deliver_all-IsFiled :
      (came : List Arrival) (pm : PieceManager)
      → IsSafe pm
      → pm.metadata.info.piece_length < 2 ^ 31
      → Arrives pm.metadata came
      → IsFiled sha1 pm
      → IsFiled sha1 (deliver_all sha1 came pm)
  unfolding deliver_all
  deliver_all-IsFiled [] pm s small right f = f
  deliver_all-IsFiled (a ∷ rest) pm s small (right, rights) f =
      deliver_all-IsFiled rest _ (after_one a pm s right) (rw (same_torrent a pm s right) small)
        (rest_right a pm s right rest rights)
        (Step-IsFiled (one_step a pm s right) s small (refl, right.0) f)

  pub init-IsSafe :
      (metadata : TorrentMetadata) (disk : Disk) (progress : Option ProgressTracker)
      → IsSupported metadata
      → is_openable disk ≡ true
      → IsSafe (init metadata disk progress)
  unfolding init open_file
  init-IsSafe metadata disk progress s opened = record {
    valid = init-IsValid metadata disk progress s;
    writable = rw opened;
  }

  none_finished : (n i : ℕ) → get_elem? (replicate n false) i ≢ some true
  none_finished zero i e = cc
  none_finished (suc n) zero e = cc
  none_finished (suc n) (suc i) e = none_finished n i e

  pub init-IsFiled :
      (metadata : TorrentMetadata) (disk : Disk) (progress : Option ProgressTracker)
      → is_openable disk ≡ true
      → AllSucceed disk.fates
      → IsFiled sha1 (init metadata disk progress)
  unfolding init open_file
  init-IsFiled metadata disk progress opened succeed = record {
    sized = refl;
    sound = record { good = rw opened; succeed = succeed };
    held = λ i e. absurd (none_finished (length metadata.info.piece_hashes) i e);
  }

  pub init-metadata :
      (metadata : TorrentMetadata) (disk : Disk) (progress : Option ProgressTracker)
      → (init metadata disk progress).metadata ≡ metadata
  unfolding init
  init-metadata metadata disk progress = refl

-- A download comes to its end: the pieces of a torrent are delivered to a new piece manager whose
-- file can be opened and written, in any order and any number of times, each whole and with the
-- right hash, and every piece at least once. Then the download counts as complete, and every piece
-- is in the file at its place. This is if each piece is one block, the metadata are supported, and
-- 31 bits hold the piece length.
pub deliver_all_completes :
    (sha1 : Bytes → Bytes) (metadata : TorrentMetadata) (disk : Disk)
    (progress : Option ProgressTracker) (came : List Arrival)
    → is_openable disk ≡ true
    → AllSucceed disk.fates
    → IsSupported metadata
    → metadata.info.piece_length < 2 ^ 31
    → Arrives sha1 metadata came
    → ((i : ℕ)
        → i < length metadata.info.piece_hashes
        → (k : ℕ) × (a : Arrival) × (get_elem? came k ≡ some a) × (a.index ≡ i))
    → (is_complete (deliver_all sha1 came (init metadata disk progress)) ≡ true)
      × ((i : ℕ)
          → i < length metadata.info.piece_hashes
          → IsStored sha1 metadata
              (deliver_all sha1 came (init metadata disk progress)).file_handler.contents
              i)
deliver_all_completes sha1 metadata disk progress came opened succeed supported small right all =
    let pm = init metadata disk progress in
    let q = deliver_all sha1 came pm in
    let m = init-metadata sha1 metadata disk progress in
    let s = init-IsSafe sha1 metadata disk progress supported opened in
    let right' = subst (λ t. Arrives sha1 t came) (sym m) right in
    let same : q.metadata ≡ metadata =
      Reach-metadata s (deliver_all-Reach sha1 came pm s right') ∙ m in
    let (done, finished) =
      deliver_all_complete sha1 came pm s right' (λ i lt. all i (rw m at lt)) in
    let filed =
      deliver_all-IsFiled sha1 came pm s (rw m small) right'
        (init-IsFiled sha1 metadata disk progress opened succeed) in
    (
      done,
      λ i lt.
          subst (λ t. IsStored sha1 t q.file_handler.contents i) same
            (filed.held i (finished i (rw m lt))),
    )
