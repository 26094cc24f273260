-- ===== src/PieceManager/System/Examples.antt =====
-- A torrent of two pieces, of three bytes and of two.
use bit_torrent_client.Prelude.{
  ok, sym, subst, none, bytes_eq, false, ◌*◌, ◌+◌, ℕ, zero, suc, ◌<◌, ◌≡◌, ◌^◌, refl, arith, [],
  ◌∷◌, List, true, some, Bytes, codes, get_elem?, length,
}
use bit_torrent_client.Metadata.{TorrentMetadata}
use bit_torrent_client.PieceManager.{
  ensure_pending, receive, finish_piece, verify_hash, mark_finished, copy_into, set_piece, update,
  PieceManager, init, deliver_block, is_complete, get_piece_length,
}
use bit_torrent_client.PieceManager.Invariant.{IsSupported}
use bit_torrent_client.PieceManager.System.{Step, delivered, Reach, here, later}
use bit_torrent_client.PieceManager.System.Safety.{
  IsSafe, Step-IsSafe, Reach-IsSafe, Reach-metadata,
}
use bit_torrent_client.FileHandler.{working_disk, Disk, stream_write, write_piece, open_file}
use bit_torrent_client.FileHandler.Stream.{IsSound}
use bit_torrent_client.PieceManager.System.Unwritten.{deliver_block-unwritten}
use bit_torrent_client.PieceManager.System.Contents.{IsFiled, IsStored}
use bit_torrent_client.PieceManager.System.Filed.{Reach-IsFiled}
use bit_torrent_client.ProgressTracker.{ProgressTracker, Bar, log_progress}
use bit_torrent_client.ProgressTracker.Arithmetic.{
  Thousandths, thousandths_double, thousandths-IsDouble,
}
use bit_torrent_client.ProgressTracker.Shown.{HasMarks}
use bit_torrent_client.PieceManager.System.Progress.{new_tracker, Reach-HasMarks}
use bit_torrent_client.PieceManager.System.Broken.{deliver_all-unnoticed}
use bit_torrent_client.PieceManager.System.Download.{
  IsPiece, Arrival, Arrives, deliver_all, init-IsSafe, init-IsFiled, deliver_all_completes,
  deliver_all-Reach,
}

abbrev first : Bytes
first = 1 ∷ 2 ∷ 3 ∷ []

abbrev last : Bytes
last = 4 ∷ 5 ∷ []

abbrev metadata : TorrentMetadata
metadata = record {
  announce = [];
  comment = [];
  creation_date = 0;
  info_hash = [];
  info = record {
    piece_hashes = first ∷ last ∷ [];
    raw_pieces = [];
    piece_length = 3;
    file_length = 5;
    file_name = codes "a";
  };
}

-- A hash that is its own argument.
abbrev plain : Bytes → Bytes
plain b = b

abbrev fresh : PieceManager
fresh = init metadata (working_disk []) none

metadata-IsSupported : IsSupported metadata
metadata-IsSupported = record { nonzero = omega arith; few = omega arith }

fresh-IsSafe : IsSafe fresh
fresh-IsSafe = init-IsSafe plain metadata (working_disk []) none metadata-IsSupported refl

abbrev after : PieceManager
after = (deliver_block plain fresh 1 0 last).0

abbrev step : Step plain fresh after
unfolding init
step = delivered 1 0 last (omega arith) refl

abbrev one_delivery : Reach plain fresh after
one_delivery = later here step

Reach-IsSafe_example : IsSafe after
Reach-IsSafe_example = Reach-IsSafe fresh-IsSafe one_delivery

fresh-last : IsPiece plain fresh.metadata 1 last
unfolding init get_piece_length
fresh-last = (refl, omega arith, refl)

fresh-small : fresh.metadata.info.piece_length < 2 ^ 31
unfolding init
fresh-small = omega arith

Reach-IsFiled_example : IsFiled plain after
unfolding step
Reach-IsFiled_example =
    Reach-IsFiled one_delivery fresh-IsSafe fresh-small (tt, (refl, fresh-last.0))
      (init-IsFiled plain metadata (working_disk []) none refl tt)

-- The pieces in the other order.
abbrev arrivals : List Arrival
arrivals = (record { index = 1; piece = last }) ∷ (record { index = 0; piece = first }) ∷ []

arrivals-right : Arrives plain metadata arrivals
unfolding get_piece_length
arrivals-right = ((refl, omega arith, refl), ((refl, omega arith, refl), tt))

arrivals-all :
    (i : ℕ)
    → i < length metadata.info.piece_hashes
    → (k : ℕ) × (a : Arrival) × (get_elem? arrivals k ≡ some a) × (a.index ≡ i)
arrivals-all zero lt = (1, record { index = 0; piece = first }, refl, refl)
arrivals-all (suc zero) lt = (0, record { index = 1; piece = last }, refl, refl)
arrivals-all (suc (suc i)) lt = absurd (omega arith)

deliver_all_completes_example :
    (is_complete (deliver_all plain arrivals (init metadata (working_disk []) none)) ≡ true)
    × ((i : ℕ)
        → i < length metadata.info.piece_hashes
        → IsStored plain metadata
            (deliver_all plain arrivals
              (init metadata (working_disk []) none)).file_handler.contents
            i)
deliver_all_completes_example =
    deliver_all_completes plain metadata (working_disk []) none arrivals refl tt
      metadata-IsSupported (omega arith) arrivals-right arrivals-all

-- A piece that ends in a zero, and a block that lacks it.
abbrev padded : TorrentMetadata
padded = record metadata {
  info = record metadata.info { piece_hashes = (1 ∷ 2 ∷ 0 ∷ []) ∷ []; file_length = 3 };
}

abbrev padded_fresh : PieceManager
padded_fresh = init padded (working_disk (9 ∷ 9 ∷ 9 ∷ [])) none

padded-IsSafe : IsSafe padded_fresh
padded-IsSafe =
    init-IsSafe plain padded (working_disk (9 ∷ 9 ∷ 9 ∷ [])) none
      (record { nonzero = omega arith; few = omega arith }) refl

padded-before : get_elem? padded_fresh.finished 0 ≡ some false
unfolding init
padded-before = refl

padded-after :
    get_elem? (deliver_block plain padded_fresh 0 0 (1 ∷ 2 ∷ [])).0.finished 0 ≡ some true
unfolding init deliver_block ensure_pending receive finish_piece verify_hash mark_finished copy_into
    set_piece update get_piece_length write_piece stream_write open_file bytes_eq
padded-after = refl

padded-small : padded_fresh.metadata.info.piece_length < 2 ^ 31
unfolding init
padded-small = omega arith

padded-IsSound : IsSound padded_fresh.file_handler
unfolding init open_file
padded-IsSound = record { good = refl; succeed = tt }

deliver_block-unwritten_example :
    get_elem?
      (deliver_block plain padded_fresh 0 0 (1 ∷ 2 ∷ [])).0.file_handler.contents
      (0 * padded_fresh.metadata.info.piece_length + 2)
    ≡ get_elem? padded_fresh.file_handler.contents (0 * padded_fresh.metadata.info.piece_length + 2)
deliver_block-unwritten_example =
    deliver_block-unwritten plain padded_fresh 0 0 (1 ∷ 2 ∷ []) 2 padded-IsSafe padded-small
      padded-IsSound padded-before padded-after (omega arith)

-- A disk that is full: the first write fails.
abbrev full_disk : Disk
full_disk = record (working_disk []) { fates = some [] ∷ [] }

abbrev failed : PieceManager
failed = (deliver_block plain (init metadata full_disk none) 1 0 last).0

failing : Step plain (init metadata full_disk none) failed
unfolding init
failing = delivered 1 0 last (omega arith) refl

failed-IsSafe : IsSafe failed
failed-IsSafe =
    Step-IsSafe failing (init-IsSafe plain metadata full_disk none metadata-IsSupported refl)

failed-broken : failed.file_handler.is_good ≡ false
unfolding init deliver_block ensure_pending receive finish_piece verify_hash mark_finished copy_into
    set_piece update get_piece_length write_piece stream_write open_file bytes_eq
failed-broken = refl

failed-metadata : failed.metadata ≡ metadata
unfolding init
failed-metadata =
    Reach-metadata (init-IsSafe plain metadata full_disk none metadata-IsSupported refl)
      (later here failing)

deliver_all-unnoticed_example :
    (is_complete (deliver_all plain arrivals failed) ≡ true)
    × ((deliver_all plain arrivals failed).file_handler.contents ≡ failed.file_handler.contents)
deliver_all-unnoticed_example =
    deliver_all-unnoticed plain failed arrivals failed-IsSafe failed-broken
      (subst (λ m. Arrives plain m arrivals) (sym failed-metadata) arrivals-right)
      (λ i lt. arrivals-all i (rw failed-metadata at lt))

-- The same download with a progress tracker.
abbrev tracked : PieceManager
tracked = init metadata (working_disk []) (some (new_tracker metadata))

tracked-IsSafe : IsSafe tracked
tracked-IsSafe =
    init-IsSafe plain metadata (working_disk []) (some (new_tracker metadata)) metadata-IsSupported
      refl

tracked-metadata : tracked.metadata ≡ metadata
unfolding init
tracked-metadata = refl

tracked_complete : is_complete (deliver_all plain arrivals tracked) ≡ true
tracked_complete =
    (deliver_all_completes plain metadata (working_disk []) (some (new_tracker metadata)) arrivals
      refl tt metadata-IsSupported (omega arith) arrivals-right arrivals-all).0

Reach-HasMarks_example :
    (t : ProgressTracker) × (bar : Bar Thousandths) × ((deliver_all plain arrivals tracked).progress
      ≡ some t)
    × (log_progress t ≡ ok bar)
    × HasMarks bar 100
Reach-HasMarks_example =
    Reach-HasMarks thousandths-IsDouble metadata (working_disk []) metadata-IsSupported refl
      (omega arith) (omega arith)
      (deliver_all-Reach plain arrivals tracked tracked-IsSafe
        (subst (λ m. Arrives plain m arrivals) (sym tracked-metadata) arrivals-right))
      tracked_complete
