-- ===== src/Orchestrator/Examples.antt =====
-- The wait for a torrent of one piece.
use bit_torrent_client.FileHandler.{working_disk}
use bit_torrent_client.Prelude.{
  none, ℕ, zero, suc, ◌<◌, ◌≡◌, ◌⊎◌, refl, arith, [], ◌∷◌, List, true, false, some, Bytes, codes,
  get_elem?, length,
}
use bit_torrent_client.Metadata.{TorrentMetadata}
use bit_torrent_client.PieceManager.{
  PieceManager, init, deliver_block, is_complete, get_piece_length,
}
use bit_torrent_client.PieceManager.Invariant.{IsSupported}
use bit_torrent_client.PieceManager.System.{Step, delivered}
use bit_torrent_client.PieceManager.System.Safety.{IsSafe}
use bit_torrent_client.PieceManager.System.Download.{
  Arrival, Arrives, deliver_all, init-IsSafe, deliver_all_completes,
}
use bit_torrent_client.Orchestrator.Wait.{
  Turns, Turn, no_turn, testing, operate, at_test, in_wait, passed, blocked, in_wait-passed,
  lost_wakeup,
}

abbrev only : Bytes
only = 1 ∷ 2 ∷ 3 ∷ []

abbrev metadata : TorrentMetadata
metadata = record {
  announce = [];
  comment = [];
  creation_date = 0;
  info_hash = [];
  info = record {
    piece_hashes = only ∷ [];
    raw_pieces = [];
    piece_length = 3;
    file_length = 3;
    file_name = codes "a";
  };
}

-- A hash that is its own argument.
abbrev plain : Bytes → Bytes
plain b = b

abbrev fresh : PieceManager
fresh = init metadata (working_disk []) none

abbrev full : PieceManager
full = (deliver_block plain fresh 0 0 only).0

metadata-IsSupported : IsSupported metadata
metadata-IsSupported = record { nonzero = omega arith; few = omega arith }

fresh-IsSafe : IsSafe fresh
fresh-IsSafe = init-IsSafe plain metadata (working_disk []) none metadata-IsSupported refl

fresh-lacking : is_complete fresh ≡ false
unfolding init
fresh-lacking = refl

abbrev arrival : List Arrival
arrival = (record { index = 0; piece = only }) ∷ []

arrival-right : Arrives plain metadata arrival
unfolding get_piece_length
arrival-right = ((refl, omega arith, refl), tt)

arrival-all :
    (i : ℕ)
    → i < length metadata.info.piece_hashes
    → (k : ℕ) × (a : Arrival) × (get_elem? arrival k ≡ some a) × (a.index ≡ i)
arrival-all zero lt = (0, record { index = 0; piece = only }, refl, refl)
arrival-all (suc i) lt = absurd (omega arith)

full_complete : is_complete full ≡ true
unfolding deliver_all
full_complete =
    (deliver_all_completes plain metadata (working_disk []) none arrival refl tt
      metadata-IsSupported (omega arith) arrival-right arrival-all).0

abbrev step : Step plain fresh full
unfolding init
step = delivered 0 0 only (omega arith) refl

in_wait-passed_example :
    ((operate (in_wait fresh) full).waiter ≡ passed)
    ⊎ (((operate (in_wait fresh) full).waiter ≡ testing)
        × Turn plain
            (operate (in_wait fresh) full)
            (record (operate (in_wait fresh) full) { waiter = passed }))
in_wait-passed_example = in_wait-passed fresh-IsSafe step fresh-lacking full_complete no_turn

lost_wakeup_example :
    Turns plain (at_test fresh) (in_wait full) × (blocked ≡ blocked) × (is_complete full ≡ true)
lost_wakeup_example = lost_wakeup fresh-IsSafe step fresh-lacking full_complete no_turn
