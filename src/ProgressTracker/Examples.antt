-- ===== src/ProgressTracker/Examples.antt =====
-- Lines of output, with numbers counted in thousandths.
use bit_torrent_client.Prelude.{◌≡◌, refl, true, List, [], ◌∷◌, ok, fault, arith}
use bit_torrent_client.Prelude.Int.{pos}
use bit_torrent_client.ProgressTracker.{ProgressTracker, Bar, log_progress, print_loop}
use bit_torrent_client.ProgressTracker.Arithmetic.{
  Thousandths, thousandths_double, thousandths-IsDouble,
}
use bit_torrent_client.ProgressTracker.Shown.{
  AllHaveMarks, print_loop-AllHaveMarks, log_progress_empty,
}

-- One of three pieces.
abbrev third : ProgressTracker
third = record {
  total_pieces = pos 3;
  frequency = pos 100;
  finished_pieces = 1;
  keep_running = true;
}

-- While the thread sleeps for the first time, the second piece comes, and then the third.
abbrev sleeps : List (ProgressTracker → ProgressTracker)
sleeps = (λ t. record t { finished_pieces = 2 }) ∷ (λ t. record t { finished_pieces = 3 }) ∷ []

print_loop-AllHaveMarks_example :
    (bars : List (Bar Thousandths)) × (print_loop sleeps third ≡ ok bars) × AllHaveMarks bars
print_loop-AllHaveMarks_example =
    print_loop-AllHaveMarks thousandths-IsDouble 3 sleeps third (omega arith) (refl, omega arith)
      ((λ t counts. (counts.0, omega arith)), ((λ t counts. (counts.0, omega arith)), tt))

abbrev empty : ProgressTracker
empty = record third { total_pieces = pos 0; finished_pieces = 0 }

log_progress_empty_example : log_progress {W = Thousandths} empty ≡ fault
log_progress_empty_example = log_progress_empty thousandths-IsDouble empty refl refl
