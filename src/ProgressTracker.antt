-- ===== src/ProgressTracker.antt =====
-- include/app/progress_tracker.hpp and src/app/progress_tracker.cpp. Beside the counter the tracker
-- has a thread of its own, which prints the state every now and then.
pub mod Arithmetic
pub mod Shown
mod Examples
use bit_torrent_client.Prelude.{
  ℕ, ◌+◌, ◌-◌, ◌%◌, ◌^◌, [], ◌∷◌, List, Bool, true, false, Bytes, replicate, ltb, if◌then◌else◌,
  Outcome, ok, throws, fault, length_error, or_fault, ◌>>=◌,
}
use bit_torrent_client.Prelude.Int.{ℤ, pos, negsuc, to_i32}
use bit_torrent_client.ProgressTracker.Arithmetic.{Double}

-- `finished_pieces` holds the 32 bits of the counter.
pub record ProgressTracker : Type 0 where
  pub total_pieces : ℤ
  pub frequency : ℤ
  pub finished_pieces : ℕ
  pub keep_running : Bool

-- The constructor. What it prints is not modelled.
unfoldable pub progress_tracker : ℤ → ℤ → ProgressTracker
progress_tracker total_pieces frequency = record {
  total_pieces = total_pieces;
  frequency = frequency;
  finished_pieces = 0;
  keep_running = true;
}

-- `notifyProgress`: the atomic counter wraps around.
unfoldable pub notify_progress : ProgressTracker → ProgressTracker
notify_progress t = record t { finished_pieces = (t.finished_pieces + 1) % 2 ^ 32 }

-- What a line of output shows: the percentage, and the two parts of the bar.
pub record Bar {ℓ} (W : Type ℓ) : Type ℓ where
  pub percent : W
  pub hashtags : Bytes
  pub spaces : Bytes

-- `std::string(n, c)`: a number below 0 is more than a string can hold.
abbrev pub fill : ℤ → ℕ → Outcome Bytes
fill (pos n) c = ok (replicate n c)
fill (negsuc n) c = throws length_error

-- `100 - n` of `int`s, and 0 if it is less than that.
abbrev pub space_left : ℤ → Outcome ℤ
space_left (pos n) = ok (pos (100 - n))
space_left (negsuc n) = if ltb (101 + n) (2 ^ 31) then ok (pos (101 + n)) else fault

module _ {ℓ} {W : Type ℓ} ⦃d : Double W⦄ where
  -- `_logProgress`, but for the clock.
  unfoldable pub log_progress : ProgressTracker → Outcome (Bar W)
  log_progress t = do
    let hundred = d.of_int (pos 100)
    let progress = d.divide (d.of_int (to_i32 (pos t.finished_pieces))) (d.of_int t.total_pieces)
    let product = d.times progress hundred
    let percent = if d.gt product hundred then hundred else product
    amount_hash ← or_fault (d.to_int percent)
    amount_space ← space_left amount_hash
    hashtags ← fill amount_hash b'#'
    spaces ← fill amount_space b' '
    ok (record { percent = percent; hashtags = hashtags; spaces = spaces })

  -- The loop of the thread, and the lines that it prints. `sleeps` has what the other threads do
  -- while it sleeps, so far.
  unfoldable pub print_loop :
      List (ProgressTracker → ProgressTracker) → ProgressTracker → Outcome (List (Bar W))
  print_loop [] t = ok []
  print_loop (others ∷ sleeps) t =
      let rest = print_loop sleeps (others t) in
      if t.keep_running
      then (log_progress (others t) >>= λ bar. rest >>= λ bars. ok (bar ∷ bars))
      else ok []

  -- The destructor. The loop of the thread has come to its end before the last line is printed.
  unfoldable pub destroy : ProgressTracker → Outcome (Bar W)
  destroy t = log_progress (record t { keep_running = false })
