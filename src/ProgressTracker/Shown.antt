-- ===== src/ProgressTracker/Shown.antt =====
-- What the bar shows.
use bit_torrent_client.Prelude.{
  ℕ, ◌-◌, List, [], ◌∷◌, ◌^◌, ◌≤◌, ◌<◌, ◌≡◌, refl, inl, inr, true, false, some, replicate, ok,
  fault, arith, Bool-cases, ap, ◌∙◌,
}
use bit_torrent_client.Prelude.Int.{ℤ, pos, to_i32}
use bit_torrent_client.ProgressTracker.{ProgressTracker, Bar, log_progress, print_loop}
use bit_torrent_client.ProgressTracker.Arithmetic.{Double, IsDouble}

pub to_i32_small : (n : ℕ) → n < 2 ^ 31 → to_i32 (pos n) ≡ pos n
to_i32_small n lt = ground arith

-- The number of all pieces, and fewer finished ones than would be negative.
abbrev pub IsCounting : ℕ → ProgressTracker → Type 0
IsCounting total t = (t.total_pieces ≡ pos total) × (t.finished_pieces < 2 ^ 31)

-- What the other threads do in each sleep keeps the count between its bounds.
abbrev pub AllCount : ℕ → List (ProgressTracker → ProgressTracker) → Type 0
AllCount total [] = Unit
AllCount total (others ∷ sleeps) =
    ((t : ProgressTracker) → IsCounting total t → IsCounting total (others t))
    × AllCount total sleeps

module _ {ℓ} {W : Type ℓ} ⦃d : Double W⦄ where
  -- The bar has `n` of 100 marks.
  pub record HasMarks (bar : Bar W) (n : ℕ) : Type 0 where
    pub bounded : n ≤ 100
    pub hashtags : bar.hashtags ≡ replicate n b'#'
    pub spaces : bar.spaces ≡ replicate (100 - n) b' '

  abbrev pub AllHaveMarks : List (Bar W) → Type 0
  AllHaveMarks [] = Unit
  AllHaveMarks (bar ∷ bars) = ((n : ℕ) × HasMarks bar n) × AllHaveMarks bars

  abbrev product : ProgressTracker → W
  product t =
      d.times (d.divide (d.of_int (to_i32 (pos t.finished_pieces))) (d.of_int t.total_pieces))
        (d.of_int (pos 100))

  abbrev quotient : ℤ → ℤ → W
  quotient finished total =
      d.times (d.divide (d.of_int finished) (d.of_int total)) (d.of_int (pos 100))

  product_of :
      (t : ProgressTracker) (n total : ℕ)
      → t.finished_pieces ≡ n
      → n < 2 ^ 31
      → t.total_pieces ≡ pos total
      → product t ≡ quotient (pos n) (pos total)
  product_of t n total finished small e =
      ap (λ z. quotient z t.total_pieces) (ap (λ k. to_i32 (pos k)) finished ∙ to_i32_small n small)
      ∙ ap (λ z. quotient (pos n) z) e

  abbrev bar_of : W → ℕ → Bar W
  bar_of percent n = record {
    percent = percent;
    hashtags = replicate n b'#';
    spaces = replicate (100 - n) b' ';
  }

  bar_of-HasMarks : (percent : W) (n : ℕ) → n ≤ 100 → HasMarks (bar_of percent n) n
  bar_of-HasMarks percent n le = record { bounded = le; hashtags = refl; spaces = refl }

  -- The percentage is above 100, or it is as computed.
  log_progress-clamped :
      (t : ProgressTracker)
      → d.gt (product t) (d.of_int (pos 100)) ≡ true
      → d.to_int (d.of_int (pos 100)) ≡ some (pos 100)
      → log_progress t ≡ ok (bar_of (d.of_int (pos 100)) 100)
  unfolding log_progress
  log_progress-clamped t above e = rw (above, e)

  log_progress-computed :
      (t : ProgressTracker) (n : ℕ)
      → d.gt (product t) (d.of_int (pos 100)) ≡ false
      → d.to_int (product t) ≡ some (pos n)
      → log_progress t ≡ ok (bar_of (product t) n)
  unfolding log_progress
  log_progress-computed t n within e = rw (within, e)

  module _ (laws : IsDouble W) where
    open laws use {
      of_int-at_least_zero, divide-at_least_zero, times-at_least_zero, divide_self, one_times,
      gt_irrefl, to_int-of_int, to_int_bounded, nan-divide, nan-times, gt-nan, to_int-nan,
    }

    -- With a piece at least in all, and fewer than 2^31 finished ones, a line of output has a bar
    -- of 100 places: the marks, 100 at most, and spaces for the rest. This is by the laws of
    -- `double`.
    log_progress-HasMarks :
        (t : ProgressTracker) (total : ℕ)
        → t.total_pieces ≡ pos total
        → 0 < total
        → t.finished_pieces < 2 ^ 31
        → (bar : Bar W) × (n : ℕ) × (log_progress t ≡ ok bar) × HasMarks bar n
    log_progress-HasMarks t total e positive small =
        elim (Bool-cases (d.gt (product t) (d.of_int (pos 100)))) [
          | inl above ↦ (
            bar_of (d.of_int (pos 100)) 100,
            100,
            log_progress-clamped t above (to_int-of_int 100 (omega arith)),
            bar_of-HasMarks (d.of_int (pos 100)) 100 (omega arith),
          )
          | inr within ↦
              let (n, whole, le) = to_int_bounded (product t) 100 (omega arith) at_least within in
              (
                bar_of (product t) n,
                n,
                log_progress-computed t n within whole,
                bar_of-HasMarks (product t) n le,
              )
        ]
      where
        at_least : laws.at_least_zero (product t)
        at_least = rw (product_of t t.finished_pieces total refl small e) (
            times-at_least_zero _ 100
              (divide-at_least_zero _ total positive (of_int-at_least_zero t.finished_pieces))
              (omega arith))

    -- The thread of the progress tracker prints line after line without failing, and every line has
    -- a bar of 100 places. This is with a piece at least in all, as long as the other threads keep
    -- the number of finished pieces below 2^31 and the number of all pieces as it is.
    pub print_loop-AllHaveMarks :
        (total : ℕ) (sleeps : List (ProgressTracker → ProgressTracker)) (t : ProgressTracker)
        → 0 < total
        → IsCounting total t
        → AllCount total sleeps
        → (bars : List (Bar W)) × (print_loop sleeps t ≡ ok bars) × AllHaveMarks bars
    unfolding print_loop
    print_loop-AllHaveMarks total [] t positive counts all = ([], refl, tt)
    print_loop-AllHaveMarks total (others ∷ sleeps) t positive counts (keeps, all) =
        let after = keeps t counts in
        let (bar, n, e, marks) = log_progress-HasMarks (others t) total after.0 positive after.1 in
        let (bars, es, rest) = print_loop-AllHaveMarks total sleeps (others t) positive after all in
        elim (Bool-cases t.keep_running) [
          | inl runs ↦ (bar ∷ bars, rw (e, es, runs), ((n, marks), rest))
          | inr stopped ↦ ([], rw stopped, tt)
        ]

    -- Once all pieces are finished, the bar is full.
    pub log_progress_full :
        (t : ProgressTracker) (total : ℕ)
        → t.total_pieces ≡ pos total
        → 0 < total
        → total < 2 ^ 31
        → t.finished_pieces ≡ total
        → (bar : Bar W) × (log_progress t ≡ ok bar) × HasMarks bar 100
    log_progress_full t total e positive small all =
        let hundred : product t ≡ d.of_int (pos 100) =
          product_of t total total all small e
          ∙ ap (λ x. d.times x (d.of_int (pos 100))) (divide_self total positive)
          ∙ one_times 100 in
        (
          bar_of (product t) 100,
          log_progress-computed t 100 (rw hundred (gt_irrefl 100))
              (rw hundred (to_int-of_int 100 (omega arith))),
          bar_of-HasMarks (product t) 100 (omega arith),
        )

    -- Without any piece the percentage is 0 divided by 0, and its conversion to `int` is undefined.
    pub log_progress_empty :
        (t : ProgressTracker)
        → t.total_pieces ≡ pos 0
        → t.finished_pieces ≡ 0
        → log_progress {W = W} t ≡ fault
    unfolding log_progress
    log_progress_empty t none_at_all none_finished =
        let no_number : laws.nan (product t) =
          rw (product_of t 0 0 none_finished (omega arith) none_at_all)
            (nan-times _ _ nan-divide) in
        rw (gt-nan (product t) (d.of_int (pos 100)) no_number, to_int-nan (product t) no_number)
