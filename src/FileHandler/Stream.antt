-- ===== src/FileHandler/Stream.antt =====
-- What a write does to the stream.
use bit_torrent_client.Prelude.{
  ℕ, ◌*◌, ◌%◌, ◌^◌, ◌≤◌, ◌<◌, ◌≡◌, refl, inl, inr, [], ◌∷◌, List, true, false, ◌&&◌, Option, none,
  some, Bytes, length, ltb, ok, lt→ltb, ge→ltb, Bool-cases,
}
use bit_torrent_client.FileHandler.{FileHandler, write_at, finish_write, stream_write, write_piece}

-- No write to come fails.
abbrev pub AllSucceed : List (Option Bytes) → Type 0
AllSucceed [] = Unit
AllSucceed (fate ∷ rest) = (fate ≡ none) × AllSucceed rest

-- The stream is good and stays so.
pub record IsSound (fh : FileHandler) : Type 0 where
  pub good : fh.is_good ≡ true
  pub succeed : AllSucceed fh.fates

finish_write-keeps :
    (fh : FileHandler) (written : Bytes) (fates : List (Option Bytes))
    → ((finish_write fh written fates).is_open ≡ fh.is_open)
      × ((finish_write fh written fates).piece_size ≡ fh.piece_size)
finish_write-keeps fh written [] = (refl, refl)
finish_write-keeps fh written (none ∷ rest) = (refl, refl)
finish_write-keeps fh written (some left ∷ rest) = (refl, refl)

-- What a write keeps.
pub stream_write-keeps :
    (fh : FileHandler) (at : ℕ) (new : Bytes)
    → ((stream_write fh at new).is_open ≡ fh.is_open)
      × ((stream_write fh at new).piece_size ≡ fh.piece_size)
unfolding stream_write
stream_write-keeps fh at new = elim (Bool-cases (fh.is_good && ltb at (2 ^ 63))) [
  | inl e ↦ rw e (finish_write-keeps fh (write_at fh.contents at new) fh.fates)
  | inr e ↦ rw e (refl, refl)
]

finish_write-IsSound :
    (fh : FileHandler) (written : Bytes) (fates : List (Option Bytes))
    → fh.is_good ≡ true
    → fh.fates ≡ fates
    → AllSucceed fates
    → ((finish_write fh written fates).contents ≡ written) × IsSound (finish_write fh written fates)
finish_write-IsSound fh written [] good same all =
    (refl, record { good = good; succeed = rw same tt })
finish_write-IsSound fh written (none ∷ rest) good same (e, all) =
    (refl, record { good = good; succeed = all })
finish_write-IsSound fh written (some left ∷ rest) good same (e, all) = absurd (cc)

-- A sound stream writes, and stays sound.
pub stream_write-IsSound :
    (fh : FileHandler) (at : ℕ) (new : Bytes)
    → IsSound fh
    → at < 2 ^ 63
    → ((stream_write fh at new).contents ≡ write_at fh.contents at new)
      × IsSound (stream_write fh at new)
unfolding stream_write
stream_write-IsSound fh at new s lt =
    let writes : (fh.is_good && ltb at (2 ^ 63)) ≡ true = rw (s.good, lt→ltb at (2 ^ 63) lt) in
    rw writes (finish_write-IsSound fh (write_at fh.contents at new) fh.fates s.good refl s.succeed)

-- A stream that is not good does nothing, and stays as it is.
pub stream_write-broken :
    (fh : FileHandler) (at : ℕ) (new : Bytes)
    → fh.is_good ≡ false
    → ((stream_write fh at new).contents ≡ fh.contents) × ((stream_write fh at new).is_good ≡ false)
unfolding stream_write
stream_write-broken fh at new bad =
    let refuses : (fh.is_good && ltb at (2 ^ 63)) ≡ false = rw bad in rw refuses (refl, refl)

module _ (fh : FileHandler) (index : ℕ) (new : Bytes) where
  -- The place of a piece.
  abbrev pub place : ℕ
  place = index * fh.piece_size % 2 ^ 64

  pub write_piece-open :
      fh.is_open ≡ true
      → length new ≤ fh.piece_size
      → write_piece fh index new ≡ ok (stream_write fh place new)
  unfolding write_piece
  write_piece-open e le = rw (ge→ltb fh.piece_size (length new) le, e)

  -- What returns has written through the stream.
  pub write_piece-written :
      {done : FileHandler} → write_piece fh index new ≡ ok done → done ≡ stream_write fh place new
  unfolding write_piece
  write_piece-written e = elim (Bool-cases (ltb fh.piece_size (length new))) [
    | inl big ↦ absurd (cc (rw big at e))
    | inr small ↦ elim (Bool-cases fh.is_open) [
      | inl opened ↦ cc (rw (small, opened) at e)
      | inr closed ↦ absurd (cc (rw (small, closed) at e))
    ]
  ]
