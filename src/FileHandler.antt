-- ===== src/FileHandler.antt =====
-- src/app/file_handler.cpp: pieces are written at their place in one file. What the operating
-- system does with the file is not in the source: whether it can be opened and made, and whether a
-- write succeeds, are data of the model.
pub mod Contents
pub mod Stream
use bit_torrent_client.Prelude.{
  ℕ, ◌+◌, ◌-◌, ◌*◌, ◌%◌, ◌^◌, [], ◌∷◌, ◌++◌, List, Bool, true, false, ◌&&◌, ◌||◌, Option, none,
  some, Bytes, length, take, drop, replicate, ltb, if◌then◌else◌, Outcome, ok, throws, fault,
  runtime_error,
}

-- The file before the program opens it: whether `std::fstream{path}` opens it, whether it can be
-- made otherwise, whether it can be opened then, and its contents. A fate is of one write: `none`
-- for one that succeeds, and what is in the file behind one that fails. Behind the list all
-- succeed.
pub record Disk : Type 0 where
  pub opens : Bool
  pub creates : Bool
  pub reopens : Bool
  pub contents : Bytes
  pub fates : List (Option Bytes)

-- `is_good` is the state of the stream: false is `fail()`.
pub record FileHandler : Type 0 where
  pub is_open : Bool
  pub is_good : Bool
  pub contents : Bytes
  pub fates : List (Option Bytes)
  pub piece_size : ℕ
  pub last_piece_size : ℕ

-- A disk with a file that can be opened and written.
abbrev pub working_disk : Bytes → Disk
working_disk old = record {
  opens = true;
  creates = true;
  reopens = true;
  contents = old;
  fates = [];
}

-- The file can be opened, if need be after it was made.
abbrev pub is_openable : Disk → Bool
is_openable disk = disk.opens || disk.reopens

-- The constructor. A file that does not open is made, which empties it, closed and opened again.
-- `open` clears the state of the stream if it succeeds.
unfoldable pub open_file : Disk → ℕ → ℕ → FileHandler
open_file disk piece_size last_piece_size =
    let is_open = is_openable disk in
    let kept = if disk.creates then [] else disk.contents in
    record {
      is_open = is_open;
      is_good = is_open;
      contents = if disk.opens then disk.contents else kept;
      fates = disk.fates;
      piece_size = piece_size;
      last_piece_size = last_piece_size;
    }

-- Bytes written over those at a position. A gap behind the end of the file reads as zeros.
unfoldable pub write_at : Bytes → ℕ → Bytes → Bytes
write_at old at new =
    take at (old ++ replicate (at - length old) 0) ++ (new ++ drop (at + length new) old)

-- `write` and `flush` by the fate of the write: `written` is the file behind one that succeeds.
abbrev pub finish_write : FileHandler → Bytes → List (Option Bytes) → FileHandler
finish_write fh written [] = record fh { contents = written }
finish_write fh written (none ∷ rest) = record fh { contents = written; fates = rest }
finish_write fh written (some left ∷ rest) = record fh {
  contents = left;
  fates = rest;
  is_good = false;
}

-- `seekp`, `write` and `flush`. On a stream that is not good they do nothing. A position of more
-- than 63 bits is negative for the stream, so that `seekp` fails.
unfoldable pub stream_write : FileHandler → ℕ → Bytes → FileHandler
stream_write fh at new =
    if fh.is_good && ltb at (2 ^ 63)
    then finish_write fh (write_at fh.contents at new) fh.fates
    else record fh { is_good = false }

-- The product of a `uint32_t` and a `size_t` is a `size_t`. `fault` is the assertion.
unfoldable pub write_piece : FileHandler → ℕ → Bytes → Outcome FileHandler
write_piece fh index new =
    if ltb fh.piece_size (length new)
    then fault
    else if fh.is_open
    then ok (stream_write fh (index * fh.piece_size % 2 ^ 64) new)
    else throws runtime_error
