-- ===== src/Main.antt =====
-- src/main.cpp: the program as a whole, from its arguments to its exit code. Setting the log level
-- has no effect on the rest. The library that parses arguments is a parameter.
pub mod Outcomes
pub mod Start
mod Examples
use bit_torrent_client.Prelude.{
  ℕ, ◌⊎◌, inl, inr, Bool, true, false, Bytes, List, Outcome, ok, throws, fault, out_of_fuel,
  if◌then◌else◌, ◌>>=◌, Option, none, some, [], ◌∷◌, codes,
}
use bit_torrent_client.PieceManager.{PieceManager}
use bit_torrent_client.Orchestrator.Wait.{Waiting}
use bit_torrent_client.PeerManager.{start, stop, join_until, destroy_threads}
use bit_torrent_client.PeerManager
use bit_torrent_client.Orchestrator.{
  Outside, Orchestrator, orchestrator, begin_download, finish_download,
}

pub record Settings : Type 0 where
  pub torrent_path : Bytes
  pub verbose : Bool

-- What `add_argument` is told of an argument.
pub record Argument : Type 0 where
  pub short : Bytes
  pub long : Bytes
  pub required : Bool
  pub default_value : Option Bool
  pub implicit_value : Option Bool

-- What the client uses of the library `argparse`.
pub record ArgumentParser : Type 1 where
  pub Parsed : Type 0
  -- Or the library ends the program itself, with this code: so it does for `--help`, which it adds.
  pub parse_args : List Argument → List Bytes → Outcome (Parsed ⊎ ℕ)
  pub get_string : Parsed → Bytes → Outcome Bytes
  pub get_bool : Parsed → Bytes → Outcome Bool

abbrev pub arguments : List Argument
arguments =
    (record {
      short = codes "-t";
      long = codes "--torrent";
      required = true;
      default_value = none;
      implicit_value = none;
    })
    ∷ (record {
      short = codes "-v";
      long = codes "--verbose";
      required = false;
      default_value = some false;
      implicit_value = some true;
    })
    ∷ []

-- What a run of the program comes to. `waits` is the wait for the download, `terminates` is
-- `std::terminate`, `faults` is undefined behaviour or a failed assertion, and `hangs` is a loop
-- without end.
pub data Ending : Type 0 where
  exits : ℕ → Ending
  terminates waits faults hangs : Ending

-- Under `try`: both handlers end the program with 1.
abbrev pub attempt {ℓ} : {A : Type ℓ} → Outcome A → (A → Ending) → Ending
attempt (ok a) f = f a
attempt (throws e) f = exits 1
attempt fault f = faults
attempt out_of_fuel f = hangs

-- Under no `try`.
abbrev pub uncaught {ℓ} : {A : Type ℓ} → Outcome A → (A → Ending) → Ending
uncaught (ok a) f = f a
uncaught (throws e) f = terminates
uncaught fault f = faults
uncaught out_of_fuel f = hangs

module _ (app : ArgumentParser) where
  -- The end of `parse_args`, behind its `try`.
  unfoldable pub read_settings : app.Parsed → Outcome Settings
  read_settings parsed = do
    torrent_path ← app.get_string parsed (codes "--torrent")
    verbose ← app.get_bool parsed (codes "--verbose")
    ok (record { torrent_path = torrent_path; verbose = verbose })

  -- `parse_args`, and what `main` does with the settings.
  unfoldable pub parse_args : List Bytes → (Settings → Ending) → Ending
  parse_args argv rest = attempt (app.parse_args arguments argv) λ answer. elim answer [
    | inl parsed ↦ uncaught (read_settings parsed) rest
    | inr code ↦ exits code
  ]

-- The end of `download` and of `main`. The orchestrator, and with it the peer manager, is destroyed
-- before the exit code is given, behind an exception too.
unfoldable pub leave : Waiting → PeerManager.PeerManager → Ending
leave waiting peers =
    let broken = destroy_threads (join_until peers.thread_pool) in
    elim (finish_download waiting peers) [
      | ok true ↦ if broken then terminates else exits 0
      | ok false ↦ waits
      | throws e ↦ if broken then terminates else exits 1
      | fault ↦ faults
      | out_of_fuel ↦ hangs
    ]

-- `turns` is what becomes of the piece manager and of the orchestrator in `cv.wait` by the turns
-- that the threads take.
unfoldable pub main : Outside → ArgumentParser → (PieceManager → Waiting) → List Bytes → Ending
main out app turns argv = parse_args app argv λ settings.
    attempt (orchestrator out settings.torrent_path settings.verbose)
      λ o. attempt (begin_download out o) λ (pieces, peers). leave (turns pieces) peers
