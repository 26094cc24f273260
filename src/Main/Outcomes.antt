-- ===== src/Main/Outcomes.antt =====
-- How the program ends.
use bit_torrent_client.Prelude.{
  ℕ, throws, ◌≡◌, ◌⊎◌, ◌++◌, inl, inr, refl, Bytes, List, ok, if◌then◌else◌, replicate, Bool-cases,
  Error, Outcome-cases, Returns, Returns-bind, Returns-any,
}
use bit_torrent_client.PieceManager.{PieceManager}
use bit_torrent_client.Orchestrator.Wait.{Waiting, has_passed}
use bit_torrent_client.PeerManager.{
  start, stop, join_all, join_until, destroy_threads, empty_thread, running,
  deserialize_peer_buffer,
}
use bit_torrent_client.PeerManager
use bit_torrent_client.Tracker.{generate_id, announce_and_get_peers}
use bit_torrent_client.Orchestrator.{
  Outside, Orchestrator, orchestrator, begin_download, finish_download,
}
use bit_torrent_client.Main.{
  Settings, Ending, exits, terminates, waits, faults, hangs, leave, main, attempt, uncaught,
  arguments, ArgumentParser, read_settings, parse_args,
}

-- Four empty threads, and four that run.
abbrev pub IsStarted : PieceManager × PeerManager.PeerManager → Type 0
IsStarted r = r.1.thread_pool ≡ replicate 4 empty_thread ++ replicate 4 running

pub begin_download-IsStarted :
    (out : Outside) (o : Orchestrator) → Returns IsStarted (begin_download out o)
unfolding begin_download start PeerManager.init
begin_download-IsStarted out o =
    Returns-bind (λ _. Unit {0}) IsStarted _ _ (Returns-any (generate_id 20 out.draw))
      λ peer_id _.
        Returns-bind (λ _. Unit {0}) IsStarted _ _
          (Returns-any (announce_and_get_peers out.ada out.http_get o.metadata peer_id))
          λ r _.
            Returns-bind (λ pm. pm.thread_pool ≡ replicate 4 empty_thread) IsStarted _ _
              (Returns-bind (λ _. Unit {0}) (λ pm. pm.thread_pool ≡ replicate 4 empty_thread) _ _
                (Returns-any (deserialize_peer_buffer r.peers_blob)) (λ peers _. refl))
              (λ pm pool. rw pool)

pub leave_lem :
    (waiting : Waiting) (peers : PeerManager.PeerManager)
    → peers.thread_pool ≡ replicate 4 empty_thread ++ replicate 4 running
    → leave waiting peers ≡ (if has_passed waiting.waiter then terminates else waits)
unfolding leave finish_download stop join_all join_until destroy_threads
leave_lem waiting peers pool = elim (Bool-cases (has_passed waiting.waiter)) [
  | inl done ↦ rw (leave, pool, finish_download, done, pool)
  | inr not_yet ↦ rw (leave, pool, finish_download, not_yet)
]

-- What becomes of the program before the wait: the library that parses the arguments ends it with a
-- code, it ends with 1, runs into undefined behaviour, runs in a loop without end, or ends by
-- `std::terminate` if that library does not give the arguments that it parsed.
pub data Early (app : ArgumentParser) (argv : List Bytes) (m : Ending) : Type 0 where
  library_exits :
      (code : ℕ) → app.parse_args arguments argv ≡ ok (inr code) → m ≡ exits code → Early app argv m
  failed : m ≡ exits 1 → Early app argv m
  undefined : m ≡ faults → Early app argv m
  endless : m ≡ hangs → Early app argv m
  unread :
      (parsed : app.Parsed) (e : Error)
      → app.parse_args arguments argv ≡ ok (inl parsed)
      → read_settings app parsed ≡ throws e
      → m ≡ terminates
      → Early app argv m

-- The program comes to the wait with the two managers of a download.
pub record Waits (out : Outside) (app : ArgumentParser) (turns : PieceManager → Waiting)
    (argv : List Bytes) (m : Ending) : Type 0 where
  pub parsed : app.Parsed
  pub settings : Settings
  pub o : Orchestrator
  pub pieces : PieceManager
  pub peers : PeerManager.PeerManager
  pub arguments_read : app.parse_args arguments argv ≡ ok (inl parsed)
  pub settings_read : read_settings app parsed ≡ ok settings
  pub loaded : orchestrator out settings.torrent_path settings.verbose ≡ ok o
  pub begun : begin_download out o ≡ ok (pieces, peers)
  pub ended : m ≡ (if has_passed (turns pieces).waiter then terminates else waits)

module _ (out : Outside) (app : ArgumentParser) (turns : PieceManager → Waiting)
    (argv : List Bytes) where
  abbrev Ends : Ending → Type 0
  Ends m = Waits out app turns argv m ⊎ Early app argv m

  begun-Ends :
      (parsed : app.Parsed) (settings : Settings) (o : Orchestrator)
      → app.parse_args arguments argv ≡ ok (inl parsed)
      → read_settings app parsed ≡ ok settings
      → orchestrator out settings.torrent_path settings.verbose ≡ ok o
      → Ends (attempt (begin_download out o) λ (pieces, peers). leave (turns pieces) peers)
  begun-Ends parsed settings o hp hs ho = elim (Outcome-cases (begin_download out o)) [
    | inr (inl (e, h)) ↦ rw h (inr (failed refl))
    | inr (inr (inl h)) ↦ rw h (inr (undefined refl))
    | inr (inr (inr h)) ↦ rw h (inr (endless refl))
    | inl ((pieces, peers), hb) ↦ rw hb (
        inl (record {
          parsed = parsed;
          settings = settings;
          o = o;
          pieces = pieces;
          peers = peers;
          arguments_read = hp;
          settings_read = hs;
          loaded = ho;
          begun = hb;
          ended =
              leave_lem (turns pieces) peers (rw (hb, Returns) at (begin_download-IsStarted out o));
        }))
  ]

  read-Ends :
      (parsed : app.Parsed) (settings : Settings)
      → app.parse_args arguments argv ≡ ok (inl parsed)
      → read_settings app parsed ≡ ok settings
      → Ends (
          attempt
            (orchestrator out settings.torrent_path settings.verbose)
            λ o. attempt (begin_download out o) λ (pieces, peers). leave (turns pieces) peers)
  read-Ends parsed settings hp hs =
      elim (Outcome-cases (orchestrator out settings.torrent_path settings.verbose)) [
        | inr (inl (e, h)) ↦ rw h (inr (failed refl))
        | inr (inr (inl h)) ↦ rw h (inr (undefined refl))
        | inr (inr (inr h)) ↦ rw h (inr (endless refl))
        | inl (o, ho) ↦ rw ho (begun-Ends parsed settings o hp hs ho)
      ]

  parsed-Ends :
      (parsed : app.Parsed)
      → app.parse_args arguments argv ≡ ok (inl parsed)
      → Ends (
          uncaught (read_settings app parsed) λ settings.
            attempt
              (orchestrator out settings.torrent_path settings.verbose)
              λ o. attempt (begin_download out o) λ (pieces, peers). leave (turns pieces) peers)
  parsed-Ends parsed hp = elim (Outcome-cases (read_settings app parsed)) [
    | inr (inl (e, h)) ↦ rw h (inr (unread parsed e hp h refl))
    | inr (inr (inl h)) ↦ rw h (inr (undefined refl))
    | inr (inr (inr h)) ↦ rw h (inr (endless refl))
    | inl (settings, hs) ↦ rw hs (read-Ends parsed settings hp hs)
  ]

  -- The program comes to the wait for the download: if the turns of the threads take the
  -- orchestrator past the wait it ends by `std::terminate`, and if they do not it waits. Or it does
  -- not come to the wait: the library that parses the arguments ends the program with a code of
  -- its own, the program exits with 1, runs into undefined behaviour or runs in a loop without end,
  -- or that library does not give an argument that it parsed, which ends by `std::terminate`. So it
  -- exits with 0 only if the library does.
  pub main_lem :
      Waits out app turns argv (main out app turns argv) ⊎ Early app argv (main out app turns argv)
  unfolding main parse_args
  main_lem = elim (Outcome-cases (app.parse_args arguments argv)) [
    | inr (inl (e, h)) ↦ rw h (inr (failed refl))
    | inr (inr (inl h)) ↦ rw h (inr (undefined refl))
    | inr (inr (inr h)) ↦ rw h (inr (endless refl))
    | inl (inl parsed, hp) ↦ rw hp (parsed-Ends parsed hp)
    | inl (inr code, hp) ↦ rw hp (inr (library_exits code hp refl))
  ]
