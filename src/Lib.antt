-- ===== src/Lib.antt =====
-- Models of a BitTorrent client, and what is proved of them.
--
-- The program reads a .torrent file, asks its tracker for peers, and downloads the pieces of the
-- file from them. `TorrentOrchestrator` puts the parts together: the loader decodes the file (bencode)
-- to metadata; the tracker's reply, bencode again, gives the addresses of the peers; the peer manager
-- spawns a session for each peer on four threads; and every session asks the one piece manager which
-- block to request next, and hands it the blocks that arrive, which it stores, checks by their SHA-1
-- and writes to the file. Paths are from the root of the repository.
--
-- - Prelude: lists of bytes, bits, signed integers, and `Outcome`, what a call ends in: a value, an
--   exception, undefined behaviour (`fault`: an access out of bounds or a division by zero) or a
--   failed assertion, or the end of the fuel.
-- - Bytes: src/core/utils.cpp, `ByteWriter` and `ByteReader`.
-- - Bencode: include/core/bencode_parser.hpp and src/core/bencode_parser.cpp. `Value` is the variant,
--   with the entries of a `std::map` in the order of their keys. Bencode/Number has `std::stoul`,
--   `std::stoll` and `std::to_string`; Bencode/Encode `encode`; Bencode/Parse the decoder, function by
--   function, with the position passed along. Bencode/Ends, RoundTrip, Sound, Short, Total
--   and Malformed are on the codec as a whole, Find on the search for a key.
-- - Metadata: src/core/torrent_metadata_loader.cpp. SHA-1 and the file system are parameters.
--   Metadata/Pieces is on the piece hashes, Metadata/Dictionary on the info dictionary and the bytes
--   that the info hash is taken of, Load on a file that holds the encoding of a torrent and Loaded on
--   any file.
-- - Tracker: src/core/tracker_communicator.cpp. The URL library, the HTTP request and the source of
--   random numbers are parameters. Tracker/Peers and RoundTrip are on the reply, Requests on the URL
--   and the identifier of the client.
-- - Handshake: src/core/peer_communicator.cpp, the first message between two peers.
-- - FileHandler: src/app/file_handler.cpp, the file as bytes, and the state of the stream. Which of
--   the writes succeed is data of the model.
-- - ProgressTracker: src/app/progress_tracker.cpp, the counter and the bar.
--   ProgressTracker/Arithmetic is what the code does with a `double`, as an interface with the laws
--   of IEEE 754 that are used, and numbers counted in thousandths that meet them; Shown is on the
--   bar.
-- - PieceManager: src/app/piece_manager.cpp. The record has the members of the class but the mutex:
--   each public operation but `isComplete` holds it from beginning to end, so what threads do to
--   the shared object is a sequence of these operations. PieceManager/BlockSet is
--   `std::set<Block>`, Invariant the well-formedness of the state, Marks the agreement of the
--   flags, the bits and the count of the finished pieces; Gap and Request are on `requestBlock`,
--   Return on `returnBlock`, Pending, Finish, Delivery and Deliver on `deliverBlock`, and Ends and
--   Counts on all of them.
-- - PieceManager/System: any sequence of these operations, with whatever a peer hands them but for
--   an index that is no piece, which is undefined behaviour, as a step relation (`Step`, `Reach`).
--   Safety has what every step keeps, Verified what a finished piece is, Pool the abstract
--   specification (which pieces are finished, which blocks are asked for), Contents and Filed what
--   is in the file and Unwritten what is not, Download a whole download, Broken a download to a
--   file that cannot be written, Notify the notification of the orchestrator, and Progress what the
--   progress tracker shows.
-- - PeerManager: src/app/peer_manager.cpp, the peers, the sessions and the pool of threads.
-- - PeerSession: src/app/peer_session.cpp. A session is a monad of state and exceptions over what
--   it has itself, the shared piece manager, what the peer sends, whether it falls silent behind
--   that, and which writes succeed. The other sessions run where the coroutine waits and before
--   each of its operations on the piece manager, as four threads let them. PeerSession/Course has
--   the rules by which the steps of a session are composed, Protocol what it sends, Steps and
--   Messages are on the single steps, Loop on the session as a whole, Pipeline and Bound on how
--   many blocks it asks for.
-- - Orchestrator: src/app/torrent_orchestrator.cpp, how the parts are made and joined.
--   Orchestrator/Wait is the wait of the main thread on the condition variable, as a step relation
--   between that thread and the operations of the piece manager; what becomes of the program after
--   `download` has begun depends on where the turns of the threads leave the main thread in it.
--   Orchestrator/Start is how the loader, the tracker and the managers come together.
-- - Main: src/main.cpp, from the arguments to the ways in which the program ends. The library that
--   parses the arguments is a parameter, which may end the program itself, as for `--help`.
--   Main/Outcomes is on every run, Main/Start on runs that come to their download.
-- - Examples, and the modules of that name in the others: runs on concrete inputs.
--
-- Numbers are natural numbers, and the wrap-around of an unsigned type is written out where the code
-- can reach it: in the position of the decoder, the 32-bit lengths of the pieces, the port. The
-- decoder runs on fuel of 1002 times the length of its input and four: there are 1001 depths, and a
-- loop of one depth that comes to a position of the input for the second time has no end, since what
-- it does depends on the input and the position alone. The search for a gap in a piece has a round for
-- each byte of the piece, and `toSixByteArrays` a round for each byte of the reply. The loop of a
-- session has its fuel as an argument; a round takes four bytes at least of what the peer sends, so
-- one round more than there are bytes is enough.
--
-- Not modelled: logging and its set-up, the clock and the fixed text that the progress tracker
-- prints, memory that runs out, a write to a peer that blocks for ever, wake-ups of a condition
-- variable that nobody sent, the data race on the counter that `isComplete` reads without the
-- mutex, and the event loop of asio.
pub mod Prelude
pub mod Bytes
pub mod Bencode
pub mod Metadata
pub mod FileHandler
pub mod ProgressTracker
pub mod PieceManager
pub mod Tracker
pub mod Handshake
pub mod PeerManager
pub mod PeerSession
pub mod Orchestrator
pub mod Main
pub mod Examples
