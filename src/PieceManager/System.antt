-- ===== src/PieceManager/System.antt =====
-- The piece manager that all sessions share: any sequence of its public operations. Each of them
-- holds the mutex, so what the threads do is such a sequence.
pub mod Safety
pub mod Verified
pub mod Pool
pub mod Contents
pub mod Filed
pub mod Unwritten
pub mod Download
pub mod Broken
pub mod Progress
pub mod Notify
mod Examples
use bit_torrent_client.Prelude.{ℕ, ◌≡◌, ◌<◌, length, Bool, Option, Bytes, ok}
use bit_torrent_client.PieceManager.{PieceManager, request_block, deliver_block, return_block}
use bit_torrent_client.PieceManager.BlockSet.{Block}

-- One operation, with whatever a session hands it. A request and a return count if they return, and
-- a delivery also if it throws. One for an index that is no piece is undefined behaviour: there is
-- no step of it, and nothing is said of what follows.
pub data Step (sha1 : Bytes → Bytes) (pm q : PieceManager) : Type 0 where
  requested :
      (peer : Bytes) (found : Option Block) → request_block pm peer ≡ ok (found, q) → Step sha1 pm q
  delivered :
      (idx offset : ℕ) (new : Bytes)
      → idx < length pm.finished
      → (deliver_block sha1 pm idx offset new).0 ≡ q
      → Step sha1 pm q
  returned : (block : Block) (done : Bool) → return_block pm block ≡ ok (done, q) → Step sha1 pm q

pub data Reach (sha1 : Bytes → Bytes) (pm : PieceManager) : PieceManager → Type 0 where
  here : Reach sha1 pm pm
  later : {q r : PieceManager} → Reach sha1 pm q → Step sha1 q r → Reach sha1 pm r

pub Reach-trans :
    {sha1 : Bytes → Bytes} {pm q r : PieceManager}
    → Reach sha1 pm q
    → Reach sha1 q r
    → Reach sha1 pm r
Reach-trans a here = a
Reach-trans a (later b s) = later (Reach-trans a b) s
