-- ===== src/PeerSession/Connection.antt =====
-- What a session acts on, and its steps as a monad of state and exceptions.
use bit_torrent_client.Prelude.{
  ℕ, [], ◌∷◌, ◌++◌, List, Bool, true, false, Option, none, some, Bytes, length, take, drop, ltb,
  if◌then◌else◌, Outcome, ok, throws, fault, out_of_fuel, Error, runtime_error, system_error,
  invalid_argument, out_of_range, length_error, no_answer,
}
use bit_torrent_client.PieceManager.{PieceManager}
use bit_torrent_client.PieceManager.BlockSet.{Block}

pub data PeerState : Type 0 where
  connecting handshaking bitfield_wait ready disconnected error : PeerState

abbrev pub is_error : PeerState → Bool
is_error error = true
is_error _ = false

pub record PeerSession : Type 0 where
  pub am_choking : Bool
  pub am_interested : Bool
  pub peer_choking : Bool
  pub peer_interested : Bool
  pub state : PeerState
  pub peer_bitfield : Bytes
  pub pending_blocks : List Block

-- `incoming` is what the peer still sends, `is_silent` whether it leaves the connection open behind
-- that, `has_endpoint` whether the socket still has a remote endpoint, `writes` whether the next
-- writes succeed (those behind the list do), and `sent` the messages that went out.
pub record World : Type 0 where
  pub session : PeerSession
  pub pieces : PieceManager
  pub is_open : Bool
  pub incoming : Bytes
  pub is_silent : Bool
  pub has_endpoint : Bool
  pub writes : List Bool
  pub sent : List Bytes
  pub others : List (PieceManager → PieceManager)

-- A step on the world. An exception leaves what was done before it.
abbrev pub Session {ℓ} : Type ℓ → Type ℓ
Session A = World → World × Outcome A

abbrev pub and_then {ℓ κ} :
    {A : Type ℓ} {B : Type κ} → World × Outcome A → (A → Session B) → World × Outcome B
and_then (w, ok a) f = f a w
and_then (w, throws e) f = (w, throws e)
and_then (w, fault) f = (w, fault)
and_then (w, out_of_fuel) f = (w, out_of_fuel)

module _ {ℓ κ} {A : Type ℓ} {B : Type κ} where
  infixl 5 ◌>>=◌ ◌>>◌
  abbrev pub ◌>>=◌ : Session A → (A → Session B) → Session B
  m >>= f = λ w. and_then (m w) f

  abbrev pub ◌>>◌ : Session A → Session B → Session B
  m >> n = m >>= λ _. n

abbrev pub return {ℓ} : {A : Type ℓ} → A → Session A
return a = λ w. (w, ok a)

abbrev pub lift {ℓ} : {A : Type ℓ} → Outcome A → Session A
lift m = λ w. (w, m)

abbrev pub raise {ℓ} : {A : Type ℓ} → Error → Session A
raise e = λ w. (w, throws e)

abbrev pub get : Session World
get = λ w. (w, ok w)

abbrev pub modify : (World → World) → Session (Unit {0})
modify f = λ w. (f w, ok tt)

-- `_setState`.
abbrev pub set_state : PeerState → Session (Unit {0})
set_state s = λ w. (record w { session = record w.session { state = s } }, ok tt)

-- The others run: while the session waits, and before each of its operations on the piece manager,
-- since four threads run the sessions and each operation is under the mutex.
unfoldable pub run_others : World → World
run_others w = elim w.others [ [] ↦ w | f ∷ fs ↦ record w { pieces = f w.pieces; others = fs } ]

-- `asio::async_read` of `n` bytes: `none` if the connection ends before them. If the peer is silent
-- instead, the read never ends.
unfoldable pub async_read : ℕ → Session (Option Bytes)
async_read n w0 =
    let w = run_others w0 in
    if ltb (length w.incoming) n
    then (record w { incoming = [] }, if w.is_silent then throws no_answer else ok none)
    else (record w { incoming = drop n w.incoming }, ok (some (take n w.incoming)))

-- `_asyncWrite`: whether the write succeeded.
unfoldable pub async_write : Bytes → Session Bool
async_write message w0 =
    let w = run_others w0 in
    elim w.writes [
      | [] ↦ (record w { sent = w.sent ++ message ∷ [] }, ok true)
      | true ∷ rest ↦ (record w { writes = rest; sent = w.sent ++ message ∷ [] }, ok true)
      | false ∷ rest ↦ (record w { writes = rest }, ok false)
    ]

-- `try { m } catch (std::runtime_error&) { handler }`, and what follows if nothing is thrown.
module _ {ℓ κ} {A : Type ℓ} {B : Type κ} where
  abbrev pub after_try : World × Outcome A → (A → Session B) → Session B → World × Outcome B
  after_try (w, ok a) f handler = f a w
  after_try (w, throws runtime_error) f handler = handler w
  after_try (w, throws system_error) f handler = handler w
  after_try (w, throws invalid_argument) f handler = (w, throws invalid_argument)
  after_try (w, throws out_of_range) f handler = (w, throws out_of_range)
  after_try (w, throws length_error) f handler = (w, throws length_error)
  after_try (w, throws no_answer) f handler = (w, throws no_answer)
  after_try (w, fault) f handler = (w, fault)
  after_try (w, out_of_fuel) f handler = (w, out_of_fuel)

  abbrev pub try_then : Session A → (A → Session B) → Session B → Session B
  try_then m f handler = λ w. after_try (m w) f handler
