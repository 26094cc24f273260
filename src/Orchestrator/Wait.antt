-- ===== src/Orchestrator/Wait.antt =====
-- The wait at the end of `download`, against the threads of the peer manager.
use bit_torrent_client.Prelude.{
  ◌+◌, ◌≡◌, ◌⊎◌, inl, inr, Bool, refl, sym, subst, true, false, if◌then◌else◌, ◌==◌, ==_iff, ne→==,
  arith, Bytes, ◌∙◌,
}
use bit_torrent_client.PieceManager.{PieceManager, is_complete}
use bit_torrent_client.PieceManager.System.{Step}
use bit_torrent_client.PieceManager.System.Safety.{IsSafe, Step-IsSafe}
use bit_torrent_client.PieceManager.System.Notify.{Step-notified, Step-complete, Step-quiet}

-- `cv.wait(lock, p)` is `while (!p()) cv.wait(lock)`: the thread is about to test the predicate,
-- has found it false, is blocked, or has gone on.
pub data Waiter : Type 0 where
  testing refused blocked passed : Waiter

-- `notify_one` wakes a thread that is blocked, and does nothing for one that is about to block.
unfoldable pub notify_one : Waiter → Waiter
notify_one blocked = testing
notify_one testing = testing
notify_one refused = refused
notify_one passed = passed

unfoldable pub has_passed : Waiter → Bool
has_passed passed = true
has_passed testing = false
has_passed refused = false
has_passed blocked = false

pub record Waiting : Type 0 where
  pub waiter : Waiter
  pub pieces : PieceManager

abbrev pub at_test : PieceManager → Waiting
at_test pm = record { waiter = testing; pieces = pm }

abbrev pub in_wait : PieceManager → Waiting
in_wait pm = record { waiter = blocked; pieces = pm }

-- An operation of a session takes the state of the piece manager to `q`. It does not take the mutex
-- that the orchestrator tests the predicate under.
unfoldable pub operate : Waiting → PieceManager → Waiting
operate w q = record {
  waiter = if q.notified == w.pieces.notified then w.waiter else notify_one w.waiter;
  pieces = q;
}

-- One turn of the scheduler. A wake-up without a notification, which the standard allows and does
-- not promise, is left out.
pub data Turn (sha1 : Bytes → Bytes) (w v : Waiting) : Type 0 where
  test :
      w.waiter ≡ testing
      → v ≡ record w { waiter = if is_complete w.pieces then passed else refused }
      → Turn sha1 w v
  block : w.waiter ≡ refused → v ≡ record w { waiter = blocked } → Turn sha1 w v
  other : (q : PieceManager) → Step sha1 w.pieces q → v ≡ operate w q → Turn sha1 w v

pub data Turns (sha1 : Bytes → Bytes) (w : Waiting) : Waiting → Type 0 where
  no_turn : Turns sha1 w w
  then_turn : {v u : Waiting} → Turns sha1 w v → Turn sha1 v u → Turns sha1 w u

Turns-trans :
    {sha1 : Bytes → Bytes} {w v u : Waiting} → Turns sha1 w v → Turns sha1 v u → Turns sha1 w u
Turns-trans a no_turn = a
Turns-trans a (then_turn b t) = then_turn (Turns-trans a b) t

operate-notified :
    (w : Waiting) (q : PieceManager)
    → q.notified ≡ w.pieces.notified + 1
    → operate w q ≡ record { waiter = notify_one w.waiter; pieces = q }
unfolding operate
operate-notified w q told =
    let other : (q.notified == w.pieces.notified) ≡ false =
      ne→== q.notified w.pieces.notified (λ e. omega arith) in
    rw other

operate-quiet :
    (w : Waiting) (q : PieceManager)
    → q.notified ≡ w.pieces.notified
    → operate w q ≡ record w { pieces = q }
unfolding operate
operate-quiet w q same =
    let e : (q.notified == w.pieces.notified) ≡ true = (==_iff _ _).1 same in rw e

-- The download is complete and the orchestrator at its test, or past the wait.
record IsAwake (w : Waiting) : Type 0 where
  safe : IsSafe w.pieces
  done : is_complete w.pieces ≡ true
  awake : (w.waiter ≡ passed) ⊎ (w.waiter ≡ testing)

Turn-IsAwake : {sha1 : Bytes → Bytes} {w v : Waiting} → Turn sha1 w v → IsAwake w → IsAwake v
Turn-IsAwake {w = w} (test now e) s =
    subst IsAwake (sym e) (record { safe = s.safe; done = s.done; awake = inl (rw s.done refl) })
Turn-IsAwake (block now e) s = elim s.awake [
  | inl was ↦ absurd (cc (now, was))
  | inr was ↦ absurd (cc (now, was))
]
Turn-IsAwake {w = w} (other q step e) s =
    subst IsAwake (sym (e ∙ operate-quiet w q (Step-quiet s.safe step s.done))) (record {
      safe = Step-IsSafe step s.safe;
      done = Step-complete s.safe step s.done;
      awake = s.awake;
    })

Turns-IsAwake : {sha1 : Bytes → Bytes} {w v : Waiting} → Turns sha1 w v → IsAwake w → IsAwake v
Turns-IsAwake no_turn s = s
Turns-IsAwake (then_turn ts t) s = Turn-IsAwake t (Turns-IsAwake ts s)

-- If the operation that completes the download runs while the orchestrator is blocked, then in
-- every state `v` that the turns of the threads lead to the orchestrator is past the wait, or it is
-- about to test the predicate and its own next turn takes it past the wait: it is not blocked
-- again. This is from a well-formed state with the file open.
pub in_wait-passed :
    {sha1 : Bytes → Bytes} {pm q : PieceManager} {v : Waiting}
    → IsSafe pm
    → Step sha1 pm q
    → is_complete pm ≡ false
    → is_complete q ≡ true
    → Turns sha1 (operate (in_wait pm) q) v
    → (v.waiter ≡ passed) ⊎ ((v.waiter ≡ testing) × Turn sha1 v (record v { waiter = passed }))
unfolding notify_one
in_wait-passed {pm = pm} {q = q} {v = v} s step lacking done turns =
    let woken = operate-notified (in_wait pm) q (Step-notified s step lacking done) in
    let first : IsAwake (operate (in_wait pm) q) =
      subst IsAwake (sym woken)
        (record { safe = Step-IsSafe step s; done = done; awake = inr refl }) in
    let now = Turns-IsAwake turns first in
    elim now.awake [ inl gone ↦ inl gone | inr at ↦ inr (at, test at (rw now.done refl)) ]

-- The orchestrator is past the wait only if the download is complete.
record IsHonest (w : Waiting) : Type 0 where
  safe : IsSafe w.pieces
  honest : w.waiter ≡ passed → is_complete w.pieces ≡ true

-- A blocked orchestrator stays so, if the download is complete.
record IsStuck (w : Waiting) : Type 0 where
  safe : IsSafe w.pieces
  done : is_complete w.pieces ≡ true
  stays : w.waiter ≡ blocked

Turn-IsStuck : {sha1 : Bytes → Bytes} {w v : Waiting} → Turn sha1 w v → IsStuck w → IsStuck v
Turn-IsStuck (test now e) s = absurd (let was = s.stays in cc)
Turn-IsStuck (block now e) s = absurd (let was = s.stays in cc)
Turn-IsStuck {w = w} (other q step e) s =
    subst IsStuck (sym (e ∙ operate-quiet w q (Step-quiet s.safe step s.done))) (record {
      safe = Step-IsSafe step s.safe;
      done = Step-complete s.safe step s.done;
      stays = s.stays;
    })

Turns-IsStuck : {sha1 : Bytes → Bytes} {w v : Waiting} → Turns sha1 w v → IsStuck w → IsStuck v
Turns-IsStuck no_turn s = s
Turns-IsStuck (then_turn ts t) s = Turn-IsStuck t (Turns-IsStuck ts s)

-- A wake-up can be lost: the operation that completes the download may run between the test of the
-- predicate, which fails, and the wait. Then the orchestrator blocks, and in every state `v` that
-- is reached from there the download is complete and the orchestrator blocked. This is from a
-- well-formed state with the file open, and without wake-ups that nobody has sent.
pub lost_wakeup :
    {sha1 : Bytes → Bytes} {pm q : PieceManager} {v : Waiting}
    → IsSafe pm
    → Step sha1 pm q
    → is_complete pm ≡ false
    → is_complete q ≡ true
    → Turns sha1 (in_wait q) v
    → Turns sha1 (at_test pm) v × (v.waiter ≡ blocked) × (is_complete v.pieces ≡ true)
unfolding notify_one
lost_wakeup {pm = pm} {q = q} s step lacking done turns =
    let tested : Waiting = record { waiter = refused; pieces = pm } in
    let missed : Waiting = record { waiter = refused; pieces = q } in
    let ignored = operate-notified tested q (Step-notified s step lacking done) in
    let here' =
      then_turn {v = missed} {u = in_wait q}
        (then_turn {v = tested} {u = missed}
          (then_turn {v = at_test pm} {u = tested} no_turn (test refl (rw lacking)))
          (other q step (sym ignored)))
        (block refl refl) in
    let stuck =
      Turns-IsStuck turns (record { safe = Step-IsSafe step s; done = done; stays = refl }) in
    (Turns-trans here' turns, stuck.stays, stuck.done)
