-- ===== src/PeerSession/Course.antt =====
-- What a step of a session may do to what it shares with the others: the rules by which this is
-- shown of the steps' compositions.
use bit_torrent_client.Prelude.{
  ◌≤◌, ◌≡◌, refl, sym, subst, List, Bool, true, false, if◌then◌else◌, Option, none, some, arith,
  Bytes, length, Outcome, ok, throws, fault, out_of_fuel, runtime_error, system_error,
  invalid_argument, out_of_range, length_error, no_answer, IsSettled, IsSettled-ok,
  IsSettled-throws, IsSettled-fault, unsettled,
}
use bit_torrent_client.PieceManager.{PieceManager}
use bit_torrent_client.PieceManager.BlockSet.{All}
use bit_torrent_client.PieceManager.System.Safety.{IsSafe, Reach-IsSafe, Reach-metadata}
use bit_torrent_client.PeerSession.Protocol.{IsMessage}
use bit_torrent_client.PieceManager.System.{Step, Reach, here, later, Reach-trans}
use bit_torrent_client.PeerSession.Connection.{World, PeerSession, Session, and_then, after_try}

-- What the other sessions do whenever they run is a sequence of operations, too.
abbrev pub Fair : (Bytes → Bytes) → List (PieceManager → PieceManager) → Type 0
Fair sha1 fs = All (λ f. (pm : PieceManager) → Reach sha1 pm (f pm)) fs

-- From one world to a later one: the piece manager went through operations of its own only, nothing
-- that the peer has sent is read twice, and what is sent are messages of the protocol.
pub record Course (sha1 : Bytes → Bytes) (w q : World) : Type 0 where
  pub reach : Reach sha1 w.pieces q.pieces
  pub fair : Fair sha1 q.others
  pub shorter : length q.incoming ≤ length w.incoming
  pub talk :
      IsSafe w.pieces
      → All (IsMessage w.pieces.metadata) w.sent
      → All (IsMessage w.pieces.metadata) q.sent

pub record Runs {ℓ} {A : Type ℓ} (sha1 : Bytes → Bytes) (w : World) (r : World × Outcome A)
    : Type ℓ where
  pub course : Course sha1 w r.0
  pub settled : IsSettled r.1

module _ {sha1 : Bytes → Bytes} where
  pub Course-refl : {w : World} → Fair sha1 w.others → Course sha1 w w
  Course-refl fair = record { reach = here; fair = fair; shorter = omega arith; talk = λ s h. h }

  pub Course-trans : {w q r : World} → Course sha1 w q → Course sha1 q r → Course sha1 w r
  Course-trans {q = q} {r = r} c d = record {
    reach = Reach-trans c.reach d.reach;
    fair = d.fair;
    shorter = omega (arith, c.shorter, d.shorter);
    talk = λ s h.
        let same = Reach-metadata s c.reach in
        subst (λ m. All (IsMessage m) r.sent) same
          (d.talk (Reach-IsSafe s c.reach)
            (subst (λ m. All (IsMessage m) q.sent) (sym same) (c.talk s h)));
  }

  -- A step on the session's own fields.
  pub Course-own :
      (w : World) (s : PeerSession) → Fair sha1 w.others → Course sha1 w (record w { session = s })
  Course-own w s fair = record { reach = here; fair = fair; shorter = omega arith; talk = λ s h. h }

  -- One operation of the piece manager.
  pub Course-step :
      (w : World) (q : PieceManager)
      → Fair sha1 w.others
      → Step sha1 w.pieces q
      → Course sha1 w (record w { pieces = q })
  Course-step w q fair step = record {
    reach = later here step;
    fair = fair;
    shorter = omega arith;
    talk = λ s h. h;
  }

module _ {ℓ} {A : Type ℓ} {sha1 : Bytes → Bytes} where
  pub Runs-from :
      {w q : World} {r : World × Outcome A} → Course sha1 w q → Runs sha1 q r → Runs sha1 w r
  Runs-from c h = record { course = Course-trans c h.course; settled = h.settled }

  pub Runs-ok : {w q : World} (a : A) → Course sha1 w q → Runs sha1 w (q, ok a)
  Runs-ok a c = record { course = c; settled = IsSettled-ok a }

  pub Runs-if :
      {w : World} (b : Bool) (m n : Session A)
      → Runs sha1 w (m w)
      → Runs sha1 w (n w)
      → Runs sha1 w ((if b then m else n) w)
  Runs-if true m n h k = h
  Runs-if false m n h k = k

pub Runs-elim {ℓ κ} :
    {A : Type ℓ} {B : Type κ} {sha1 : Bytes → Bytes} {w : World} (o : Option A) (m : Session B)
    (f : A → Session B)
    → Runs sha1 w (m w)
    → ((a : A) → o ≡ some a → Runs sha1 w (f a w))
    → Runs sha1 w ((elim o as (λ _. Session B) [ none ↦ m | some a ↦ f a ]) w)
Runs-elim none m f h k = h
Runs-elim (some a) m f h k = k a refl

module _ {ℓ κ} {A : Type ℓ} {B : Type κ} {sha1 : Bytes → Bytes} {w : World} where
  pub Runs-then :
      (r : World × Outcome A) (f : A → Session B)
      → Runs sha1 w r
      → ((a : A) → r.1 ≡ ok a → Runs sha1 r.0 (f a r.0))
      → Runs sha1 w (and_then r f)
  Runs-then (q, ok a) f h k = Runs-from h.course (k a refl)
  Runs-then (q, throws e) f h k = record { course = h.course; settled = IsSettled-throws _ e }
  Runs-then (q, fault) f h k = record { course = h.course; settled = IsSettled-fault _ }
  Runs-then (q, out_of_fuel) f h k = absurd (unsettled _ h.settled)

  pub Runs-try :
      (r : World × Outcome A) (f : A → Session B) (handler : Session B)
      → Runs sha1 w r
      → ((a : A) → r.1 ≡ ok a → Runs sha1 r.0 (f a r.0))
      → ((q : World) → Course sha1 w q → Runs sha1 q (handler q))
      → Runs sha1 w (after_try r f handler)
  Runs-try (q, ok a) f handler h k c = Runs-from h.course (k a refl)
  Runs-try (q, throws runtime_error) f handler h k c = Runs-from h.course (c q h.course)
  Runs-try (q, throws system_error) f handler h k c = Runs-from h.course (c q h.course)
  Runs-try (q, throws invalid_argument) f handler h k c = record {
    course = h.course;
    settled = IsSettled-throws _ invalid_argument;
  }
  Runs-try (q, throws out_of_range) f handler h k c = record {
    course = h.course;
    settled = IsSettled-throws _ out_of_range;
  }
  Runs-try (q, throws length_error) f handler h k c = record {
    course = h.course;
    settled = IsSettled-throws _ length_error;
  }
  Runs-try (q, throws no_answer) f handler h k c = record {
    course = h.course;
    settled = IsSettled-throws _ no_answer;
  }
  Runs-try (q, fault) f handler h k c = record { course = h.course; settled = IsSettled-fault _ }
  Runs-try (q, out_of_fuel) f handler h k c = absurd (unsettled _ h.settled)

  -- What a call returns without any step.
  pub Runs-lift :
      (m : Outcome A) (f : A → Session B)
      → Fair sha1 w.others
      → IsSettled m
      → ((a : A) → m ≡ ok a → Runs sha1 w (f a w))
      → Runs sha1 w (and_then (w, m) f)
  Runs-lift m f fair h k = Runs-then (w, m) f (record { course = Course-refl fair; settled = h }) k
