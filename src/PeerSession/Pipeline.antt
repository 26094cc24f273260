-- ===== src/PeerSession/Pipeline.antt =====
-- How many blocks a session asks for at once.
use bit_torrent_client.Prelude.{
  ℕ, zero, suc, ◌+◌, ◌-◌, ◌≤◌, max, List, [], ◌∷◌, Bool, true, false, Option, none, some, arith,
  length, Outcome, ok, throws, fault, out_of_fuel, if◌then◌else◌,
}
use bit_torrent_client.PieceManager.{PieceManager, request_block, return_block}
use bit_torrent_client.PieceManager.BlockSet.{Block, insert}
use bit_torrent_client.PeerSession.{
  return_each, return_blocks, request_message, send_request, request_one, request_times,
  fill_pipeline, max_pipeline_size,
}
use bit_torrent_client.PeerSession.Connection.{
  World, Session, return, and_then, run_others, async_write,
}
use bit_torrent_client.PeerSession.Blocks.{run_others-session, async_write-session}

length-insert : (b : Block) (xs : List Block) → length (insert b xs) ≤ length xs + 1
unfolding insert
length-insert b [] = omega arith
length-insert b (x ∷ xs) = ground (arith, length-insert b xs)

-- The session has asked for `k` blocks at most.
abbrev pub Holds : ℕ → World → Type 0
Holds k w = length w.session.pending_blocks ≤ k

-- What holds if the first step ends the whole, and behind the second.
pub after {ℓ κ} :
    {A : Type ℓ} {B : Type κ} (k n : ℕ) (r : World × Outcome A) (f : A → Session B)
    → Holds k r.0
    → k ≤ n
    → ((a : A) → Holds k r.0 → Holds n (f a r.0).0)
    → Holds n (and_then r f).0
after k n (w, ok a) f h le then_ = then_ a h
after k n (w, throws e) f h le then_ = omega arith
after k n (w, fault) f h le then_ = omega arith
after k n (w, out_of_fuel) f h le then_ = omega arith

pub return_each-Holds :
    (bs : List Block) (w : World) (k : ℕ) → Holds k w → Holds k (return_each bs w).0
unfolding return_each
return_each-Holds [] w k h = h
return_each-Holds (b ∷ bs) w k h =
    let v = run_others w in
    let now : Holds k v = rw (run_others-session w) h in
    after k k (v, return_block v.pieces b) _ now (omega arith)
      λ (done, pm) h'. return_each-Holds bs (record v { pieces = pm }) k h'

send_request-Holds :
    (b : Block) (w : World) (k : ℕ) → Holds k w → Holds (k + 1) (send_request b w).0
unfolding send_request return_blocks
send_request-Holds b w k h =
    after k (k + 1) (async_write (request_message b) w) _
      (rw (async_write-session (request_message b) w) h) (omega arith)
      (sent_or_not (async_write (request_message b) w).0)
  where
    sent_or_not :
        (q : World) (sent : Bool)
        → Holds k q
        → let rest : Session (Unit {0}) =
            if sent
            then (λ w. (
              record w {
                session = record w.session { pending_blocks = insert b w.session.pending_blocks };
              },
              ok tt,
            ))
            else (λ w. return_each w.session.pending_blocks w) in
          Holds (k + 1) (rest q).0
    sent_or_not q true h' = omega (arith, length-insert b q.session.pending_blocks)
    sent_or_not q false h' = omega (arith, return_each-Holds q.session.pending_blocks q k h')

-- A block is asked for, and the request for it is sent.
granted :
    (w : World) (k : ℕ)
    → Holds k w
    → Holds
        (k + 1)
        (and_then
          (w, request_block w.pieces w.session.peer_bitfield)
          λ (found, pm) v.
            (elim found as (λ _. Session (Unit {0})) [ none ↦ return tt | some b ↦ send_request b ])
              (record v { pieces = pm })).0
granted w k h =
    after k (k + 1) (w, request_block w.pieces w.session.peer_bitfield) _ h (omega arith) found
  where
    found :
        (r : Option Block × PieceManager)
        → Holds k w
        → Holds
            (k + 1)
            ((elim r.0 as (λ _. Session (Unit {0})) [
              | none ↦ (λ w. (w, ok tt))
              | some b ↦ send_request b
            ])
              (record w { pieces = r.1 })).0
    found (none, q) h' = omega arith
    found (some b, q) h' = send_request-Holds b (record w { pieces = q }) k h'

request_one-Holds : (w : World) (k : ℕ) → Holds k w → Holds (k + 1) (request_one w).0
unfolding request_one
request_one-Holds w0 k h0 =
    let now : Holds k (run_others w0) = rw (run_others-session w0) h0 in
    granted (run_others w0) k now

request_times-Holds : (n : ℕ) (w : World) (k : ℕ) → Holds k w → Holds (k + n) (request_times n w).0
unfolding request_times
request_times-Holds zero w k h = omega arith
request_times-Holds (suc n) w k h =
    after (k + 1) (k + suc n) (request_one w) _ (request_one-Holds w k h) (omega arith)
      λ a h'. omega (arith, request_times-Holds n (request_one w).0 (k + 1) h')

-- Filling the pipeline leaves 32 blocks asked for at most, or as many as there were.
pub length-fill_pipeline :
    (w : World)
    → length (fill_pipeline w).0.session.pending_blocks
      ≤ max max_pipeline_size (length w.session.pending_blocks)
unfolding fill_pipeline
length-fill_pipeline w = omega (
  arith,
  request_times-Holds (max_pipeline_size - length w.session.pending_blocks) w
      (length w.session.pending_blocks) (omega arith),
)
