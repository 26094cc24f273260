-- ===== src/PeerSession/Steps.antt =====
-- Every step of a session is made of operations of the piece manager and of steps of its own.
use bit_torrent_client.Prelude.{
  ℕ, zero, suc, ◌-◌, ◌≡◌, refl, subst, Option, some, ok, Returns, List, [], ◌∷◌, true, false, arith,
  Bytes, length, inl, inr,
}
use bit_torrent_client.PieceManager.{PieceManager, request_block, return_block}
use bit_torrent_client.PieceManager.BlockSet.{Block, All}
use bit_torrent_client.PieceManager.System.Safety.{IsSafe}
use bit_torrent_client.PeerSession.Protocol.{
  IsMessage, IsAsked, asks, request_message-bytes, Found, All-snoc, request_block-Found,
}
use bit_torrent_client.PieceManager.Ends.{IsSettled-request_block, IsSettled-return_block}
use bit_torrent_client.PieceManager.System.{requested, returned}
use bit_torrent_client.PeerSession.{
  return_each, return_blocks, request_message, send_request, request_one, request_times,
  fill_pipeline, max_pipeline_size,
}
use bit_torrent_client.PeerSession.Connection.{World, run_others, async_write}
use bit_torrent_client.PeerSession.Blocks.{writes-cases}
use bit_torrent_client.PeerSession.Course.{
  Fair, Course, Runs, Course-refl, Course-own, Course-step, Runs-from, Runs-ok, Runs-if, Runs-elim,
  Runs-then, Runs-lift,
}

module _ (sha1 : Bytes → Bytes) where
  pub Course-run_others : (w : World) → Fair sha1 w.others → Course sha1 w (run_others w)
  unfolding run_others
  Course-run_others w fair = waited w.others fair refl
    where
      waited :
          (fs : List (PieceManager → PieceManager))
          → Fair sha1 fs
          → w.others ≡ fs
          → Course sha1 w
              (elim fs [ [] ↦ w | f ∷ fs ↦ record w { pieces = f w.pieces; others = fs } ])
      waited [] fair e = Course-refl (rw e tt)
      waited (f ∷ fs) (r, fair) e = record {
        reach = r w.pieces;
        fair = fair;
        shorter = omega arith;
        talk = λ s h. h;
      }

  pub Runs-async_write :
      (message : Bytes) (w : World)
      → Fair sha1 w.others
      → (IsSafe w.pieces → IsMessage w.pieces.metadata message)
      → Runs sha1 w (async_write message w)
  unfolding async_write
  Runs-async_write message w fair good =
      let c = Course-run_others w fair in
      let said = λ (s : IsSafe w.pieces) (h : All (IsMessage w.pieces.metadata) w.sent).
        All-snoc (IsMessage w.pieces.metadata) (run_others w).sent (c.talk s h) (good s) in
      elim (writes-cases (run_others w).writes) [
        | inl e ↦
            rw (e, async_write, e)
              (Runs-ok true
                (record { reach = c.reach; fair = c.fair; shorter = c.shorter; talk = said }))
        | inr (true, rest, e) ↦
            rw (e, async_write)
              (Runs-ok true
                (record { reach = c.reach; fair = c.fair; shorter = c.shorter; talk = said }))
        | inr (false, rest, e) ↦
            rw (e, async_write)
              (Runs-ok false
                (record { reach = c.reach; fair = c.fair; shorter = c.shorter; talk = c.talk }))
      ]

  Runs-return_each :
      (bs : List Block) (w : World) → Fair sha1 w.others → Runs sha1 w (return_each bs w)
  unfolding return_each
  Runs-return_each [] w fair = Runs-ok tt (Course-refl fair)
  Runs-return_each (b ∷ bs) w fair =
      let v = run_others w in
      let c = Course-run_others w fair in
      Runs-from c (
        Runs-lift (return_block v.pieces b) _ c.fair (IsSettled-return_block v.pieces b)
          λ (done, pm) e.
            Runs-from (Course-step v pm c.fair (returned b done e))
              (Runs-return_each bs (record v { pieces = pm }) c.fair))

  pub Runs-return_blocks : (w : World) → Fair sha1 w.others → Runs sha1 w (return_blocks w)
  unfolding return_blocks
  Runs-return_blocks w fair = Runs-return_each w.session.pending_blocks w fair

  Runs-send_request :
      (b : Block) (w : World)
      → Fair sha1 w.others
      → IsAsked w.pieces.metadata b
      → Runs sha1 w (send_request b w)
  unfolding send_request
  Runs-send_request b w fair asked =
      let write =
        Runs-async_write (request_message b) w fair (λ s. asks b asked (request_message-bytes b)) in
      Runs-then (async_write (request_message b) w) _ write λ sent _.
        let q = (async_write (request_message b) w).0 in
        Runs-if sent _ return_blocks (Runs-ok tt (Course-own q _ write.course.fair))
          (Runs-return_blocks q write.course.fair)

  granted-IsAsked :
      (pm : PieceManager) (peer : Bytes) {found : Option Block} {q : PieceManager} {b : Block}
      → request_block pm peer ≡ ok (found, q)
      → found ≡ some b
      → IsAsked q.metadata b
  granted-IsAsked pm peer {q = q} e h =
      subst (λ o. Found (o, q)) h (rw (e, Returns) at (request_block-Found pm peer))

  Runs-request_one : (w : World) → Fair sha1 w.others → Runs sha1 w (request_one w)
  unfolding request_one
  Runs-request_one w0 fair0 =
      let w = run_others w0 in
      let c = Course-run_others w0 fair0 in
      Runs-from c (
        Runs-lift (request_block w.pieces w.session.peer_bitfield) _ c.fair
          (IsSettled-request_block w.pieces w.session.peer_bitfield)
          λ (found, pm) e.
            let q = record w { pieces = pm } in
            Runs-from (Course-step w pm c.fair (requested w.session.peer_bitfield found e)) (
              Runs-elim found _ _ (Runs-ok tt (Course-refl c.fair)) (λ b h.
                Runs-send_request b q c.fair
                  (granted-IsAsked w.pieces w.session.peer_bitfield e h))))

  Runs-request_times : (n : ℕ) (w : World) → Fair sha1 w.others → Runs sha1 w (request_times n w)
  unfolding request_times
  Runs-request_times zero w fair = Runs-ok tt (Course-refl fair)
  Runs-request_times (suc n) w fair =
      let one = Runs-request_one w fair in
      Runs-then (request_one w) _ one λ _ _. Runs-request_times n (request_one w).0 one.course.fair

  pub Runs-fill_pipeline : (w : World) → Fair sha1 w.others → Runs sha1 w (fill_pipeline w)
  unfolding fill_pipeline
  Runs-fill_pipeline w fair =
      Runs-request_times (max_pipeline_size - length w.session.pending_blocks) w fair
