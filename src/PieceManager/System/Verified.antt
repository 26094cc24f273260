-- ===== src/PieceManager/System/Verified.antt =====
-- Which pieces are finished: only those whose hash was found right, and for good.
use bit_torrent_client.Prelude.{
  ℕ, ◌≡◌, ◌⊎◌, inl, inr, refl, sym, ◌∙◌, subst, ap, Bool, true, none, some, arith, Bytes, length,
  get_elem?, set, Outcome, ok, Bool-cases, List, ltb, ltb→lt, ltb→ge, get_elem?-ge, length-set,
  get_elem?-set_self, get_elem?-set_ne,
}
use native.Mathlib.Decide.{ℕ_discrete}
use bit_torrent_client.Metadata.{TorrentMetadata}
use bit_torrent_client.PieceManager.{PieceManager, get_piece_length, deliver_block, copy_into}
use bit_torrent_client.PieceManager.Delivery.{
  Before, Delivery, known, refused, stored, completed, mismatched,
}
use bit_torrent_client.PieceManager.System.{
  Step, requested, delivered, returned, Reach, here, later,
}
use bit_torrent_client.PieceManager.System.Safety.{
  IsSafe, Reach-IsSafe, requested-Grants, return_block-cases, deliver_block-cases,
}

-- The delivery of a block takes `pm` to `q`: the buffer of the piece that was there, with the block
-- copied in, has the length of the piece and the hash that the torrent names for it.
pub record Finishes (sha1 : Bytes → Bytes) (metadata : TorrentMetadata) (pm : PieceManager) (i : ℕ)
    (q : PieceManager) : Type 0 where
  pub offset : ℕ
  pub new : Bytes
  pub before : Before pm i
  pub run : (deliver_block sha1 pm i offset new).0 ≡ q
  pub sized : get_piece_length metadata i ≡ ok (length (copy_into before.piece.buffer offset new))
  pub right :
      get_elem? metadata.info.piece_hashes i
      ≡ some (sha1 (copy_into before.piece.buffer offset new))

-- On the way from `pm` to `q` there was such a delivery.
pub record IsVerified (sha1 : Bytes → Bytes) (pm : PieceManager) (i : ℕ) (q : PieceManager)
    : Type 0 where
  pub start : PieceManager
  pub done : PieceManager
  pub reached : Reach sha1 pm start
  pub delivery : Finishes sha1 pm.metadata start i done
  pub onward : Reach sha1 done q

-- What an operation does to the flag of a piece.
abbrev Flags : (Bytes → Bytes) → PieceManager → PieceManager → ℕ → Type 0
Flags sha1 pm q i =
    (get_elem? q.finished i ≡ get_elem? pm.finished i)
    ⊎ ((get_elem? q.finished i ≡ some true) × Finishes sha1 pm.metadata pm i q)

set-Flags :
    (sha1 : Bytes → Bytes) (pm q : PieceManager) (i idx : ℕ)
    → q.finished ≡ set pm.finished idx true
    → Finishes sha1 pm.metadata pm idx q
    → Flags sha1 pm q i
set-Flags sha1 pm q i idx fin good = elim (ℕ_discrete idx i) [
  | no apart ↦ inl (rw fin (get_elem?-set_ne pm.finished idx i true apart))
  | yes e ↦ elim (Bool-cases (ltb i (length pm.finished))) [
    | inl inside ↦
        inr (rw (fin, e) (get_elem?-set_self pm.finished i true (ltb→lt _ _ inside)), rw e at good)
    | inr beyond ↦
        let far = ltb→ge _ _ beyond in
        inl (
          rw (fin, get_elem?-ge pm.finished i far)
            (get_elem?-ge (set pm.finished idx true) i
              (omega (arith, far, length-set pm.finished idx true))))
  ]
]

Delivery-Flags :
    {sha1 : Bytes → Bytes} {pm q : PieceManager} {idx offset : ℕ} {new : Bytes}
    {result : Outcome Bool} (i : ℕ)
    → (deliver_block sha1 pm idx offset new).0 ≡ q
    → Delivery sha1 pm idx offset new q result
    → Flags sha1 pm q i
Delivery-Flags i run (known e same r) = inl (rw same)
Delivery-Flags i run (refused len sized big fin file blocks meta r) = inl (rw fin)
Delivery-Flags i run (stored before piece at buffer count fits fin file blocks meta r) =
    inl (rw fin)
Delivery-Flags {sha1} {pm} {q} {idx} {offset} {new} i run
      (completed piece sized hash before buffer fin count gone written notified blocks meta r) =
    set-Flags sha1 pm q i idx fin (record {
      offset = offset;
      new = new;
      before = before;
      run = run;
      sized = subst (λ (b : Bytes). get_piece_length pm.metadata idx ≡ ok (length b)) buffer sized;
      right =
          subst (λ (b : Bytes). get_elem? pm.metadata.info.piece_hashes idx ≡ some (sha1 b)) buffer
            hash;
    })
Delivery-Flags i run
      (mismatched piece expected sized hash apart before buffer fin file gone next blocks meta r) =
    inl (rw fin)

Step-Flags :
    {sha1 : Bytes → Bytes} {pm q : PieceManager} (i : ℕ)
    → IsSafe pm
    → Step sha1 pm q
    → Flags sha1 pm q i
Step-Flags {pm = pm} i s (requested peer none e) =
    inl (ap (λ (x : PieceManager). get_elem? x.finished i) (requested-Grants pm peer s.valid e))
Step-Flags {pm = pm} i s (requested peer (some block) e) =
    inl (
      ap (λ (x : PieceManager). get_elem? x.finished i)
        (requested-Grants pm peer s.valid e).1.state)
Step-Flags {sha1} {pm} i s (delivered idx offset new inside e) =
    rw (sym e) (elim (deliver_block-cases sha1 pm idx offset new s) [
      | inl same ↦ inl (ap (λ (x : PieceManager). get_elem? x.finished i) same)
      | inr (d, valid) ↦ Delivery-Flags i refl d
    ])
Step-Flags {pm = pm} i s (returned block done e) = elim (return_block-cases pm block s.valid e) [
  | inl same ↦ inl (ap (λ (x : PieceManager). get_elem? x.finished i) same)
  | inr (ret, valid) ↦ inl (ap (λ (fs : List Bool). get_elem? fs i) ret.unfinished)
]

-- From a well-formed state with the file open, whatever the sessions do, a finished piece stays
-- finished.
pub Reach-kept :
    {sha1 : Bytes → Bytes} {pm q : PieceManager} (i : ℕ)
    → IsSafe pm
    → Reach sha1 pm q
    → get_elem? pm.finished i ≡ some true
    → get_elem? q.finished i ≡ some true
Reach-kept i s here h = h
Reach-kept i s (later r step) h = elim (Step-Flags i (Reach-IsSafe s r) step) [
  | inl same ↦ same ∙ Reach-kept i s r h
  | inr (set_now, good) ↦ set_now
]
