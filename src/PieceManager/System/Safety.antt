-- ===== src/PieceManager/System/Safety.antt =====
-- What every operation keeps, so what holds in every state that the sessions can reach.
use bit_torrent_client.Prelude.{
  ℕ, ◌<◌, ◌≡◌, ◌⊎◌, inl, inr, refl, sym, ◌∙◌, subst, ap, Bool, true, false, Option, none, some,
  arith, Bytes, get_elem?, Outcome, ok, Option-cases, Returns, get_elem?-lt,
}
use bit_torrent_client.FileHandler.{FileHandler, write_piece}
use bit_torrent_client.FileHandler.Stream.{write_piece-written, stream_write-keeps}
use bit_torrent_client.PieceManager.{
  PieceManager, num_pieces, deliver_block, request_block, return_block,
}
use bit_torrent_client.PieceManager.BlockSet.{Block}
use bit_torrent_client.PieceManager.Invariant.{IsValid}
use bit_torrent_client.PieceManager.Request.{grant-IsValid}
use bit_torrent_client.PieceManager.Request.Untrusted.{Grants, request_block-Grants}
use bit_torrent_client.PieceManager.Return.{IsReturned, return_block_lem}
use bit_torrent_client.PieceManager.Delivery.{
  Delivery, known, refused, stored, completed, mismatched,
}
use bit_torrent_client.PieceManager.Deliver.{deliver_block_lem}
use bit_torrent_client.PieceManager.System.{
  Step, requested, delivered, returned, Reach, here, later,
}

-- The state is well formed and the file is open.
pub record IsSafe (pm : PieceManager) : Type 0 where
  pub valid : IsValid pm
  pub writable : pm.file_handler.is_open ≡ true

-- A delivery finds no flag at its index and changes nothing, or ends in one of the five ways.
pub deliver_block-cases :
    (sha1 : Bytes → Bytes) (pm : PieceManager) (idx offset : ℕ) (new : Bytes)
    → IsSafe pm
    → ((deliver_block sha1 pm idx offset new).0 ≡ pm)
      ⊎ (Delivery sha1 pm idx offset new
            (deliver_block sha1 pm idx offset new).0
            (deliver_block sha1 pm idx offset new).1
          × IsValid (deliver_block sha1 pm idx offset new).0)
unfolding deliver_block
deliver_block-cases sha1 pm idx offset new s = elim (Option-cases (get_elem? pm.finished idx)) [
  | inl absent ↦ inl (rw (absent, deliver_block))
  | inr (flag, e) ↦
      let lt : idx < num_pieces pm =
        omega (arith, get_elem?-lt pm.finished idx e, s.valid.marks.flags) in
      inr (deliver_block_lem sha1 pm idx offset new s.valid lt s.writable)
]

-- The file is as it was, or the block was written at its piece.
abbrev pub IsWritten : PieceManager → ℕ → Bytes → PieceManager → Type 0
IsWritten pm idx new q =
    (q.file_handler ≡ pm.file_handler) ⊎ (write_piece pm.file_handler idx new ≡ ok q.file_handler)

pub Delivery-IsWritten :
    {sha1 : Bytes → Bytes} {pm q : PieceManager} {idx offset : ℕ} {new : Bytes}
    {result : Outcome Bool}
    → Delivery sha1 pm idx offset new q result
    → IsWritten pm idx new q
Delivery-IsWritten (known e same r) = inl (rw same)
Delivery-IsWritten (refused len sized big fin file blocks meta r) = inl file
Delivery-IsWritten (stored before piece at buffer count fits fin file blocks meta r) = inl file
Delivery-IsWritten
      (completed piece sized hash before buffer fin count gone written notified blocks meta r) =
    inr written
Delivery-IsWritten
      (mismatched piece expected sized hash apart before buffer fin file gone next blocks meta r) =
    inl file

Delivery-open :
    {sha1 : Bytes → Bytes} {pm q : PieceManager} {idx offset : ℕ} {new : Bytes}
    {result : Outcome Bool}
    → Delivery sha1 pm idx offset new q result
    → q.file_handler.is_open ≡ pm.file_handler.is_open
Delivery-open {pm = pm} {idx = idx} {new = new} d = elim (Delivery-IsWritten d) [
  | inl same ↦ rw same
  | inr written ↦
      ap (λ (fh : FileHandler). fh.is_open) (write_piece-written pm.file_handler idx new written)
      ∙ (stream_write-keeps pm.file_handler _ new).0
]

-- What a request that returned did.
pub requested-Grants :
    (pm : PieceManager) (peer : Bytes) {r : Option Block × PieceManager}
    → IsValid pm
    → request_block pm peer ≡ ok r
    → Grants pm r
requested-Grants pm peer v e = rw (e, Returns) at (request_block-Grants pm peer v)

Grants-IsSafe :
    (pm : PieceManager) (r : Option Block × PieceManager) → IsSafe pm → Grants pm r → IsSafe r.1
Grants-IsSafe pm (none, q) s same = subst IsSafe (sym same) s
Grants-IsSafe pm (some block, q) s (lacking, g) = record {
  valid =
      grant-IsValid pm block.piece_index block q s.valid
        (omega (arith, get_elem?-lt pm.finished block.piece_index lacking, s.valid.marks.flags)) g;
  writable = rw g.state s.writable;
}

-- A block that is returned is refused, or is on offer again.
pub return_block-cases :
    (pm : PieceManager) (block : Block) {r : Bool × PieceManager}
    → IsValid pm
    → return_block pm block ≡ ok r
    → (r.1 ≡ pm) ⊎ (IsReturned pm block r.1 × IsValid r.1)
return_block-cases pm block {r} v e = elim (return_block_lem pm block v) [
  | inl (held, (q, eq, ret, valid)) ↦
      let same : ◌≡◌ {A = Bool × PieceManager} (true, q) r = cc (e, eq) in
      inr (
        subst (λ (x : Bool × PieceManager). IsReturned pm block x.1 × IsValid x.1) same
          (ret, valid))
  | inr (gone, eq) ↦
      let same : ◌≡◌ {A = Bool × PieceManager} (false, pm) r = cc (e, eq) in
      inl (sym (ap (λ (x : Bool × PieceManager). x.1) same))
]

return_block-IsSafe :
    (pm : PieceManager) (block : Block) {r : Bool × PieceManager}
    → IsSafe pm
    → return_block pm block ≡ ok r
    → IsSafe r.1
return_block-IsSafe pm block s e = elim (return_block-cases pm block s.valid e) [
  | inl same ↦ subst IsSafe (sym same) s
  | inr (ret, valid) ↦ record { valid = valid; writable = rw ret.file s.writable }
]

pub Step-IsSafe :
    {sha1 : Bytes → Bytes} {pm q : PieceManager} → Step sha1 pm q → IsSafe pm → IsSafe q
Step-IsSafe {pm = pm} (requested peer found e) s =
    Grants-IsSafe pm (found, _) s (requested-Grants pm peer s.valid e)
Step-IsSafe {sha1} {pm} (delivered idx offset new inside e) s =
    elim (deliver_block-cases sha1 pm idx offset new s) [
      | inl same ↦ subst IsSafe (sym same ∙ e) s
      | inr (d, valid) ↦
          subst IsSafe e (record { valid = valid; writable = Delivery-open d ∙ s.writable })
    ]
Step-IsSafe {pm = pm} (returned block done e) s = return_block-IsSafe pm block s e

-- Whatever sequence of operations the sessions run, a well-formed state with the file open stays
-- one: with any bitfield in a request that returns, any block in a return, and any offset and bytes
-- in a delivery for a piece of the torrent. A delivery for an index that is no piece is undefined
-- behaviour and no step of the sequence, so nothing is said of what follows it.
pub Reach-IsSafe :
    {sha1 : Bytes → Bytes} {pm q : PieceManager} → IsSafe pm → Reach sha1 pm q → IsSafe q
Reach-IsSafe s here = s
Reach-IsSafe s (later r step) = Step-IsSafe step (Reach-IsSafe s r)

Delivery-metadata :
    {sha1 : Bytes → Bytes} {pm q : PieceManager} {idx offset : ℕ} {new : Bytes}
    {result : Outcome Bool}
    → Delivery sha1 pm idx offset new q result
    → q.metadata ≡ pm.metadata
Delivery-metadata (known e same r) = rw same
Delivery-metadata (refused len sized big fin file blocks meta r) = meta
Delivery-metadata (stored before piece at buffer count fits fin file blocks meta r) = meta
Delivery-metadata
      (completed piece sized hash before buffer fin count gone written notified blocks meta r) =
    meta
Delivery-metadata
      (mismatched piece expected sized hash apart before buffer fin file gone next blocks meta r) =
    meta

pub Step-metadata :
    {sha1 : Bytes → Bytes} {pm q : PieceManager}
    → IsSafe pm
    → Step sha1 pm q
    → q.metadata ≡ pm.metadata
Step-metadata {pm = pm} s (requested peer none e) =
    ap (λ (x : PieceManager). x.metadata) (requested-Grants pm peer s.valid e)
Step-metadata {pm = pm} s (requested peer (some block) e) =
    ap (λ (x : PieceManager). x.metadata) (requested-Grants pm peer s.valid e).1.state
Step-metadata {sha1} {pm} s (delivered idx offset new inside e) =
    rw (sym e) (elim (deliver_block-cases sha1 pm idx offset new s) [
      | inl same ↦ ap (λ (x : PieceManager). x.metadata) same
      | inr (d, valid) ↦ Delivery-metadata d
    ])
Step-metadata {pm = pm} s (returned block done e) = elim (return_block-cases pm block s.valid e) [
  | inl same ↦ ap (λ (x : PieceManager). x.metadata) same
  | inr (ret, valid) ↦ ret.torrent
]

pub Reach-metadata :
    {sha1 : Bytes → Bytes} {pm q : PieceManager}
    → IsSafe pm
    → Reach sha1 pm q
    → q.metadata ≡ pm.metadata
Reach-metadata s here = refl
Reach-metadata s (later r step) = Step-metadata (Reach-IsSafe s r) step ∙ Reach-metadata s r
