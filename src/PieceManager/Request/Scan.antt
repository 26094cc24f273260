-- ===== src/PieceManager/Request/Scan.antt =====
-- The outer loop of `requestBlock`, over the bytes of the bitfields, and the operation as a whole.
use bit_torrent_client.Prelude.{
  ℕ, zero, suc, ◌+◌, ◌-◌, ◌/◌, ◌≤◌, ◌≡◌, refl, sym, Option, none, some, arith, Bytes, length,
  get_elem?, ltb, ◌==◌, ok, Bool-cases, inl, inr, ==_iff, bit_and, get_elem?-exists, if◌then◌else◌,
  subst,
}
use bit_torrent_client.PieceManager.{PieceManager, num_pieces, scan_bits, scan_bytes, request_block}
use bit_torrent_client.PieceManager.BlockSet.{Block}
use bit_torrent_client.PieceManager.Invariant.{IsValid}
use bit_torrent_client.PieceManager.Request.{grant-IsValid}
use bit_torrent_client.PieceManager.Request.Byte.{
  IsPeerField, Requested, Requested-extend, offered-lt, scan_byte,
}

scan_bytes_lem :
    (pm : PieceManager) (peer : Bytes)
    → IsValid pm
    → IsPeerField (num_pieces pm) peer
    → (rounds i : ℕ) → i + rounds ≡ length pm.bitfield
    → (r : Option Block × PieceManager) × (scan_bytes rounds i peer pm ≡ ok r)
      × Requested pm peer (λ j. i ≤ j / 8) r
unfolding scan_bytes
scan_bytes_lem pm peer v field zero i e = (
  (none, pm),
  refl,
  (refl, λ j p o. absurd (omega (arith, offered-lt pm peer j v o, v.marks.width))),
)
scan_bytes_lem pm peer v field (suc rounds) i e =
    let (my, mine) = get_elem?-exists pm.bitfield i (omega arith) in
    let (theirs, other) = get_elem?-exists peer i (omega (arith, field.width, v.marks.width)) in
    let (r, er, p) = scan_byte pm peer v field i my theirs mine other in
    let rest = scan_bytes_lem pm peer v field rounds (i + 1) (omega arith) in
    step my theirs mine other r er p rest
  where
    step :
        (my theirs : ℕ)
        → get_elem? pm.bitfield i ≡ some my
        → get_elem? peer i ≡ some theirs
        → (r : Option Block × PieceManager)
        → (if ltb 0 (bit_and theirs (255 - my))
            then scan_bits 8 i (bit_and theirs (255 - my)) pm
            else ok (none, pm))
          ≡ ok r
        → Requested pm peer (λ j. j / 8 ≡ i) r
        → (s : Option Block × PieceManager) × (scan_bytes rounds (i + 1) peer pm ≡ ok s)
          × Requested pm peer (λ j. i + 1 ≤ j / 8) s
        → (s : Option Block × PieceManager) × (scan_bytes (suc rounds) i peer pm ≡ ok s)
          × Requested pm peer (λ j. i ≤ j / 8) s
    step my theirs mine other (some block, q) er p rest = ((some block, q), rw (mine, other, er), p)
    step my theirs mine other (none, q) er (same, all) (s, es, p) = (
      s,
      rw (mine, other, er, same) es,
      Requested-extend pm peer (λ j. i + 1 ≤ j / 8) (λ j. i ≤ j / 8) s
          (λ j le o. elim (Bool-cases (j / 8 == i)) [
            | inl here ↦ inr (all j ((==_iff (j / 8) i).0 here) o)
            | inr later ↦ inl (ground arith)
          ])
          p,
    )

-- In a well-formed state, a request to a peer with a well-formed bitfield never faults. It grants a
-- block of a piece that the peer has and the client lacks, or nothing, and then the state is
-- unchanged and every such piece has all its blocks behind the next offset pending already.
pub request_block_lem :
    (pm : PieceManager) (peer : Bytes)
    → IsValid pm
    → IsPeerField (num_pieces pm) peer
    → (r : Option Block × PieceManager) × (request_block pm peer ≡ ok r)
      × Requested pm peer (λ j. Unit {0}) r
unfolding request_block
request_block_lem pm peer v field =
    let (r, e, p) = scan_bytes_lem pm peer v field (length pm.bitfield) 0 (omega arith) in
    (
      r,
      e,
      Requested-extend pm peer (λ j. 0 ≤ j / 8) (λ j. Unit {0}) r (λ j u o. inl (omega arith)) p,
    )

-- What a request to a peer with a well-formed bitfield returns in a well-formed state comes with a
-- well-formed state.
pub request_block-IsValid :
    (pm : PieceManager) (peer : Bytes) {r : Option Block × PieceManager}
    → IsValid pm
    → IsPeerField (num_pieces pm) peer
    → request_block pm peer ≡ ok r
    → IsValid r.1
request_block-IsValid pm peer {r} v field e =
    let (s, es, p) = request_block_lem pm peer v field in
    let same : s ≡ r = cc (e, es) in kept r (subst (Requested pm peer (λ j. Unit {0})) same p)
  where
    kept : (r : Option Block × PieceManager) → Requested pm peer (λ j. Unit {0}) r → IsValid r.1
    kept (none, q) (e, all) = subst IsValid (sym e) v
    kept (some block, q) (o, g) =
        grant-IsValid pm block.piece_index block q v (offered-lt pm peer block.piece_index v o) g
