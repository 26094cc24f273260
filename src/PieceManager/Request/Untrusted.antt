-- ===== src/PieceManager/Request/Untrusted.antt =====
-- `requestBlock` with the bitfield that a peer sent, whatever it is.
use bit_torrent_client.Prelude.{
  ℕ, zero, suc, ◌+◌, ◌-◌, ◌*◌, ◌/◌, ◌%◌, ◌^◌, ◌≤◌, ◌<◌, ◌≡◌, refl, sym, ap, Bool, true, false,
  Option, none, some, arith, Bytes, length, get_elem?, ltb, ◌==◌, ok, Bool-cases, Option-cases, inl,
  inr, ==_iff, bit_and, get_elem?-exists, get_elem?-lt, get_elem?-ge, ltb→ge, ltb→lt, if◌then◌else◌,
  subst, Returns, Returns-bind, Returns-any,
}
use bit_torrent_client.Prelude.Bits.{bit, bit-bit_and, bit-complement, bit-le}
use bit_torrent_client.PieceManager.{
  PieceManager, num_pieces, get_piece_length, get_next_block_for_piece, scan_bits, scan_bytes,
  request_block,
}
use bit_torrent_client.PieceManager.BlockSet.{Block}
use bit_torrent_client.PieceManager.Invariant.{IsValid}
use bit_torrent_client.PieceManager.Request.{IsGrant, NextBlock, get_next_block_lem}

-- Nothing was granted and nothing has changed, or a block of a piece that the client lacks was.
abbrev pub Grants : PieceManager → Option Block × PieceManager → Type 0
Grants pm (none, q) = q ≡ pm
Grants pm (some block, q) =
    (get_elem? pm.finished block.piece_index ≡ some false) × IsGrant pm block.piece_index block q

-- The piece at an index, if there is one, is not finished.
abbrev Lacks : PieceManager → ℕ → Type 0
Lacks pm index = index < num_pieces pm → get_elem? pm.finished index ≡ some false

NextBlock-Grants :
    (pm : PieceManager) (index : ℕ) (r : Option Block × PieceManager)
    → get_elem? pm.finished index ≡ some false
    → NextBlock pm index r
    → Grants pm r
NextBlock-Grants pm index (none, q) lacking (same, all) = same
NextBlock-Grants pm index (some block, q) lacking g =
    let same : index ≡ block.piece_index =
      sym (ap (λ (b : Block). b.piece_index) g.gap.from_piece) in
    subst (λ i. (get_elem? pm.finished i ≡ some false) × IsGrant pm i block q) same (lacking, g)

next_block-Grants :
    (pm : PieceManager) (index : ℕ)
    → IsValid pm
    → Lacks pm index
    → Returns (Grants pm) (get_next_block_for_piece pm index)
unfolding get_next_block_for_piece
next_block-Grants pm index v lacks = elim (Bool-cases (ltb index (num_pieces pm))) [
  | inl e ↦
      let lt = ltb→lt _ _ e in
      let (r, er, next) = get_next_block_lem pm index v lt in
      rw (er, Returns) (NextBlock-Grants pm index r (lacks lt) next)
  | inr e ↦
      let absent = get_elem?-ge pm.next_offsets index (omega (arith, v.offsets, ltb→ge _ _ e)) in
      Returns-bind (λ _. Unit {0}) (Grants pm) _ _
        (Returns-any (get_piece_length pm.metadata index)) λ len _. rw absent tt
]

-- The index of the piece that a bit of byte `i` stands for, as the code computes it.
abbrev piece_of : ℕ → ℕ → ℕ
piece_of i k = (i * 8 + (7 - k)) % 2 ^ 32

module _ (pm : PieceManager) (v : IsValid pm) (i my theirs : ℕ)
    (mine : get_elem? pm.bitfield i ≡ some my) where
  flag_of :
      (k : ℕ) (f : Bool)
      → k < 8
      → get_elem? pm.finished (i * 8 + (7 - k)) ≡ some f
      → bit k my ≡ (if f then 1 else 0)
  flag_of k f lt e =
      let byte : (i * 8 + (7 - k)) / 8 ≡ i = omega arith in
      let place : 7 - (i * 8 + (7 - k)) % 8 ≡ k = omega arith in
      rw place at (v.marks.agree (i * 8 + (7 - k)) f my e (rw byte mine))

  clear_flag :
      (k : ℕ) (f : Bool)
      → k < 8
      → bit k my ≡ 0
      → get_elem? pm.finished (i * 8 + (7 - k)) ≡ some f
      → get_elem? pm.finished (i * 8 + (7 - k)) ≡ some false
  clear_flag k true lt clear e = absurd (omega (arith, flag_of k true lt e))
  clear_flag k false lt clear e = e

  needed-Lacks : (k : ℕ) → k < 8 → bit k (bit_and theirs (255 - my)) ≡ 1 → Lacks pm (piece_of i k)
  needed-Lacks k lt one in_range =
      let my-lt = v.marks.bytes i my mine in
      let wide : i < (num_pieces pm + 7) / 8 =
        omega (arith, get_elem?-lt pm.bitfield i mine, v.marks.width) in
      let index : piece_of i k ≡ i * 8 + (7 - k) = omega (arith, v.supported.few) in
      let clear : bit k my ≡ 0 =
        omega (arith, bit-bit_and k theirs (255 - my), bit-complement k my lt my-lt, bit-le k my) in
      let (f, e) = get_elem?-exists pm.finished (i * 8 + (7 - k)) (omega (arith, v.marks.flags)) in
      rw index (clear_flag k f lt clear e)

scan_bits-Grants :
    (pm : PieceManager) (v : IsValid pm) (i needed b : ℕ)
    → ((k : ℕ) → k < 8 → bit k needed ≡ 1 → Lacks pm (piece_of i k))
    → b ≤ 8
    → Returns (Grants pm) (scan_bits b i needed pm)
unfolding scan_bits
scan_bits-Grants pm v i needed zero lacks le = refl
scan_bits-Grants pm v i needed (suc b) lacks le = elim (Bool-cases (bit b needed == 1)) [
  | inr e ↦ rw e (scan_bits-Grants pm v i needed b lacks (omega arith))
  | inl e ↦ rw e (
      Returns-bind (Grants pm) (Grants pm) _ _
        (next_block-Grants pm (piece_of i b) v (lacks b (omega arith) ((==_iff _ _).0 e)))
        (found (scan_bits-Grants pm v i needed b lacks (omega arith))))
]
  where
    found :
        Returns (Grants pm) (scan_bits b i needed pm)
        → (r : Option Block × PieceManager) → Grants pm r
        → Returns
            (Grants pm)
            (elim r.0 [ none ↦ scan_bits b i needed r.1 | some block ↦ ok (some block, r.1) ])
    found rest (none, q) same = rw same rest
    found rest (some block, q) g = g

scan_byte-Grants :
    (pm : PieceManager) (i my theirs : ℕ)
    → IsValid pm
    → get_elem? pm.bitfield i ≡ some my
    → Returns (Grants pm) (
        if ltb 0 (bit_and theirs (255 - my))
        then scan_bits 8 i (bit_and theirs (255 - my)) pm
        else ok (none, pm))
scan_byte-Grants pm i my theirs v mine = elim (Bool-cases (ltb 0 (bit_and theirs (255 - my)))) [
  | inl e ↦ rw e (
      scan_bits-Grants pm v i (bit_and theirs (255 - my)) 8 (needed-Lacks pm v i my theirs mine)
        (omega arith))
  | inr e ↦ rw e refl
]

scan_bytes-Grants :
    (pm : PieceManager) (peer : Bytes)
    → IsValid pm
    → (rounds i : ℕ) → Returns (Grants pm) (scan_bytes rounds i peer pm)
unfolding scan_bytes
scan_bytes-Grants pm peer v zero i = refl
scan_bytes-Grants pm peer v (suc rounds) i =
    let rest = scan_bytes-Grants pm peer v rounds (i + 1) in
    elim (Option-cases (get_elem? pm.bitfield i)) [
      | inl absent ↦ rw absent tt
      | inr (my, mine) ↦ elim (Option-cases (get_elem? peer i)) [
        | inl absent ↦ rw (mine, absent) tt
        | inr (theirs, other) ↦
            rw (mine, other)
              (Returns-bind (Grants pm) (Grants pm) _ _ (scan_byte-Grants pm i my theirs v mine)
                (found rest))
      ]
    ]
  where
    found :
        Returns (Grants pm) (scan_bytes rounds (i + 1) peer pm)
        → (r : Option Block × PieceManager) → Grants pm r
        → Returns (Grants pm) (elim r.0 [
          | none ↦ scan_bytes rounds (i + 1) peer r.1
          | some block ↦ ok (some block, r.1)
        ])
    found rest (none, q) same = rw same rest
    found rest (some block, q) g = g

-- Whatever a peer sent for a bitfield, a request that returns at all has changed nothing, or has
-- granted a block that was not pending, of a piece that the client lacks.
pub request_block-Grants :
    (pm : PieceManager) (peer : Bytes) → IsValid pm → Returns (Grants pm) (request_block pm peer)
unfolding request_block
request_block-Grants pm peer v = scan_bytes-Grants pm peer v (length pm.bitfield) 0
