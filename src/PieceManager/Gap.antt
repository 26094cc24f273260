-- ===== src/PieceManager/Gap.antt =====
-- The search for a block of a piece that is not pending.
use bit_torrent_client.Prelude.{
  ℕ, zero, suc, ◌+◌, ◌-◌, ◌*◌, ◌≤◌, ◌<◌, ◌≡◌, refl, min, List, true, false, Option, none, some,
  arith, ltb, Bool-cases, inl, inr, ok, ltb→lt,
}
use bit_torrent_client.PieceManager.{block_len, block_at, find_gap}
use bit_torrent_client.PieceManager.BlockSet.{Block, contains}

-- Every block of the piece from the offset on is pending.
abbrev pub Exhausted : List Block → ℕ → ℕ → ℕ → Type 0
Exhausted pending index len offset =
    (k : ℕ)
    → offset + k * block_len < len
    → contains (block_at index len (offset + k * block_len)) pending ≡ true

-- The block is one of the piece, at or behind the offset, and is not pending.
pub record IsGap (pending : List Block) (index len offset : ℕ) (block : Block) : Type 0 where
  pub from_piece : block ≡ block_at index len block.offset
  pub inside : block.offset < len
  pub behind : offset ≤ block.offset
  pub fresh : contains block pending ≡ false

abbrev pub Gap : List Block → ℕ → ℕ → ℕ → Option Block → Type 0
Gap pending index len offset none = Exhausted pending index len offset
Gap pending index len offset (some block) = IsGap pending index len offset block

Exhausted-step :
    (pending : List Block) (index len offset : ℕ)
    → contains (block_at index len offset) pending ≡ true
    → Exhausted pending index len (offset + min block_len (len - offset))
    → Exhausted pending index len offset
Exhausted-step pending index len offset here later zero lt =
    let e : offset + 0 * block_len ≡ offset = omega arith in rw e here
Exhausted-step pending index len offset here later (suc k) lt =
    let e : offset + min block_len (len - offset) + k * block_len ≡ offset + suc k * block_len =
      omega arith in
    rw e at (later k (omega arith))

Gap-step :
    (pending : List Block) (index len offset : ℕ) (g : Option Block)
    → contains (block_at index len offset) pending ≡ true
    → Gap pending index len (offset + min block_len (len - offset)) g
    → Gap pending index len offset g
Gap-step pending index len offset none here later =
    Exhausted-step pending index len offset here later
Gap-step pending index len offset (some block) here later = record {
  from_piece = later.from_piece;
  inside = later.inside;
  behind = omega (arith, later.behind);
  fresh = later.fresh;
}

-- With more fuel than there are bytes left, the search for a gap ends, and it finds the block that
-- is there, or none if all blocks from the offset on are pending.
pub find_gap_lem :
    (f : ℕ) (pending : List Block) (index len offset : ℕ)
    → len - offset < f
    → (g : Option Block) × (find_gap f pending index len offset ≡ ok g)
      × Gap pending index len offset g
unfolding find_gap
find_gap_lem zero pending index len offset h = absurd (omega arith)
find_gap_lem (suc f) pending index len offset h = elim (Bool-cases (ltb offset len)) [
  | inr over ↦ (none, rw over, λ k lt. absurd (ground arith))
  | inl more ↦ elim (Bool-cases (contains (block_at index len offset) pending)) [
    | inr free ↦ (
      some (block_at index len offset),
      rw (more, free),
      record { from_piece = refl; inside = ltb→lt _ _ more; behind = omega arith; fresh = free },
    )
    | inl taken ↦
        let (g, e, p) =
          find_gap_lem f pending index len (offset + min block_len (len - offset)) (ground arith) in
        (g, rw (more, taken) e, Gap-step pending index len offset g taken p)
  ]
]
