-- ===== src/PieceManager/Request.antt =====
-- `requestBlock`: what is asked of a peer.
pub mod Byte
pub mod Scan
pub mod Untrusted
use bit_torrent_client.Prelude.{
  ℕ, zero, suc, ◌+◌, ◌-◌, ◌*◌, ◌/◌, ◌%◌, ◌^◌, ◌≤◌, ◌<◌, ◌≡◌, refl, min, List, Bool, true, false,
  Option, none, some, arith, Bytes, length, get_elem?, set, ok, ◌>>=◌, length-set, get_elem?-exists,
  sym, subst, ap, ◌∙◌,
}
use bit_torrent_client.Prelude.Bits.{bit}
use bit_torrent_client.PieceManager.{
  PieceManager, PendingPiece, block_len, block_at, num_pieces, get_piece_length, find_gap,
  get_next_block_for_piece,
}
use bit_torrent_client.PieceManager.BlockSet.{Block, contains, insert, All, All-insert}
use bit_torrent_client.PieceManager.Invariant.{IsValid, IsPending, get_piece_length_lem}
use bit_torrent_client.PieceManager.Gap.{Exhausted, IsGap, Gap, find_gap_lem}

-- The block is a gap of the piece behind its next offset; it is now pending, and the next offset
-- has moved behind it. Nothing else has changed.
pub record IsGrant (pm : PieceManager) (index : ℕ) (block : Block) (q : PieceManager) : Type 0 where
  pub piece_len : ℕ
  pub next : ℕ
  pub sized : get_piece_length pm.metadata index ≡ ok piece_len
  pub at : get_elem? pm.next_offsets index ≡ some next
  pub gap : IsGap pm.pending_blocks index piece_len next block
  pub state : q ≡ record pm {
    pending_blocks = insert block pm.pending_blocks;
    next_offsets = set pm.next_offsets index (block.offset + block.size);
  }

-- No block of the piece is left to ask for: all behind its next offset are pending.
abbrev pub AllAsked : PieceManager → ℕ → Type 0
AllAsked pm index =
    (len next : ℕ)
    → get_piece_length pm.metadata index ≡ ok len
    → get_elem? pm.next_offsets index ≡ some next
    → Exhausted pm.pending_blocks index len next

abbrev pub NextBlock : PieceManager → ℕ → Option Block × PieceManager → Type 0
NextBlock pm index (none, q) = (q ≡ pm) × AllAsked pm index
NextBlock pm index (some block, q) = IsGrant pm index block q

-- In a well-formed state, a search in a piece that exists ends without a fault, and grants a block
-- unless all blocks from its next offset on have been asked for.
pub get_next_block_lem :
    (pm : PieceManager) (index : ℕ)
    → IsValid pm
    → index < num_pieces pm
    → (r : Option Block × PieceManager) × (get_next_block_for_piece pm index ≡ ok r)
      × NextBlock pm index r
unfolding get_next_block_for_piece
get_next_block_lem pm index v lt =
    let (len, sized, _, _) = get_piece_length_lem pm.metadata index v.supported in
    let (next, at) = get_elem?-exists pm.next_offsets index (omega (arith, v.offsets)) in
    let (g, e, found) = find_gap_lem (suc len) pm.pending_blocks index len next (omega arith) in
    next_block pm index len next sized at g e found
  where
    next_block :
        (pm : PieceManager) (index len next : ℕ)
        → get_piece_length pm.metadata index ≡ ok len
        → get_elem? pm.next_offsets index ≡ some next
        → (g : Option Block) → find_gap (suc len) pm.pending_blocks index len next ≡ ok g
        → Gap pm.pending_blocks index len next g
        → (r : Option Block × PieceManager) × (get_next_block_for_piece pm index ≡ ok r)
          × NextBlock pm index r
    next_block pm index len next sized at none e found = (
      (none, pm),
      rw (sized, at, e),
      (
        refl,
        λ len' next' s' a'.
            let el : len ≡ len' = cc (sized, s') in
            let en : next ≡ next' = cc (at, a') in rw (← el, ← en) found,
      ),
    )
    next_block pm index len next sized at (some block) e found = (
      (
        some block,
        record pm {
          pending_blocks = insert block pm.pending_blocks;
          next_offsets = set pm.next_offsets index (block.offset + block.size);
        },
      ),
      rw (sized, at, e),
      record { piece_len = len; next = next; sized = sized; at = at; gap = found; state = refl },
    )

-- A grant keeps the state well formed.
pub grant-IsValid :
    (pm : PieceManager) (index : ℕ) (block : Block) (q : PieceManager)
    → IsValid pm
    → index < num_pieces pm
    → IsGrant pm index block q
    → IsValid q
grant-IsValid pm index block q v lt g = subst IsValid (sym g.state) (record {
  supported = v.supported;
  place = v.place;
  hashes = v.hashes;
  offsets = length-set pm.next_offsets index (block.offset + block.size) ∙ v.offsets;
  marks = v.marks;
  pending = v.pending;
  blocks =
      All-insert (λ b. b.piece_index < num_pieces pm) block pm.pending_blocks
        (rw (ap (λ (b : Block). b.piece_index) g.gap.from_piece) lt) v.blocks;
})
