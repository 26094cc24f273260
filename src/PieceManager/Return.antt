-- ===== src/PieceManager/Return.antt =====
-- `returnBlock`: a block that a session cannot fetch is put up again.
use bit_torrent_client.Prelude.{
  ℕ, ◌≤◌, ◌<◌, ◌≡◌, refl, ◌∙◌, subst, Bool, true, false, ◌&&◌, not, some, arith, length, get_elem?,
  set, ◌⊎◌, List, [], ◌∷◌, ltb, ok, Bool-cases, inl, inr, get_elem?-exists, get_elem?-set_self,
  length-set, ltb→ge, ap,
}
use bit_torrent_client.PieceManager.{PieceManager, num_pieces, return_block}
use bit_torrent_client.PieceManager.BlockSet.{
  Block, contains, erase, contains-erase, All, All-erase, same_block,
}
use bit_torrent_client.PieceManager.Invariant.{IsValid}

-- The block is on offer again: it is not pending, and the next offset of its piece is not behind
-- it.
pub record IsReturned (pm : PieceManager) (block : Block) (q : PieceManager) : Type 0 where
  pub free : contains block q.pending_blocks ≡ false
  pub next : ℕ
  pub at : get_elem? q.next_offsets block.piece_index ≡ some next
  pub reachable : next ≤ block.offset
  pub others :
      (b : Block)
      → same_block b block ≡ false
      → contains b q.pending_blocks ≡ contains b pm.pending_blocks
  pub unfinished : q.finished ≡ pm.finished
  pub file : q.file_handler ≡ pm.file_handler
  pub torrent : q.metadata ≡ pm.metadata
  pub quiet : q.notified ≡ pm.notified

pending-piece :
    (n : ℕ) (b : Block) (xs : List Block)
    → All (λ x. x.piece_index < n) xs
    → contains b xs ≡ true
    → b.piece_index < n
unfolding contains
pending-piece n b [] h e = absurd (cc)
pending-piece n b (x ∷ xs) h e = ground (arith, pending-piece n b xs h.1)

-- Blocks at the same place are in a set or not together.
pub same-contains :
    (a b : Block) (xs : List Block) → same_block a b ≡ true → contains a xs ≡ contains b xs
unfolding contains
same-contains a b [] same = refl
same-contains a b (x ∷ xs) same = ground (arith, same-contains a b xs same)

same_block_self : (b : Block) → same_block b b ≡ true
same_block_self b = ground arith

abbrev taken_back : PieceManager → Block → PieceManager
taken_back pm block = record pm { pending_blocks = erase block pm.pending_blocks }

abbrev moved_back : PieceManager → Block → PieceManager
moved_back pm block = record (taken_back pm block) {
  next_offsets = set pm.next_offsets block.piece_index block.offset;
}

module _ (pm : PieceManager) (block : Block) (v : IsValid pm) where
  erased : contains block (erase block pm.pending_blocks) ≡ false
  erased =
      contains-erase block block pm.pending_blocks
      ∙ ap (λ (t : Bool). not t && contains block pm.pending_blocks) (same_block_self block)

  kept :
      (b : Block)
      → same_block b block ≡ false
      → contains b (erase block pm.pending_blocks) ≡ contains b pm.pending_blocks
  kept b other =
      contains-erase b block pm.pending_blocks
      ∙ ap (λ (t : Bool). not t && contains b pm.pending_blocks) other

  taken_back-IsValid : IsValid (taken_back pm block)
  taken_back-IsValid = record {
    supported = v.supported;
    place = v.place;
    hashes = v.hashes;
    offsets = v.offsets;
    marks = v.marks;
    pending = v.pending;
    blocks = All-erase (λ b. b.piece_index < num_pieces pm) block pm.pending_blocks v.blocks;
  }

  moved_back-IsValid : IsValid (moved_back pm block)
  moved_back-IsValid = record {
    supported = v.supported;
    place = v.place;
    hashes = v.hashes;
    offsets = length-set pm.next_offsets block.piece_index block.offset ∙ v.offsets;
    marks = v.marks;
    pending = v.pending;
    blocks = taken_back-IsValid.blocks;
  }

  -- In a well-formed state, a pending block is taken back: it is on offer again, every other block
  -- is pending or not as before, and the state stays well formed. Any other block is refused and
  -- nothing changes.
  pub return_block_lem :
      ((contains block pm.pending_blocks ≡ true)
        × ((q : PieceManager) × (return_block pm block ≡ ok (true, q))
            × IsReturned pm block q
            × IsValid q))
      ⊎ ((contains block pm.pending_blocks ≡ false) × (return_block pm block ≡ ok (false, pm)))
  unfolding return_block
  return_block_lem = elim (Bool-cases (contains block pm.pending_blocks)) [
    | inr e ↦ inr (e, rw e)
    | inl e ↦
        let lt = pending-piece (num_pieces pm) block pm.pending_blocks v.blocks e in
        let lt' : block.piece_index < length pm.next_offsets = omega (arith, v.offsets) in
        let (next, at) = get_elem?-exists pm.next_offsets block.piece_index lt' in
        elim (Bool-cases (ltb block.offset next)) [
          | inl back ↦ inl (
            e,
            (
              moved_back pm block,
              rw (e, at, back),
              record {
                free = erased;
                next = block.offset;
                at = get_elem?-set_self pm.next_offsets block.piece_index block.offset lt';
                reachable = omega arith;
                others = kept;
                unfinished = refl;
                file = refl;
                torrent = refl;
                quiet = refl;
              },
              moved_back-IsValid,
            ),
          )
          | inr ahead ↦ inl (
            e,
            (
              taken_back pm block,
              rw (e, at, ahead),
              record {
                free = erased;
                next = next;
                at = at;
                reachable = ltb→ge _ _ ahead;
                others = kept;
                unfinished = refl;
                file = refl;
                torrent = refl;
                quiet = refl;
              },
              taken_back-IsValid,
            ),
          )
        ]
  ]

  pub return_block-IsValid : {r : Bool × PieceManager} → return_block pm block ≡ ok r → IsValid r.1
  return_block-IsValid {r} h = elim return_block_lem [
    | inl (e, (q, eq, ret, vq)) ↦
        let same : ◌≡◌ {A = Bool × PieceManager} (true, q) r = cc (h, eq) in
        subst (λ (x : Bool × PieceManager). IsValid x.1) same vq
    | inr (e, eq) ↦
        let same : ◌≡◌ {A = Bool × PieceManager} (false, pm) r = cc (h, eq) in
        subst (λ (x : Bool × PieceManager). IsValid x.1) same v
  ]
