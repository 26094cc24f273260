-- ===== src/PieceManager/BlockSet.antt =====
-- `Block` and `std::set<Block>`: blocks are ordered, and told apart, by piece and offset alone.
use bit_torrent_client.Prelude.{
  ℕ, ◌≡◌, refl, [], ◌∷◌, List, Bool, true, false, ◌&&◌, ◌||◌, not, arith, ltb, ◌==◌, if◌then◌else◌,
}

pub record Block : Type 0 where
  pub piece_index : ℕ
  pub offset : ℕ
  pub size : ℕ

-- `operator<`, by `std::tie`.
unfoldable pub block_lt : Block → Block → Bool
block_lt a b =
    if ltb a.piece_index b.piece_index
    then true
    else if ltb b.piece_index a.piece_index
    then false
    else ltb a.offset b.offset

-- Neither block is less.
abbrev pub same_block : Block → Block → Bool
same_block a b = a.piece_index == b.piece_index && a.offset == b.offset

unfoldable pub contains : Block → List Block → Bool
contains b [] = false
contains b (x ∷ xs) = same_block b x || contains b xs

-- The set keeps its order; a block that is there already stays as it is.
unfoldable pub insert : Block → List Block → List Block
unfolding block_lt
insert b [] = b ∷ []
insert b (x ∷ xs) =
    let rest = insert b xs in
    if block_lt b x then b ∷ x ∷ xs else if block_lt x b then x ∷ rest else x ∷ xs

unfoldable pub erase : Block → List Block → List Block
erase b [] = []
erase b (x ∷ xs) = let rest = erase b xs in if same_block b x then rest else x ∷ rest

pub contains-insert :
    (a b : Block) (xs : List Block) → contains a (insert b xs) ≡ (same_block a b || contains a xs)
unfolding contains insert
contains-insert a b [] = refl
contains-insert a b (x ∷ xs) = ground (arith, contains-insert a b xs)

pub contains-erase :
    (a b : Block) (xs : List Block)
    → contains a (erase b xs) ≡ (not (same_block a b) && contains a xs)
unfolding contains erase
contains-erase a b [] = ground arith
contains-erase a b (x ∷ xs) = ground (arith, contains-erase a b xs)

abbrev pub All {ℓ κ} : {A : Type ℓ} → (A → Type κ) → List A → Type κ
All P [] = Unit
All P (x ∷ xs) = P x × All P xs

module _ (P : Block → Type 0) (b : Block) where
  pub All-insert : (xs : List Block) → P b → All P xs → All P (insert b xs)
  unfolding insert
  All-insert [] h hs = (h, tt)
  All-insert (x ∷ xs) h hs = ground (arith, All-insert xs h hs.1)

  pub All-erase : (xs : List Block) → All P xs → All P (erase b xs)
  unfolding erase
  All-erase [] hs = tt
  All-erase (x ∷ xs) hs = ground (arith, All-erase xs hs.1)
