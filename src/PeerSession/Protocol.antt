-- ===== src/PeerSession/Protocol.antt =====
-- What a session sends, and why the blocks that it asks for are blocks of their pieces.
use bit_torrent_client.Prelude.{
  ℕ, zero, suc, ◌+◌, ◌-◌, ◌≤◌, ◌<◌, ◌≡◌, ◌==◌, ◌++◌, List, [], ◌∷◌, if◌then◌else◌, Option, none,
  some, arith, refl, codes, replicate, take, ◌/◌, ◌%◌, Bytes, length, ltb, set, get_elem?, bit_and,
  ok, inl, inr, Outcome, or_fault, Returns, Returns-bind, Returns-any, Outcome-cases, Bool-cases,
}
use bit_torrent_client.Prelude.Bits.{bit}
use bit_torrent_client.Bytes.{write_u8, write_u32, empty_writer}
use bit_torrent_client.Handshake.{msg_code, interested, serialize_handshake}
use bit_torrent_client.Metadata.{TorrentMetadata}
use bit_torrent_client.PieceManager.{
  PieceManager, block_len, get_piece_length, find_gap, get_next_block_for_piece, scan_bits,
  scan_bytes, request_block,
}
use bit_torrent_client.PieceManager.BlockSet.{Block, All, insert}
use bit_torrent_client.PieceManager.Gap.{Gap, find_gap_lem}
use bit_torrent_client.PeerSession.{request_message}

-- The block is one of its piece, of 16384 bytes at most.
pub record IsAsked (metadata : TorrentMetadata) (b : Block) : Type 0 where
  pub piece_len : ℕ
  pub sized : get_piece_length metadata b.piece_index ≡ ok piece_len
  pub some_bytes : 0 < b.size
  pub few_bytes : b.size ≤ block_len
  pub inside : b.offset + b.size ≤ piece_len

-- A number as four bytes, the most significant one first.
abbrev pub big_endian : ℕ → Bytes
big_endian n = n / 16777216 % 256 ∷ n / 65536 % 256 ∷ n / 256 % 256 ∷ n % 256 ∷ []

-- The bytes of the messages of the protocol that this client sends, as the protocol lays them out.
abbrev pub handshake_bytes : Bytes → Bytes → Bytes
handshake_bytes info_hash peer_id =
    19 ∷ (codes "BitTorrent protocol" ++ (replicate 8 0 ++ (take 20 info_hash ++ take 20 peer_id)))

abbrev pub interested_bytes : Bytes
interested_bytes = 0 ∷ 0 ∷ 0 ∷ 1 ∷ 2 ∷ []

abbrev pub request_bytes : Block → Bytes
request_bytes b =
    0 ∷ 0 ∷ 0 ∷ 13 ∷ 6 ∷ (big_endian b.piece_index ++ (big_endian b.offset ++ big_endian b.size))

pub data IsMessage (metadata : TorrentMetadata) (m : Bytes) : Type 0 where
  hello : (info_hash peer_id : Bytes) → m ≡ handshake_bytes info_hash peer_id → IsMessage metadata m
  interest : m ≡ interested_bytes → IsMessage metadata m
  asks : (b : Block) → IsAsked metadata b → m ≡ request_bytes b → IsMessage metadata m

-- What the client writes are these bytes.
pub request_message-bytes : (b : Block) → request_message b ≡ request_bytes b
unfolding request_message write_u32 write_u8
request_message-bytes b = refl

pub interested_message :
    (write_u8 (write_u32 empty_writer 1) (msg_code interested)).bytes ≡ interested_bytes
unfolding write_u32 write_u8
interested_message = refl

pub serialize_handshake-bytes :
    (info_hash peer_id : Bytes) {m : Bytes}
    → serialize_handshake info_hash peer_id ≡ ok m
    → m ≡ handshake_bytes info_hash peer_id
unfolding serialize_handshake
serialize_handshake-bytes info_hash peer_id {m} e = elim (Bool-cases (ltb (length info_hash) 20)) [
  | inl short ↦ absurd (let h = rw short at e in cc)
  | inr enough ↦ elim (Bool-cases (ltb (length peer_id) 20)) [
    | inl short ↦ absurd (let h = rw (enough, short) at e in cc)
    | inr enough' ↦ let h = rw (enough, enough') at e in cc
  ]
]

pub All-snoc {ℓ} :
    {A : Type ℓ} (P : A → Type 0) (xs : List A) {x : A} → All P xs → P x → All P (xs ++ x ∷ [])
All-snoc P [] h p = (p, tt)
All-snoc P (y ∷ ys) h p = (h.0, All-snoc P ys h.1 p)

abbrev pub Found : Option Block × PieceManager → Type 0
Found (none, q) = Unit
Found (some b, q) = IsAsked q.metadata b

Gap-IsAsked :
    (metadata : TorrentMetadata) (pending : List Block) (index len offset : ℕ) (b : Block)
    → get_piece_length metadata index ≡ ok len
    → Gap pending index len offset (some b)
    → IsAsked metadata b
Gap-IsAsked metadata pending index len offset b sized g = rw g.from_piece (record {
  piece_len = len;
  sized = sized;
  some_bytes = omega (arith, g.inside);
  few_bytes = omega arith;
  inside = omega (arith, g.inside);
})

next_block-Found :
    (pm : PieceManager) (index : ℕ) → Returns Found (get_next_block_for_piece pm index)
unfolding get_next_block_for_piece
next_block-Found pm index = elim (Outcome-cases (get_piece_length pm.metadata index)) [
  | inr (inl (e, h)) ↦ rw h tt
  | inr (inr (inl h)) ↦ rw h tt
  | inr (inr (inr h)) ↦ rw h tt
  | inl (len, sized) ↦ rw sized (
      Returns-bind (λ _. Unit {0}) Found _ _
        (Returns-any (or_fault (get_elem? pm.next_offsets index)))
        λ offset _.
          Returns-bind (Gap pm.pending_blocks index len offset) Found _ _ (gap_found len offset)
            (found len offset sized))
]
  where
    gap_found :
        (len offset : ℕ)
        → Returns
            (Gap pm.pending_blocks index len offset)
            (find_gap (suc len) pm.pending_blocks index len offset)
    gap_found len offset =
        let (g, e, p) = find_gap_lem (suc len) pm.pending_blocks index len offset (omega arith) in
        rw (e, Returns) p

    found :
        (len offset : ℕ)
        → get_piece_length pm.metadata index ≡ ok len
        → (gap : Option Block) → Gap pm.pending_blocks index len offset gap
        → Returns Found (elim gap [
          | none ↦ ok (none, pm)
          | some block ↦ ok (
            some block,
            record pm {
              pending_blocks = insert block pm.pending_blocks;
              next_offsets = set pm.next_offsets index (block.offset + block.size);
            },
          )
        ])
    found len offset sized none g = tt
    found len offset sized (some b) g =
        Gap-IsAsked pm.metadata pm.pending_blocks index len offset b sized g

-- A result that grants nothing leaves it to what follows.
Returns-rest :
    (r : Option Block × PieceManager) (rest : PieceManager → Outcome (Option Block × PieceManager))
    → Found r
    → ((q : PieceManager) → Returns Found (rest q))
    → Returns Found (elim r.0 [ none ↦ rest r.1 | some block ↦ ok (some block, r.1) ])
Returns-rest (none, q) rest f h = h q
Returns-rest (some b, q) rest f h = f

scan_bits-Found : (b i needed : ℕ) (pm : PieceManager) → Returns Found (scan_bits b i needed pm)
unfolding scan_bits
scan_bits-Found zero i needed pm = tt
scan_bits-Found (suc b) i needed pm = elim (Bool-cases (bit b needed == 1)) [
  | inl e ↦ rw e (
      Returns-bind Found Found _ _ (next_block-Found pm _)
        λ r f. Returns-rest r (scan_bits b i needed) f (scan_bits-Found b i needed))
  | inr e ↦ rw e (scan_bits-Found b i needed pm)
]

scan_byte-Found :
    (i needed : ℕ) (pm : PieceManager)
    → Returns Found (if ltb 0 needed then scan_bits 8 i needed pm else ok (none, pm))
scan_byte-Found i needed pm = elim (Bool-cases (ltb 0 needed)) [
  | inl e ↦ rw e (scan_bits-Found 8 i needed pm)
  | inr e ↦ rw e tt
]

scan_bytes-Found :
    (rounds i : ℕ) (peer : Bytes) (pm : PieceManager) → Returns Found (scan_bytes rounds i peer pm)
unfolding scan_bytes
scan_bytes-Found zero i peer pm = tt
scan_bytes-Found (suc rounds) i peer pm =
    Returns-bind (λ _. Unit {0}) Found _ _ (Returns-any (or_fault (get_elem? pm.bitfield i)))
      λ my _.
        Returns-bind (λ _. Unit {0}) Found _ _ (Returns-any (or_fault (get_elem? peer i)))
          λ theirs _.
            Returns-bind Found Found _ _ (scan_byte-Found i (bit_and theirs (255 - my)) pm) λ r f.
              Returns-rest r (scan_bytes rounds (i + 1) peer) f
                (scan_bytes-Found rounds (i + 1) peer)

-- Whatever bitfield the peer has sent, a block that `requestBlock` gives is one of its piece.
pub request_block-Found : (pm : PieceManager) (peer : Bytes) → Returns Found (request_block pm peer)
unfolding request_block
request_block-Found pm peer = scan_bytes-Found (length pm.bitfield) 0 peer pm
