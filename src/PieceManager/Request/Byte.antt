-- ===== src/PieceManager/Request/Byte.antt =====
-- The inner loop of `requestBlock`, over the bits of one byte.
use bit_torrent_client.Prelude.{
  ℕ, zero, suc, ◌+◌, ◌-◌, ◌*◌, ◌/◌, ◌%◌, ◌^◌, ◌≤◌, ◌<◌, ◌≡◌, ◌≢◌, refl, sym, ap, min, Bool, true,
  false, Option, none, some, arith, Bytes, length, get_elem?, ltb, ◌==◌, ok, Bool-cases, inl, inr,
  ==_iff, ne→==, bit_and, get_elem?-exists, get_elem?-lt, ltb→ge, ltb→lt, if◌then◌else◌, ◌⊎◌, subst,
}
use bit_torrent_client.Prelude.Bits.{bit, bit-bit_and, bit-complement, bit-le, bit-zero}
use bit_torrent_client.PieceManager.{PieceManager, num_pieces, get_next_block_for_piece, scan_bits}
use bit_torrent_client.PieceManager.BlockSet.{Block}
use bit_torrent_client.PieceManager.Invariant.{IsValid}
use bit_torrent_client.PieceManager.Request.{IsGrant, AllAsked, NextBlock, get_next_block_lem}

-- A peer's bitfield of the right size whose spare bits are clear.
pub record IsPeerField (n : ℕ) (peer : Bytes) : Type 0 where
  pub width : length peer ≡ (n + 7) / 8
  pub spare : (i b : ℕ) → n ≤ i → get_elem? peer (i / 8) ≡ some b → bit (7 - i % 8) b ≡ 0

-- The peer has a piece that the client lacks.
pub record IsOffered (pm : PieceManager) (peer : Bytes) (i : ℕ) : Type 0 where
  pub lacking : get_elem? pm.finished i ≡ some false
  pub byte : ℕ
  pub at : get_elem? peer (i / 8) ≡ some byte
  pub set_bit : bit (7 - i % 8) byte ≡ 1

-- `p` holds of the pieces of which nothing was granted.
abbrev pub Requested : PieceManager → Bytes → (ℕ → Type 0) → Option Block × PieceManager → Type 0
Requested pm peer P (none, q) = (q ≡ pm) × ((i : ℕ) → P i → IsOffered pm peer i → AllAsked pm i)
Requested pm peer P (some block, q) =
    IsOffered pm peer block.piece_index × IsGrant pm block.piece_index block q

pub Requested-extend :
    (pm : PieceManager) (peer : Bytes) (P Q : ℕ → Type 0) (r : Option Block × PieceManager)
    → ((i : ℕ) → Q i → IsOffered pm peer i → P i ⊎ AllAsked pm i)
    → Requested pm peer P r
    → Requested pm peer Q r
Requested-extend pm peer P Q (none, q) h (e, all) = (e, λ i p o. known i o (h i p o))
  where
    known : (i : ℕ) → IsOffered pm peer i → P i ⊎ AllAsked pm i → AllAsked pm i
    known i o (inl p) = all i p o
    known i o (inr a) = a
Requested-extend pm peer P Q (some block, q) h r = r

pub offered-lt :
    (pm : PieceManager) (peer : Bytes) (i : ℕ)
    → IsValid pm
    → IsOffered pm peer i
    → i < num_pieces pm
offered-lt pm peer i v o = omega (arith, get_elem?-lt pm.finished i o.lacking, v.marks.flags)

module _ (pm : PieceManager) (peer : Bytes) (v : IsValid pm)
    (field : IsPeerField (num_pieces pm) peer) (i my theirs : ℕ)
    (mine : get_elem? pm.bitfield i ≡ some my) (other : get_elem? peer i ≡ some theirs) where
  abbrev needed : ℕ
  needed = bit_and theirs (255 - my)

  abbrev piece_of : ℕ → ℕ
  piece_of b = i * 8 + (7 - b)

  my-lt : my < 256
  my-lt = v.marks.bytes i my mine

  in_range : i < (num_pieces pm + 7) / 8
  in_range = omega (arith, get_elem?-lt pm.bitfield i mine, v.marks.width)

  no_wrap : (b : ℕ) → piece_of b % 2 ^ 32 ≡ piece_of b
  no_wrap b = omega (arith, in_range, v.supported.few)

  -- A bit of the difference is a bit that the peer has and the client lacks.
  needed_iff : (b : ℕ) → b < 8 → bit b needed ≡ min (bit b theirs) (1 - bit b my)
  needed_iff b h = rw (bit-bit_and b theirs (255 - my), bit-complement b my h my-lt)

  byte_of : (b : ℕ) → b < 8 → piece_of b / 8 ≡ i
  byte_of b h = omega arith

  bit_of : (b : ℕ) → b < 8 → 7 - piece_of b % 8 ≡ b
  bit_of b h = omega arith

  their_byte : (b : ℕ) → b < 8 → get_elem? peer (piece_of b / 8) ≡ some theirs
  their_byte b h = rw (byte_of b h) other

  my_byte : (b : ℕ) → b < 8 → get_elem? pm.bitfield (piece_of b / 8) ≡ some my
  my_byte b h = rw (byte_of b h) mine

  flag_of :
      (b : ℕ) (f : Bool)
      → b < 8
      → get_elem? pm.finished (piece_of b) ≡ some f
      → bit b my ≡ (if f then 1 else 0)
  flag_of b f h e = rw (bit_of b h) at (v.marks.agree (piece_of b) f my e (my_byte b h))

  spare_of : (b : ℕ) → b < 8 → num_pieces pm ≤ piece_of b → bit b theirs ≡ 0
  spare_of b h le = rw (bit_of b h) at (field.spare (piece_of b) theirs le (their_byte b h))

  real_piece : (b : ℕ) → b < 8 → bit b theirs ≡ 1 → piece_of b < num_pieces pm
  real_piece b h one = elim (Bool-cases (ltb (piece_of b) (num_pieces pm))) [
    | inl lt ↦ ltb→lt _ _ lt
    | inr ge ↦ absurd (omega (arith, spare_of b h (ltb→ge _ _ ge)))
  ]

  lacking_flag :
      (b : ℕ) (f : Bool)
      → b < 8
      → bit b my ≡ 0
      → get_elem? pm.finished (piece_of b) ≡ some f
      → get_elem? pm.finished (piece_of b) ≡ some false
  lacking_flag b true h clear e = absurd (omega (arith, flag_of b true h e))
  lacking_flag b false h clear e = e

  offered : (b : ℕ) → b < 8 → bit b needed ≡ 1 → IsOffered pm peer (piece_of b)
  offered b h one =
      let theirs_set : bit b theirs ≡ 1 = omega (arith, needed_iff b h, bit-le b theirs) in
      let mine_clear : bit b my ≡ 0 = omega (arith, needed_iff b h, bit-le b my) in
      let (f, e) =
        get_elem?-exists pm.finished (piece_of b)
          (omega (arith, real_piece b h theirs_set, v.marks.flags)) in
      record {
        lacking = lacking_flag b f h mine_clear e;
        byte = theirs;
        at = their_byte b h;
        set_bit = rw (bit_of b h) theirs_set;
      }

  needed-offered : (b : ℕ) → b < 8 → IsOffered pm peer (piece_of b) → bit b needed ≡ 1
  needed-offered b h o =
      let same : o.byte ≡ theirs = cc (o.at, their_byte b h) in
      let theirs_set : bit b theirs ≡ 1 = rw (bit_of b h, same) at o.set_bit in
      omega (arith, needed_iff b h, flag_of b false h o.lacking)

  -- The pieces of the bits below `b`.
  abbrev BitsBelow : ℕ → ℕ → Type 0
  BitsBelow b j = (j / 8 ≡ i) × (7 - j % 8 < b)

  Scanned : ℕ → Type 0
  Scanned b =
      (r : Option Block × PieceManager) × (scan_bits b i needed pm ≡ ok r)
      × Requested pm peer (BitsBelow b) r

  -- A piece of the bits up to `b` is one of those below, or that of `b`.
  last_bit : (b : ℕ) → b < 8 → (j : ℕ) → BitsBelow (suc b) j → BitsBelow b j ⊎ (j ≡ piece_of b)
  last_bit b h j p = elim (Bool-cases (ltb (7 - j % 8) b)) [
    | inl lt ↦ inl (p.0, ltb→lt _ _ lt)
    | inr ge ↦ inr (omega (arith, p, ltb→ge _ _ ge))
  ]

  split :
      (b : ℕ)
      → b < 8
      → AllAsked pm (piece_of b)
      → (j : ℕ) → BitsBelow (suc b) j
      → IsOffered pm peer j
      → BitsBelow b j ⊎ AllAsked pm j
  split b h all j p o = elim (last_bit b h j p) [
    | inl less ↦ inl less
    | inr e ↦ inr (subst (AllAsked pm) (sym e) all)
  ]

  nothing_needed : (j : ℕ) → needed ≤ 0 → j / 8 ≡ i → IsOffered pm peer j → ⊥
  nothing_needed j none_needed p o =
      let e : j ≡ piece_of (7 - j % 8) = omega arith in
      let one = needed-offered (7 - j % 8) (omega arith) (subst (IsOffered pm peer) e o) in
      let zero_byte : needed ≡ 0 = omega arith in
      absurd (omega (arith, bit-zero (7 - j % 8), ap (bit (7 - j % 8)) zero_byte))

  -- One bit, by whether it is needed, and by what the search in its piece gives.
  scan_bit :
      (b : ℕ)
      → b < 8
      → Scanned b
      → bit b needed ≡ 1
      → (r : Option Block × PieceManager) → get_next_block_for_piece pm (piece_of b) ≡ ok r
      → NextBlock pm (piece_of b) r
      → Scanned (suc b)
  unfolding scan_bits Scanned
  scan_bit b h (s, es, below) one (none, q) e (same, all) = (
    s,
    rw (one, no_wrap b, e, same) es,
    Requested-extend pm peer (BitsBelow b) (BitsBelow (suc b)) s (split b h all) below,
  )
  scan_bit b h below one (some block, q) e g =
      let index : block.piece_index ≡ piece_of b =
        ap (λ (x : Block). x.piece_index) g.gap.from_piece in
      (
        (some block, q),
        rw (one, no_wrap b, e),
        subst (λ j. IsOffered pm peer j × IsGrant pm j block q) (sym index) (offered b h one, g),
      )

  -- A bit that is not needed is no piece on offer.
  skip_bit : (b : ℕ) → b < 8 → Scanned b → bit b needed ≢ 1 → Scanned (suc b)
  unfolding scan_bits Scanned
  skip_bit b h (s, es, below) other_bit = (
    s,
    rw (ne→== (bit b needed) 1 other_bit) es,
    Requested-extend pm peer (BitsBelow b) (BitsBelow (suc b)) s
        (λ j p o. elim (last_bit b h j p) [
          | inl less ↦ inl less
          | inr e ↦ absurd (other_bit (needed-offered b h (subst (IsOffered pm peer) e o)))
        ])
        below,
  )

  scan_bits_lem : (b : ℕ) → b ≤ 8 → Scanned b
  unfolding scan_bits Scanned
  scan_bits_lem zero h = ((none, pm), refl, (refl, λ j below o. absurd (omega arith)))
  scan_bits_lem (suc b) h =
      let below = scan_bits_lem b (omega arith) in
      elim (Bool-cases (bit b needed == 1)) [
        | inl e ↦
            let one = (==_iff (bit b needed) 1).0 e in
            let lt = offered-lt pm peer (piece_of b) v (offered b (omega arith) one) in
            let (r, er, next) = get_next_block_lem pm (piece_of b) v lt in
            scan_bit b (omega arith) below one r er next
        | inr e ↦ skip_bit b (omega arith) below (λ one. ground arith)
      ]

  -- The whole byte, also where it has nothing to offer.
  pub scan_byte :
      (r : Option Block × PieceManager) × ((if ltb 0 needed
          then scan_bits 8 i needed pm
          else ok (none, pm))
        ≡ ok r)
      × Requested pm peer (λ j. j / 8 ≡ i) r
  unfolding Scanned
  scan_byte = elim (Bool-cases (ltb 0 needed)) [
    | inl e ↦
        let (r, er, p) = scan_bits_lem 8 (omega arith) in
        (
          r,
          rw e er,
          Requested-extend pm peer (BitsBelow 8) (λ j. j / 8 ≡ i) r (λ j p o. inl (p, omega arith))
              p,
        )
    | inr e ↦ ((none, pm), rw e, (refl, λ j p o. absurd (nothing_needed j (ltb→ge _ _ e) p o)))
  ]
