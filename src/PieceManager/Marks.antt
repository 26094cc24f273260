-- ===== src/PieceManager/Marks.antt =====
-- The three ways in which the piece manager knows its finished pieces: a flag for each piece, a bit
-- for each piece, and their number.
use native.Mathlib.Decide.{ℕ_discrete}
use bit_torrent_client.Prelude.{
  ℕ, zero, suc, ◌+◌, ◌-◌, ◌/◌, ◌%◌, ◌^◌, ◌≤◌, ◌<◌, ◌≡◌, ◌≢◌, refl, sym, ◌∙◌, [], ◌∷◌, List, Bool,
  true, false, some, arith, Bytes, length, get_elem?, set, replicate, if◌then◌else◌, bit_or,
  length-set, get_elem?-set_self, get_elem?-set_ne, get_elem?-lt, length-replicate,
}
use bit_torrent_client.Prelude.Bits.{
  bit, bit-bit_or, bit-power, bit_or-lt, bit-le, bit-zero, power-lt,
}

abbrev pub count_true : List Bool → ℕ
count_true [] = 0
count_true (true ∷ xs) = suc (count_true xs)
count_true (false ∷ xs) = count_true xs

pub record Marks (n : ℕ) (finished : List Bool) (bitfield : Bytes) (count : ℕ) : Type 0 where
  pub flags : length finished ≡ n
  pub width : length bitfield ≡ (n + 7) / 8
  pub bytes : (i b : ℕ) → get_elem? bitfield i ≡ some b → b < 256
  pub agree :
      (i : ℕ) (f : Bool) (b : ℕ)
      → get_elem? finished i ≡ some f
      → get_elem? bitfield (i / 8) ≡ some b
      → bit (7 - i % 8) b ≡ (if f then 1 else 0)
  pub counted : count ≡ count_true finished

count_true-set :
    (xs : List Bool) (i : ℕ)
    → get_elem? xs i ≡ some false
    → count_true (set xs i true) ≡ count_true xs + 1
count_true-set [] i h = absurd (cc)
count_true-set (x ∷ xs) zero h = ground arith
count_true-set (true ∷ xs) (suc i) h = omega (arith, count_true-set xs i h)
count_true-set (false ∷ xs) (suc i) h = omega (arith, count_true-set xs i h)

pub count_true-le : (xs : List Bool) → count_true xs ≤ length xs
count_true-le [] = omega arith
count_true-le (true ∷ xs) = omega (arith, count_true-le xs)
count_true-le (false ∷ xs) = omega (arith, count_true-le xs)

pub count_true_full :
    (xs : List Bool)
    → length xs ≤ count_true xs
    → (i : ℕ) → i < length xs
    → get_elem? xs i ≡ some true
count_true_full [] h i lt = absurd (omega arith)
count_true_full (true ∷ xs) h zero lt = refl
count_true_full (true ∷ xs) h (suc i) lt = count_true_full xs (omega arith) i (omega arith)
count_true_full (false ∷ xs) h i lt = absurd (omega (arith, count_true-le xs))

pub count_true_all :
    (xs : List Bool)
    → ((i : ℕ) → i < length xs → get_elem? xs i ≡ some true)
    → length xs ≤ count_true xs
count_true_all [] h = omega arith
count_true_all (true ∷ xs) h = omega (arith, count_true_all xs (λ i lt. h (suc i) (omega arith)))
count_true_all (false ∷ xs) h = absurd (let bad = h 0 (omega arith) in cc)

count_true-replicate : (n : ℕ) → count_true (replicate n false) ≡ 0
count_true-replicate zero = refl
count_true-replicate (suc n) = count_true-replicate n

get_elem?-replicate {ℓ} :
    {A : Type ℓ} (n : ℕ) (a : A) (i : ℕ) {b : A} → get_elem? (replicate n a) i ≡ some b → b ≡ a
get_elem?-replicate zero a i h = absurd (cc)
get_elem?-replicate (suc n) a zero h = cc
get_elem?-replicate (suc n) a (suc i) h = get_elem?-replicate n a i h

pub init-Marks : (n : ℕ) → Marks n (replicate n false) (replicate ((n + 7) / 8) 0) 0
init-Marks n = record {
  flags = length-replicate n false;
  width = length-replicate ((n + 7) / 8) 0;
  bytes = λ i b h. let e = get_elem?-replicate ((n + 7) / 8) 0 i h in omega arith;
  agree = λ i f b hf hb.
      let e = get_elem?-replicate n false i hf in
      let e' = get_elem?-replicate ((n + 7) / 8) 0 (i / 8) hb in rw (e, e') (bit-zero (7 - i % 8));
  counted = sym (count_true-replicate n);
}

-- A bit that is set, and the others of its byte.
set_bit_self : (i b : ℕ) → bit (7 - i % 8) (bit_or b (2 ^ (7 - i % 8))) ≡ 1
set_bit_self i b =
    let k = 7 - i % 8 in
    ground (arith, bit-bit_or k b (2 ^ k), bit-power k k (omega arith) (omega arith), bit-le k b)

set_bit_other :
    (i j b : ℕ)
    → i ≢ j
    → i / 8 ≡ j / 8
    → bit (7 - j % 8) (bit_or b (2 ^ (7 - i % 8))) ≡ bit (7 - j % 8) b
set_bit_other i j b h e =
    let k = 7 - i % 8 in
    let l = 7 - j % 8 in
    let apart : k ≢ l = omega arith in
    ground (arith, bit-bit_or l b (2 ^ k), bit-power k l (omega arith) (omega arith))

module _ {n : ℕ} {finished : List Bool} {bitfield : Bytes} {count : ℕ}
    (m : Marks n finished bitfield count) (idx byte : ℕ)
    (open_piece : get_elem? finished idx ≡ some false)
    (at : get_elem? bitfield (idx / 8) ≡ some byte) where
  abbrev new_byte : ℕ
  new_byte = bit_or byte (2 ^ (7 - idx % 8))

  new_byte-lt : new_byte < 256
  new_byte-lt =
      bit_or-lt byte (2 ^ (7 - idx % 8)) (m.bytes (idx / 8) byte at)
        (power-lt (7 - idx % 8) (omega arith))

  written : (b : ℕ) → get_elem? (set bitfield (idx / 8) new_byte) (idx / 8) ≡ some b → b ≡ new_byte
  written b h =
      cc (get_elem?-set_self bitfield (idx / 8) new_byte (get_elem?-lt bitfield (idx / 8) at))

  flagged : (f : Bool) → get_elem? (set finished idx true) idx ≡ some f → f ≡ true
  flagged f h = cc (get_elem?-set_self finished idx true (get_elem?-lt finished idx open_piece))

  mark_bytes : (i b : ℕ) → get_elem? (set bitfield (idx / 8) new_byte) i ≡ some b → b < 256
  mark_bytes i b h = elim (ℕ_discrete (idx / 8) i) [
    | yes e ↦ rw (written b (rw (← e) at h)) new_byte-lt
    | no e ↦ m.bytes i b (sym (get_elem?-set_ne bitfield (idx / 8) i new_byte e) ∙ h)
  ]

  mark_agree :
      (i : ℕ) (f : Bool) (b : ℕ)
      → get_elem? (set finished idx true) i ≡ some f
      → get_elem? (set bitfield (idx / 8) new_byte) (i / 8) ≡ some b
      → bit (7 - i % 8) b ≡ (if f then 1 else 0)
  mark_agree i f b hf hb = elim (ℕ_discrete idx i) [
    | yes e ↦
        rw (flagged f (rw (← e) at hf), written b (rw (← e) at hb), ← e) (set_bit_self idx byte)
    | no e ↦
        let hf' = sym (get_elem?-set_ne finished idx i true e) ∙ hf in
        elim (ℕ_discrete (idx / 8) (i / 8)) [
          | yes e8 ↦
              rw (written b (rw (← e8) at hb))
                (set_bit_other idx i byte e e8 ∙ m.agree i f byte hf' (rw e8 at at))
          | no e8 ↦
              m.agree i f b hf' (sym (get_elem?-set_ne bitfield (idx / 8) (i / 8) new_byte e8) ∙ hb)
        ]
  ]

  -- Setting the flag and the bit of a piece, and counting it, keeps the three in step.
  pub mark-Marks : Marks n (set finished idx true) (set bitfield (idx / 8) new_byte) (count + 1)
  mark-Marks = record {
    flags = length-set finished idx true ∙ m.flags;
    width = length-set bitfield (idx / 8) new_byte ∙ m.width;
    bytes = mark_bytes;
    agree = mark_agree;
    counted = omega (arith, m.counted, count_true-set finished idx open_piece);
  }
