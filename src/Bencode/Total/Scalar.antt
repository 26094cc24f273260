-- ===== src/Bencode/Total/Scalar.antt =====
-- The parts of the decoder that read no nested value always settle, and move the position forward.
use bit_torrent_client.Prelude.{
  ℕ, ◌+◌, ◌-◌, ◌^◌, ◌≤◌, ◌<◌, ◌≡◌, [], ◌∷◌, arith, Bytes, length, drop, get_elem?, some,
  Option-cases, inl, inr, Outcome, ok, Settles, Settles-bind, Settles-eq, get_elem?-lt, length-drop,
}
use bit_torrent_client.Bencode.Number.{stoul, stoll}
use bit_torrent_client.Bencode.Parse.{
  index_of, find_from, expect_char, parse_int, read_length, parse_string, substr,
}

-- The call settles, and if it succeeds the position has moved forward, within the input.
abbrev pub Advances {ℓ} : {A : Type ℓ} → Bytes → ℕ → Outcome (A × ℕ) → Type 0
Advances input p m = Settles (λ r. (p < r.1) × (r.1 ≤ length input)) m

-- No length prefix, wherever it is read, makes the sum of the position and the length wrap around.
abbrev pub LengthsFit : Bytes → Type 0
LengthsFit input = (p len start : ℕ) → read_length input p ≡ ok (len, start) → start + len < 2 ^ 64

index_of-lt : (c : ℕ) (s : Bytes) (i : ℕ) → index_of c s ≡ some i → i < length s
unfolding index_of
index_of-lt c [] i h = absurd (cc)
index_of-lt c (x ∷ s) i h = elim (Option-cases (index_of c s)) [
  | inl e ↦ ground arith
  | inr (j, e) ↦ ground (arith, index_of-lt c s j e)
]

pub find_from_bounds :
    (input : Bytes) (c p i : ℕ) → find_from input c p ≡ some i → (p ≤ i) × (i < length input)
unfolding find_from
find_from_bounds input c p i h = elim (Option-cases (index_of c (drop p input))) [
  | inl e ↦ ground arith
  | inr (j, e) ↦ ground (arith, index_of-lt c (drop p input) j e, length-drop p input)
]

stoul-Settles : (s : Bytes) → Settles (λ n. n < 2 ^ 64) (stoul s)
unfolding stoul
stoul-Settles s = ground arith

stoll-Settles : (s : Bytes) → Settles (λ n. Unit {0}) (stoll s)
unfolding stoll
stoll-Settles s = ground arith

pub expect_char-Advances :
    (input : Bytes) (p c : ℕ)
    → Settles (λ q. (q ≡ p + 1) × (q ≤ length input)) (expect_char input p c)
unfolding expect_char
expect_char-Advances input p c = elim (Option-cases (get_elem? input p)) [
  | inl e ↦ ground arith
  | inr (x, e) ↦ ground (arith, get_elem?-lt input p e)
]

pub parse_int-Advances : (input : Bytes) (p : ℕ) → Advances input p (parse_int input p)
unfolding parse_int
parse_int-Advances input p = elim (Option-cases (find_from input b'e' (p + 1))) [
  | inl e ↦ ground arith
  | inr (i, e) ↦ ground (
    arith,
    find_from_bounds input b'e' (p + 1) i e,
    stoll-Settles (substr input (p + 1) (i - (p + 1))),
  )
]

pub read_length-Advances :
    (input : Bytes) (p : ℕ)
    → Settles (λ (len, start). (p < start) × (start ≤ length input)) (read_length input p)
unfolding read_length
read_length-Advances input p = elim (Option-cases (find_from input b':' p)) [
  | inl e ↦ ground arith
  | inr (i, e) ↦
      ground (arith, find_from_bounds input b':' p i e, stoul-Settles (substr input p (i - p)))
]

pub parse_string-Advances :
    (input : Bytes) (p : ℕ) → LengthsFit input → Advances input p (parse_string input p)
unfolding parse_string
parse_string-Advances input p fits =
    Settles-bind (λ r. ((p < r.1) × (r.1 ≤ length input)) × (read_length input p ≡ ok r)) _ _ _
      (Settles-eq (λ r. (p < r.1) × (r.1 ≤ length input)) _ (read_length-Advances input p))
      λ (len, start) h. ground (arith, fits p len start h.1)
