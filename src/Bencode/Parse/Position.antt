-- ===== src/Bencode/Parse/Position.antt =====
-- What the decoder reads at a position, told by the input from there on.
use bit_torrent_client.Prelude.{
  ℕ, suc, ◌+◌, ◌≡◌, ◌≢◌, refl, sym, ◌∙◌, [], ◌∷◌, ◌++◌, true, false, arith, Bytes, length, drop,
  get_elem?, some, head-drop, drop-append, drop-drop, take-append, length-drop, ne→==, ap,
}
use bit_torrent_client.Bencode.Number.{is_digit}
use bit_torrent_client.Bencode.Parse.{index_of, find_from, substr, all_digits}

module _ (input : Bytes) (pos : ℕ) where
  pub here : (c : ℕ) (s : Bytes) → drop pos input ≡ c ∷ s → get_elem? input pos ≡ some c
  here c s at = sym (head-drop input pos) ∙ ap (λ (t : Bytes). get_elem? t 0) at

  pub further :
      (xs ys : Bytes) (next : ℕ)
      → drop pos input ≡ xs ++ ys
      → next ≡ pos + length xs
      → drop next input ≡ ys
  further xs ys next at e =
      sym (drop-drop pos (length xs) next input e)
      ∙ ap (drop (length xs)) at
      ∙ drop-append xs ys (length xs) refl

  pub substr-here : (xs ys : Bytes) → drop pos input ≡ xs ++ ys → substr input pos (length xs) ≡ xs
  substr-here xs ys at = rw at (take-append xs ys (length xs) refl)

  pub room : (c : ℕ) (s : Bytes) → drop pos input ≡ c ∷ s → pos + suc (length s) ≡ length input
  room c s at = omega (arith, length-drop pos input, ap length at)

-- No character of the text is `c`.
abbrev pub Lacks : ℕ → Bytes → Type 0
Lacks c [] = Unit {0}
Lacks c (x ∷ xs) = (x ≢ c) × Lacks c xs

pub index_of-append :
    (c : ℕ) (t rest : Bytes) → Lacks c t → index_of c (t ++ c ∷ rest) ≡ some (length t)
unfolding index_of
index_of-append c [] rest h = ground arith
index_of-append c (x ∷ xs) rest h = rw (ne→== x c h.0, index_of-append c xs rest h.1)

pub find_from-here :
    (input : Bytes) (pos c : ℕ) (t rest : Bytes)
    → drop pos input ≡ t ++ c ∷ rest
    → Lacks c t
    → find_from input c pos ≡ some (pos + length t)
unfolding find_from
find_from-here input pos c t rest at h =
    let found = ap (index_of c) at ∙ index_of-append c t rest h in rw (found, find_from)

pub digits-Lacks : (c : ℕ) (t : Bytes) → is_digit c ≡ false → all_digits t ≡ true → Lacks c t
digits-Lacks c [] h d = tt
digits-Lacks c (x ∷ xs) h d = ground (arith, digits-Lacks c xs h)
