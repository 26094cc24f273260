-- ===== src/Bencode/Parse/Dispatch.antt =====
-- The dispatch of `detail::parse` on the first character, inside the depth limit.
use bit_torrent_client.Prelude.{
  ℕ, zero, suc, ◌+◌, ◌≤◌, ◌≡◌, refl, [], ◌∷◌, true, false, arith, Bytes, drop, ◌==◌, ok, ◌>>=◌,
  le→leb, not,
}
use bit_torrent_client.Bencode.{str}
use bit_torrent_client.Bencode.Number.{is_digit}
use bit_torrent_client.Bencode.Parse.{
  parse_value, parse_int, parse_string, parse_list, parse_dict, expect_char, more_items, is_empty,
}
use bit_torrent_client.Bencode.Parse.Position.{here}

drop-not_empty :
    (input : Bytes) (p c : ℕ) (s : Bytes) → drop p input ≡ c ∷ s → is_empty input ≡ false
drop-not_empty [] zero c s at = absurd (cc)
drop-not_empty [] (suc p) c s at = absurd (cc)
drop-not_empty (x ∷ xs) p c s at = refl

pub digit_dispatch : (c : ℕ) → is_digit c ≡ true → ((c == b'i') ≡ false) × ((c == b'e') ≡ false)
digit_dispatch c h = ground arith

module _ (input : Bytes) (p c : ℕ) (s : Bytes) (at : drop p input ≡ c ∷ s) where
  pub expect_char-here : (p' : ℕ) → p' ≡ p + 1 → expect_char input p c ≡ ok p'
  unfolding expect_char
  expect_char-here p' e = ground (arith, here input p c s at)

  pub more_items-here : more_items input p ≡ not (c == b'e')
  unfolding more_items
  more_items-here = rw (here input p c s at, more_items)

  module _ (f depth : ℕ) (shallow : depth ≤ 1000) where
    pub parse_value-int : c ≡ b'i' → parse_value (suc f) input p depth ≡ parse_int input p
    unfolding parse_value
    parse_value-int e =
        rw (drop-not_empty input p c s at, le→leb depth 1000 shallow, here input p c s at, e)

    pub parse_value-str :
        is_digit c ≡ true
        → parse_value (suc f) input p depth ≡ (parse_string input p >>= λ (t, q). ok (str t, q))
    unfolding parse_value
    parse_value-str d = rw (
      drop-not_empty input p c s at,
      le→leb depth 1000 shallow,
      here input p c s at,
      (digit_dispatch c d).0,
      d,
    )

    pub parse_value-list : c ≡ b'l' → parse_value (suc f) input p depth ≡ parse_list f input p depth
    unfolding parse_value
    parse_value-list e =
        rw (drop-not_empty input p c s at, le→leb depth 1000 shallow, here input p c s at, e)

    pub parse_value-dict : c ≡ b'd' → parse_value (suc f) input p depth ≡ parse_dict f input p depth
    unfolding parse_value
    parse_value-dict e =
        rw (drop-not_empty input p c s at, le→leb depth 1000 shallow, here input p c s at, e)
