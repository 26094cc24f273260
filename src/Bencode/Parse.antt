-- ===== src/Bencode/Parse.antt =====
-- The decoder of src/core/bencode_parser.cpp. It keeps the whole input and a position, which a
-- length prefix that wraps around can also move back.
pub mod Position
pub mod Scalar
pub mod Dispatch
use bit_torrent_client.Prelude.{
  ℕ, zero, suc, ◌+◌, ◌-◌, ◌*◌, ◌%◌, ◌^◌, [], ◌∷◌, Bool, true, false, ◌&&◌, not, Option, none, some,
  Bytes, length, take, drop, get_elem?, leb, ◌==◌, if◌then◌else◌, Outcome, ok, throws, out_of_fuel,
  invalid_argument, runtime_error, or_fault, or_throw, guard, ◌>>=◌, ◌>>◌,
}
use bit_torrent_client.Bencode.{Value, Items, Fields, int, str, list, dict, nil, cons, end, emplace}
use bit_torrent_client.Bencode.Number.{is_digit, stoul, stoll}

abbrev pub max_recursion_depth : ℕ
max_recursion_depth = 1000

-- `data.find(c, pos)`.
unfoldable pub index_of : ℕ → Bytes → Option ℕ
index_of c [] = none
index_of c (x ∷ xs) =
    let rest = index_of c xs in
    if x == c then some 0 else elim rest [ none ↦ none | some i ↦ some (suc i) ]

unfoldable pub find_from : Bytes → ℕ → ℕ → Option ℕ
find_from input c pos = elim (index_of c (drop pos input)) [ none ↦ none | some i ↦ some (pos + i) ]

-- `data.substr(pos, len)`, cut off at the end of the data.
abbrev pub substr : Bytes → ℕ → ℕ → Bytes
substr input pos len = take len (drop pos input)

abbrev pub is_empty : Bytes → Bool
is_empty [] = true
is_empty (x ∷ xs) = false

abbrev pub all_digits : Bytes → Bool
all_digits [] = true
all_digits (c ∷ s) = is_digit c && all_digits s

abbrev pub no_leading_zero : Bytes → Bool
no_leading_zero (c ∷ d ∷ s) = not (c == b'0')
no_leading_zero _ = true

-- `_isValidBencodeInt`.
unfoldable pub is_valid_bencode_int : Bytes → Bool
is_valid_bencode_int [] = false
is_valid_bencode_int (c ∷ s) =
    if c == b'-'
    then elim s [
      | [] ↦ false
      | d ∷ s' ↦ if d == b'0' then false else no_leading_zero (d ∷ s') && all_digits (d ∷ s')
    ]
    else no_leading_zero (c ∷ s) && all_digits (c ∷ s)

unfoldable pub expect_char : Bytes → ℕ → ℕ → Outcome ℕ
expect_char input pos expected = elim (get_elem? input pos) [
  | none ↦ throws invalid_argument
  | some c ↦ if c == expected then ok (pos + 1) else throws invalid_argument
]

unfoldable pub parse_int : Bytes → ℕ → Outcome (Value × ℕ)
parse_int input pos = do
  c ← or_fault (get_elem? input pos)
  guard (c == b'i') invalid_argument
  stop ← or_throw (find_from input b'e' (pos + 1)) invalid_argument
  let num = substr input (pos + 1) (stop - (pos + 1))
  guard (is_valid_bencode_int num) invalid_argument
  n ← stoll num
  ok (int n, stop + 1)

-- The length, and the position behind the colon.
unfoldable pub read_length : Bytes → ℕ → Outcome (ℕ × ℕ)
read_length input pos = do
  colon ← or_throw (find_from input b':' pos) invalid_argument
  len ← stoul (substr input pos (colon - pos))
  ok (len, colon + 1)

-- Positions and lengths are `size_t`, so their sum wraps around.
unfoldable pub parse_string : Bytes → ℕ → Outcome (Bytes × ℕ)
parse_string input pos = do
  (len, start) ← read_length input pos
  let stop = (start + len) % 2 ^ 64
  guard (leb stop (length input)) invalid_argument
  ok (substr input start len, stop)

-- `pos < data.size() && data[pos] != END`.
unfoldable pub more_items : Bytes → ℕ → Bool
more_items input pos = elim (get_elem? input pos) [ none ↦ false | some c ↦ not (c == b'e') ]

-- A value of fuel for each call and for each round of the two loops.
unfoldable mutual
  pub parse_value : ℕ → Bytes → ℕ → ℕ → Outcome (Value × ℕ)
  parse_value zero input pos depth = out_of_fuel
  parse_value (suc f) input pos depth = do
    guard (not (is_empty input)) invalid_argument
    guard (leb depth max_recursion_depth) runtime_error
    c ← or_fault (get_elem? input pos)
    let as_list = parse_list f input pos depth
    let as_dict = parse_dict f input pos depth
    if c == b'i'
        then parse_int input pos
        else if is_digit c
        then (parse_string input pos >>= λ (s, p). ok (str s, p))
        else if c == b'l'
        then as_list
        else if c == b'd'
        then as_dict
        else throws invalid_argument

  pub parse_list : ℕ → Bytes → ℕ → ℕ → Outcome (Value × ℕ)
  parse_list zero input pos depth = out_of_fuel
  parse_list (suc f) input pos depth = do
    start ← expect_char input pos b'l'
    (xs, stop) ← list_loop f input start depth
    after ← expect_char input stop b'e'
    ok (list xs, after)

  pub list_loop : ℕ → Bytes → ℕ → ℕ → Outcome (Items × ℕ)
  list_loop zero input pos depth = out_of_fuel
  list_loop (suc f) input pos depth =
      let round : Outcome (Items × ℕ) = do
        (v, next) ← parse_value f input pos (depth + 1)
        (xs, stop) ← list_loop f input next depth
        ok (cons v xs, stop)
      in if more_items input pos then round else ok (nil, pos)

  pub parse_dict : ℕ → Bytes → ℕ → ℕ → Outcome (Value × ℕ)
  parse_dict zero input pos depth = out_of_fuel
  parse_dict (suc f) input pos depth = do
    start ← expect_char input pos b'd'
    (fs, stop) ← dict_loop f input start depth end
    after ← expect_char input stop b'e'
    ok (dict fs, after)

  pub dict_loop : ℕ → Bytes → ℕ → ℕ → Fields → Outcome (Fields × ℕ)
  dict_loop zero input pos depth acc = out_of_fuel
  dict_loop (suc f) input pos depth acc =
      let round : Outcome (Fields × ℕ) = do
        (key, middle) ← parse_string input pos
        (v, next) ← parse_value f input middle (depth + 1)
        dict_loop f input next depth (emplace key v acc)
      in if more_items input pos then round else ok (acc, pos)

-- The public entry. The fuel is that of 1002 loops, one in the other, each of which is at a
-- position of the input once: there are no more depths, and a loop that is at a position twice has
-- no end.
unfoldable pub parse : Bytes → Outcome Value
parse input = do (v, stop) ← parse_value (1002 * (length input + 4)) input 0 0; ok v
