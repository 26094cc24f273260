-- ===== src/Bencode/Short.antt =====
-- No string that comes out of decoding is longer than the input.
use bit_torrent_client.Prelude.{
  ℕ, zero, suc, ◌+◌, ◌*◌, ◌≤◌, ◌≡◌, ◌||◌, some, arith, Bytes, length, drop, get_elem?, Option-cases,
  Bool-cases, inl, inr, length-take, length-drop, Returns, Returns-bind, Returns-any, subst,
}
use bit_torrent_client.Bencode.{
  Value, Items, Fields, int, str, list, dict, nil, cons, end, field, bytes_lt, emplace, find,
  extract_str, extract_dict,
}
use bit_torrent_client.Bencode.Parse.{
  parse, parse_value, parse_list, parse_dict, list_loop, dict_loop, more_items, expect_char,
  parse_int, parse_string, read_length, substr,
}

unfoldable mutual
  pub IsShort : ℕ → Value → Type 0
  IsShort n (int z) = Unit {0}
  IsShort n (str s) = length s ≤ n
  IsShort n (list xs) = ItemsShort n xs
  IsShort n (dict fs) = FieldsShort n fs

  pub ItemsShort : ℕ → Items → Type 0
  ItemsShort n nil = Unit {0}
  ItemsShort n (cons v xs) = IsShort n v × ItemsShort n xs

  pub FieldsShort : ℕ → Fields → Type 0
  FieldsShort n end = Unit {0}
  FieldsShort n (field k v fs) = IsShort n v × FieldsShort n fs

emplace-FieldsShort :
    (n : ℕ) (k : Bytes) (v : Value) (fs : Fields)
    → IsShort n v
    → FieldsShort n fs
    → FieldsShort n (emplace k v fs)
unfolding emplace FieldsShort
emplace-FieldsShort n k v end h hs = (h, tt)
emplace-FieldsShort n k v (field i w fs) h hs = ground (arith, emplace-FieldsShort n k v fs h hs.1)

find-IsShort :
    (n : ℕ) (k : Bytes) (fs : Fields) {v : Value}
    → FieldsShort n fs
    → find k fs ≡ some v
    → IsShort n v
unfolding find FieldsShort
find-IsShort n k end h e = absurd (cc)
find-IsShort n k (field j w fs) {v} h e = elim (Bool-cases (bytes_lt k j || bytes_lt j k)) [
  | inl other ↦ find-IsShort n k fs h.1 (rw (other, find) at e)
  | inr same ↦
      let w_is : some w ≡ some v = rw (same, find) at e in
      let same_v : w ≡ v = cc in subst (λ x. IsShort n x) same_v h.0
]

pub extract_str-IsShort :
    (n : ℕ) (fs : Fields) (key : Bytes)
    → FieldsShort n fs
    → Returns (λ s. length s ≤ n) (extract_str fs key)
unfolding extract_str IsShort
extract_str-IsShort n fs key h = elim (Option-cases (find key fs)) [
  | inl e ↦ rw (e, Returns) tt
  | inr (int z, e) ↦ rw (e, Returns) tt
  | inr (str s, e) ↦ rw (e, Returns) (find-IsShort n key fs h e)
  | inr (list xs, e) ↦ rw (e, Returns) tt
  | inr (dict gs, e) ↦ rw (e, Returns) tt
]

pub extract_dict-FieldsShort :
    (n : ℕ) (fs : Fields) (key : Bytes)
    → FieldsShort n fs
    → Returns (FieldsShort n) (extract_dict fs key)
unfolding extract_dict IsShort
extract_dict-FieldsShort n fs key h = elim (Option-cases (find key fs)) [
  | inl e ↦ rw (e, Returns) tt
  | inr (int z, e) ↦ rw (e, Returns) tt
  | inr (str s, e) ↦ rw (e, Returns) tt
  | inr (list xs, e) ↦ rw (e, Returns) tt
  | inr (dict gs, e) ↦ rw (e, Returns) (find-IsShort n key fs h e)
]

module _ (input : Bytes) where
  substr-le : (start len : ℕ) → length (substr input start len) ≤ length input
  substr-le start len = omega (arith, length-take len (drop start input), length-drop start input)

  parse_string-le :
      (p : ℕ) → Returns (λ (r : Bytes × ℕ). length r.0 ≤ length input) (parse_string input p)
  unfolding parse_string
  parse_string-le p =
      Returns-bind (λ _. Unit {0}) (λ (r : Bytes × ℕ). length r.0 ≤ length input)
        (read_length input p) _ (Returns-any (read_length input p))
        λ (len, start) _. ground (arith, substr-le start len)

  parse_int-IsShort :
      (p : ℕ) → Returns (λ (r : Value × ℕ). IsShort (length input) r.0) (parse_int input p)
  unfolding parse_int IsShort
  parse_int-IsShort p = ground arith

  mutual
    unfolding parse_value IsShort

    parse_value-IsShort :
        (f p depth : ℕ) → Returns (λ r. IsShort (length input) r.0) (parse_value f input p depth)
    parse_value-IsShort zero p depth = tt
    parse_value-IsShort (suc f) p depth = elim (Option-cases (get_elem? input p)) [
      | inl e ↦ ground arith
      | inr (c, e) ↦ ground (
        arith,
        parse_int-IsShort p,
        parse_string-le p,
        parse_list-IsShort f p depth,
        parse_dict-IsShort f p depth,
      )
    ]

    parse_list-IsShort :
        (f p depth : ℕ) → Returns (λ r. IsShort (length input) r.0) (parse_list f input p depth)
    parse_list-IsShort zero p depth = tt
    parse_list-IsShort (suc f) p depth =
        Returns-bind (λ q. Unit {0}) _ _ _ (Returns-any (expect_char input p b'l'))
          λ start _.
            Returns-bind (λ r. ItemsShort (length input) r.0) _ _ _
              (list_loop-ItemsShort f start depth)
              λ (xs, stop) h.
                Returns-bind (λ q. Unit {0}) _ _ _ (Returns-any (expect_char input stop b'e'))
                  λ after _. h

    list_loop-ItemsShort :
        (f p depth : ℕ) → Returns (λ r. ItemsShort (length input) r.0) (list_loop f input p depth)
    list_loop-ItemsShort zero p depth = tt
    list_loop-ItemsShort (suc f) p depth = elim (Bool-cases (more_items input p)) [
      | inl e ↦ rw e (
          Returns-bind (λ (r : Value × ℕ). IsShort (length input) r.0)
            (λ (r : Items × ℕ). ItemsShort (length input) r.0) (parse_value f input p (depth + 1)) _
            (parse_value-IsShort f p (depth + 1))
            λ (v, next) hv.
              Returns-bind (λ (r : Items × ℕ). ItemsShort (length input) r.0)
                (λ (r : Items × ℕ). ItemsShort (length input) r.0) (list_loop f input next depth) _
                (list_loop-ItemsShort f next depth) λ (xs, stop) h. (hv, h))
      | inr e ↦ rw e tt
    ]

    parse_dict-IsShort :
        (f p depth : ℕ) → Returns (λ r. IsShort (length input) r.0) (parse_dict f input p depth)
    parse_dict-IsShort zero p depth = tt
    parse_dict-IsShort (suc f) p depth =
        Returns-bind (λ q. Unit {0}) _ _ _ (Returns-any (expect_char input p b'd'))
          λ start _.
            Returns-bind (λ r. FieldsShort (length input) r.0) _ _ _
              (dict_loop-FieldsShort f start depth end tt)
              λ (fs, stop) h.
                Returns-bind (λ q. Unit {0}) _ _ _ (Returns-any (expect_char input stop b'e'))
                  λ after _. h

    dict_loop-FieldsShort :
        (f p depth : ℕ) (acc : Fields)
        → FieldsShort (length input) acc
        → Returns (λ r. FieldsShort (length input) r.0) (dict_loop f input p depth acc)
    dict_loop-FieldsShort zero p depth acc d = tt
    dict_loop-FieldsShort (suc f) p depth acc d = elim (Bool-cases (more_items input p)) [
      | inl e ↦ rw e (
          Returns-bind (λ r. Unit {0}) _ _ _ (Returns-any (parse_string input p))
            λ (k, middle) _.
              Returns-bind (λ r. IsShort (length input) r.0) _ _ _
                (parse_value-IsShort f middle (depth + 1))
                λ (v, next) hv.
                  dict_loop-FieldsShort f next depth (emplace k v acc)
                    (emplace-FieldsShort (length input) k v acc hv d))
      | inr e ↦ rw e d
    ]

-- A string in a decoded value is no longer than the bytes that were decoded.
pub parse-IsShort : (input : Bytes) → Returns (IsShort (length input)) (parse input)
unfolding parse
parse-IsShort input =
    Returns-bind (λ (r : Value × ℕ). IsShort (length input) r.0) (IsShort (length input))
      (parse_value (1002 * (length input + 4)) input 0 0) _
      (parse_value-IsShort input (1002 * (length input + 4)) 0 0) (λ r h. h)
