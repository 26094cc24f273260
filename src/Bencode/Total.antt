-- ===== src/Bencode/Total.antt =====
-- Decoding ends by itself, and where it ends.
pub mod Scalar
use bit_torrent_client.Prelude.{
  ℕ, zero, suc, ◌+◌, ◌-◌, ◌*◌, ◌^◌, ◌≤◌, ◌<◌, ◌≡◌, ◌≢◌, refl, Bool, true, false, arith, Bytes,
  length, get_elem?, leb, ◌==◌, some, none, Option-cases, Bool-cases, inl, inr, Outcome, ok, throws,
  fault, out_of_fuel, or_fault, or_throw, guard, ◌>>=◌, Settles, Settles-bind, Settles-mono,
  get_elem?-lt, not, invalid_argument, runtime_error,
}
use bit_torrent_client.Bencode.{Value, Items, Fields, str, list, dict, cons, end, emplace}
use bit_torrent_client.Bencode.Number.{is_digit}
use bit_torrent_client.Bencode.Parse.{
  parse, parse_value, parse_list, parse_dict, list_loop, dict_loop, more_items, expect_char,
  is_empty, parse_int, parse_string, max_recursion_depth, read_length,
}
use bit_torrent_client.Bencode.Total.Scalar.{
  Advances, LengthsFit, parse_int-Advances, parse_string-Advances, expect_char-Advances,
}

-- `Settles`, from the parts of a bind.
module _ (input : Bytes) (fits : LengthsFit input) where
  abbrev Ends {ℓ} : {A : Type ℓ} → ℕ → Outcome (A × ℕ) → Type 0
  Ends p m = Settles (λ r. (p ≤ r.1) × (r.1 ≤ length input)) m

  mutual
    unfolding parse_value

    parse_value-Advances :
        (f p depth : ℕ)
        → 3 * (length input - p) < f
        → Advances input p (parse_value f input p depth)
    parse_value-Advances zero p depth h = absurd (omega arith)
    parse_value-Advances (suc f) p depth h = elim (Option-cases (get_elem? input p)) [
      | inl e ↦ ground arith
      | inr (c, e) ↦ ground (
        arith,
        get_elem?-lt input p e,
        parse_int-Advances input p,
        parse_string-Advances input p fits,
        parse_list-Advances f p depth,
        parse_dict-Advances f p depth,
      )
    ]

    parse_list-Advances :
        (f p depth : ℕ)
        → 3 * (length input - p) ≤ f
        → p < length input
        → Advances input p (parse_list f input p depth)
    parse_list-Advances zero p depth h lt = absurd (omega arith)
    parse_list-Advances (suc f) p depth h lt =
        Settles-bind (λ q. (q ≡ p + 1) × (q ≤ length input)) _ _ _
          (expect_char-Advances input p b'l')
          λ start hs.
            Settles-bind (λ r. (start ≤ r.1) × (r.1 ≤ length input)) _ _ _
              (list_loop-Ends f start depth (omega arith) (omega arith))
              λ (xs, stop) hl.
                Settles-bind (λ q. (q ≡ stop + 1) × (q ≤ length input)) _ _ _
                  (expect_char-Advances input stop b'e') λ after ha. (omega arith, omega arith)

    list_loop-Ends :
        (f p depth : ℕ)
        → 3 * (length input - p) + 1 < f
        → p ≤ length input
        → Ends p (list_loop f input p depth)
    list_loop-Ends zero p depth h le = absurd (omega arith)
    list_loop-Ends (suc f) p depth h le = elim (Bool-cases (more_items input p)) [
      | inl e ↦ rw e (
          Settles-bind (λ r. (p < r.1) × (r.1 ≤ length input)) _ _ _
            (parse_value-Advances f p (depth + 1) (omega arith))
            λ (v, next) hv.
              Settles-bind (λ r. (next ≤ r.1) × (r.1 ≤ length input)) _ _ _
                (list_loop-Ends f next depth (omega arith) (omega arith))
                λ (xs, stop) hl. (omega arith, omega arith))
      | inr e ↦ rw e (omega arith, le)
    ]

    parse_dict-Advances :
        (f p depth : ℕ)
        → 3 * (length input - p) ≤ f
        → p < length input
        → Advances input p (parse_dict f input p depth)
    parse_dict-Advances zero p depth h lt = absurd (omega arith)
    parse_dict-Advances (suc f) p depth h lt =
        Settles-bind (λ q. (q ≡ p + 1) × (q ≤ length input)) _ _ _
          (expect_char-Advances input p b'd')
          λ start hs.
            Settles-bind (λ r. (start ≤ r.1) × (r.1 ≤ length input)) _ _ _
              (dict_loop-Ends f start depth end (omega arith) (omega arith))
              λ (fs, stop) hl.
                Settles-bind (λ q. (q ≡ stop + 1) × (q ≤ length input)) _ _ _
                  (expect_char-Advances input stop b'e') λ after ha. (omega arith, omega arith)

    dict_loop-Ends :
        (f p depth : ℕ) (acc : Fields)
        → 3 * (length input - p) + 1 < f
        → p ≤ length input
        → Ends p (dict_loop f input p depth acc)
    dict_loop-Ends zero p depth acc h le = absurd (omega arith)
    dict_loop-Ends (suc f) p depth acc h le = elim (Bool-cases (more_items input p)) [
      | inl e ↦ rw e (
          Settles-bind (λ r. (p < r.1) × (r.1 ≤ length input)) _ _ _
            (parse_string-Advances input p fits)
            λ (key, middle) hk.
              Settles-bind (λ r. (middle < r.1) × (r.1 ≤ length input)) _ _ _
                (parse_value-Advances f middle (depth + 1) (omega arith))
                λ (v, next) hv.
                  Settles-mono (λ r. (next ≤ r.1) × (r.1 ≤ length input)) _ _
                    (dict_loop-Ends f next depth (emplace key v acc) (omega arith) (omega arith))
                    λ (fs, stop) hl. (omega arith, omega arith))
      | inr e ↦ rw e (omega arith, le)
    ]

-- Decoding ends by itself, in a value, an exception or a read out of bounds, on every input for
-- which a length that is read at a position, whichever position of the input it is, does not take
-- the reader around the end of 64 bits. This is asked of the positions too at which the decoder
-- reads no length.
pub parse-ne-out_of_fuel : (input : Bytes) → LengthsFit input → parse input ≢ out_of_fuel
unfolding parse
parse-ne-out_of_fuel input fits =
    ground (arith, parse_value-Advances input fits (1002 * (length input + 4)) 0 0 (omega arith))
