-- ===== src/Bencode.antt =====
-- include/core/bencode_parser.hpp: the values that bencode stands for, and how a dictionary is
-- searched and filled. Decoding and encoding are in the modules below this one.
pub mod Number
pub mod Encode
pub mod Find
pub mod Parse
pub mod WellFormed
pub mod Ends
pub mod RoundTrip
pub mod Total
pub mod Sound
pub mod Short
pub mod Malformed
mod Examples
use bit_torrent_client.Prelude.{
  ℕ, [], ◌∷◌, Bool, true, false, ◌||◌, Option, none, some, Bytes, ltb, if◌then◌else◌, Outcome, ok,
  throws, runtime_error,
}
use bit_torrent_client.Prelude.Int.{ℤ}

-- `Items` is the vector of a `List`, and `Fields` the map of a `Dict`, in the map's order.
mutual
  pub data Value : Type 0 where
    int : ℤ → Value
    str : Bytes → Value
    list : Items → Value
    dict : Fields → Value

  pub data Items : Type 0 where
    nil : Items
    cons : Value → Items → Items

  pub data Fields : Type 0 where
    end : Fields
    field : Bytes → Value → Fields → Fields

-- `operator<` of `std::string`: bytes compare as unsigned numbers.
unfoldable pub bytes_lt : Bytes → Bytes → Bool
bytes_lt [] [] = false
bytes_lt [] (y ∷ ys) = true
bytes_lt (x ∷ xs) [] = false
bytes_lt (x ∷ xs) (y ∷ ys) =
    let rest = bytes_lt xs ys in if ltb x y then true else if ltb y x then false else rest

-- `std::map::emplace`: a key that is there already keeps its value.
unfoldable pub emplace : Bytes → Value → Fields → Fields
emplace k v end = field k v end
emplace k v (field j w fs) =
    let rest = emplace k v fs in
    if bytes_lt k j
    then field k v (field j w fs)
    else if bytes_lt j k
    then field j w rest
    else field j w fs

-- `map[k] = v`: a key that is there already gets the new value.
unfoldable pub assign : Bytes → Value → Fields → Fields
assign k v end = field k v end
assign k v (field j w fs) =
    let rest = assign k v fs in
    if bytes_lt k j
    then field k v (field j w fs)
    else if bytes_lt j k
    then field j w rest
    else field j v fs

-- `std::map::find`: two keys are the same if neither is less.
unfoldable pub find : Bytes → Fields → Option Value
find k end = none
find k (field j w fs) =
    let rest = find k fs in if bytes_lt k j || bytes_lt j k then rest else some w

-- `extractValueFromDict` at its three types.
unfoldable pub extract_int : Fields → Bytes → Outcome ℤ
extract_int d key = elim (find key d) [ some (int n) ↦ ok n | _ ↦ throws runtime_error ]

unfoldable pub extract_str : Fields → Bytes → Outcome Bytes
extract_str d key = elim (find key d) [ some (str s) ↦ ok s | _ ↦ throws runtime_error ]

unfoldable pub extract_dict : Fields → Bytes → Outcome Fields
extract_dict d key = elim (find key d) [ some (dict fs) ↦ ok fs | _ ↦ throws runtime_error ]
