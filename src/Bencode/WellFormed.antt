-- ===== src/Bencode/WellFormed.antt =====
-- The values that a program can hold: integers of 64 bits, and maps in the order of their keys.
use bit_torrent_client.Prelude.{ℕ, suc, max, ◌≡◌, true, Bytes}
use bit_torrent_client.Prelude.Int.{IsInt64}
use bit_torrent_client.Bencode.{
  Value, Items, Fields, int, str, list, dict, nil, cons, end, field, bytes_lt,
}

-- `k` is less than every key.
abbrev pub Below : Bytes → Fields → Type 0
Below k end = Unit {0}
Below k (field j v fs) = (bytes_lt k j ≡ true) × Below k fs

abbrev pub IsSorted : Fields → Type 0
IsSorted end = Unit {0}
IsSorted (field k v fs) = Below k fs × IsSorted fs

unfoldable mutual
  pub IsWellFormed : Value → Type 0
  IsWellFormed (int z) = IsInt64 z
  IsWellFormed (str s) = Unit {0}
  IsWellFormed (list xs) = ItemsWellFormed xs
  IsWellFormed (dict fs) = IsSorted fs × FieldsWellFormed fs

  pub ItemsWellFormed : Items → Type 0
  ItemsWellFormed nil = Unit {0}
  ItemsWellFormed (cons v xs) = IsWellFormed v × ItemsWellFormed xs

  pub FieldsWellFormed : Fields → Type 0
  FieldsWellFormed end = Unit {0}
  FieldsWellFormed (field k v fs) = IsWellFormed v × FieldsWellFormed fs

-- How many containers stand around the innermost value.
unfoldable mutual
  pub nest : Value → ℕ
  nest (int z) = 0
  nest (str s) = 0
  nest (list xs) = nest_items xs
  nest (dict fs) = nest_fields fs

  pub nest_items : Items → ℕ
  nest_items nil = 0
  nest_items (cons v xs) = max (suc (nest v)) (nest_items xs)

  pub nest_fields : Fields → ℕ
  nest_fields end = 0
  nest_fields (field k v fs) = max (suc (nest v)) (nest_fields fs)
