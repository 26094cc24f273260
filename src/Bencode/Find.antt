-- ===== src/Bencode/Find.antt =====
-- `extractValueFromDict` for a key that is there.
use bit_torrent_client.Prelude.{◌≡◌, some, Bytes, ok}
use bit_torrent_client.Prelude.Int.{ℤ}
use bit_torrent_client.Bencode.{
  Fields, dict, int, str, find, extract_int, extract_str, extract_dict,
}

module _ (fields : Fields) (key : Bytes) where
  pub extract_int-find : {z : ℤ} → find key fields ≡ some (int z) → extract_int fields key ≡ ok z
  unfolding extract_int
  extract_int-find e = rw (e, extract_int)

  pub extract_str-find :
      {s : Bytes} → find key fields ≡ some (str s) → extract_str fields key ≡ ok s
  unfolding extract_str
  extract_str-find e = rw (e, extract_str)

  pub extract_dict-find :
      {fs : Fields} → find key fields ≡ some (dict fs) → extract_dict fields key ≡ ok fs
  unfolding extract_dict
  extract_dict-find e = rw (e, extract_dict)
