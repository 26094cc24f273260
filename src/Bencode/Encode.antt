-- ===== src/Bencode/Encode.antt =====
-- `encode` of src/core/bencode_parser.cpp.
use bit_torrent_client.Prelude.{[], ◌∷◌, ◌++◌, Bytes, length}
use bit_torrent_client.Bencode.{Value, Items, Fields, int, str, list, dict, nil, cons, end, field}
use bit_torrent_client.Bencode.Number.{to_string, int_to_string}

unfoldable pub encode_str : Bytes → Bytes
encode_str s = to_string (length s) ++ b':' ∷ s

-- The two loops are functions of their own; a key is encoded as a string value.
unfoldable mutual
  pub encode : Value → Bytes
  encode (int n) = b'i' ∷ (int_to_string n ++ b'e' ∷ [])
  encode (str s) = encode_str s
  encode (list xs) = b'l' ∷ (encode_items xs ++ b'e' ∷ [])
  encode (dict fs) = b'd' ∷ (encode_fields fs ++ b'e' ∷ [])

  pub encode_items : Items → Bytes
  encode_items nil = []
  encode_items (cons v xs) = encode v ++ encode_items xs

  pub encode_fields : Fields → Bytes
  encode_fields end = []
  encode_fields (field k v fs) = encode_str k ++ (encode v ++ encode_fields fs)
