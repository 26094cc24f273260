-- ===== src/Metadata.antt =====
-- src/core/torrent_metadata_loader.cpp: from the bytes of a .torrent file to its metadata. SHA-1
-- and the file system are parameters.
pub mod Pieces
pub mod Dictionary
pub mod Load
pub mod Loaded
use bit_torrent_client.Prelude.{
  ℕ, zero, suc, ◌-◌, ◌/◌, ◌%◌, ◌*◌, ◌^◌, [], ◌∷◌, List, Bool, true, false, not, Option, none, some,
  Bytes, codes, length, take, drop, ltb, ◌==◌, if◌then◌else◌, Outcome, ok, throws, runtime_error,
  or_throw, guard, ◌>>=◌, ◌>>◌,
}
use bit_torrent_client.Prelude.Int.{ℤ, pos, negsuc, to_u64}
use bit_torrent_client.Bencode.{
  Value, Fields, int, str, dict, end, assign, extract_int, extract_str, extract_dict,
}
use bit_torrent_client.Bencode.Encode.{encode}
use bit_torrent_client.Bencode.Parse.{parse}

abbrev pub hash_length : ℕ
hash_length = 20

abbrev pub comment_key : Bytes
comment_key = codes "comment"

abbrev pub announce_key : Bytes
announce_key = codes "announce"

abbrev pub info_key : Bytes
info_key = codes "info"

abbrev pub piece_length_key : Bytes
piece_length_key = codes "piece length"

abbrev pub length_key : Bytes
length_key = codes "length"

abbrev pub name_key : Bytes
name_key = codes "name"

abbrev pub pieces_key : Bytes
pieces_key = codes "pieces"

abbrev pub creation_date_key : Bytes
creation_date_key = codes "creation date"

-- A `Sha1Hash` is a list of 20 bytes.
pub record Info : Type 0 where
  pub piece_hashes : List Bytes
  pub raw_pieces : Bytes
  pub piece_length : ℕ
  pub file_length : ℕ
  pub file_name : Bytes

pub record TorrentMetadata : Type 0 where
  pub announce : Bytes
  pub comment : Bytes
  pub creation_date : ℕ
  pub info_hash : Bytes
  pub info : Info

-- The bytes in rows of `width`, as `copy_n` lays them into an array of arrays.
unfoldable pub rows : ℕ → ℕ → Bytes → List Bytes
rows width zero s = []
rows width (suc n) s = take width s ∷ rows width n (drop width s)

unfoldable pub parse_piece_hashes : Bytes → Outcome (List Bytes)
parse_piece_hashes pieces_str =
    if length pieces_str % hash_length == 0
    then ok (rows hash_length (length pieces_str / hash_length) pieces_str)
    else throws runtime_error

abbrev pub is_positive : ℤ → Bool
is_positive (pos zero) = false
is_positive (pos (suc n)) = true
is_positive (negsuc n) = false

abbrev pub is_nonnegative : ℤ → Bool
is_nonnegative (pos n) = true
is_nonnegative (negsuc n) = false

-- `parseInfoDict`.
unfoldable pub parse_info_dict : Fields → Outcome Info
parse_info_dict info_dict = do
  piece_length ← extract_int info_dict piece_length_key
  guard (is_positive piece_length) runtime_error
  pieces_str ← extract_str info_dict pieces_key
  piece_hashes ← parse_piece_hashes pieces_str
  file_length ← extract_int info_dict length_key
  guard (is_nonnegative file_length) runtime_error
  file_name ← extract_str info_dict name_key
  ok (record {
    piece_hashes = piece_hashes;
    raw_pieces = pieces_str;
    piece_length = to_u64 piece_length;
    file_length = to_u64 file_length;
    file_name = file_name;
  })

-- `static_cast<int64_t>` of a `uint64_t`.
abbrev pub to_i64 : ℕ → ℤ
to_i64 n = if ltb n (2 ^ 63) then pos n else negsuc (2 ^ 64 - 1 - n)

-- The dictionary that the info hash is taken of: the four keys that the client keeps.
unfoldable pub info_fields : Info → Fields
info_fields info = assign pieces_key (str info.raw_pieces) (
    assign name_key (str info.file_name) (
      assign length_key (int (to_i64 info.file_length))
        (assign piece_length_key (int (to_i64 info.piece_length)) end)))

-- `SHA1` of openssl.
module _ (sha1 : Bytes → Bytes) where
  unfoldable pub calculate_info_hash : Info → Bytes
  calculate_info_hash info = take 20 (sha1 (encode (dict (info_fields info))))

  unfoldable pub parse_root_metadata : Fields → Outcome TorrentMetadata
  parse_root_metadata root_dict = do
    comment ← extract_str root_dict comment_key
    announce ← extract_str root_dict announce_key
    creation_date ← extract_int root_dict creation_date_key
    info_dict ← extract_dict root_dict info_key
    info ← parse_info_dict info_dict
    ok (record {
      announce = announce;
      comment = comment;
      creation_date = to_u64 creation_date;
      info_hash = calculate_info_hash info;
      info = info;
    })

abbrev pub max_torrent_size : ℕ
max_torrent_size = 10 * 1024 * 1024

-- `std::get<bencode::Dict>`, behind the test that the value is one.
abbrev pub as_dict : Value → Option Fields
as_dict (dict fs) = some fs
as_dict _ = none

unfoldable pub parse_root_dict : Bytes → Outcome Fields
parse_root_dict torrent_data = do
  guard (not (ltb max_torrent_size (length torrent_data))) runtime_error
  value ← parse torrent_data
  or_throw (as_dict value) runtime_error

-- What the loader asks of a file: `none` is a failed `tellg` or a failed `read`.
pub record FileSystem : Type 0 where
  pub exists : Bytes → Bool
  pub opens : Bytes → Bool
  pub file_size : Bytes → Option ℕ
  pub read : Bytes → ℕ → Option Bytes

module _ (fs : FileSystem) where
  unfoldable pub load_torrent_file : Bytes → Outcome Bytes
  load_torrent_file path = do
    guard (fs.exists path) runtime_error
    guard (fs.opens path) runtime_error
    size ← or_throw (fs.file_size path) runtime_error
    or_throw (fs.read path size) runtime_error

  unfoldable pub parse_torrent_data : (Bytes → Bytes) → Bytes → Outcome TorrentMetadata
  parse_torrent_data sha1 path = do
    torrent_data ← load_torrent_file path
    root_dict ← parse_root_dict torrent_data
    parse_root_metadata sha1 root_dict
