-- ===== src/Metadata/Loaded.antt =====
-- What the loader promises of the metadata of any file.
use bit_torrent_client.Prelude.{
  ℕ, ◌≤◌, ◌≡◌, inl, inr, arith, Bytes, length, ltb, ltb→ge, Bool-cases, Returns, Returns-bind,
  Returns-any, Returns-eq, Returns-both, length-take, guard, runtime_error, or_throw,
}
use bit_torrent_client.Bencode.{
  Value, Fields, int, str, list, dict, extract_int, extract_str, extract_dict,
}
use bit_torrent_client.Bencode.Parse.{parse}
use bit_torrent_client.Bencode.Short.{
  IsShort, FieldsShort, parse-IsShort, extract_str-IsShort, extract_dict-FieldsShort,
}
use bit_torrent_client.Bencode.Sound.{parse-IsWellFormed}
use bit_torrent_client.Bencode.WellFormed.{IsWellFormed, FieldsWellFormed}
use bit_torrent_client.Metadata.{
  Info, TorrentMetadata, FileSystem, info_key, parse_root_metadata, parse_root_dict,
  piece_length_key, pieces_key, length_key, name_key, load_torrent_file, parse_torrent_data,
  parse_info_dict, parse_piece_hashes, is_positive, is_nonnegative, calculate_info_hash,
  max_torrent_size, as_dict, comment_key, announce_key, creation_date_key,
}
use bit_torrent_client.Metadata.Pieces.{IsInfo}
use bit_torrent_client.Metadata.Dictionary.{parse_info_dict-IsInfo, extract_dict-FieldsWellFormed}

-- The info record is as `parseInfoDict` promises, the pieces string is no longer than the file may
-- be, and the info hash has 20 bytes.
pub record IsLoaded (metadata : TorrentMetadata) : Type 0 where
  pub info : IsInfo metadata.info
  pub short : length metadata.info.raw_pieces ≤ max_torrent_size
  pub hash : length metadata.info_hash ≡ 20

-- A dictionary out of a file of `n` bytes.
abbrev IsRoot : ℕ → Fields → Type 0
IsRoot n root = FieldsWellFormed root × FieldsShort n root

abbrev HasShort : ℕ → Info → Type 0
HasShort n info = length info.raw_pieces ≤ n

parse_info_dict-HasShort :
    (n : ℕ) (fs : Fields) → FieldsShort n fs → Returns (HasShort n) (parse_info_dict fs)
unfolding parse_info_dict
parse_info_dict-HasShort n fs h =
    Returns-bind (λ _. Unit {0}) (HasShort n) _ _ (Returns-any (extract_int fs piece_length_key))
      λ pl _.
        Returns-bind (λ _. Unit {0}) (HasShort n) _ _
          (Returns-any (guard (is_positive pl) runtime_error))
          λ _ _.
            Returns-bind (λ s. length s ≤ n) (HasShort n) _ _
              (extract_str-IsShort n fs pieces_key h)
              λ s short.
                Returns-bind (λ _. Unit {0}) (HasShort n) _ _ (Returns-any (parse_piece_hashes s))
                  λ hashes _.
                    Returns-bind (λ _. Unit {0}) (HasShort n) _ _
                      (Returns-any (extract_int fs length_key))
                      λ fl _.
                        Returns-bind (λ _. Unit {0}) (HasShort n) _ _
                          (Returns-any (guard (is_nonnegative fl) runtime_error))
                          λ _ _.
                            Returns-bind (λ _. Unit {0}) (HasShort n) _ _
                              (Returns-any (extract_str fs name_key)) λ name _. short

module _ (sha1 : Bytes → Bytes) (width : (b : Bytes) → length (sha1 b) ≡ 20) where
  calculate_info_hash-length : (info : Info) → length (calculate_info_hash sha1 info) ≡ 20
  unfolding calculate_info_hash
  calculate_info_hash-length info = omega (arith, length-take 20 (sha1 _), width _)

  parse_root_metadata-IsLoaded :
      (n : ℕ) (root : Fields)
      → n ≤ max_torrent_size
      → IsRoot n root
      → Returns IsLoaded (parse_root_metadata sha1 root)
  unfolding parse_root_metadata
  parse_root_metadata-IsLoaded n root le (wf, short) =
      Returns-bind (λ _. Unit {0}) IsLoaded _ _ (Returns-any (extract_str root comment_key))
        λ comment _.
          Returns-bind (λ _. Unit {0}) IsLoaded _ _ (Returns-any (extract_str root announce_key))
            λ announce _.
              Returns-bind (λ _. Unit {0}) IsLoaded _ _
                (Returns-any (extract_int root creation_date_key))
                λ date _.
                  Returns-bind (IsRoot n) IsLoaded _ _
                    (Returns-both FieldsWellFormed (FieldsShort n) (extract_dict root info_key)
                      (extract_dict-FieldsWellFormed root info_key wf)
                      (extract_dict-FieldsShort n root info_key short))
                    λ info_dict (wf', short').
                      Returns-bind (λ i. IsInfo i × HasShort n i) IsLoaded _ _
                        (Returns-both IsInfo (HasShort n) (parse_info_dict info_dict)
                          (parse_info_dict-IsInfo info_dict wf')
                          (parse_info_dict-HasShort n info_dict short'))
                        λ info (good, small). record {
                          info = good;
                          short = omega (arith, small, le);
                          hash = calculate_info_hash-length info;
                        }

  as_dict-IsRoot :
      (n : ℕ) (value : Value)
      → IsWellFormed value
      → IsShort n value
      → Returns (IsRoot n) (or_throw (as_dict value) runtime_error)
  unfolding IsWellFormed IsShort
  as_dict-IsRoot n (int z) wf short = tt
  as_dict-IsRoot n (str s) wf short = tt
  as_dict-IsRoot n (list xs) wf short = tt
  as_dict-IsRoot n (dict fs) wf short = (wf.1, short)

  parse_root_dict-IsRoot :
      (bytes : Bytes)
      → Returns
          (λ root. (length bytes ≤ max_torrent_size) × IsRoot (length bytes) root)
          (parse_root_dict bytes)
  unfolding parse_root_dict
  parse_root_dict-IsRoot bytes = elim (Bool-cases (ltb max_torrent_size (length bytes))) [
    | inl big ↦ rw big tt
    | inr fits ↦ rw fits (
        Returns-bind (λ v. IsWellFormed v × IsShort (length bytes) v)
          (λ root. (length bytes ≤ max_torrent_size) × IsRoot (length bytes) root) (parse bytes) _
          (Returns-both IsWellFormed (IsShort (length bytes)) (parse bytes)
            (Returns-eq IsWellFormed (parse bytes) (λ v e. (parse-IsWellFormed bytes e).0))
            (parse-IsShort bytes))
          λ v (wf, short).
            Returns-both (λ _. length bytes ≤ max_torrent_size) (IsRoot (length bytes))
              (or_throw (as_dict v) runtime_error)
              (Returns-eq _ _ (λ _ _. ltb→ge max_torrent_size (length bytes) fits))
              (as_dict-IsRoot (length bytes) v wf short))
  ]

  -- Whatever file the loader accepts, the metadata have what the client relies on: hashes of 20
  -- bytes, which are the pieces string of 10 MB at most; a piece length that is not zero; lengths
  -- that fit a signed number of 64 bits; an info hash of 20 bytes. This is if the hash function
  -- returns 20 bytes.
  pub parse_torrent_data-IsLoaded :
      (fs : FileSystem) (path : Bytes) → Returns IsLoaded (parse_torrent_data fs sha1 path)
  unfolding parse_torrent_data
  parse_torrent_data-IsLoaded fs path =
      Returns-bind (λ _. Unit {0}) IsLoaded _ _ (Returns-any (load_torrent_file fs path))
        λ bytes _.
          Returns-bind (λ root. (length bytes ≤ max_torrent_size) × IsRoot (length bytes) root)
            IsLoaded (parse_root_dict bytes) _ (parse_root_dict-IsRoot bytes)
            λ root (le, good). parse_root_metadata-IsLoaded (length bytes) root le good
