-- ===== src/Metadata/Load.antt =====
-- A .torrent file, from its bytes to the metadata.
use bit_torrent_client.Prelude.{
  ◌%◌, ◌^◌, ◌≤◌, ◌<◌, ◌≡◌, codes, subst, [], true, some, arith, Bytes, length, ok, ge→ltb,
  append-nil,
}
use bit_torrent_client.Prelude.Int.{pos}
use bit_torrent_client.Bencode.{Fields, field, end, dict, int, str, find}
use bit_torrent_client.Bencode.Encode.{encode}
use bit_torrent_client.Bencode.Find.{extract_int-find, extract_str-find, extract_dict-find}
use bit_torrent_client.Bencode.Parse.{parse}
use bit_torrent_client.Bencode.RoundTrip.{parse-encode}
use bit_torrent_client.Bencode.WellFormed.{IsWellFormed, nest}
use bit_torrent_client.Metadata.{
  Info, TorrentMetadata, FileSystem, comment_key, announce_key, creation_date_key, info_key,
  piece_length_key, length_key, name_key, pieces_key, parse_root_metadata, parse_root_dict,
  load_torrent_file, parse_torrent_data, calculate_info_hash, max_torrent_size,
}
use bit_torrent_client.Metadata.Pieces.{IsInfo}
use bit_torrent_client.Metadata.Dictionary.{parse_info_dict-find}

-- The dictionary of a .torrent file says this of the torrent.
pub record Describes (root : Fields) (metadata : TorrentMetadata) : Type 0 where
  pub comment : find comment_key root ≡ some (str metadata.comment)
  pub announce : find announce_key root ≡ some (str metadata.announce)
  pub creation_date : find creation_date_key root ≡ some (int (pos metadata.creation_date))
  pub date_fits : metadata.creation_date < 2 ^ 63
  pub info_dict : Fields
  pub info_held : find info_key root ≡ some (dict info_dict)
  pub piece_length : find piece_length_key info_dict ≡ some (int (pos metadata.info.piece_length))
  pub file_length : find length_key info_dict ≡ some (int (pos metadata.info.file_length))
  pub file_name : find name_key info_dict ≡ some (str metadata.info.file_name)
  pub pieces : find pieces_key info_dict ≡ some (str metadata.info.raw_pieces)
  pub info : IsInfo metadata.info

-- An info dictionary with the four keys that the client knows, in their order.
abbrev pub four_fields : Info → Fields
four_fields info = field (codes "length") (int (pos info.file_length)) (
    field (codes "name") (str info.file_name) (
      field (codes "piece length") (int (pos info.piece_length))
        (field (codes "pieces") (str info.raw_pieces) end)))

-- The file at `path` can be read, and has these bytes.
pub record IsFile (fs : FileSystem) (path bytes : Bytes) : Type 0 where
  pub exists : fs.exists path ≡ true
  pub opens : fs.opens path ≡ true
  pub file_size : fs.file_size path ≡ some (length bytes)
  pub read : fs.read path (length bytes) ≡ some bytes

load_torrent_file-IsFile :
    (fs : FileSystem) (path bytes : Bytes)
    → IsFile fs path bytes
    → load_torrent_file fs path ≡ ok bytes
unfolding load_torrent_file
load_torrent_file-IsFile fs path bytes f = rw (f.exists, f.opens, f.file_size, f.read)

module _ (root : Fields) (wf : IsWellFormed (dict root)) (shallow : nest (dict root) ≤ 1000)
    (small : length (encode (dict root)) ≤ max_torrent_size) where
  parse_root_dict-encode : parse_root_dict (encode (dict root)) ≡ ok root
  unfolding parse_root_dict
  parse_root_dict-encode =
      let read : parse (encode (dict root)) ≡ ok (dict root) =
        subst (λ bytes. parse bytes ≡ ok (dict root)) (append-nil (encode (dict root)))
          (parse-encode (dict root) [] wf shallow
            (rw (append-nil (encode (dict root))) (omega (arith, small)))) in
      rw (ge→ltb max_torrent_size (length (encode (dict root))) small, read)

  pub parse_torrent_data-Describes :
      (fs : FileSystem) (sha1 : Bytes → Bytes) (path : Bytes) (metadata : TorrentMetadata)
      → IsFile fs path (encode (dict root))
      → Describes root metadata
      → parse_torrent_data fs sha1 path
        ≡ ok (record metadata { info_hash = calculate_info_hash sha1 metadata.info })
  unfolding parse_torrent_data parse_root_metadata
  parse_torrent_data-Describes fs sha1 path metadata file t =
      let fits : metadata.creation_date % 2 ^ 64 ≡ metadata.creation_date =
        omega (arith, t.date_fits) in
      rw (
        load_torrent_file-IsFile fs path (encode (dict root)) file,
        parse_root_dict-encode,
        extract_str-find root comment_key t.comment,
        extract_str-find root announce_key t.announce,
        extract_int-find root creation_date_key t.creation_date,
        extract_dict-find root info_key t.info_held,
        parse_info_dict-find t.info_dict metadata.info t.info t.piece_length t.pieces t.file_length
            t.file_name,
        fits,
      )
