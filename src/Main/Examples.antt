-- ===== src/Main/Examples.antt =====
-- A run of the program whose arguments name a torrent file.
use bit_torrent_client.Prelude.{
  ◌∷◌, inl, List, ◌⊎◌, [], true, false, some, Bytes, codes, length, ok, throws, invalid_argument,
}
use bit_torrent_client.FileHandler.{working_disk}
use bit_torrent_client.Orchestrator.{Outside}
use bit_torrent_client.Orchestrator.Wait.{at_test}
use bit_torrent_client.Main.{ArgumentParser, main}
use bit_torrent_client.Main.Outcomes.{Waits, Early, main_lem}

abbrev torrent : Bytes
torrent =
    codes
      "d8:announce3:url4:infod6:lengthi3e4:name1:a12:piece lengthi3e6:pieces20:abcdefghijklmnopqrstee"

abbrev outside : Outside
outside = record {
  file_system = record {
    exists = λ path. true;
    opens = λ path. true;
    file_size = λ path. some (length torrent);
    read = λ path size. some torrent;
  };
  sha1 = λ bytes. bytes;
  ada = record {
    Url = Bytes;
    parse_url = λ url. some url;
    set_search = λ url search. search;
    get_href = λ url. url;
    params_to_string = λ params. [];
  };
  http_get = λ url. record { status_code = 200; text = codes "d8:intervali9e5:peers0:e" };
  draw = λ round. 0;
  disk = working_disk [];
}

-- A parser that takes the argument behind the first for the path.
abbrev parser : ArgumentParser
parser = record {
  Parsed = List Bytes;
  parse_args = λ arguments argv. ok (inl argv);
  get_string = λ parsed name. elim parsed [
    | [] ↦ throws invalid_argument
    | option ∷ rest ↦ elim rest [ [] ↦ throws invalid_argument | path ∷ more ↦ ok path ]
  ];
  get_bool = λ parsed name. ok false;
}

abbrev argv : List Bytes
argv = codes "--torrent" ∷ codes "a.torrent" ∷ []

main_lem_example :
    Waits outside parser at_test argv (main outside parser at_test argv)
    ⊎ Early parser argv (main outside parser at_test argv)
main_lem_example = main_lem outside parser at_test argv
