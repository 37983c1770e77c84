-- ===== src/Tests/Source.antt =====
-- The theorems on the sources at examples: a file system with one file.
use cloud_route_manager.Base.{
  ◌≡◌, refl, Bool, ◌||◌, ◌==◌, arith, Text, codes, false, List, [], ◌∷◌, none, some, ok, err,
  errorf, contains, All, is_empty,
}
use cloud_route_manager.Base.Strings.{split, fields_func, before, trim_space, trim_suffix, has_char}
use cloud_route_manager.Base.Sorting.{Ascending}
use cloud_route_manager.Netip.{Prefix, prefix_eq, IsCanonical, parse_addr, parse_prefix}
use cloud_route_manager.Routes.{less, line_tokens, parse_one}
use cloud_route_manager.Routes.Members.{tokens, rejected}
use cloud_route_manager.Config.{StaticSource, FileSource}
use cloud_route_manager.Config
use cloud_route_manager.Source.{
  Source, Clients, content, static_source, file_source, build, collect, others,
}
use cloud_route_manager.Source.Collecting.{answers, offered, contains-collect, collect-Ascending}
use cloud_route_manager.Source.Building.{build-collect, collect-rejected}
use cloud_route_manager.Tests.Data.{ten, office, both}

-- The world is the content of the file.
abbrev pub clients : Clients Text
clients = record {
  read_file = λ path w. (content w, w);
  s3_client = λ cfg w. (some (errorf "load aws config" []), w);
  get_object = λ bucket key w. (err (errorf "no object" []), w);
  ssm_client = λ cfg w. (some (errorf "load aws config" []), w);
  get_parameter = λ path w. (ok none, w);
  attribute = λ key w. (err (errorf "no metadata" []), w);
}

abbrev cfg_file : FileSource
cfg_file = record { path = codes "/routes"; optional = false }

abbrev forth : List (Source Text)
forth =
    static_source Text (ten ∷ [])
    ∷ static_source Text (office ∷ [])
    ∷ file_source Text clients cfg_file
    ∷ []

contains-collect_example :
    contains (collect Text forth []).0.0 ten ≡ offered (answers Text forth []) ten
contains-collect_example = contains-collect Text forth [] ten

collect-Ascending_example : Ascending less (collect Text forth []).0.0
collect-Ascending_example = collect-Ascending Text forth []

same_offered :
    (p : Prefix)
    → offered (answers Text (static_source Text both ∷ []) []) p
      ≡ offered
          (answers Text (static_source Text (ten ∷ []) ∷ static_source Text (office ∷ []) ∷ []) [])
          p
unfolding answers static_source
same_offered p = spread (ten == p) (office == p)
  where
    spread :
        (x y : Bool) → ((x || (y || false)) || false) ≡ ((x || false) || ((y || false) || false))
    spread x y = ground arith

abbrev pub file_only : Config.Source
file_only = record {
  static = none;
  file = some cfg_file;
  s3 = none;
  aws_ssm = none;
  yandex_metadata = none;
}

built : build Text clients file_only ≡ ok (file_source Text clients cfg_file ∷ [])
unfolding build others
built = refl

build-collect_example :
    All IsCanonical (collect Text (file_source Text clients cfg_file ∷ []) (codes "10.1.2.3/8")).0.0
build-collect_example =
    build-collect Text clients file_only (file_source Text clients cfg_file ∷ [])
      (codes "10.1.2.3/8") built

some_rejected : is_empty (rejected (tokens (codes "10.0.0.0/8 bad"))) ≡ false
unfolding tokens split line_tokens fields_func before trim_space trim_suffix parse_one has_char
    parse_addr parse_prefix
some_rejected = refl

collect-rejected_example :
    (collect Text (file_source Text clients cfg_file ∷ []) (codes "10.0.0.0/8 bad")).0.0 ≡ []
collect-rejected_example =
    collect-rejected Text clients cfg_file (codes "10.0.0.0/8 bad") (codes "10.0.0.0/8 bad")
      (codes "10.0.0.0/8 bad") refl some_rejected
