-- ===== src/Source.antt =====
-- internal/source: the sources of routes, what they fetch, and `Collect`. A source is an interface
-- value: a name, and a function of the world. The clients that the sources call are parameters.
pub mod Collecting
pub mod Building
use cloud_route_manager.Base.{
  Text, codes, Bool, true, false, ◌&&◌, List, [], ◌∷◌, ◌++◌, Option, none, some, Error, errorf,
  wrapf, join, to_list, Result, ok, err, if◌then◌else◌, is_empty,
}
use mathlib.Core.Option
use cloud_route_manager.Base.Strings.{join_texts, trim_prefix}
use cloud_route_manager.Netip.{Prefix}
use cloud_route_manager.Routes.{RouteSet, new_set, add_all, sorted, parse}
use cloud_route_manager.Config.{StaticSource, FileSource, S3Source, SsmSource, YandexMetaData}
use cloud_route_manager.Config

-- What `Fetch` returns: routes, and an error beside them.
abbrev pub Fetched : Type 0
Fetched = List Prefix × Option Error

-- What `os.ReadFile` returns; `missing` is an error that is `fs.ErrNotExist`.
pub data FileRead : Type 0 where
  content : Text → FileRead
  missing : Error → FileRead
  failed : Error → FileRead

module _ (World : Type 0) where
  -- `Source`
  pub record Source : Type 0 where
    pub name : Text
    pub fetch : World → Fetched × World

  -- The file system, the clients of S3 and SSM, and the metadata of Yandex Cloud. The first call of
  -- each client says whether it can be made; `get_object` gives what reading the object's body
  -- returns, if there is an object, and `get_parameter` the parameter, if the response has one.
  pub record Clients : Type 0 where
    pub read_file : Text → World → FileRead × World
    pub s3_client : S3Source → World → Option Error × World
    pub get_object : Text → Text → World → Result (Result Text) × World
    pub ssm_client : SsmSource → World → Option Error × World
    pub get_parameter : Text → World → Result (Option (Option Text)) × World
    pub attribute : Text → World → Result Text × World

  -- `Static.Fetch`
  unfoldable pub static_source : List Prefix → Source
  static_source prefixes = record { name = codes "static"; fetch = λ w. ((prefixes, none), w) }

  -- `NewStatic`, from what `Parse` returns.
  unfoldable pub static_of : Fetched → Result Source
  static_of (parsed, none) = ok (static_source parsed)
  static_of (parsed, some e) = err (wrapf "source.static.routes: %w" [] e)

  unfoldable pub new_static : List Text → Result Source
  new_static list = static_of (parse (join_texts (codes "\n") list))

  -- `File.Fetch`, from what reading the file returns.
  unfoldable pub from_file : FileSource → FileRead → Fetched
  from_file cfg (content raw) = parse raw
  from_file cfg (missing e) =
      if cfg.optional then ([], none) else ([], some (wrapf "read %s: %w" (cfg.path ∷ []) e))
  from_file cfg (failed e) = ([], some (wrapf "read %s: %w" (cfg.path ∷ []) e))

  -- `S3.Fetch`, from what getting and reading the object returns.
  unfoldable pub from_object : Result (Result Text) → Fetched
  from_object (err e) = ([], some (wrapf "get object: %w" [] e))
  from_object (ok (err e)) = ([], some (wrapf "read object: %w" [] e))
  from_object (ok (ok raw)) = parse raw

  -- `SSM.Fetch`, from the response; `awssdk.ToString` of no value is the empty text.
  unfoldable pub from_parameter : Result (Option (Option Text)) → Fetched
  from_parameter (err e) = ([], some (wrapf "get parameter: %w" [] e))
  from_parameter (ok none) = ([], some (errorf "get parameter: empty response" []))
  from_parameter (ok (some none)) = parse []
  from_parameter (ok (some (some value))) = parse value

  -- `YandexMetadata.Fetch`
  unfoldable pub from_attribute : Result Text → Fetched
  from_attribute (err e) = ([], some e)
  from_attribute (ok raw) = parse raw

  -- A fetch that needs a client ends where there is none.
  unfoldable pub behind_client : Option Error × World → (World → Fetched × World) → Fetched × World
  behind_client (some e, w) next = (([], some e), w)
  behind_client (none, w) next = next w

  module _ (clients : Clients) where
    open clients use {read_file, s3_client, get_object, ssm_client, get_parameter, attribute}

    unfoldable pub file_source : FileSource → Source
    file_source cfg = record {
      name = codes "file:" ++ cfg.path;
      fetch = λ w. let (r, w') = read_file cfg.path w in (from_file cfg r, w');
    }

    unfoldable pub s3_source : S3Source → Source
    s3_source cfg = record {
      name = codes "s3://" ++ (cfg.bucket ++ (codes "/" ++ trim_prefix b'/' cfg.path));
      fetch = λ w. behind_client (s3_client cfg w) λ w'.
          let (r, w'') = get_object cfg.bucket (trim_prefix b'/' cfg.path) w' in
          (from_object r, w'');
    }

    unfoldable pub ssm_source : SsmSource → Source
    ssm_source cfg = record {
      name = codes "aws-ssm:" ++ cfg.path;
      fetch = λ w.
          behind_client (ssm_client cfg w)
            λ w'. let (r, w'') = get_parameter cfg.path w' in (from_parameter r, w'');
    }

    unfoldable pub yandex_source : YandexMetaData → Source
    yandex_source cfg = record {
      name = codes "yandex-instance-metadata:" ++ cfg.key;
      fetch = λ w. let (r, w') = attribute cfg.key w in (from_attribute r, w');
    }

    -- The sources of `Build` behind the static one, in their order.
    unfoldable pub others : Config.Source → List Source
    others cfg =
        to_list (Option.map file_source cfg.file)
        ++ (to_list (Option.map s3_source cfg.s3)
            ++ (to_list (Option.map ssm_source cfg.aws_ssm)
                ++ to_list (Option.map yandex_source cfg.yandex_metadata)))

    abbrev pub check_built : List Source → Result (List Source)
    check_built [] = err (errorf "no route sources configured" [])
    check_built (s ∷ sources) = ok (s ∷ sources)

    abbrev pub with_static : Result Source → List Source → Result (List Source)
    with_static (err e) rest = err e
    with_static (ok s) rest = ok (s ∷ rest)

    abbrev pub build_from : Option StaticSource → List Source → Result (List Source)
    build_from none rest = check_built rest
    build_from (some s) rest = with_static (new_static s.routes) rest

    -- `Build`
    unfoldable pub build : Config.Source → Result (List Source)
    build cfg = build_from cfg.static (others cfg)

  -- What the loop of `Collect` carries.
  pub record Collector : Type 0 where
    pub set : RouteSet
    pub errs : List Error

  abbrev pub new_collector : Collector
  new_collector = record { set = new_set; errs = [] }

  -- One round: the routes of a source that fails are dropped.
  unfoldable pub gather : Text → Fetched → Collector → Collector
  gather name (found, some e) c = record c {
    errs = c.errs ++ (wrapf "source %s: %w" (name ∷ []) e ∷ []);
  }
  gather name (found, none) c = record c { set = add_all found c.set }

  unfoldable pub collect_all : List Source → Collector → World → Collector × World
  collect_all [] c w = (c, w)
  collect_all (s ∷ sources) c w =
      let (found, w') = s.fetch w in collect_all sources (gather s.name found c) w'

  -- `Collect`
  unfoldable pub collect : List Source → World → Fetched × World
  collect sources w =
      let (c, w') = collect_all sources new_collector w in ((sorted c.set, join c.errs), w')
