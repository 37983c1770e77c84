-- ===== src/Config.antt =====
-- internal/config/config.go: the configuration and its validation.
pub mod Accepted
pub mod Decoding
use cloud_route_manager.Base.{
  ℕ, ◌+◌, ◌*◌, Text, text_eq, codes, Bool, true, false, not, ◌&&◌, ◌||◌, List, [], ◌∷◌, ◌==◌,
  if◌then◌else◌, is_empty, is_some, Option, none, some, Error, errorf, wrapf, Result, ok, err,
  contains,
}
use cloud_route_manager.Base.Decimal.{itoa}
use cloud_route_manager.Base.Strings.{to_lower, trim_space}
use cloud_route_manager.Time.{Duration, nanoseconds, second}
use cloud_route_manager.LocalRoutes.Specs.{Spec, parse_specs}

-- `General`
pub record General : Type 0 where
  pub interval : Duration
  pub log_severity : Text
  pub log_file : Text
  pub log_format : Text
  pub dry_run : Bool
  pub cloud : Text
  pub interface : Text
  pub ip_address : Text
  pub timeout : Duration
  pub action_timeout : Duration
  pub remove_stale_local_routes : Bool

-- `StaticSource`, `FileSource`, `S3Source`, `SSMSource`, `YandexMetaData`
pub record StaticSource : Type 0 where
  pub routes : List Text

pub record FileSource : Type 0 where
  pub path : Text
  pub optional : Bool

pub record S3Source : Type 0 where
  pub region : Text
  pub bucket : Text
  pub path : Text
  pub endpoint : Text
  pub use_path_style : Bool

pub record SsmSource : Type 0 where
  pub region : Text
  pub path : Text

pub record YandexMetaData : Type 0 where
  pub key : Text

-- `Source`; a pointer that is nil is `none`.
pub record Source : Type 0 where
  pub static : Option StaticSource
  pub file : Option FileSource
  pub s3 : Option S3Source
  pub aws_ssm : Option SsmSource
  pub yandex_metadata : Option YandexMetaData

-- `Actions`
pub record Actions : Type 0 where
  pub success : List Text
  pub failed : List Text
  pub run_on_start : Bool

-- `Config`; `Destination` has the one field `route_table_ids`.
pub record Config : Type 0 where
  pub general : General
  pub source : Source
  pub local_static_routes : List Text
  pub route_table_ids : List Text
  pub actions : Actions

-- `Defaults`
abbrev pub defaults : Config
defaults = record {
  general = record {
    interval = nanoseconds (10 * 60 * second);
    log_severity = codes "info";
    log_file = codes "stdout";
    log_format = codes "text";
    dry_run = false;
    cloud = codes "auto";
    interface = [];
    ip_address = [];
    timeout = nanoseconds (2 * 60 * second);
    action_timeout = nanoseconds (60 * second);
    remove_stale_local_routes = false;
  };
  source = record { static = none; file = none; s3 = none; aws_ssm = none; yandex_metadata = none };
  local_static_routes = [];
  route_table_ids = [];
  actions = record { success = []; failed = []; run_on_start = false };
}

-- `Source.configured`
unfoldable pub configured : Source → Bool
configured s =
    is_some s.static
    || is_some s.file
    || is_some s.s3
    || is_some s.aws_ssm
    || is_some s.yandex_metadata

abbrev pub severities : List Text
severities = codes "debug" ∷ codes "info" ∷ codes "warn" ∷ codes "warning" ∷ codes "error" ∷ []

abbrev pub formats : List Text
formats = codes "text" ∷ codes "json" ∷ []

abbrev pub clouds : List Text
clouds = codes "auto" ∷ codes "aws" ∷ codes "yandex" ∷ [] ∷ []

-- The checks of the sources. Each is the error of a source that is configured and incomplete.
abbrev pub check_file : Option FileSource → Option Error
check_file none = none
check_file (some s) =
    if is_empty s.path then some (errorf "source.file.path: must not be empty" []) else none

abbrev pub check_s3 : Option S3Source → Option Error
check_s3 none = none
check_s3 (some s) =
    if is_empty s.bucket || is_empty s.path
    then some (errorf "source.s3: bucket and path are required" [])
    else none

abbrev pub check_ssm : Option SsmSource → Option Error
check_ssm none = none
check_ssm (some s) =
    if is_empty s.path then some (errorf "source.aws-ssm.path: must not be empty" []) else none

abbrev pub check_metadata : Option YandexMetaData → Option Error
check_metadata none = none
check_metadata (some s) =
    if is_empty s.key
    then some (errorf "source.yandex-instance-metadata.key: must not be empty" [])
    else none

abbrev pub check_specs : Result (List Spec) → Option Error
check_specs (ok specs) = none
check_specs (err e) = some (wrapf "local-static-routes: %w" [] e)

-- The loop over the table ids, from an index on.
unfoldable pub check_ids : ℕ → List Text → Option Error
check_ids i [] = none
check_ids i (id ∷ ids) =
    let rest = check_ids (i + 1) ids in
    if is_empty (trim_space id)
    then some (errorf "destination.route-table-ids[%d]: must not be empty" (itoa i ∷ []))
    else rest

abbrev pub fail_unless : Bool → Error → Option Error
fail_unless true e = none
fail_unless false e = some e

-- The first check that returns an error ends the function.
unfoldable pub first_error : List (Option Error) → Option Error
first_error [] = none
first_error (none ∷ checks) = first_error checks
first_error (some e ∷ checks) = some e

-- The checks of `Validate`, in their order.
abbrev pub checks : Config → List (Option Error)
checks c =
    fail_unless (contains severities (to_lower c.general.log_severity)) (
      errorf "general.log-severity: must be debug, info, warn or error, got %q"
        (c.general.log_severity ∷ []))
    ∷ fail_unless (contains formats (to_lower c.general.log_format))
        (errorf "general.log-format: must be text or json, got %q" (c.general.log_format ∷ []))
    ∷ fail_unless (contains clouds (to_lower c.general.cloud))
        (errorf "general.cloud: must be auto, aws or yandex, got %q" (c.general.cloud ∷ []))
    ∷ fail_unless (configured c.source) (errorf "source: at least one source must be configured" [])
    ∷ check_file c.source.file
    ∷ check_s3 c.source.s3
    ∷ check_ssm c.source.aws_ssm
    ∷ check_metadata c.source.yandex_metadata
    ∷ check_specs (parse_specs c.local_static_routes)
    ∷ fail_unless (not (is_empty c.route_table_ids))
        (errorf "destination.route-table-ids: must not be empty" [])
    ∷ check_ids 0 c.route_table_ids
    ∷ []

-- `Validate`
unfoldable pub validate : Config → Option Error
validate c = first_error (checks c)
