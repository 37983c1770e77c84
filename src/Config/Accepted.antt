-- ===== src/Config/Accepted.antt =====
-- internal/config/config.go: what a configuration that `Validate` accepts is.
use cloud_route_manager.Base.{
  ◌≡◌, refl, ℕ, ◌+◌, Text, Bool, true, false, not, List, [], ◌∷◌, arith, Option, none, some, Error,
  Result, ok, err, contains, is_empty, All, text_eq, ◌↔◌,
}
use cloud_route_manager.Base.Strings.{to_lower, trim_space}
use cloud_route_manager.LocalRoutes.Specs.{Spec, parse_specs}
use cloud_route_manager.Config.{
  Config, validate, severities, formats, clouds, configured, check_file, check_s3, check_ssm,
  check_metadata, check_specs, check_ids, checks, first_error, fail_unless, FileSource, S3Source,
  SsmSource, YandexMetaData,
}

abbrev pub FileComplete : Option FileSource → Type 0
FileComplete none = Unit
FileComplete (some s) = is_empty s.path ≡ false

abbrev pub S3Complete : Option S3Source → Type 0
S3Complete none = Unit
S3Complete (some s) = (is_empty s.bucket ≡ false) × (is_empty s.path ≡ false)

abbrev pub SsmComplete : Option SsmSource → Type 0
SsmComplete none = Unit
SsmComplete (some s) = is_empty s.path ≡ false

abbrev pub MetadataComplete : Option YandexMetaData → Type 0
MetadataComplete none = Unit
MetadataComplete (some s) = is_empty s.key ≡ false

-- The words are known, a source is configured, each configured source is complete, every local route
-- can be parsed, and there is a table and no table id is blank.
pub record IsUsable (c : Config) : Type 0 where
  pub severity : contains severities (to_lower c.general.log_severity) ≡ true
  pub format : contains formats (to_lower c.general.log_format) ≡ true
  pub cloud : contains clouds (to_lower c.general.cloud) ≡ true
  pub source : configured c.source ≡ true
  pub file : FileComplete c.source.file
  pub s3 : S3Complete c.source.s3
  pub ssm : SsmComplete c.source.aws_ssm
  pub metadata : MetadataComplete c.source.yandex_metadata
  pub specs : (ss : List Spec) × (parse_specs c.local_static_routes ≡ ok ss)
  pub some_table : is_empty c.route_table_ids ≡ false
  pub tables : All (λ id. is_empty (trim_space id) ≡ false) c.route_table_ids

file_complete : (o : Option FileSource) → (check_file o ≡ none) ↔ FileComplete o
file_complete none = (λ h. tt, λ h. refl)
file_complete (some s) = ground arith

s3_complete : (o : Option S3Source) → (check_s3 o ≡ none) ↔ S3Complete o
s3_complete none = (λ h. tt, λ h. refl)
s3_complete (some s) = ground arith

ssm_complete : (o : Option SsmSource) → (check_ssm o ≡ none) ↔ SsmComplete o
ssm_complete none = (λ h. tt, λ h. refl)
ssm_complete (some s) = ground arith

metadata_complete : (o : Option YandexMetaData) → (check_metadata o ≡ none) ↔ MetadataComplete o
metadata_complete none = (λ h. tt, λ h. refl)
metadata_complete (some s) = ground arith

specs_parsed : (r : Result (List Spec)) → (check_specs r ≡ none) ↔ ((ss : List Spec) × (r ≡ ok ss))
specs_parsed (ok ss) = (λ h. (ss, refl), λ h. refl)
specs_parsed (err e) = (λ h. cc h, λ h. cc (h.1))

ids_filled :
    (i : ℕ) (ids : List Text)
    → (check_ids i ids ≡ none) ↔ All (λ id. is_empty (trim_space id) ≡ false) ids
unfolding check_ids
ids_filled i [] = (λ h. tt, λ h. refl)
ids_filled i (id ∷ ids) = ground (arith, ids_filled (i + 1) ids)

first_error-none : (cs : List (Option Error)) → (first_error cs ≡ none) ↔ All (λ o. o ≡ none) cs
unfolding first_error
first_error-none [] = (λ h. tt, λ h. refl)
first_error-none (none ∷ cs) =
    (λ h. (refl, (first_error-none cs).0 h), λ h. (first_error-none cs).1 h.1)
first_error-none (some e ∷ cs) = (λ h. cc h, λ h. cc (h.0))

holds : (b : Bool) (e : Error) → (fail_unless b e ≡ none) ↔ (b ≡ true)
holds true e = (λ h. refl, λ h. refl)
holds false e = (λ h. cc h, λ h. cc h)

not-true : (b : Bool) → (not b ≡ true) ↔ (b ≡ false)
not-true b = ground arith

-- `Validate` accepts exactly the usable configurations.
pub validate_iff : (c : Config) → (validate c ≡ none) ↔ IsUsable c
unfolding validate
validate_iff c = (
  λ h.
      let (a, (b, (d, (f, (g, (i, (j, (k, (l, (m, (n, u))))))))))) =
        (first_error-none (checks c)).0 h in
      record {
        severity = (holds _ _).0 a;
        format = (holds _ _).0 b;
        cloud = (holds _ _).0 d;
        source = (holds _ _).0 f;
        file = (file_complete c.source.file).0 g;
        s3 = (s3_complete c.source.s3).0 i;
        ssm = (ssm_complete c.source.aws_ssm).0 j;
        metadata = (metadata_complete c.source.yandex_metadata).0 k;
        specs = (specs_parsed (parse_specs c.local_static_routes)).0 l;
        some_table = (not-true _).0 ((holds _ _).0 m);
        tables = (ids_filled 0 c.route_table_ids).0 n;
      },
  λ v. (first_error-none (checks c)).1 (
    (holds _ _).1 v.severity,
    (
      (holds _ _).1 v.format,
      (
        (holds _ _).1 v.cloud,
        (
          (holds _ _).1 v.source,
          (
            (file_complete c.source.file).1 v.file,
            (
              (s3_complete c.source.s3).1 v.s3,
              (
                (ssm_complete c.source.aws_ssm).1 v.ssm,
                (
                  (metadata_complete c.source.yandex_metadata).1 v.metadata,
                  (
                    (specs_parsed (parse_specs c.local_static_routes)).1 v.specs,
                    (
                      (holds _ _).1 ((not-true _).1 v.some_table),
                      ((ids_filled 0 c.route_table_ids).1 v.tables, tt),
                    ),
                  ),
                ),
              ),
            ),
          ),
        ),
      ),
    ),
  ),
)
