-- ===== src/Tests/Config.antt =====
-- The theorem on `Validate` at an example.
use cloud_route_manager.Base.{◌≡◌, none, some, true, codes, [], ◌∷◌, ◌↔◌}
use cloud_route_manager.Config.{Config, defaults, validate}
use cloud_route_manager.Config.Accepted.{IsUsable, validate_iff}

abbrev pub example : Config
example = record defaults {
  source = record {
    static = none;
    file = some (record { path = codes "/etc/routes"; optional = true });
    s3 = none;
    aws_ssm = none;
    yandex_metadata = none;
  };
  route_table_ids = codes "rtb-1" ∷ [];
}

validate_iff_example : (validate example ≡ none) ↔ IsUsable example
validate_iff_example = validate_iff example
