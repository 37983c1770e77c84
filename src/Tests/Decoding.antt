-- ===== src/Tests/Decoding.antt =====
-- The theorems on durations and on `Load` at examples.
use cloud_route_manager.Base.{
  ◌≡◌, refl, ℕ, ◌*◌, arith, Text, text_eq, codes, ◌++◌, none, some, Result, ok,
}
use cloud_route_manager.Base.Decimal.{itoa}
use cloud_route_manager.Base.Maps.{lookup}
use cloud_route_manager.Base.Strings.{
  is_space, trim_space, trim_left, trim_right, to_lower, to_lower_char,
}
use cloud_route_manager.Time.{nanoseconds, wrapped, second, unit_map}
use cloud_route_manager.Config.{Config, defaults, validate, first_error, configured, check_ids}
use cloud_route_manager.LocalRoutes.Specs.{parse_specs}
use cloud_route_manager.Config.Accepted.{IsUsable}
use cloud_route_manager.Config.Decoding.{unmarshal, load, parse}
use cloud_route_manager.Config.Decoding.Numbers.{IsTail, unmarshal-seconds}
use cloud_route_manager.Config.Decoding.Loading.{load-IsUsable}
use cloud_route_manager.Tests.Config.{example}

abbrev no_floats : ℕ → ℕ → ℕ → ℕ
no_floats f digits unit = 0

d-IsTail : IsTail (codes "d")
unfolding is_space
d-IsTail = (((refl, refl), refl), tt)

d_unknown : lookup (codes "d") unit_map ≡ none
unfolding lookup unit_map text_eq
d_unknown = refl

s-IsTail : IsTail (codes "s")
unfolding is_space
s-IsTail = (((refl, refl), refl), tt)

s_known : lookup (codes "s") unit_map ≡ some second
unfolding lookup unit_map text_eq
s_known = refl

unmarshal-seconds_example :
    unmarshal no_floats (ok (itoa 1 ++ codes "d")) (nanoseconds 0) ≡ ok (wrapped (1 * second))
unmarshal-seconds_example =
    unmarshal-seconds no_floats 1 (codes "d") (nanoseconds 0) d-IsTail d_unknown (omega arith)

-- A decoder that knows one configuration.
abbrev decode_example : Text → Config → Result Config
decode_example text c = ok example

abbrev read_example : Text → Result Text
read_example path = ok (codes "source: ...")

example_loaded : load decode_example read_example (codes "config.yml") ≡ ok example
unfolding load parse validate first_error configured check_ids parse_specs to_lower to_lower_char
    trim_space trim_left trim_right is_space text_eq
example_loaded = refl

load-IsUsable_example :
    (text : Text) × (read_example (codes "config.yml") ≡ ok text)
    × (decode_example text defaults ≡ ok example)
    × IsUsable example
load-IsUsable_example =
    load-IsUsable decode_example read_example (codes "config.yml") example example_loaded
