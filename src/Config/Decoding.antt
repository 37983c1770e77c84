-- ===== src/Config/Decoding.antt =====
-- internal/config/config.go: `UnmarshalYAML` of `Duration`, `Parse` and `Load`. The YAML decoder and
-- the file system are parameters.
pub mod Numbers
pub mod Bounds
pub mod Loading
use cloud_route_manager.Base.{
  ℕ, Text, [], ◌∷◌, Option, none, some, Error, errorf, wrapf, wrap_err, Result, ok, err, ◌>>=◌,
}
use cloud_route_manager.Base.Strings.{trim_space}
use cloud_route_manager.Time.{Duration, times, second, parse_duration, scan_int}
use cloud_route_manager.Config.{Config, defaults, validate}

module _ (float_product : ℕ → ℕ → ℕ → ℕ) where
  -- A bare number is read as seconds.
  abbrev pub from_scanned : Text → Option Duration → Result Duration
  from_scanned raw (some secs) = ok (times secs second)
  from_scanned raw none =
      err (wrapf "invalid duration %q: %w" (raw ∷ []) (errorf "time: invalid duration" []))

  abbrev pub from_parsed : Text → Option Duration → Result Duration
  from_parsed raw (some d) = ok d
  from_parsed raw none = from_scanned raw (scan_int raw)

  -- A text that is empty leaves the duration as it was.
  abbrev pub from_trimmed : Text → Duration → Result Duration
  from_trimmed [] old = ok old
  from_trimmed (c ∷ s) old = from_parsed (c ∷ s) (parse_duration float_product (c ∷ s))

  -- `UnmarshalYAML`, from the result of `node.Decode(&raw)` and the duration before the call.
  unfoldable pub unmarshal : Result Text → Duration → Result Duration
  unmarshal (err e) old = err e
  unmarshal (ok raw) old = from_trimmed (trim_space raw) old

abbrev pub unless_invalid : Config → Option Error → Result Config
unless_invalid c none = ok c
unless_invalid c (some e) = err e

module _
    (
      -- `Decode` of a YAML decoder that takes known fields only, at a configuration that it fills.
      decode : Text → Config → Result Config) where
  -- `Parse`
  unfoldable pub parse : Text → Result Config
  parse text =
      wrap_err "parse config: %w" [] (decode text defaults) >>= λ c. unless_invalid c (validate c)

  -- `Load`
  unfoldable pub load : (Text → Result Text) → Text → Result Config
  unfolding parse
  load read_file path = wrap_err "read config: %w" [] (read_file path) >>= parse
