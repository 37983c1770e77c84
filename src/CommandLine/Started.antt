-- ===== src/CommandLine/Started.antt =====
-- main.go: the ways that `run` can end.
use cloud_route_manager.Base.{
  ◌≡◌, refl, Text, codes, true, false, ◌++◌, List, Option, none, some, Error, Result, ok, err,
  if_elim,
}
use cloud_route_manager.Config.{Config, validate}
use cloud_route_manager.Config.Accepted.{IsUsable, validate_iff}
use cloud_route_manager.Config.Decoding.{load}
use cloud_route_manager.CommandLine.{
  Options, apply_to, Program, version_line, serve, settled, loaded, parsed, run,
}

module _ (p : Program) where
  open p use {World, parse_flags, read_file, decode, print}

  -- The file that the options name, as it is loaded.
  abbrev pub file_config : Options → World → Result Config
  file_config o w = load decode (read_file w) o.config_path

  -- The ways to end: the flags cannot be parsed; the version is printed; the file cannot be loaded; it
  -- cannot be used with the overrides; it can, and only that is reported; or it can, and is served.
  pub data EndsAs (args : List Text) (w : World) : Option Error × World → Type 0 where
    bad_flags : (e : Error) → parse_flags args ≡ err e → EndsAs args w (some e, w)
    version_printed :
        (o : Options)
        → parse_flags args ≡ ok o
        → o.version ≡ true
        → EndsAs args w (none, print (version_line p) w)
    bad_file :
        (o : Options) (e : Error)
        → parse_flags args ≡ ok o
        → o.version ≡ false
        → file_config o w ≡ err e
        → EndsAs args w (some e, w)
    unusable :
        (o : Options) (c : Config) (e : Error)
        → parse_flags args ≡ ok o
        → o.version ≡ false
        → file_config o w ≡ ok c
        → validate (apply_to o c) ≡ some e
        → EndsAs args w (some e, w)
    checked :
        (o : Options) (c : Config)
        → parse_flags args ≡ ok o
        → o.version ≡ false
        → file_config o w ≡ ok c
        → IsUsable (apply_to o c)
        → o.check_config ≡ true
        → EndsAs args w (none, print (o.config_path ++ codes ": ok\n") w)
    served :
        (o : Options) (c : Config)
        → parse_flags args ≡ ok o
        → o.version ≡ false
        → file_config o w ≡ ok c
        → IsUsable (apply_to o c)
        → o.check_config ≡ false
        → EndsAs args w (serve p (apply_to o c) w)

  settled-ends :
      (args : List Text) (w : World) (o : Options) (c : Config) (v : Option Error)
      → parse_flags args ≡ ok o
      → o.version ≡ false
      → file_config o w ≡ ok c
      → validate (apply_to o c) ≡ v
      → EndsAs args w (settled p o (apply_to o c) v w)
  settled-ends args w o c (some e) f n l h = unusable o c e f n l h
  settled-ends args w o c none f n l h =
      let u = (validate_iff (apply_to o c)).0 h in
      if_elim (EndsAs args w) o.check_config (λ k. checked o c f n l u k)
        (λ k. served o c f n l u k)

  loaded-ends :
      (args : List Text) (w : World) (o : Options) (r : Result Config)
      → parse_flags args ≡ ok o
      → o.version ≡ false
      → file_config o w ≡ r
      → EndsAs args w (loaded p o r w)
  loaded-ends args w o (err e) f n l = bad_file o e f n l
  loaded-ends args w o (ok c) f n l = settled-ends args w o c (validate (apply_to o c)) f n l refl

  parsed-ends :
      (args : List Text) (w : World) (r : Result Options)
      → parse_flags args ≡ r
      → EndsAs args w (parsed p r w)
  parsed-ends args w (err e) f = bad_flags e f
  parsed-ends args w (ok o) f =
      if_elim (EndsAs args w) o.version (λ k. version_printed o f k)
        (λ k. loaded-ends args w o (file_config o w) f k refl)

  -- `run` ends in one of these ways. So the service starts only with a configuration that is usable with
  -- its overrides, and never where the version or the check of the file is asked for.
  pub run-EndsAs : (args : List Text) (w : World) → EndsAs args w (run p args w)
  unfolding run
  run-EndsAs args w = parsed-ends args w (parse_flags args) refl
