-- ===== src/Logging.antt =====
-- internal/logging/logging.go: where the log goes, from which level on, and in which format. Opening a
-- file is a parameter.
pub mod Levels
use cloud_route_manager.Base.{
  Text, text_eq, codes, Bool, true, false, ◌||◌, List, [], ◌∷◌, ◌==◌, if◌then◌else◌, Option, none,
  some, Error, wrapf, Result, ok, err, contains,
}
use cloud_route_manager.Base.Strings.{trim_space, to_lower, equal_fold}
use cloud_route_manager.Config.{General}

pub data Level : Type 0 where
  debug info warn error : Level

pub data Writer : Type 0 where
  stdout stderr : Writer
  file : Text → Writer

-- The logger: the handler's format, its writer and its level. The closer is the file, if there is one.
pub record Logger : Type 0 where
  pub writer : Writer
  pub level : Level
  pub json : Bool

-- The switch of `Level`.
unfoldable pub level_by : Text → Level
level_by word =
    if word == codes "debug"
    then debug
    else if word == codes "warn" || word == codes "warning"
    then warn
    else if word == codes "error"
    then error
    else info

-- `Level`
unfoldable pub level_of : Text → Level
level_of name = level_by (to_lower (trim_space name))

-- The error of `os.OpenFile` ends the function.
abbrev pub opened : Text → Option Error → Result Writer
opened dest (some e) = err (wrapf "open log file: %w" [] e)
opened dest none = ok (file dest)

unfoldable pub writer_of : (Text → Option Error) → Text → Result Writer
writer_of open_file log_file =
    let dest = trim_space log_file in
    let word = to_lower dest in
    if contains ([] ∷ codes "stdout" ∷ codes "-" ∷ []) word
    then ok stdout
    else if word == codes "stderr"
    then ok stderr
    else opened dest (open_file dest)

abbrev pub with_writer : General → Result Writer → Result Logger
with_writer g (err e) = err e
with_writer g (ok w) = ok (record {
  writer = w;
  level = level_of g.log_severity;
  json = equal_fold g.log_format (codes "json");
})

-- `New`
unfoldable pub new_logger : (Text → Option Error) → General → Result Logger
new_logger open_file g = with_writer g (writer_of open_file g.log_file)
