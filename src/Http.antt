-- ===== src/Http.antt =====
-- What internal/cloud/yandex takes of the machine: its HTTP client, its clock and its environment. They
-- are parameters. A context is known by its deadline; a cancelled one is up to the client.
use cloud_route_manager.Base.{ℕ, ◌+◌, ltb, if◌then◌else◌, Text, Option, none, some, Error, Result}
use cloud_route_manager.Base.Maps.{Map}

-- The deadline of a context, in nanoseconds.
abbrev pub Context : Type 0
Context = Option ℕ

-- `context.WithTimeout`, at a time.
unfoldable pub with_timeout : Context → ℕ → ℕ → Context
with_timeout none timeout now = some (now + timeout)
with_timeout (some d) timeout now = some (if ltb d (now + timeout) then d else now + timeout)

-- `http.NewRequestWithContext`, with the headers that were set.
pub record Request : Type 0 where
  pub context : Context
  pub method : Text
  pub url : Text
  pub headers : Map Text Text
  pub body : Option Text

-- `read_all n` is `io.ReadAll(io.LimitReader(resp.Body, n))`.
pub record Response : Type 0 where
  pub status_code : ℕ
  pub status : Text
  pub read_all : ℕ → Result Text

-- `check_url` is the error of `http.NewRequestWithContext`, `send` is `http.Client.Do`.
pub record Host : Type 1 where
  pub World : Type 0
  pub getenv : Text → Text
  pub now : World → ℕ
  pub check_url : Text → Option Error
  pub send : Request → World → Result Response × World
