-- ===== src/Cloud.antt =====
-- internal/cloud/cloud.go: the changes that a manager reports.
pub mod Changes
pub mod Detection
use cloud_route_manager.Base.{
  ℕ, Text, text_eq, codes, Bool, true, false, not, List, [], ◌∷◌, ◌++◌, ◌==◌, if◌then◌else◌,
  is_empty, Option, Error,
}

-- `Provider`; the type of the source is a text, with these two values.
pub data Provider : Type 0 where
  aws yandex : Provider

abbrev pub provider_string : Provider → Text
provider_string aws = codes "aws"
provider_string yandex = codes "yandex"

-- `Action`
pub data Action : Type 0 where
  create replace noop delete : Action

abbrev pub action_string : Action → Text
action_string create = codes "create"
action_string replace = codes "replace"
action_string noop = codes "noop"
action_string delete = codes "delete"

-- `Change`
pub record Change : Type 0 where
  pub table : Text
  pub prefix : Text
  pub action : Action
  pub prev_next_hop : Text

-- `Change.String`
unfoldable pub change_string : Change → Text
change_string c =
    let head = action_string c.action ++ (codes " " ++ (c.prefix ++ (codes " in " ++ c.table))) in
    if is_empty c.prev_next_hop
    then head
    else head ++ (codes " (was " ++ (c.prev_next_hop ++ codes ")"))

abbrev pub is_noop : Action → Bool
is_noop noop = true
is_noop _ = false

-- `Applied`
unfoldable pub applied : List Change → List Change
applied [] = []
applied (c ∷ cs) = let rest = applied cs in if is_noop c.action then rest else c ∷ rest

-- What `Sync` returns: the changes, and an error beside them.
abbrev pub Report : Type 0
Report = List Change × Option Error
