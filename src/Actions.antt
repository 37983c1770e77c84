-- ===== src/Actions.antt =====
-- internal/actions/actions.go: the commands that run behind a cycle, and the placeholders in them. The
-- shell, the clock and the environment are parameters. Logging is left out.
pub mod Placeholders
pub mod Runs
use cloud_route_manager.Base.{
  ℕ, zero, suc, ◌+◌, Text, codes, Bool, true, false, ◌&&◌, ◌||◌, ◌=ℕ◌, ltb, leb, List, [], ◌∷◌,
  ◌++◌, length, is_empty, if◌then◌else◌, Option, none, some, Error, wrapf, join, to_list, text_eq,
}
use mathlib.Core.Option
use cloud_route_manager.Base.Decimal.{itoa, is_digit}
use cloud_route_manager.Base.Maps.{Map, lookup}
use cloud_route_manager.Base.Strings.{join_texts}
use cloud_route_manager.Time.{Duration, negative, nanoseconds}
use cloud_route_manager.Http.{Context, with_timeout}

-- `Vars`
pub record Vars : Type 0 where
  pub routes : List Text
  pub ip_address : Text
  pub interface : Text
  pub cloud : Text

-- `substitutions`
abbrev pub substitutions : Vars → Map Text Text
substitutions v =
    (codes "routes", join_texts (codes ",") v.routes)
    ∷ (codes "ip-address", v.ip_address)
    ∷ (codes "ip_address", v.ip_address)
    ∷ (codes "interface", v.interface)
    ∷ (codes "cloud", v.cloud)
    ∷ (codes "routes-count", itoa (length v.routes))
    ∷ []

-- `env`
abbrev pub env : List Text → Vars → List Text
env environ v =
    environ
    ++ ((codes "CRM_ROUTES=" ++ join_texts (codes ",") v.routes)
        ∷ (codes "CRM_IP_ADDRESS=" ++ v.ip_address)
        ∷ (codes "CRM_INTERFACE=" ++ v.interface)
        ∷ (codes "CRM_CLOUD=" ++ v.cloud)
        ∷ [])

-- Go's `isShellSpecialVar` and `isAlphaNum`.
abbrev pub special_var : ℕ → Bool
special_var c =
    c =ℕ b'*'
    || c =ℕ b'#'
    || c =ℕ b'$'
    || c =ℕ b'@'
    || c =ℕ b'!'
    || c =ℕ b'?'
    || c =ℕ b'-'
    || is_digit c

abbrev pub alpha_num : ℕ → Bool
alpha_num c = c =ℕ b'_' || is_digit c || (leb b'a' c && leb c b'z') || (leb b'A' c && leb c b'Z')

-- The letters, digits and underscores at the head of a text.
unfoldable pub alpha_prefix : Text → Text
alpha_prefix [] = []
alpha_prefix (c ∷ s) = let rest = alpha_prefix s in if alpha_num c then c ∷ rest else []

-- The text before the first closing brace.
unfoldable pub before_brace : Text → Option Text
before_brace [] = none
before_brace (c ∷ s) =
    let rest = before_brace s in if c =ℕ b'}' then some [] else Option.map (λ n. c ∷ n) rest

-- Behind an opening brace: a name, and how many characters with the brace it takes.
abbrev pub closed : Option Text → Text × ℕ
closed none = ([], 1)
closed (some []) = ([], 2)
closed (some (c ∷ n)) = (c ∷ n, length (c ∷ n) + 2)

abbrev pub braced : Text → Text × ℕ
braced (c ∷ d ∷ s) =
    if special_var c && d =ℕ b'}' then (c ∷ [], 3) else closed (before_brace (c ∷ d ∷ s))
braced s = closed (before_brace s)

-- Go's `getShellName`, on a text that is not empty.
unfoldable pub get_shell_name : Text → Text × ℕ
get_shell_name [] = ([], 0)
get_shell_name (c ∷ s) =
    if c =ℕ b'{'
    then braced s
    else if special_var c
    then (c ∷ [], 1)
    else (alpha_prefix (c ∷ s), length (alpha_prefix (c ∷ s)))

-- What stands for a dollar sign and its name. Bad syntax is dropped, and a dollar sign with no name kept.
abbrev pub value_of : (Text → Text) → Text × ℕ → Text
value_of mapping ([], suc w) = []
value_of mapping ([], zero) = codes "$"
value_of mapping (c ∷ n, w) = mapping (c ∷ n)

-- The loop of `os.Expand`. The number is how many characters of a name are still to be left out.
unfoldable pub os_expand : (Text → Text) → ℕ → Text → Text
os_expand mapping skip [] = []
os_expand mapping (suc skip) (c ∷ s) = os_expand mapping skip s
os_expand mapping zero (c ∷ []) = c ∷ []
os_expand mapping zero (c ∷ d ∷ s) =
    let plain = os_expand mapping 0 (d ∷ s) in
    let named = os_expand mapping (get_shell_name (d ∷ s)).1 (d ∷ s) in
    if c =ℕ b'$' then value_of mapping (get_shell_name (d ∷ s)) ++ named else c ∷ plain

-- The mapping of `Expand`: an unknown name is put back in braces.
abbrev pub or_kept : Text → Option Text → Text
or_kept key none = codes "${" ++ (key ++ codes "}")
or_kept key (some v) = v

unfoldable pub substitute : Vars → Text → Text
substitute vars key = or_kept key (lookup key (substitutions vars))

-- `Expand`
unfoldable pub expand : Text → Vars → Text
expand command vars = os_expand (substitute vars) 0 command

-- `exec` is `exec.CommandContext(ctx, shell, "-c", command)` with its environment, run to its end.
pub record Shell : Type 1 where
  pub World : Type 0
  pub now : World → ℕ
  pub environ : List Text
  pub exec : Context → Text → Text → List Text → World → Option Error × World

-- `Runner`
pub record Runner : Type 0 where
  pub timeout : Duration
  pub shell : Text

module _ (system : Shell) where
  open system use {World, now, environ, exec}

  abbrev pub command_context : Context → Duration → World → Context
  command_context ctx (nanoseconds (suc n)) w = with_timeout ctx (suc n) (now w)
  command_context ctx _ w = ctx

  abbrev pub shell_of : Text → Text
  shell_of [] = codes "/bin/sh"
  shell_of (c ∷ s) = c ∷ s

  -- A round of the loop: the command as it is run.
  unfoldable pub run_command : Runner → Context → Vars → Text → World → Option Error × World
  run_command r ctx vars raw w =
      exec (command_context ctx r.timeout w) (shell_of r.shell) (expand raw vars) (env environ vars)
        w

  unfoldable pub run_commands :
      Runner → Context → Vars → List Text → List Error → World → Option Error × World
  run_commands r ctx vars [] errs w = (join errs, w)
  run_commands r ctx vars (raw ∷ raws) errs w =
      let (e, w') = run_command r ctx vars raw w in
      run_commands r ctx vars raws
        (errs ++ to_list (Option.map (wrapf "action %q: %w" (expand raw vars ∷ [])) e)) w'

  -- `Run`
  unfoldable pub run : Runner → Context → List Text → Vars → World → Option Error × World
  run r ctx commands vars w =
      if is_empty commands then (none, w) else run_commands r ctx vars commands [] w
