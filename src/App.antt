-- ===== src/App.antt =====
-- internal/app/app.go: `New`, and the cycle. The machine that the program runs on, the cloud manager
-- and the manager of local routes are parameters, as they are interface values in the source. Logging,
-- timeouts and signals are left out.
pub mod Running
pub mod Providers
pub mod DryRun
pub mod Errorless
pub mod Delivery
pub mod Made
use Prim.Native.Nat.{◌-◌, ◌%◌, ◌^◌}
use cloud_route_manager.Base.{
  ℕ, ◌+◌, ◌*◌, Text, codes, Bool, true, false, not, ◌&&◌, ◌||◌, List, [], ◌∷◌, ◌++◌, Option, none,
  some, Error, errorf, wrapf, join, to_list, Result, ok, err, if◌then◌else◌, is_empty, ltb, length,
}
use cloud_route_manager.Netip.{Addr, is_valid, addr_string, Prefix}
use cloud_route_manager.Routes.{strings}
use cloud_route_manager.Cloud.{Change, Report, applied, Provider, provider_string}
use cloud_route_manager.Time.{Duration, negative, nanoseconds, wrapped, second}
use cloud_route_manager.Actions.{Vars}
use cloud_route_manager.NetInfo.{Primary}
use cloud_route_manager.Config.{Config, General, Actions}
use cloud_route_manager.LocalRoutes.Specs.{Spec, parse_specs}
use cloud_route_manager.Source.{Source, Fetched, Clients, build, collect}

-- A call that returns, or that panics: a method that reads a field of a nil pointer.
pub data Outcome {ℓ} (A : Type ℓ) : Type ℓ where
  returns : A → Outcome A
  panics : Outcome A

-- The field `local`. An interface value is nil if it has no type; a nil pointer put into it has one.
pub data LocalField : Type 0 where
  nil_interface : LocalField
  nil_pointer : LocalField
  manager : LocalField

-- `local` in `New`: a pointer that is nil unless there is something to do.
unfoldable pub new_local : List Spec → Bool → LocalField
new_local specs stale = if not (is_empty specs) || stale then manager else nil_pointer

-- What `cycle` returns: whether it changed anything, the prefixes, the interface and an error.
pub record Cycle : Type 0 where
  pub changed : Bool
  pub prefixes : List Prefix
  pub primary : Primary
  pub error : Option Error

-- `errors.Join(a, b)`
abbrev pub join_two : Option Error → Option Error → Option Error
join_two a b = join (to_list a ++ to_list b)

module _ (World : Type 0) where
  -- `cloud.Manager`, `localroutes.Manager.Sync`, `netinfo.Detect`, which may give a part of its result
  -- beside an error, and `actions.Runner.Run`.
  pub record Machine : Type 0 where
    pub provider : Provider
    pub cloud_sync : List Text → List Prefix → Addr → Bool → World → Report × World
    pub local_sync : List Spec → Bool → Bool → World → Report × World
    pub detect : Text → Text → World → (Primary × Option Error) × World
    pub run_actions : Text → List Text → Vars → World → Option Error × World

  -- `App`, without its channel.
  pub record App : Type 0 where
    pub cfg : Config
    pub sources : List (Source World)
    pub local : LocalField
    pub local_specs : List Spec
    pub first_cycle : Bool

  abbrev pub with_specs : Config → List (Source World) → Result (List Spec) → Result App
  with_specs cfg sources (err e) = err (wrapf "local-static-routes: %w" [] e)
  with_specs cfg sources (ok specs) = ok (record {
    cfg = cfg;
    sources = sources;
    local = new_local specs cfg.general.remove_stale_local_routes;
    local_specs = specs;
    first_cycle = true;
  })

  abbrev pub with_sources : Config → Result (List (Source World)) → Result App
  with_sources cfg (err e) = err e
  with_sources cfg (ok sources) = with_specs cfg sources (parse_specs cfg.local_static_routes)

  -- `New`, for a cloud whose manager could be made.
  unfoldable pub new_app : Clients World → Config → Result App
  new_app clients cfg = with_sources cfg (build World clients cfg.source)

  -- `logChanges`
  unfoldable pub log_changes : App → List Change → Bool
  log_changes a cs = not (is_empty (applied cs)) && not a.cfg.general.dry_run

  module _ (m : Machine) where
    open m use {provider, cloud_sync, local_sync, detect, run_actions}

    abbrev pub local_result : App → Report × World → (Bool × Option Error) × World
    local_result a ((cs, none), w) = ((log_changes a cs, none), w)
    local_result a ((cs, some e), w) =
        ((log_changes a cs, some (wrapf "local static routes: %w" [] e)), w)

    abbrev pub sync_field : LocalField → App → World → Outcome ((Bool × Option Error) × World)
    sync_field nil_interface a w = returns ((false, none), w)
    sync_field nil_pointer a w = panics
    sync_field manager a w = returns (
        local_result a (
          local_sync a.local_specs a.cfg.general.remove_stale_local_routes a.cfg.general.dry_run w))

    -- `syncLocal`
    unfoldable pub sync_local : App → World → Outcome ((Bool × Option Error) × World)
    sync_local a w = sync_field a.local a w

    -- `syncCloud`, behind `Collect`: the routes, whether they changed anything, and an error.
    unfoldable pub sync_collected :
        App → Primary → Fetched × World → (List Prefix × Bool × Option Error) × World
    sync_collected a primary (([], some e), w) =
        (([], false, some (wrapf "no routes collected: %w" [] e)), w)
    sync_collected a primary (([], none), w) =
        (([], false, some (errorf "no routes found in any configured source" [])), w)
    sync_collected a primary ((p ∷ ps, source_error), w) =
        let (r, w') =
          cloud_sync a.cfg.route_table_ids (p ∷ ps) primary.ip a.cfg.general.dry_run w in
        ((p ∷ ps, log_changes a r.0, join_two source_error r.1), w')

    unfoldable pub sync_cloud : App → Primary → World → (List Prefix × Bool × Option Error) × World
    sync_cloud a primary w = sync_collected a primary (collect World a.sources w)

    abbrev pub both_halves :
        Primary → Bool × Option Error → (List Prefix × Bool × Option Error) × World → Cycle × World
    both_halves primary (local_changed, local_error) ((prefixes, cloud_changed, cloud_error), w) = (
      record {
        changed = local_changed || cloud_changed;
        prefixes = prefixes;
        primary = primary;
        error = join_two local_error cloud_error;
      },
      w,
    )

    abbrev pub behind_local :
        App → Primary → Outcome ((Bool × Option Error) × World) → Outcome (Cycle × World)
    behind_local a primary panics = panics
    behind_local a primary (returns (r, w)) =
        returns (both_halves primary r (sync_cloud a primary w))

    abbrev pub behind_detect : App → (Primary × Option Error) × World → Outcome (Cycle × World)
    behind_detect a ((primary, some e), w) = returns (
      record {
        changed = false;
        prefixes = [];
        primary = primary;
        error = some (wrapf "detect primary interface: %w" [] e);
      },
      w,
    )
    behind_detect a ((primary, none), w) = behind_local a primary (sync_local a w)

    -- `cycle`
    unfoldable pub cycle : App → World → Outcome (Cycle × World)
    cycle a w = behind_detect a (detect a.cfg.general.interface a.cfg.general.ip_address w)

    unfoldable pub vars_of : Cycle → Vars
    vars_of c = record {
      routes = strings c.prefixes;
      ip_address = if is_valid c.primary.ip then addr_string c.primary.ip else [];
      interface = c.primary.interface;
      cloud = provider_string provider;
    }

    -- The actions that a cycle is followed by: their kind and their commands.
    unfoldable pub actions_of : App → Bool → Cycle → Option (Text × List Text)
    actions_of a first c = elim c.error [
      | some e ↦ some (codes "failed", a.cfg.actions.failed)
      | none ↦
          if c.changed || (first && a.cfg.actions.run_on_start)
          then some (codes "success", a.cfg.actions.success)
          else none
    ]

    -- Runs them; their own error is only logged.
    abbrev pub run_chosen : Option (Text × List Text) → Vars → World → World
    run_chosen none vars w = w
    run_chosen (some (kind, commands)) vars w = (run_actions kind commands vars w).1

    abbrev pub after_cycle : App → Outcome (Cycle × World) → Outcome (Option Error × App × World)
    after_cycle a panics = panics
    after_cycle a (returns (c, w)) = returns (
      c.error,
      record a { first_cycle = false },
      run_chosen (actions_of a a.first_cycle c) (vars_of c) w,
    )

    -- `RunOnce`, with the error that it returns.
    unfoldable pub run_once : App → World → Outcome (Option Error × App × World)
    run_once a w = after_cycle a (cycle a w)

abbrev pub minute : ℕ
minute = 60 * second

abbrev per_action : Duration → ℕ
per_action (negative n) = minute
per_action (nanoseconds n) = if ltb 0 n then n else minute

abbrev at_least_one : ℕ → ℕ
at_least_one n = if ltb 0 n then n else 1

-- `actionsBudget`
unfoldable pub actions_budget : Config → Duration
actions_budget c = wrapped (
    per_action c.general.action_timeout
    * at_least_one (length c.actions.success + length c.actions.failed))
