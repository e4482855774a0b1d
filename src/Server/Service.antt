-- ===== src/Server/Service.antt =====
-- server/service.go: the registry of the plugins, and what becomes of their statuses.
--
-- A runner is its status and its error. Each call is one step, a refresh too; its race with a
-- registration is left out. What Start and Stop of a plugin return is given to a refresh. The file of
-- a plugin is an adapter that was loaded: its name, and what its CatchUpSafe says, if it has one.
pub mod Registry
pub mod Guard
use iotex_analyser.Base.{
  ℕ, String, Bool, true, false, not, ◌&&◌, ◌||◌, Option, none, some, List, [], ◌∷◌, Result, ok, err,
  ◌==◌, string_eq, if◌then◌else◌,
}
use iotex_analyser.Base.GoMap.{GoMap, lookup, insert, has}
use iotex_analyser.Server.World.{
  PluginStatus, unload, loaded, start_ok, start_error, put_ok, put_error,
}

-- The fields of `runner` that the service reads.
pub record Slot : Type 0 where
  pub status : PluginStatus
  pub failure : Option String

-- `activeRunners`
abbrev pub Registry : Type 0
Registry = GoMap String Slot

pub record AdapterFile : Type 0 where
  pub name : String
  pub catch_up_safe : Option Bool

-- config.Default.Iotex
pub record CatchUp : Type 0 where
  pub catch_up_mode : Bool
  pub allow_plugins : List String

unfoldable pub is_listed : String → List String → Bool
is_listed name [] = false
is_listed name (n ∷ ns) = n == name || is_listed name ns

abbrev pub declares_safe : Option Bool → Bool
declares_safe none = false
declares_safe (some b) = b

-- `shouldSkipInCatchUp`
unfoldable pub should_skip_in_catch_up : CatchUp → AdapterFile → Bool
should_skip_in_catch_up cfg file =
    if not cfg.catch_up_mode
    then false
    else if is_listed file.name cfg.allow_plugins
    then false
    else not (declares_safe file.catch_up_safe)

-- `registerPlugin`
unfoldable pub register_plugin : String → Registry → Result String (Unit {0}) × Registry
register_plugin name reg =
    if has name reg
    then (err "has been registered", reg)
    else (ok tt, insert name (record { status = loaded; failure = none }) reg)

-- `Load`
unfoldable pub load : CatchUp → AdapterFile → Registry → Result String (Unit {0}) × Registry
load cfg file reg =
    if should_skip_in_catch_up cfg file then (ok tt, reg) else register_plugin file.name reg

-- `UpdateStatus` on the runner of a name.
unfoldable pub update_status : String → PluginStatus → Registry → Registry
update_status name status reg = elim (lookup name reg) [
  | none ↦ reg
  | some slot ↦ insert name (record slot { status = status }) reg
]

-- `UpdateError` on the runner of a name.
unfoldable pub update_error : String → Option String → Registry → Registry
update_error name failure reg = elim (lookup name reg) [
  | none ↦ reg
  | some slot ↦ insert name (record slot { failure = failure }) reg
]

-- `UnLoad`
unfoldable pub unload_plugin : String → Registry → Result String (Unit {0}) × Registry
unload_plugin name reg =
    if has name reg
    then (ok tt, update_status name unload reg)
    else (err "has not been registered", reg)

module _ (start stop : String → Result String (Unit {0})) where
  abbrev pub stopped : Slot → Result String (Unit {0}) → Option Slot
  stopped slot (ok u) = none
  stopped slot (err e) = some slot

  abbrev pub started : Result String (Unit {0}) → Option Slot
  started (ok u) = some (record { status = start_ok; failure = none })
  started (err e) = some (record { status = start_error; failure = some e })

  -- The switch of `pluginRefresh`; `none` is a name that is deleted.
  abbrev pub refresh_as : String → Slot → PluginStatus → Option Slot
  refresh_as name slot unload = stopped slot (stop name)
  refresh_as name slot loaded = started (start name)
  refresh_as name slot _ = some slot

  abbrev pub refresh_one : String → Slot → Option Slot
  refresh_one name slot = refresh_as name slot slot.status

  abbrev pub keep_slot : String → Option Slot → Registry → Registry
  keep_slot name none rest = rest
  keep_slot name (some slot) rest = (name, slot) ∷ rest

  -- `pluginRefresh`
  unfoldable pub plugin_refresh : Registry → Registry
  plugin_refresh [] = []
  plugin_refresh ((name, slot) ∷ reg) = keep_slot name (refresh_one name slot) (plugin_refresh reg)
