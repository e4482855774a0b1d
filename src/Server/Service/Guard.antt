-- ===== src/Server/Service/Guard.antt =====
-- Which plugins are registered in catch-up mode (server/service.go, `shouldSkipInCatchUp`).
use iotex_analyser.Base.{
  String, Bool, true, false, not, ◌≡◌, refl, ◌⊎◌, inl, inr, Option, none, some, List, [], ◌∷◌,
  Result, ◌==◌, string_eq, Bool-cases, Option-cases, All, Any,
}
use iotex_analyser.Base.GoMap.{lookup, insert, has}
use iotex_analyser.Server.World.{PluginStatus, unload}
use iotex_analyser.Server.Service.{
  Slot, Registry, AdapterFile, CatchUp, is_listed, declares_safe, should_skip_in_catch_up,
  register_plugin, load, update_status, unload_plugin, refresh_one, plugin_refresh, update_error,
}
use iotex_analyser.Server.Service.Registry.{
  Event, loads, unloads, reports, refreshes, after_event, after_events,
}

module _ (cfg : CatchUp) where
  -- The plugin of the file may run: there is no catch-up mode, or it is listed, or it says it is safe.
  abbrev pub MayRun : AdapterFile → Type 0
  MayRun file =
      (cfg.catch_up_mode ≡ false)
      ⊎ ((is_listed file.name cfg.allow_plugins ≡ true) ⊎ (file.catch_up_safe ≡ some true))

  may_run : (file : AdapterFile) → should_skip_in_catch_up cfg file ≡ false → MayRun file
  unfolding should_skip_in_catch_up
  may_run file h = elim (Bool-cases cfg.catch_up_mode) [
    | inr off ↦ inl off
    | inl on ↦ elim (Bool-cases (is_listed file.name cfg.allow_plugins)) [
      | inl listed ↦ inr (inl listed)
      | inr unlisted ↦ inr (inr (safe_of file.catch_up_safe (rw (on, unlisted) at h)))
    ]
  ]
    where
      safe_of : (o : Option Bool) → not (declares_safe o) ≡ false → o ≡ some true
      safe_of none k = absurd cc
      safe_of (some true) k = refl
      safe_of (some false) k = absurd cc

  -- The event loads a plugin of the name that may run.
  abbrev pub Admits : String → Event → Type 0
  Admits name (loads file) = (file.name ≡ name) × MayRun file
  Admits name (unloads n) = ⊥
  Admits name (reports n status failure) = ⊥
  Admits name (refreshes start stop) = ⊥

  module _ (Allowed : String → Type 0) where
    abbrev AllAllowed : Registry → Type 0
    AllAllowed reg = All (λ (x : String × Slot). Allowed x.0) reg

    AllAllowed-insert :
        (name : String) (slot : Slot) (reg : Registry)
        → Allowed name
        → AllAllowed reg
        → AllAllowed (insert name slot reg)
    unfolding insert
    AllAllowed-insert name slot [] a h = (a, tt)
    AllAllowed-insert name slot ((n, s) ∷ reg) a (b, h) = elim (Bool-cases (n == name)) [
      | inl e ↦ rw e (b, h)
      | inr e ↦ rw e (b, AllAllowed-insert name slot reg a h)
    ]

    -- A change of a runner that is there.
    AllAllowed-reinsert :
        (name : String) (slot slot' : Slot) (reg : Registry)
        → lookup name reg ≡ some slot'
        → AllAllowed reg
        → AllAllowed (insert name slot reg)
    unfolding insert lookup
    AllAllowed-reinsert name slot slot' [] e h = absurd cc
    AllAllowed-reinsert name slot slot' ((n, s) ∷ reg) e (b, h) = elim (Bool-cases (n == name)) [
      | inl k ↦ rw k (b, h)
      | inr k ↦
          (let found : lookup name reg ≡ some slot' = rw k at e in
            rw k (b, AllAllowed-reinsert name slot slot' reg found h))
    ]

    update_status-AllAllowed :
        (name : String) (status : PluginStatus) (reg : Registry)
        → AllAllowed reg
        → AllAllowed (update_status name status reg)
    unfolding update_status
    update_status-AllAllowed name status reg h = elim (Option-cases (lookup name reg)) [
      | inl e ↦ rw (e, update_status) h
      | inr (slot, e) ↦
          rw (e, update_status)
            (AllAllowed-reinsert name (record slot { status = status }) slot reg e h)
    ]

    update_error-AllAllowed :
        (name : String) (failure : Option String) (reg : Registry)
        → AllAllowed reg
        → AllAllowed (update_error name failure reg)
    unfolding update_error
    update_error-AllAllowed name failure reg h = elim (Option-cases (lookup name reg)) [
      | inl e ↦ rw (e, update_error) h
      | inr (slot, e) ↦
          rw (e, update_error)
            (AllAllowed-reinsert name (record slot { failure = failure }) slot reg e h)
    ]

    refresh-AllAllowed :
        (start stop : String → Result String (Unit {0})) (reg : Registry)
        → AllAllowed reg
        → AllAllowed (plugin_refresh start stop reg)
    unfolding plugin_refresh
    refresh-AllAllowed start stop [] h = tt
    refresh-AllAllowed start stop ((n, s) ∷ reg) (a, h) =
        let rest = refresh-AllAllowed start stop reg h in
        elim (Option-cases (refresh_one start stop n s)) [
          | inl gone ↦ rw gone rest
          | inr (s', kept) ↦ rw kept (a, rest)
        ]

    load-AllAllowed :
        (file : AdapterFile) (reg : Registry)
        → (MayRun file → Allowed file.name)
        → AllAllowed reg
        → AllAllowed (load cfg file reg).1
    unfolding load register_plugin
    load-AllAllowed file reg a h = elim (Bool-cases (should_skip_in_catch_up cfg file)) [
      | inl skip ↦ rw (skip, load) h
      | inr through ↦
          rw (through, load)
            (elim (Bool-cases (has file.name reg)) [
              | inl there ↦ rw (there, register_plugin) h
              | inr fresh ↦
                  rw (fresh, register_plugin)
                    (AllAllowed-insert file.name _ reg (a (may_run file through)) h)
            ])
    ]

    unload_plugin-AllAllowed :
        (name : String) (reg : Registry) → AllAllowed reg → AllAllowed (unload_plugin name reg).1
    unfolding unload_plugin
    unload_plugin-AllAllowed name reg h = elim (Bool-cases (has name reg)) [
      | inl there ↦ rw (there, unload_plugin) (update_status-AllAllowed name unload reg h)
      | inr fresh ↦ rw (fresh, unload_plugin) h
    ]

    after_event-AllAllowed :
        (e : Event) (reg : Registry)
        → ((name : String) → Admits name e → Allowed name)
        → AllAllowed reg
        → AllAllowed (after_event cfg e reg)
    after_event-AllAllowed (loads file) reg a h =
        load-AllAllowed file reg (λ m. a file.name (refl, m)) h
    after_event-AllAllowed (unloads name) reg a h = unload_plugin-AllAllowed name reg h
    after_event-AllAllowed (reports name status failure) reg a h =
        update_error-AllAllowed name failure (update_status name status reg)
          (update_status-AllAllowed name status reg h)
    after_event-AllAllowed (refreshes start stop) reg a h = refresh-AllAllowed start stop reg h

    after_events-AllAllowed :
        (es : List Event) (reg : Registry)
        → ((name : String) → Any (Admits name) es → Allowed name)
        → AllAllowed reg
        → AllAllowed (after_events cfg es reg)
    after_events-AllAllowed [] reg a h = h
    after_events-AllAllowed (e ∷ es) reg a h =
        after_events-AllAllowed es (after_event cfg e reg) (λ name m. a name (inr m))
          (after_event-AllAllowed e reg (λ name m. a name (inl m)) h)

  -- Through any loads, unloads, reports of runners and refreshes, every registered plugin was
  -- loaded under its name from an adapter that may run: catch-up mode is off, the name is in the
  -- list of allowed plugins, or the adapter says that it is safe.
  pub after_events-Admits :
      (es : List Event) → All (λ (x : String × Slot). Any (Admits x.0) es) (after_events cfg es [])
  after_events-Admits es =
      after_events-AllAllowed (λ name. Any (Admits name) es) es [] (λ name m. m) tt
