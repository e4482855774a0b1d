-- ===== src/Server/Service/Registry.antt =====
-- Runs of the service: loads, unloads, refreshes, and the reports of the runners' goroutines
-- (server/service.go and server/runner.go).
use iotex_analyser.Base.{
  String, true, ◌≡◌, ◌≢◌, refl, sym, ap, ◌∙◌, none, some, List, [], ◌∷◌, Result, ok, err, ◌==◌,
  string_eq, Bool-cases, Option-cases, Result-cases, inl, inr, All, beq_refl, eq_of_beq, subst,
  Option,
}
use iotex_analyser.Base.GoMap.{lookup, has, lookup-insert}
use iotex_analyser.Server.World.{
  PluginStatus, unload, loaded, start_ok, start_error, put_ok, put_error,
}
use iotex_analyser.Server.Service.{
  Slot, Registry, AdapterFile, CatchUp, load, update_status, unload_plugin, refresh_as, refresh_one,
  plugin_refresh, update_error,
}

-- What happens to the service. A runner that put its blocks, or failed to, reports its status and
-- then its error, which is none after a success.
pub data Event : Type 0 where
  loads : AdapterFile → Event
  unloads : String → Event
  reports : String → PluginStatus → Option String → Event
  refreshes : (String → Result String (Unit {0})) → (String → Result String (Unit {0})) → Event

module _ (cfg : CatchUp) where
  abbrev pub after_event : Event → Registry → Registry
  after_event (loads file) reg = (load cfg file reg).1
  after_event (unloads name) reg = (unload_plugin name reg).1
  after_event (reports name status failure) reg =
      update_error name failure (update_status name status reg)
  after_event (refreshes start stop) reg = plugin_refresh start stop reg

  abbrev pub after_events : List Event → Registry → Registry
  after_events [] reg = reg
  after_events (e ∷ es) reg = after_events es (after_event e reg)

module _ (start stop : String → Result String (Unit {0})) where
  -- A runner that a refresh keeps is found under its name.
  lookup-plugin_refresh :
      (name : String) (reg : Registry) (slot slot' : Slot)
      → lookup name reg ≡ some slot
      → refresh_one start stop name slot ≡ some slot'
      → lookup name (plugin_refresh start stop reg) ≡ some slot'
  unfolding lookup plugin_refresh
  lookup-plugin_refresh name [] slot slot' h k = absurd cc
  lookup-plugin_refresh name ((n, s) ∷ reg) slot slot' h k = elim (Bool-cases (n == name)) [
    | inl b ↦
        (let found : some s ≡ some slot = rw b at h in
          let same : s ≡ slot = cc in
          let named = eq_of_beq n name b in
          let kept : refresh_one start stop n s ≡ some slot' = rw (named, same) k in
          rw kept (rw b refl))
    | inr b ↦
        (let found : lookup name reg ≡ some slot = rw b at h in
          let rest = lookup-plugin_refresh name reg slot slot' found k in
          elim (Option-cases (refresh_one start stop n s)) [
            | inl gone ↦ rw gone rest
            | inr (s', kept) ↦ rw kept (rw b rest)
          ])
  ]

  -- What a refresh leaves of a runner: it is not waiting for its start, and is only then to be
  -- unloaded when its Stop failed.
  abbrev pub IsSettled : String → Slot → Type 0
  IsSettled name slot =
      (slot.status ≢ loaded) × (slot.status ≡ unload → (e : String) × (stop name ≡ err e))

  kept-IsSettled :
      (name : String) (slot slot' : Slot) (status : PluginStatus)
      → slot.status ≡ status
      → some slot ≡ some slot'
      → status ≢ loaded
      → status ≢ unload
      → IsSettled name slot'
  kept-IsSettled name slot slot' status s h a b =
      let same : slot ≡ slot' = cc in
      let now : slot'.status ≡ status = ap (λ (x : Slot). x.status) (sym same) ∙ s in
      ((λ c. a (sym now ∙ c)), (λ c. absurd (b (sym now ∙ c))))

  refresh_as-IsSettled :
      (name : String) (slot slot' : Slot) (status : PluginStatus)
      → slot.status ≡ status
      → refresh_as start stop name slot status ≡ some slot'
      → IsSettled name slot'
  refresh_as-IsSettled name slot slot' unload s h = elim (Result-cases (stop name)) [
    | inl (u, e) ↦ absurd (let bad = rw e at h in cc)
    | inr (m, e) ↦
        (let kept : some slot ≡ some slot' = rw e at h in
          let same : slot ≡ slot' = cc in
          (subst (λ (x : Slot). x.status ≢ loaded) same (rw s (λ c. absurd cc)), (λ u. (m, e))))
  ]
  refresh_as-IsSettled name slot slot' loaded s h = elim (Result-cases (start name)) [
    | inl (u, e) ↦
        (let made = rw e at h in
          let same : (record { status = start_ok; failure = none }) ≡ slot' = cc in
          subst (IsSettled name) same ((λ c. absurd cc), (λ c. absurd cc)))
    | inr (m, e) ↦
        (let made = rw e at h in
          let same : (record { status = start_error; failure = some m }) ≡ slot' = cc in
          subst (IsSettled name) same ((λ c. absurd cc), (λ c. absurd cc)))
  ]
  refresh_as-IsSettled name slot slot' start_ok s h =
      kept-IsSettled name slot slot' start_ok s h (λ c. absurd cc) (λ c. absurd cc)
  refresh_as-IsSettled name slot slot' start_error s h =
      kept-IsSettled name slot slot' start_error s h (λ c. absurd cc) (λ c. absurd cc)
  refresh_as-IsSettled name slot slot' put_ok s h =
      kept-IsSettled name slot slot' put_ok s h (λ c. absurd cc) (λ c. absurd cc)
  refresh_as-IsSettled name slot slot' put_error s h =
      kept-IsSettled name slot slot' put_error s h (λ c. absurd cc) (λ c. absurd cc)

  -- After a refresh no runner waits for its start, and those that are still to be unloaded are those
  -- whose Stop failed.
  pub plugin_refresh-IsSettled :
      (reg : Registry)
      → All (λ (x : String × Slot). IsSettled x.0 x.1) (plugin_refresh start stop reg)
  unfolding plugin_refresh
  plugin_refresh-IsSettled [] = tt
  plugin_refresh-IsSettled ((name, slot) ∷ reg) =
      let rest = plugin_refresh-IsSettled reg in
      elim (Option-cases (refresh_one start stop name slot)) [
        | inl gone ↦ rw gone rest
        | inr (slot', kept) ↦
            rw kept (refresh_as-IsSettled name slot slot' slot.status refl kept, rest)
      ]

lookup-update_status :
    (name : String) (status : PluginStatus) (reg : Registry) (slot : Slot)
    → lookup name reg ≡ some slot
    → lookup name (update_status name status reg) ≡ some (record slot { status = status })
unfolding update_status
lookup-update_status name status reg slot h =
    rw (h, update_status)
      (lookup-insert name name (record slot { status = status }) reg ∙ rw (beq_refl name) refl)

lookup-update_error :
    (name : String) (failure : Option String) (reg : Registry) (slot : Slot)
    → lookup name reg ≡ some slot
    → lookup name (update_error name failure reg) ≡ some (record slot { failure = failure })
unfolding update_error
lookup-update_error name failure reg slot h =
    rw (h, update_error)
      (lookup-insert name name (record slot { failure = failure }) reg ∙ rw (beq_refl name) refl)

has-some :
    (name : String) (reg : Registry) (slot : Slot)
    → lookup name reg ≡ some slot
    → has name reg ≡ true
unfolding has
has-some name reg slot h = rw (h, has) refl

unload_plugin-registered :
    (name : String) (reg : Registry) (slot : Slot)
    → lookup name reg ≡ some slot
    → unload_plugin name reg ≡ (ok tt, update_status name unload reg)
unfolding unload_plugin
unload_plugin-registered name reg slot h = rw (has-some name reg slot h, unload_plugin) refl

-- An UnLoad that is accepted is lost when the runner's goroutine reports that it put a batch before
-- the next refresh: afterwards the plugin is registered as before, its status is that of a plugin
-- that runs, and it has no error.
pub unload_plugin-lost :
    (cfg : CatchUp) (start stop : String → Result String (Unit {0})) (name : String)
    (reg : Registry) (slot : Slot)
    → lookup name reg ≡ some slot
    → ((unload_plugin name reg).0 ≡ ok tt)
      × (lookup name (
            after_events cfg
              (unloads name ∷ reports name put_ok none ∷ refreshes start stop ∷ [])
              reg)
          ≡ some (record { status = put_ok; failure = none }))
unload_plugin-lost cfg start stop name reg slot h =
    let taken = unload_plugin-registered name reg slot h in
    let marked = lookup-update_status name unload reg slot h in
    let reported =
      lookup-update_status name put_ok (update_status name unload reg)
        (record slot { status = unload }) marked in
    let stored =
      lookup-update_error name none (update_status name put_ok (update_status name unload reg))
        (record slot { status = put_ok }) reported in
    let kept =
      lookup-plugin_refresh start stop name
        (update_error name none (update_status name put_ok (update_status name unload reg)))
        (record { status = put_ok; failure = none }) (record { status = put_ok; failure = none })
        stored refl in
    (
      ap (λ x. x.0) taken,
      ap
            (λ x.
              lookup name (
                plugin_refresh start stop (update_error name none (update_status name put_ok x.1))))
            taken
          ∙ kept,
    )
