-- ===== src/Examples/Service.antt =====
-- A service in catch-up mode with two plugins, one of which may not run (server/service.go).
use iotex_analyser.Base.{
  String, true, false, ◌≡◌, refl, none, some, List, [], ◌∷◌, Result, ok, All, Any, string_eq,
}
use iotex_analyser.Base.GoMap.{lookup}
use iotex_analyser.Server.World.{start_ok, put_ok, loaded}
use iotex_analyser.Server.Service.{Slot, Registry, AdapterFile, CatchUp, unload_plugin}
use iotex_analyser.Server.Service.Registry.{
  Event, loads, unloads, reports, refreshes, after_events, unload_plugin-lost,
}
use iotex_analyser.Server.Service.Guard.{Admits, after_events-Admits}

abbrev catch_up : CatchUp
catch_up = record { catch_up_mode = true; allow_plugins = "votes" ∷ [] }

abbrev votes_file : AdapterFile
votes_file = record { name = "votes"; catch_up_safe = none }

abbrev blocks_file : AdapterFile
blocks_file = record { name = "blocks"; catch_up_safe = some false }

abbrev fine : String → Result String (Unit {0})
fine name = ok tt

abbrev events : List Event
events = loads votes_file ∷ loads blocks_file ∷ refreshes fine fine ∷ unloads "votes" ∷ []

abbrev running : Registry
running =
    ("votes", record { status = start_ok; failure = none })
    ∷ ("rewards", record { status = loaded; failure = none })
    ∷ []

after_events-Admits_example :
    All (λ (x : String × Slot). Any (Admits catch_up x.0) events) (after_events catch_up events [])
after_events-Admits_example = after_events-Admits catch_up events

votes_run : lookup "votes" running ≡ some (record { status = start_ok; failure = none })
unfolding lookup
votes_run = refl

unload_plugin-lost_example :
    ((unload_plugin "votes" running).0 ≡ ok tt)
    × (lookup "votes" (
          after_events catch_up
            (unloads "votes" ∷ reports "votes" put_ok none ∷ refreshes fine fine ∷ [])
            running)
        ≡ some (record { status = put_ok; failure = none }))
unload_plugin-lost_example =
    unload_plugin-lost catch_up fine fine "votes" running
      (record { status = start_ok; failure = none }) votes_run
