-- ===== src/Tests/Server.antt =====
-- The start of the server and its proxies at concrete inputs.
use pspxy.Base.{◌≡◌, refl, ℕ, false, List, [], ◌∷◌, none, some, Text, codes, ok, ◌==◌}
use pspxy.Config.{Config}
use pspxy.Config.Manager.{new_manager as new_config_manager, load, with_defaults}
use pspxy.Config.Manager.Edit.{IsDistinctIds, find_proxy}
use pspxy.Proxy.Manager.{new_manager, start_all}
use pspxy.ReverseTunnel.Broker.{new_broker}
use pspxy.Proxy.Manager.Calls.{Call, add, update, remove_id, sync, run}
use pspxy.Proxy.Manager.Refinement.{Refines, spec_run, succeeds, spec_succeeds, run-Refines}
use pspxy.Api.{Handler}
use pspxy.Api.Proxies.InSync.{IsInSync}
use pspxy.Server.{main_start, main_start-IsInSync}
use pspxy.Tests.Parameters.{yaml, yaml-YamlLaws, all_well}
use pspxy.Tests.Config.{shop, lost, with_proxies}

abbrev calls : List (ℕ × Call)
calls = (1, add shop) ∷ (2, sync (shop ∷ lost ∷ [])) ∷ (3, remove_id (codes "a")) ∷ []

run-Refines_example :
    let s = spec_run (λ id. none) calls in
    Refines (run new_manager calls) s
    × (succeeds (run new_manager calls) (4, update lost) ≡ spec_succeeds s (update lost))
run-Refines_example = run-Refines calls 4 (update lost)

abbrev config : Config
config = with_proxies (shop ∷ lost ∷ [])

written : (t : Text) × (yaml.marshal config ≡ some t)
unfolding yaml
written = (_, refl)

-- The handler for a file that reads as the configuration.
abbrev handler : Text → Handler
handler t = record {
  proxy_mgr = start_all 5 (with_defaults config).proxies new_manager;
  cfg_mgr = record {
    file = some t;
    tmp_file = none;
    config = with_defaults config;
    on_reload = false;
    spawned = [];
  };
  rt = new_broker;
  start_at = 5;
}

starts_lem : main_start yaml all_well 5 (some written.0) ≡ ok (handler written.0)
unfolding main_start new_config_manager load
starts_lem = rw (yaml-YamlLaws.round_trip config written.0 written.1) refl

distinct_lem : IsDistinctIds (handler written.0).cfg_mgr.config.proxies
unfolding IsDistinctIds find_proxy with_defaults ◌==◌
distinct_lem = (refl, (refl, tt))

main_start-IsInSync_example : IsInSync (handler written.0)
main_start-IsInSync_example =
    main_start-IsInSync yaml all_well 5 (some written.0) (handler written.0) starts_lem distinct_lem
