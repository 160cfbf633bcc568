-- ===== src/Tests/Proxy.antt =====
-- internal/proxy at concrete inputs.
use pspxy.Base.{◌≡◌, true, false, List, none, some, [], ◌∷◌, codes}
use pspxy.Config.{ProxyConfig}
use pspxy.Proxy.Bridge.{
  Event, text_message, from_client, from_target, finish, run as run_bridge, opened,
}
use pspxy.Proxy.Bridge.Relay.{messages, chunks, Carries, run-opened-Carries}
use pspxy.Proxy.Manager.{new_manager, add_proxy, sync_with_config}
use pspxy.Proxy.Manager.Sync.{view, as_view, last_proxy, view-sync_with_config}
use pspxy.Proxy.Manager.Invariant.{IsValid}
use pspxy.Proxy.Manager.Calls.{add, update, remove_id, sync, run, run-IsValid}

abbrev shop : ProxyConfig
shop = record { id = codes "a"; name = codes "shop"; remote_address = codes "h:1"; enabled = true }

abbrev paused : ProxyConfig
paused = record {
  id = codes "a";
  name = codes "shop";
  remote_address = codes "h:2";
  enabled = false;
}

view-sync_with_config_example :
    view (sync_with_config 7 (shop ∷ paused ∷ []) (add_proxy 5 shop new_manager).1) (codes "a")
    ≡ as_view (last_proxy (codes "a") (shop ∷ paused ∷ []))
view-sync_with_config_example =
    view-sync_with_config 7 (shop ∷ paused ∷ []) (add_proxy 5 shop new_manager).1 (codes "a")

run-IsValid_example : IsValid (
    run new_manager (
      (1, add shop) ∷ (2, update paused) ∷ (3, sync (shop ∷ [])) ∷ (4, remove_id (codes "a")) ∷ []))
run-IsValid_example =
    run-IsValid
      ((1, add shop) ∷ (2, update paused) ∷ (3, sync (shop ∷ [])) ∷ (4, remove_id (codes "a")) ∷ [])

-- A message and a chunk, and then the client leaves.
abbrev exchange : List Event
exchange =
    from_client (some (text_message, codes "hi")) none
    ∷ from_target (some (codes "ok")) true
    ∷ from_client none none
    ∷ finish
    ∷ from_target (some (codes "late")) true
    ∷ []

run-opened-Carries_example :
    Carries (run_bridge exchange opened).to_target (messages exchange)
    × Carries (run_bridge exchange opened).to_client (chunks exchange)
run-opened-Carries_example = run-opened-Carries exchange
