-- ===== src/Tests/Api.antt =====
-- internal/api at concrete inputs.
use pspxy.Base.{
  ◌≡◌, ◌↔◌, ◌⊎◌, refl, ℤ, pos, arith, true, false, not, ◌||◌, [], ◌∷◌, Option, none, some, Text,
  codes, any, ◌==◌, is_space, get, put, remove, ◌-ℤ◌, ◌+ℤ◌,
}
use pspxy.Strings.Decimal.{parse_int}
use pspxy.Strings.{trim_space, split, is_empty}
use pspxy.Config.AccessAuth.{AccessAuth, is_enabled, unified_tokens, parse_api_key_tokens}
use pspxy.Config.Manager.{
  reload, add_proxy as config_add_proxy, remove_proxy as config_remove_proxy,
}
use pspxy.Config.Manager.Edit.{find_proxy, IsDistinctIds}
use pspxy.Proxy.Manager.{new_manager, add_proxy, remove_proxy}
use pspxy.Proxy.Server.{new_tcp_server, start}
use pspxy.Proxy.Manager.Sync.{view}
use pspxy.ReverseTunnel.Broker.{new_broker}
use pspxy.Api.{Handler, code}
use pspxy.Api.Access.{
  Request, missing_parameters, verify_access_auth, verify_plain_credential, request_key, request_ts,
  request_sig, is_skewed,
}
use pspxy.Api.Access.Laws.{
  given, IsSignedBy, signed_request, verify_access_auth_lem, verify_plain_credential_lem,
}
use pspxy.Api.Proxies.{CreateProxyRequest, bind, create_proxy, update_proxy, delete_proxy}
use pspxy.Api.Proxies.InSync.{IsInSync, Settles, edit-Settles}
use pspxy.Config.AccessAuth.Enabled.{is_key_char}
use pspxy.Api.Routes.{
  enabled_call, login_call, create_call, delete_call, Step, handle, run, serve, step,
}
use pspxy.Api.Routes.Sound.{AllSucceed, run-IsInSync, serve_unauthorized}
use pspxy.Api.Ingress.{tunnel_ingress, r_tunnel_provider}
use pspxy.Api.Ingress.Laws.{expected, Ends, tunnel_ingress_lem, r_tunnel_provider-Ends}
use pspxy.Tests.Parameters.{yaml, uuid, braced, all_well}
use pspxy.Tests.Config.{with_proxies, holding}
use pspxy.Tests.ReverseTunnel.{offer}

abbrev auth : AccessAuth
auth = record { api_key = codes "k1,k2" }

abbrev now : ℤ
now = pos 1000

abbrev asked : Request
asked = signed_request braced (codes "k2") (codes "1200")

verify_access_auth_lem_example : (verify_access_auth braced now auth asked ≡ none) ↔ (
    (any is_key_char auth.api_key ≡ false)
    ⊎ ((false ≡ true)
        ⊎ IsSignedBy braced now auth
            (given asked.header_key asked.query_key)
            (given asked.header_ts asked.query_ts)
            (given asked.header_sig asked.query_sig)))
verify_access_auth_lem_example = verify_access_auth_lem braced now auth asked

known_lem : any (λ tok. codes "k2" == tok) (unified_tokens auth) ≡ true
unfolding any unified_tokens parse_api_key_tokens trim_space is_space split ◌==◌
known_lem = refl

trimmed_lem : trim_space (codes "1200") ≡ codes "1200"
unfolding trim_space is_space
trimmed_lem = refl

number_lem : parse_int (codes "1200") ≡ some (pos 1200)
unfolding parse_int
number_lem = refl

near_lem : is_skewed now (pos 1200) ≡ false
unfolding is_skewed ◌-ℤ◌ ◌+ℤ◌
near_lem = refl

verify_plain_credential_lem_example :
    verify_plain_credential auth (codes " k1 ")
    ≡ (not (is_enabled auth) || any (λ tok. trim_space (codes " k1 ") == tok) (unified_tokens auth))
verify_plain_credential_lem_example = verify_plain_credential_lem auth (codes " k1 ")

abbrev idle : Handler
idle = record {
  proxy_mgr = new_manager;
  cfg_mgr = holding (with_proxies []);
  rt = new_broker;
  start_at = 0;
}

idle-IsInSync : IsInSync idle
idle-IsInSync = record {
  distinct = (unfold IsDistinctIds in tt);
  runs = λ id. (unfold view get find_proxy in refl);
}

abbrev body : Option CreateProxyRequest
body = some (record { name = codes "shop"; remote_address = codes "h:1"; enabled = true })

fresh_lem : find_proxy (codes "a") [] ≡ none
unfolding find_proxy
fresh_lem = refl

edit-Settles_example :
    Settles idle (create_proxy yaml all_well 5 (codes "a") body idle)
    × Settles idle (update_proxy yaml all_well 5 (codes "b") body idle)
    × Settles idle (delete_proxy yaml all_well 5 (codes "b") idle)
edit-Settles_example =
    edit-Settles yaml all_well 5 idle idle-IsInSync (codes "a") (codes "b") body fresh_lem

reloaded_lem : IsDistinctIds (reload yaml all_well idle.cfg_mgr).1.config.proxies
unfolding IsDistinctIds reload yaml
reloaded_lem = tt

abbrev bare : Request
bare = record {
  is_options = false;
  header_key = [];
  header_ts = [];
  header_sig = [];
  query_key = [];
  query_ts = [];
  query_sig = [];
}

refused_lem :
    verify_access_auth braced now (record { api_key = codes "k" }) bare ≡ some missing_parameters
unfolding verify_access_auth is_enabled unified_tokens parse_api_key_tokens trim_space is_space
    split request_key request_ts request_sig
refused_lem = refl

serve_unauthorized_example :
    let (answer, h') = serve yaml all_well 1000 braced bare (delete_call (codes "a")) idle in
    (h' ≡ idle)
    × ((delete_call (codes "a") ≡ enabled_call)
        ⊎ (((body : Option Text) × (delete_call (codes "a") ≡ login_call body))
            ⊎ (code answer ≡ 401)))
serve_unauthorized_example =
    serve_unauthorized yaml all_well 1000 braced bare (delete_call (codes "a")) idle
      missing_parameters refused_lem

-- No access control.
abbrev open_idle : Handler
open_idle = record idle {
  cfg_mgr = holding (record {
    proxies = [];
    server = record { port = pos 0; static_dir = []; auth = record { api_key = [] } };
  });
}

open_idle-IsInSync : IsInSync open_idle
open_idle-IsInSync = record {
  distinct = (unfold IsDistinctIds in tt);
  runs = λ id. (unfold view get find_proxy in refl);
}

abbrev creating : Step
creating = record { env = all_well; now = 5; request = bare; call = create_call (codes "a") body }

abbrev deleting : Step
deleting = record { env = all_well; now = 6; request = bare; call = delete_call (codes "a") }

succeed_lem : AllSucceed yaml braced (creating ∷ deleting ∷ []) open_idle
unfolding AllSucceed step serve verify_access_auth is_enabled unified_tokens parse_api_key_tokens
    trim_space is_space create_proxy delete_proxy find_proxy yaml get put remove ◌==◌ handle bind
    config_add_proxy config_remove_proxy add_proxy remove_proxy new_tcp_server start
succeed_lem = (refl, omega arith, (tt, omega arith, tt))

run-IsInSync_example : IsInSync (run yaml braced (creating ∷ deleting ∷ []) open_idle)
run-IsInSync_example =
    run-IsInSync yaml braced (creating ∷ deleting ∷ []) open_idle open_idle-IsInSync succeed_lem

abbrev id : Text
id = codes "channel-channel-"

abbrev relaying : Handler
relaying = record idle {
  rt = record { channels = (id, 0) ∷ []; objects = []; mailboxes = []; closed = []; sent = [] };
}

relaying-IsInSync : IsInSync relaying
relaying-IsInSync = record {
  distinct = (unfold IsDistinctIds in tt);
  runs = λ id. (unfold view get find_proxy in refl);
}

filled_lem : is_empty (trim_space (codes "a")) ≡ false
unfolding trim_space is_space
filled_lem = refl

tunnel_ingress_lem_example :
    (tunnel_ingress uuid true (codes "a") relaying).0
    ≡ expected uuid true
        (trim_space (codes "a"))
        relaying.rt
        (find_proxy (trim_space (codes "a")) [])
tunnel_ingress_lem_example =
    tunnel_ingress_lem uuid true (codes "a") relaying relaying-IsInSync filled_lem

r_tunnel_provider-Ends_example :
    Ends uuid 7 offer new_broker
      (r_tunnel_provider uuid id true false 7 (some (some offer)) new_broker)
r_tunnel_provider-Ends_example = r_tunnel_provider-Ends uuid id 7 offer false new_broker
