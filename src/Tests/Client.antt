-- ===== src/Tests/Client.antt =====
-- The client's dial, its file and its web interface at concrete inputs.
use pspxy.Base.{
  ◌≡◌, refl, ap, List, ℕ, zero, suc, ◌≤◌, ◌<◌, pos, true, false, [], ◌∷◌, ◌++◌, map, Option, none,
  some, Text, codes, ok, err, Result, ◌-ℤ◌, ◌+ℤ◌, is_space, All, values, sort, map_values, ◌==◌,
  any, arith,
}
use pspxy.Strings.{trim_space, is_empty, to_lower, split, has_prefix, contains}
use pspxy.Config.AccessAuth.{AccessAuth, unified_tokens, parse_api_key_tokens}
use pspxy.Api.Access.{verify_access_auth, is_skewed}
use pspxy.Api.Access.Laws.{DigestLaws}
use pspxy.ClientTunnel.Tunnel.{Config, validate, normalize_server_url_for_ws}
use pspxy.ClientTunnel.Dial.{
  Url, Attempt, connected, failed, dial_web_socket_path, signed_url, DialError, gave_up,
}
use pspxy.ClientTunnel.Dial.Retries.{
  Fails, Decides, wait_total, dial_web_socket_path-bound, dial_web_socket_path-Decides,
}
use pspxy.ClientTunnel.Dial.Signed.{as_request, verify_access_auth-signed_url}
use pspxy.ClientConfig.{
  trim_cfg, Env, rename_failed, Disk, Loaded, load_client_file, save_client_file, save_proxies,
  payload, saved_cfg, write_data, write_temp, abandon,
}
use pspxy.ClientConfig.RoundTrip.{
  normalised, load-save_client_file, save_client_file_atomic, save_proxies-keeps,
}
use pspxy.ClientTunnel.Registry.Ports.{HasOwnPorts}
use pspxy.ClientTunnel.Reverse.Manager.Clash.{HasNoClash}
use pspxy.ClientUi.Restart.{fine, held_configs, serve-boot-Runs}
use pspxy.ClientTunnel.Registry.{effective}
use pspxy.ClientTunnel.Registry.Views.{persisted_configs}
use pspxy.ClientTunnel.Registry.Restore.{IsRestorable, Runs}
use pspxy.ClientTunnel.Reverse.Manager.{new_reverse_manager}
use pspxy.ClientTunnel.Reverse.Manager.Start.{stop_all as reverse_stop_all}
use pspxy.ClientUi.{
  Client, MultiStatus, status, merged_tunnel_status, change, persisted, attach_persist_result,
  World, is_post, starts_tunnel, stops_all_reverse, boot, serve,
}
use pspxy.ClientUi.Persist.{Filed, serve-Filed}
use pspxy.ClientUi.Sound.{session, session-boot-IsSound}
use pspxy.Tests.Parameters.{braced, braced-DigestLaws}
use pspxy.Tests.ClientYaml.{client_yaml, client_yaml-YamlLaws, client_yaml-marshal}

-- A digest in lower case.
digest : Text → Text
digest t = braced (to_lower t)

digest-DigestLaws : DigestLaws digest
unfolding digest
digest-DigestLaws = record {
  filled = λ t. braced-DigestLaws.filled (to_lower t);
  trimmed = λ t. braced-DigestLaws.trimmed (to_lower t);
}

lower_tail : (t : Text) → to_lower (to_lower t ++ b'}' ∷ []) ≡ to_lower t ++ b'}' ∷ []
unfolding to_lower
lower_tail [] = refl
lower_tail (c ∷ t) = ground (arith, lower_tail t)

digest-lower : (t : Text) → to_lower (digest t) ≡ digest t
unfolding digest braced
digest-lower t = unfold to_lower in ap (◌∷◌ b'{') (unfold to_lower in lower_tail t)

abbrev place : Url
place = record { origin = codes "ws://h"; path = []; query = [] }

-- The third attempt connects.
abbrev third : Url → ℕ → Attempt
third u zero = failed (codes "refused")
third u (suc zero) = failed (codes "refused")
third u (suc (suc n)) = connected 5

parses : Text → Option Url
parses t = some place

dial_web_socket_path-bound_example :
    (dial_web_socket_path digest parses third (pos 1200) (codes "h") (codes "ws/p") (codes "k")).1
    ≤ 303
dial_web_socket_path-bound_example =
    dial_web_socket_path-bound digest parses third (pos 1200) (codes "h") (codes "ws/p") (codes "k")

parses_lem : parses (normalize_server_url_for_ws (codes "h")) ≡ some place
unfolding parses
parses_lem = refl

dial_web_socket_path-Decides_example :
    let answers = third (signed_url digest (pos 1200) (codes "ws/p") (codes "k") place) in
    let result =
      dial_web_socket_path digest parses third (pos 1200) (codes "h") (codes "ws/p") (codes "k") in
    ((k : ℕ) (r : Result DialError ℕ)
      → k < 10
      → ((j : ℕ) → j < k → Fails (answers j))
      → Decides (answers k) r
      → result ≡ (r, wait_total k 0))
    × (((j : ℕ) → j < 10 → Fails (answers j)) → (e : Text) × (result ≡ (err (gave_up e), 303)))
dial_web_socket_path-Decides_example =
    dial_web_socket_path-Decides digest parses third (pos 1200) (codes "h") (codes "ws/p")
      (codes "k") place parses_lem

abbrev auth : AccessAuth
auth = record { api_key = codes "k1,k2" }

keyed_lem : is_empty (trim_space (codes " k2")) ≡ false
unfolding trim_space is_space
keyed_lem = refl

known_lem : any (λ tok. trim_space (codes " k2") == tok) (unified_tokens auth) ≡ true
unfolding any unified_tokens parse_api_key_tokens trim_space is_space split ◌==◌
known_lem = refl

near_lem : is_skewed (pos 1000) (pos 1200) ≡ false
unfolding is_skewed ◌-ℤ◌ ◌+ℤ◌
near_lem = refl

verify_access_auth-signed_url_example :
    verify_access_auth digest
      (pos 1000)
      auth
      (as_request (signed_url digest (pos 1200) (codes "ws/p") (codes " k2") place))
    ≡ none
verify_access_auth-signed_url_example =
    verify_access_auth-signed_url digest digest-DigestLaws digest-lower 1200 (pos 1000) auth
      (codes "ws/p") (codes " k2") place keyed_lem known_lem (omega arith) near_lem

abbrev well : Env
well = record {
  can_read = true;
  can_mkdir = true;
  can_create = true;
  can_write = true;
  can_sync = true;
  can_close = true;
  can_rename = true;
  can_remove = true;
}

abbrev stuck : Env
stuck = record well { can_rename = false }

abbrev shop : Config
shop = record {
  id = [];
  server_url = codes "http://h";
  proxy_id = codes "p";
  local_port = pos 80;
  api_key = [];
}

abbrev entries : Loaded
entries = (shop ∷ [], ([], []))

abbrev blank : Disk
blank = record { file = none; tmp_file = none }

saves : (l : Loaded) (d : Disk) → (save_client_file client_yaml well l d).0 ≡ none
unfolding save_client_file write_data write_temp
saves l d = let (t, e) = client_yaml-marshal (payload l) in rw e refl

load-save_client_file_example :
    load_client_file client_yaml well (save_client_file client_yaml well entries blank).1
    ≡ ok (normalised entries)
load-save_client_file_example =
    load-save_client_file client_yaml well entries blank well client_yaml-YamlLaws
      (saves entries blank) refl

fails_lem : (save_client_file client_yaml stuck entries blank).0 ≡ some rename_failed
unfolding save_client_file write_data write_temp abandon
fails_lem = let (t, e) = client_yaml-marshal (payload entries) in rw e refl

save_client_file_atomic_example :
    let r = save_client_file client_yaml stuck entries blank in
    (r.1.file ≡ none) × (true ≡ true → ◌≡◌ {A = Option Text} none none → r.1.tmp_file ≡ none)
save_client_file_atomic_example =
    save_client_file_atomic client_yaml stuck entries blank rename_failed fails_lem

later_lem :
    (save_proxies client_yaml well [] (save_client_file client_yaml well entries blank).1).0 ≡ none
unfolding save_proxies
later_lem = saves _ _

save_proxies-keeps_example :
    let d = (save_client_file client_yaml well entries blank).1 in
    load_client_file client_yaml well (save_proxies client_yaml well [] d).1
    ≡ ok (map saved_cfg [], (normalised entries).1)
save_proxies-keeps_example =
    save_proxies-keeps client_yaml well well well entries [] blank client_yaml-YamlLaws
      (saves entries blank) refl refl later_lem

abbrev world : World
world = record {
  tunnel_listens = λ c. none;
  tunnel_closes = none;
  handshake = λ p channel. ok (codes "ch", 7);
  consumer_listens = λ addr. ok 3;
  new_id = λ p. codes "n";
  run_err = none;
  env = well;
}

serve-Filed_example :
    let c = boot client_yaml world blank in
    Filed client_yaml c (serve client_yaml world is_post (starts_tunnel (some shop)) c)
serve-Filed_example =
    serve-Filed client_yaml client_yaml-YamlLaws world (starts_tunnel (some shop))
      (boot client_yaml world blank)

session-boot-IsSound_example :
    let c =
      session client_yaml
        ((world, is_post, starts_tunnel (some shop)) ∷ (world, is_post, stops_all_reverse) ∷ [])
        (boot client_yaml world blank) in
    HasOwnPorts c.reg × HasNoClash c.rev
session-boot-IsSound_example =
    session-boot-IsSound client_yaml world blank
      ((world, is_post, starts_tunnel (some shop)) ∷ (world, is_post, stops_all_reverse) ∷ [])

-- One tunnel, in normal form, which is stopped.
abbrev tunnel : Config
tunnel = record shop { id = codes "a"; server_url = codes "ws://h" }

abbrev keeping : Client
keeping = record {
  reg = record {
    items =
        (
          codes "a",
          record {
            tun = record { listening = false; active_cfg = tunnel; run_err = [] };
            cfg = tunnel;
          },
        )
        ∷ [];
  };
  rev = new_reverse_manager;
  disk = blank;
}

abbrev answered : MultiStatus
answered =
    merged_tunnel_status [] (save_client_file client_yaml well (persisted keeping) blank).0 keeping

status_lem : (serve client_yaml world is_post stops_all_reverse keeping).0 ≡ status answered
unfolding serve change attach_persist_result merged_tunnel_status reverse_stop_all map_values
status_lem = refl

quiet_lem : answered.persist_warning ≡ none
unfolding merged_tunnel_status
quiet_lem = saves (persisted keeping) blank

abbrev restarted : List Config
restarted =
    map saved_cfg (held_configs (serve client_yaml world is_post stops_all_reverse keeping).1)

ready_lem : IsRestorable restarted
unfolding serve change attach_persist_result persisted_configs sort values saved_cfg trim_cfg
    effective validate normalize_server_url_for_ws trim_space is_space has_prefix to_lower contains
ready_lem = (refl, refl, tt, tt)

serve-boot-Runs_example :
    All
      (Runs
        (boot client_yaml
          (fine world)
          (serve client_yaml world is_post stops_all_reverse keeping).1.disk).reg)
      restarted
serve-boot-Runs_example =
    serve-boot-Runs client_yaml client_yaml-YamlLaws world world stops_all_reverse keeping answered
      status_lem quiet_lem ready_lem
