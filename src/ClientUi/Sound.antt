-- ===== src/ClientUi/Sound.antt =====
-- The client from its start through any requests.
use pspxy.Base.{
  ◌≡◌, refl, subst, sym, true, false, List, [], ◌∷◌, Option, none, some, Text, Result, ok, err,
  Bool-cases, inl, inr,
}
use pspxy.Strings.{trim_space, is_empty}
use pspxy.ClientConfig.{Yaml, Error as FileError, Disk, Loaded, load_client_file}
use pspxy.ClientTunnel.Tunnel.{Config, Error as TunnelError, validate}
use pspxy.ClientTunnel.Registry.{Registry, new_registry, effective, default_single_proxy_id}
use pspxy.ClientTunnel.Registry.Ports.{HasOwnPorts}
use pspxy.ClientTunnel.Registry.Calls.{
  starts, stops, stops_all, removes, step, run as tunnel_run, run-HasOwnPorts, step-HasOwnPorts,
}
use pspxy.ClientTunnel.Registry.Views.{boot_valid, bootstrap_from_configs}
use pspxy.ClientTunnel.Reverse.{Error as ReverseError}
use pspxy.ClientTunnel.Reverse.Manager.{ReverseManager, new_reverse_manager}
use pspxy.ClientTunnel.Reverse.Manager.Conflicts.{IsClear}
use pspxy.ClientTunnel.Reverse.Manager.Clash.{HasNoClash, IsClear-HasNoClash}
use pspxy.ClientTunnel.Reverse.Manager.Calls.{
  run as reverse_run, run-IsClear, bootstrap_providers-IsClear, bootstrap_consumers-IsClear,
}
use pspxy.ClientTunnel.Reverse.Manager.Bootstrap.{bootstrap_providers}
use pspxy.ClientTunnel.Reverse.Manager.Start.{merge_preserve_provider_tunnel_id}
use pspxy.ClientTunnel.Reverse.Manager.Starts.{start_provider-IsClear, start_consumer-IsClear}
use pspxy.ClientTunnel.Reverse.Manager.Kept.{
  stop_all-IsClear, stop_provider-IsClear, stop_consumer-IsClear, remove_provider-IsClear,
  remove_consumer-IsClear,
}
use pspxy.ClientUi.{
  World, Client, Method, is_get, is_post, is_options, is_other, Request, starts_tunnel,
  stops_tunnel, removes_tunnel, asks_status, starts_provider, stops_provider, removes_provider,
  starts_consumer, stops_consumer, removes_consumer, stops_all_reverse, empty_body, invalid_body,
  stop_body, attach_persist_result, Change, tunnel_done, provider_done, consumer_done, stop_tunnel,
  with_id, change, respond, serve, booted, try_bootstrap_from_yaml, boot,
}

-- No two tunnels share a port, and no two entries of the reverse tunnels clash.
abbrev IsSound : Client → Type 0
IsSound c = HasOwnPorts c.reg × IsClear c.rev

tunnel_done-IsSound :
    (c : Client) (r : Option TunnelError × Registry)
    → HasOwnPorts r.1
    → IsSound c
    → IsSound (tunnel_done c r).1
unfolding tunnel_done
tunnel_done-IsSound c (some e, r) h v = (h, v.1)
tunnel_done-IsSound c (none, r) h v = (h, v.1)

provider_done-IsSound :
    (c : Client) (r : Result ReverseError Text × ReverseManager)
    → IsClear r.1
    → IsSound c
    → IsSound (provider_done c r).1
unfolding provider_done
provider_done-IsSound c (err e, m) h v = (v.0, h)
provider_done-IsSound c (ok ch, m) h v = (v.0, h)

consumer_done-IsSound :
    (c : Client) (r : Option ReverseError × ReverseManager)
    → IsClear r.1
    → IsSound c
    → IsSound (consumer_done c r).1
unfolding consumer_done
consumer_done-IsSound c (some e, m) h v = (v.0, h)
consumer_done-IsSound c (none, m) h v = (v.0, h)

with_id-IsSound :
    (o : Option Text) (f : Text → ReverseManager) (c : Client)
    → ((id : Text) → IsClear (f id))
    → IsSound c
    → IsSound (with_id o f c).1
unfolding with_id
with_id-IsSound none f c h v = v
with_id-IsSound (some id) f c h v = elim (Bool-cases (is_empty (trim_space id))) [
  | inl e ↦ rw e v
  | inr e ↦ rw e (v.0, h id)
]

stop_tunnel-IsSound :
    (w : World) (id : Text) (c : Client) → IsSound c → IsSound (stop_tunnel w id c).1
unfolding stop_tunnel
stop_tunnel-IsSound w id c v =
    (unfold step in step-HasOwnPorts (stops w.tunnel_closes id) c.reg v.0, v.1)

change-IsSound : (w : World) (q : Request) (c : Client) → IsSound c → IsSound (change w q c).1
unfolding change step
change-IsSound w (starts_tunnel none) c v = v
change-IsSound w (starts_tunnel (some cfg)) c v =
    tunnel_done-IsSound c _ (step-HasOwnPorts (starts (w.tunnel_listens cfg) cfg) c.reg v.0) v
change-IsSound w (stops_tunnel empty_body) c v = stop_tunnel-IsSound w default_single_proxy_id c v
change-IsSound w (stops_tunnel invalid_body) c v = v
change-IsSound w (stops_tunnel (stop_body id true)) c v =
    (step-HasOwnPorts stops_all c.reg v.0, v.1)
change-IsSound w (stops_tunnel (stop_body id false)) c v =
    elim (Bool-cases (is_empty (trim_space id))) [
      | inl e ↦ rw e (stop_tunnel-IsSound w default_single_proxy_id c v)
      | inr e ↦ rw e (stop_tunnel-IsSound w (trim_space id) c v)
    ]
change-IsSound w (removes_tunnel none) c v = v
change-IsSound w (removes_tunnel (some id)) c v = elim (Bool-cases (is_empty (trim_space id))) [
  | inl e ↦ rw e v
  | inr e ↦ rw e (tunnel_done-IsSound c _ (step-HasOwnPorts (removes (trim_space id)) c.reg v.0) v)
]
change-IsSound w asks_status c v = v
change-IsSound w (starts_provider none) c v = v
change-IsSound w (starts_provider (some cfg)) c v =
    let p = merge_preserve_provider_tunnel_id cfg c.rev in
    provider_done-IsSound c _
      (start_provider-IsClear c.rev v.1 w.run_err w.handshake (w.new_id p) p) v
change-IsSound w (stops_provider o) c v =
    with_id-IsSound o _ c (λ id. stop_provider-IsClear c.rev v.1 w.run_err id) v
change-IsSound w (removes_provider o) c v =
    with_id-IsSound o _ c (λ id. remove_provider-IsClear c.rev v.1 w.run_err id) v
change-IsSound w (starts_consumer none) c v = v
change-IsSound w (starts_consumer (some cfg)) c v =
    consumer_done-IsSound c _ (start_consumer-IsClear c.rev v.1 w.run_err w.consumer_listens cfg) v
change-IsSound w (stops_consumer o) c v =
    with_id-IsSound o _ c (λ id. stop_consumer-IsClear c.rev v.1 w.run_err id) v
change-IsSound w (removes_consumer o) c v =
    with_id-IsSound o _ c (λ id. remove_consumer-IsClear c.rev v.1 w.run_err id) v
change-IsSound w stops_all_reverse c v = (v.0, stop_all-IsClear c.rev v.1 w.run_err)

respond-IsSound : (y : Yaml) (w : World) (ch : Change) → IsSound ch.1 → IsSound (respond y w ch).1
unfolding respond attach_persist_result
respond-IsSound y w (err e, c) v = v
respond-IsSound y w (ok issued, c) v = v

posted :
    (y : Yaml) (w : World) (q : Request) (c : Client)
    → IsSound c
    → IsSound (respond y w (change w q c)).1
posted y w q c v = respond-IsSound y w (change w q c) (change-IsSound w q c v)

serve_post-IsSound :
    (y : Yaml) (w : World) (q : Request) (c : Client)
    → IsSound c
    → IsSound (serve y w is_post q c).1
unfolding serve
serve_post-IsSound y w asks_status c v = v
serve_post-IsSound y w (starts_tunnel o) c v = posted y w (starts_tunnel o) c v
serve_post-IsSound y w (stops_tunnel o) c v = posted y w (stops_tunnel o) c v
serve_post-IsSound y w (removes_tunnel o) c v = posted y w (removes_tunnel o) c v
serve_post-IsSound y w (starts_provider o) c v = posted y w (starts_provider o) c v
serve_post-IsSound y w (stops_provider o) c v = posted y w (stops_provider o) c v
serve_post-IsSound y w (removes_provider o) c v = posted y w (removes_provider o) c v
serve_post-IsSound y w (starts_consumer o) c v = posted y w (starts_consumer o) c v
serve_post-IsSound y w (stops_consumer o) c v = posted y w (stops_consumer o) c v
serve_post-IsSound y w (removes_consumer o) c v = posted y w (removes_consumer o) c v
serve_post-IsSound y w stops_all_reverse c v = posted y w stops_all_reverse c v

-- Only POST changes anything.
serve_get-same : (y : Yaml) (w : World) (q : Request) (c : Client) → (serve y w is_get q c).1 ≡ c
unfolding serve
serve_get-same y w asks_status c = refl
serve_get-same y w (starts_tunnel o) c = refl
serve_get-same y w (stops_tunnel o) c = refl
serve_get-same y w (removes_tunnel o) c = refl
serve_get-same y w (starts_provider o) c = refl
serve_get-same y w (stops_provider o) c = refl
serve_get-same y w (removes_provider o) c = refl
serve_get-same y w (starts_consumer o) c = refl
serve_get-same y w (stops_consumer o) c = refl
serve_get-same y w (removes_consumer o) c = refl
serve_get-same y w stops_all_reverse c = refl

serve_other-same :
    (y : Yaml) (w : World) (q : Request) (c : Client) → (serve y w is_other q c).1 ≡ c
unfolding serve
serve_other-same y w asks_status c = refl
serve_other-same y w (starts_tunnel o) c = refl
serve_other-same y w (stops_tunnel o) c = refl
serve_other-same y w (removes_tunnel o) c = refl
serve_other-same y w (starts_provider o) c = refl
serve_other-same y w (stops_provider o) c = refl
serve_other-same y w (removes_provider o) c = refl
serve_other-same y w (starts_consumer o) c = refl
serve_other-same y w (stops_consumer o) c = refl
serve_other-same y w (removes_consumer o) c = refl
serve_other-same y w stops_all_reverse c = refl

serve-IsSound :
    (y : Yaml) (w : World) (m : Method) (q : Request) (c : Client)
    → IsSound c
    → IsSound (serve y w m q c).1
serve-IsSound y w is_get q c v = subst IsSound (sym (serve_get-same y w q c)) v
serve-IsSound y w is_post q c v = serve_post-IsSound y w q c v
serve-IsSound y w is_options q c v = unfold serve in v
serve-IsSound y w is_other q c v = subst IsSound (sym (serve_other-same y w q c)) v

bootstrap_from_configs-HasOwnPorts :
    (listen : Config → Option Text) (cs : List Config) (r : Registry)
    → HasOwnPorts r
    → HasOwnPorts (bootstrap_from_configs listen cs r)
unfolding bootstrap_from_configs
bootstrap_from_configs-HasOwnPorts listen [] r h = h
bootstrap_from_configs-HasOwnPorts listen (c ∷ cs) r h =
    let cc = effective c in
    bootstrap_from_configs-HasOwnPorts listen cs (boot_valid listen cc r (validate cc))
      (booted_one cc (validate cc))
  where
    booted_one : (cc : Config) (o : Option TunnelError) → HasOwnPorts (boot_valid listen cc r o)
    booted_one cc (some e) = unfold boot_valid in h
    booted_one cc none = unfold boot_valid step in step-HasOwnPorts (starts (listen cc) cc) r h

booted-IsSound :
    (w : World) (c : Client) (l : Result FileError Loaded) → IsSound c → IsSound (booted w c l)
unfolding booted
booted-IsSound w c (err e) v = v
booted-IsSound w c (ok (ps, (rp, rc))) v =
    let m = bootstrap_providers w.handshake w.run_err w.new_id rp c.rev in
    (
      bootstrap_from_configs-HasOwnPorts w.tunnel_listens ps c.reg v.0,
      bootstrap_consumers-IsClear w.consumer_listens w.run_err rc m
          (bootstrap_providers-IsClear w.handshake w.run_err w.new_id rp c.rev v.1),
    )

boot-IsSound : (y : Yaml) (w : World) (d : Disk) → IsSound (boot y w d)
unfolding boot try_bootstrap_from_yaml
boot-IsSound y w d =
    let c : Client = record { reg = new_registry; rev = new_reverse_manager; disk = d } in
    booted-IsSound w c (load_client_file y w.env d)
      (unfold tunnel_run in run-HasOwnPorts [], unfold reverse_run in run-IsClear [])

-- Requests one after the other, each with what the world answers during it.
unfoldable pub session : Yaml → List (World × Method × Request) → Client → Client
session y [] c = c
session y ((w, m, q) ∷ qs) c = session y qs (serve y w m q c).1

session-IsSound :
    (y : Yaml) (qs : List (World × Method × Request)) (c : Client)
    → IsSound c
    → IsSound (session y qs c)
unfolding session
session-IsSound y [] c v = v
session-IsSound y ((w, m, q) ∷ qs) c v =
    session-IsSound y qs (serve y w m q c).1 (serve-IsSound y w m q c v)

-- The client started on any file and then asked any requests, each served to its end before the next
-- one, whatever the system and the network answer: no two tunnels under different ids share a port
-- from 1 on;
-- no two providers under different ids expose the same port of the same host, no two consumers
-- listen on the same port of the same host, and no consumer listens on the port from 1 on, of the
-- same host, that a provider exposes. Hosts are the same if their names are, an empty one standing
-- for 127.0.0.1, or if both are named 127.0.0.1 or localhost.
pub session-boot-IsSound :
    (y : Yaml) (w : World) (d : Disk) (qs : List (World × Method × Request))
    → let c = session y qs (boot y w d) in HasOwnPorts c.reg × HasNoClash c.rev
session-boot-IsSound y w d qs =
    let c = session y qs (boot y w d) in
    let v = session-IsSound y qs (boot y w d) (boot-IsSound y w d) in
    (v.0, IsClear-HasNoClash c.rev v.1)
