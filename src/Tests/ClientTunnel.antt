-- ===== src/Tests/ClientTunnel.antt =====
-- internal/clienttunnel at concrete inputs.
use pspxy.Base.{◌≡◌, refl, pos, false, [], ◌∷◌, none, some, codes, get, any_entry, is_space}
use pspxy.Strings.{trim_space, has_prefix, to_lower, contains}
use pspxy.ClientTunnel.Tunnel.{
  Config, zero_config, listen_failed, validate, normalize_server_url_for_ws,
}
use pspxy.ClientTunnel.Registry.{Instance, new_registry, effective, local_port_busy, start}
use pspxy.ClientTunnel.Registry.Failure.{start-leaves_empty}
use pspxy.ClientTunnel.Stream.{WsConnWrapper, read}
use pspxy.ClientTunnel.Stream.Reassembly.{Reads, pending, read-Reads}

abbrev shop : Config
shop = record {
  id = codes "a";
  server_url = codes "http://h";
  proxy_id = codes "p";
  local_port = pos 80;
  api_key = [];
}

-- Test
normalize_example : normalize_server_url_for_ws (codes " HTTPS://Host:1 ") ≡ codes "wss://Host:1"
unfolding normalize_server_url_for_ws trim_space is_space has_prefix to_lower contains
normalize_example = refl

valid_lem : validate (effective shop) ≡ none
unfolding validate effective normalize_server_url_for_ws trim_space is_space has_prefix to_lower
    contains
valid_lem = refl

free_lem : local_port_busy (effective shop).local_port (effective shop).id new_registry ≡ false
unfolding local_port_busy any_entry effective
free_lem = refl

new_lem : get new_registry.items (effective shop).id ≡ none
unfolding get
new_lem = refl

start-leaves_empty_example :
    let t = start (some (codes "in use")) shop new_registry in
    (t.0 ≡ some (listen_failed (codes "in use")))
    × ((it : Instance) × (get t.1.items (effective shop).id ≡ some it) × (it.cfg ≡ zero_config))
start-leaves_empty_example =
    start-leaves_empty (codes "in use") shop new_registry valid_lem free_lem new_lem

abbrev stream : WsConnWrapper
stream = record { reader = none; incoming = [] ∷ codes "hello" ∷ codes "!" ∷ [] }

read-Reads_example : Reads 3 (pending stream) (read 3 stream)
read-Reads_example = read-Reads 3 stream
