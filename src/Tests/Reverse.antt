-- ===== src/Tests/Reverse.antt =====
-- The reverse tunnels of the client at concrete inputs.
use pspxy.Base.{
  ◌≡◌, ◌≢◌, refl, inl, inr, arith, eq_iff, ℕ, pos, true, false, List, [], ◌∷◌, none, some, Text,
  codes, ok, get, is_space, any_entry,
}
use pspxy.Strings.{trim_space, is_empty, to_lower, has_prefix, contains}
use pspxy.ClientTunnel.Tunnel.{normalize_server_url_for_ws}
use pspxy.ClientTunnel.Reverse.{
  ReverseProviderPersist, ReverseConsumerPersist, effective_enabled, normalize_provider,
  validate_provider,
}
use pspxy.ClientTunnel.Reverse.Manager.{
  ProviderInst, ReverseManager, new_reverse_manager, Handshake, wait_provider_ended,
  check_provider_conflicts,
}
use pspxy.ClientTunnel.Reverse.Manager.Start.{
  begin_provider, provider_entry, start_provider, start_provider_valid, launch_provider,
  store_provider, handshake_entry, merge_preserve_provider_tunnel_id,
}
use pspxy.ClientTunnel.Reverse.Manager.Clash.{HasNoClash, IsSameHost}
use pspxy.ClientTunnel.Reverse.Manager.Overlap.{overlapped, overlapped-clash}
use pspxy.ClientTunnel.Reverse.Manager.Calls.{
  Call, starts_provider, starts_consumer, stops_provider, run, run-HasNoClash,
}
use pspxy.ClientTunnel.Reverse.Manager.Outcome.{Outcome, start_provider-Outcome}
use pspxy.ClientTunnel.Reverse.Manager.Reclaim.{start_provider-reclaims}

abbrev shop : ReverseProviderPersist
shop = record {
  id = codes "a";
  server_url = codes "http://h";
  local_host = [];
  local_port = pos 80;
  api_key = [];
  channel_id = [];
  enabled = none;
}

abbrev door : ReverseConsumerPersist
door = record {
  id = codes "c";
  listen = codes "localhost:80";
  server_url = codes "http://h";
  api_key = [];
  enabled = none;
  legacy_channel_id = [];
}

-- The server grants the channel `ch`.
abbrev granted : Handshake
granted p channel = ok (codes "ch", 7)

abbrev calls : List Call
calls =
    starts_provider granted (codes "n") none shop
    ∷ starts_consumer (λ addr. ok 3) none door
    ∷ starts_provider granted (codes "n") none (record shop { id = codes "b" })
    ∷ stops_provider none (codes "a")
    ∷ []

run-HasNoClash_example : HasNoClash (run calls new_reverse_manager)
run-HasNoClash_example = run-HasNoClash calls

new_id_lem : trim_space (codes "n") ≡ codes "n"
unfolding trim_space is_space
new_id_lem = refl

valid_lem : validate_provider (provider_entry (codes "n") shop) ≡ none
unfolding validate_provider provider_entry normalize_provider normalize_server_url_for_ws trim_space
    is_space has_prefix to_lower contains
valid_lem = refl

start_provider-Outcome_example :
    let q = provider_entry (codes "n") shop in
    Outcome q.id
      (effective_enabled q.enabled)
      new_reverse_manager
      (start_provider granted (codes "n") none shop new_reverse_manager)
start_provider-Outcome_example =
    start_provider-Outcome granted (codes "n") none shop new_reverse_manager new_id_lem valid_lem

-- Test
started_lem : (start_provider granted (codes "n") none shop new_reverse_manager).0 ≡ ok (codes "ch")
unfolding start_provider start_provider_valid launch_provider store_provider handshake_entry
    wait_provider_ended check_provider_conflicts any_entry get effective_enabled validate_provider
    provider_entry normalize_provider normalize_server_url_for_ws trim_space is_space has_prefix
    to_lower contains
started_lem = refl

channel_lem : is_empty (trim_space (codes "ch")) ≡ false
unfolding trim_space is_space
channel_lem = refl

enabled_lem : effective_enabled shop.enabled ≡ true
unfolding effective_enabled
enabled_lem = refl

named_lem : trim_space shop.id ≡ (provider_entry (codes "n") shop).id
unfolding provider_entry normalize_provider trim_space is_space
named_lem = refl

entry_lem : is_empty (provider_entry (codes "n") shop).id ≡ false
unfolding provider_entry normalize_provider trim_space is_space
entry_lem = refl

absent_lem : is_empty (trim_space shop.channel_id) ≡ true
unfolding trim_space
absent_lem = refl

start_provider-reclaims_example :
    let m = (start_provider granted (codes "n") none shop new_reverse_manager).1 in
    let q = merge_preserve_provider_tunnel_id shop m in
    (q.channel_id ≡ trim_space (codes "ch"))
    × ((r : Text × ℕ)
        → granted q (trim_space (codes "ch")) ≡ ok r
        → handshake_entry granted q ≡ ok r)
start_provider-reclaims_example =
    start_provider-reclaims granted granted (codes "n") none shop shop new_reverse_manager
      (codes "ch") enabled_lem started_lem channel_lem named_lem entry_lem absent_lem

abbrev held : ReverseManager
held = run calls new_reverse_manager

abbrev other : ReverseProviderPersist
other = record shop { id = codes "b"; local_host = codes "localhost" }

unchecked_lem : (overlapped granted granted shop other new_reverse_manager).0 ≡ none
unfolding overlapped begin_provider wait_provider_ended check_provider_conflicts any_entry get
unchecked_lem = refl

unchecked_too_lem : (overlapped granted granted shop other new_reverse_manager).1 ≡ none
unfolding overlapped begin_provider wait_provider_ended check_provider_conflicts any_entry get
unchecked_too_lem = refl

other_lem : codes "a" ≢ codes "b"
other_lem e = ground (arith, (eq_iff (codes "a") (codes "b")).1 e)

loopback_lem : IsSameHost [] (codes "localhost")
unfolding trim_space is_space
loopback_lem = inr (inl refl, inr refl)

overlapped-clash_example :
    let m' = (overlapped granted granted shop other new_reverse_manager).2 in
    (a : ProviderInst) × (b : ProviderInst) × (get m'.providers (codes "a") ≡ some a)
    × (get m'.providers (codes "b") ≡ some b)
    × (a.cfg.local_port ≡ b.cfg.local_port)
    × IsSameHost a.cfg.local_host b.cfg.local_host
overlapped-clash_example =
    overlapped-clash granted granted shop other new_reverse_manager enabled_lem enabled_lem
      other_lem refl loopback_lem unchecked_lem unchecked_too_lem
