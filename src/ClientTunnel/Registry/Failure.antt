-- ===== src/ClientTunnel/Registry/Failure.antt =====
-- A tunnel that cannot listen.
use pspxy.Base.{◌≡◌, refl, get-put_self, false, none, some, Text, get, put}
use pspxy.ClientTunnel.Tunnel.{
  Config, zero_config, listen_failed, validate, new_tunnel, start as tunnel_start,
  stop_unsafe_locked,
}
use pspxy.ClientTunnel.Registry.{
  Instance, Registry, local_port_busy, instance_of, put_started, start_valid, effective, start,
}

module _ (e : Text) (c : Config) (r : Registry) (valid : validate c ≡ none)
    (free : local_port_busy c.local_port c.id r ≡ false) (new : get r.items c.id ≡ none) where
  failed_lem : start_valid (some e) c r none ≡ (
    some (listen_failed e),
    record {
      items =
          put r.items c.id (record { tun = record new_tunnel { run_err = e }; cfg = zero_config });
    },
  )
  unfolding start_valid put_started instance_of tunnel_start stop_unsafe_locked
  failed_lem = rw free (rw new (rw valid refl))

-- Where `Start` is given a valid configuration with a free port and an id that is not registered,
-- and fails to listen, an entry stays under that id whose configuration is empty.
pub start-leaves_empty :
    (e : Text) (cfg : Config) (r : Registry)
    → validate (effective cfg) ≡ none
    → local_port_busy (effective cfg).local_port (effective cfg).id r ≡ false
    → get r.items (effective cfg).id ≡ none
    → let t = start (some e) cfg r in
      (t.0 ≡ some (listen_failed e))
      × ((it : Instance) × (get t.1.items (effective cfg).id ≡ some it) × (it.cfg ≡ zero_config))
unfolding start
start-leaves_empty e cfg r valid free new = rw valid (
    rw (failed_lem e (effective cfg) r valid free new)
      (refl, (_, get-put_self r.items (effective cfg).id _, refl)))
