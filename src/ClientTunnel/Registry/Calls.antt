-- ===== src/ClientTunnel/Registry/Calls.antt =====
-- Any calls of the registry: it never holds a port twice.
use pspxy.Base.{refl, List, [], ◌∷◌, Option, Text, get}
use pspxy.ClientTunnel.Tunnel.{Config, validate}
use pspxy.ClientTunnel.Registry.{
  Registry, new_registry, effective, start, stop, ensure_proxy_id, stop_all, remove_id,
}
use pspxy.ClientTunnel.Registry.Ports.{
  HasOwnPorts, start_valid-HasOwnPorts, stop_found-HasOwnPorts, remove_id-HasOwnPorts,
  stop_all-HasOwnPorts,
}

-- The calls that change the registry, with what `net.Listen` and `Close` answer.
pub data Call : Type 0 where
  starts : Option Text → Config → Call
  stops : Option Text → Text → Call
  removes : Text → Call
  stops_all : Call

unfoldable pub step : Call → Registry → Registry
step (starts listen cfg) r = (start listen cfg r).1
step (stops closed id) r = (stop closed id r).1
step (removes id) r = (remove_id id r).1
step stops_all r = stop_all r

unfoldable pub run : List Call → Registry → Registry
run [] r = r
run (c ∷ cs) r = run cs (step c r)

pub step-HasOwnPorts : (c : Call) (r : Registry) → HasOwnPorts r → HasOwnPorts (step c r)
unfolding step
step-HasOwnPorts (starts listen cfg) r v =
    unfold start in start_valid-HasOwnPorts r v listen (effective cfg) (validate (effective cfg))
step-HasOwnPorts (stops closed id) r v =
    unfold stop in
    stop_found-HasOwnPorts r v closed (ensure_proxy_id id) (get r.items (ensure_proxy_id id)) refl
step-HasOwnPorts (removes id) r v = remove_id-HasOwnPorts r v id
step-HasOwnPorts stops_all r v = stop_all-HasOwnPorts r v

run-step_HasOwnPorts : (cs : List Call) (r : Registry) → HasOwnPorts r → HasOwnPorts (run cs r)
unfolding run
run-step_HasOwnPorts [] r v = v
run-step_HasOwnPorts (c ∷ cs) r v = run-step_HasOwnPorts cs (step c r) (step-HasOwnPorts c r v)

-- After any calls on an empty registry, whatever the outcomes of listening, two tunnels under
-- different ids have different local ports, or no port.
pub run-HasOwnPorts : (cs : List Call) → HasOwnPorts (run cs new_registry)
unfolding get
run-HasOwnPorts cs = run-step_HasOwnPorts cs new_registry (λ i j a b p q n e. cc)
