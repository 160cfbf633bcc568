-- ===== src/Proxy/Manager/Calls.antt =====
-- Any sequence of the calls that change the map.
use pspxy.Base.{ℕ, List, [], ◌∷◌, Text}
use pspxy.Config.{ProxyConfig}
use pspxy.Proxy.Manager.{
  Manager, new_manager, sync_with_config, is_active, start_all, add_proxy, remove_proxy,
  update_proxy, stop_all,
}
use pspxy.Proxy.Manager.Invariant.{
  IsValid, new_manager-IsValid, add_proxy-IsValid, remove_proxy-IsValid, update_proxy-IsValid,
  keep_keys-IsValid, start_all-IsValid, sync_loop-IsValid,
}

-- The calls that change the map.
pub data Call : Type 0 where
  add : ProxyConfig → Call
  remove_id : Text → Call
  update : ProxyConfig → Call
  sync : List ProxyConfig → Call
  start_listed : List ProxyConfig → Call
  stop_everything : Call

unfoldable pub step : Manager → ℕ × Call → Manager
step m (now, add pc) = (add_proxy now pc m).1
step m (now, remove_id id) = (remove_proxy id m).1
step m (now, update pc) = (update_proxy now pc.id pc m).1
step m (now, sync pcs) = sync_with_config now pcs m
step m (now, start_listed pcs) = start_all now pcs m
step m (now, stop_everything) = stop_all m

unfoldable pub run : Manager → List (ℕ × Call) → Manager
run m [] = m
run m (c ∷ cs) = run (step m c) cs

pub step-IsValid : (m : Manager) (c : ℕ × Call) → IsValid m → IsValid (step m c)
unfolding step sync_with_config stop_all
step-IsValid m (now, add pc) v = add_proxy-IsValid now pc m v
step-IsValid m (now, remove_id id) v = remove_proxy-IsValid id m v
step-IsValid m (now, update pc) v = update_proxy-IsValid now pc m v
step-IsValid m (now, sync pcs) v =
    keep_keys-IsValid (is_active pcs) _ (sync_loop-IsValid now pcs m v)
step-IsValid m (now, start_listed pcs) v = start_all-IsValid now pcs m v
step-IsValid m (now, stop_everything) v = new_manager-IsValid

run-step_IsValid : (m : Manager) (cs : List (ℕ × Call)) → IsValid m → IsValid (run m cs)
unfolding run
run-step_IsValid m [] v = v
run-step_IsValid m (c ∷ cs) v = run-step_IsValid (step m c) cs (step-IsValid m c v)

-- After any calls on a new manager, each registered server stands once, under its own id, shows
-- what its configuration says, and forwards exactly when it is enabled.
pub run-IsValid : (cs : List (ℕ × Call)) → IsValid (run new_manager cs)
run-IsValid cs = run-step_IsValid new_manager cs new_manager-IsValid
