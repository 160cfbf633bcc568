-- ===== src/Server.antt =====
-- cmd/server/main.go: the start of the server, up to the handler that listens, and its end. The
-- signal and the port are not modelled.
use pspxy.Base.{
  ◌≡◌, refl, subst, ap, ◌∙◌, ℕ, List, [], ◌∷◌, Option, none, if◌then◌else◌, Text, arith, ◌==◌,
  eq_iff, eq_refl, is_some, get, Result, ok, err, Bool-cases, inl, inr,
}
use pspxy.Config.{ProxyConfig}
use pspxy.Config.Manager.{
  Yaml, Env, Error as ConfigError, Manager as ConfigManager, new_manager as new_config_manager,
}
use pspxy.Config.Manager.Edit.{find_proxy, IsDistinctIds}
use pspxy.Proxy.Manager.{new_manager as new_proxy_manager, start_all, stop_all}
use pspxy.Proxy.Manager.Sync.{view, as_view}
use pspxy.Proxy.Manager.Refinement.{Spec, spec_add, spec_start, set, start-Refines}
use pspxy.ReverseTunnel.Broker.{new_broker}
use pspxy.Api.{Handler}
use pspxy.Api.Proxies.InSync.{IsInSync}

started : ℕ → Result ConfigError ConfigManager → Result ConfigError Handler
started now (err e) = err e
started now (ok m) = ok (record {
  proxy_mgr = start_all now m.config.proxies new_proxy_manager;
  cfg_mgr = m;
  rt = new_broker;
  start_at = now;
})

-- The handler, unless the configuration cannot be loaded.
unfoldable pub main_start : Yaml → Env → ℕ → Option Text → Result ConfigError Handler
unfolding started
main_start y env now file = started now (new_config_manager y env file)

-- Behind the signal.
unfoldable pub main_end : Handler → Handler
main_end h = record h { proxy_mgr = stop_all h.proxy_mgr }

spec_start-find :
    (pcs : List ProxyConfig) (s : Spec) (id : Text)
    → spec_start pcs s id ≡ (if is_some (s id) then s id else find_proxy id pcs)
unfolding spec_start spec_add set find_proxy
spec_start-find [] s id = ground arith
spec_start-find (pc ∷ pcs) s id =
    spec_start-find pcs (spec_add pc s) id ∙ elim (Bool-cases (pc.id == id)) [
      | inl e ↦ rw ((eq_iff pc.id id).0 e) (unfold ◌==◌ in ground (arith, eq_refl id))
      | inr e ↦ rw e (ground arith)
    ]

started-runs :
    (now : ℕ) (r : Result ConfigError ConfigManager) (h : Handler) (id : Text)
    → started now r ≡ ok h
    → view h.proxy_mgr id ≡ as_view (find_proxy id h.cfg_mgr.config.proxies)
unfolding started
started-runs now (err x) h id e = cc
started-runs now (ok m) h id e =
    let pcs = m.config.proxies in
    let none_yet : Spec = λ j. none in
    let runs =
      start-Refines now pcs new_proxy_manager none_yet (λ j. unfold view get in refl) id
      ∙ ap as_view (spec_start-find pcs none_yet id) in
    let same : record {
      proxy_mgr = start_all now m.config.proxies new_proxy_manager;
      cfg_mgr = m;
      rt = new_broker;
      start_at = now;
    }
        ≡ h =
      cc in
    subst (λ (x : Handler). view x.proxy_mgr id ≡ as_view (find_proxy id x.cfg_mgr.config.proxies))
      same runs

-- Where the server starts on a configuration with distinct ids, what runs under each id is its entry:
-- every entry is registered, it forwards exactly if it is enabled, and nothing else is registered.
pub main_start-IsInSync :
    (y : Yaml) (env : Env) (now : ℕ) (file : Option Text) (h : Handler)
    → main_start y env now file ≡ ok h
    → IsDistinctIds h.cfg_mgr.config.proxies
    → IsInSync h
unfolding main_start
main_start-IsInSync y env now file h e d = record {
  distinct = d;
  runs = λ id. started-runs now (new_config_manager y env file) h id e;
}
