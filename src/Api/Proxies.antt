-- ===== src/Api/Proxies.antt =====
-- internal/api/handler.go: the handlers under /api/v1. What JSON decoding makes of a body is an
-- argument, `none` for an error; so are the fresh UUID and the time in seconds.
pub mod InSync
use pspxy.Base.{
  ℕ, ◌-◌, ◌+◌, Bool, true, false, not, ◌&&◌, ◌||◌, List, [], ◌∷◌, Option, none, some, if◌then◌else◌,
  Text, codes, ◌==◌, Result, ok, err, length,
}
use pspxy.Strings.{is_empty}
use pspxy.Config.{ProxyConfig, Config}
use pspxy.Config.AccessAuth.{AccessAuth, is_enabled}
use pspxy.Config.Manager.{
  Yaml, Env, Manager as ConfigManager, Error as ConfigError, Outcome as ConfigOutcome,
  add_proxy as config_add_proxy, update_proxy as config_update_proxy,
  remove_proxy as config_remove_proxy, reload as config_reload,
}
use pspxy.Proxy.Server.{ProxyStatus, is_running_status}
use pspxy.Proxy.Manager.{
  Manager as ProxyManager, Error as ProxyError, Outcome as ProxyOutcome,
  add_proxy as proxy_add_proxy, update_proxy as proxy_update_proxy,
  remove_proxy as proxy_remove_proxy, get_all_status, get_status, sync_with_config,
}
use pspxy.Api.{
  Handler, Detail, binding_error, fixed, of_config, of_proxy, of_auth, Response, failure,
  auth_required, logged_in, listed, created, updated, found, deleted, reloaded, healthy,
}
use pspxy.Api.Access.{verify_plain_credential, bad_key}

pub record CreateProxyRequest : Type 0 where
  pub name : Text
  pub remote_address : Text
  pub enabled : Bool

-- `binding:"required"`: the name and the address are not empty.
bound : CreateProxyRequest → Option CreateProxyRequest
bound r = if is_empty r.name || is_empty r.remote_address then none else some r

unfoldable pub bind : Option CreateProxyRequest → Option CreateProxyRequest
unfolding bound
bind none = none
bind (some r) = bound r

abbrev to_config : Text → CreateProxyRequest → ProxyConfig
to_config id r = record {
  id = id;
  name = r.name;
  remote_address = r.remote_address;
  enabled = r.enabled;
}

abbrev auth_of : Handler → AccessAuth
auth_of h = h.cfg_mgr.config.server.auth

unfoldable pub auth_enabled : Handler → Response
auth_enabled h = auth_required (is_enabled (auth_of h))

login : AccessAuth → Option Text → Response
login auth none = failure 400 (codes "bad_request") binding_error
login auth (some api_key) =
    if not (verify_plain_credential auth api_key)
    then failure 401 (codes "unauthorized") (fixed (codes "invalid credential"))
    else logged_in true

unfoldable pub auth_login : Option Text → Handler → Response
unfolding login
auth_login body h = if not (is_enabled (auth_of h)) then logged_in false else login (auth_of h) body

unfoldable pub filter_enabled : Text → List ProxyStatus → List ProxyStatus
filter_enabled enabled [] = []
filter_enabled enabled (p ∷ ps) =
    let rest = filter_enabled enabled ps in
    if (enabled == codes "true") && not p.enabled then rest else p ∷ rest

unfoldable pub list_proxies : Text → Handler → Response
list_proxies enabled h = listed (filter_enabled enabled (get_all_status h.proxy_mgr))

got : Result ProxyError ProxyStatus → Response
got (err e) = failure 404 (codes "not_found") (of_proxy e)
got (ok s) = found s

unfoldable pub get_proxy : Text → Handler → Response
unfolding got
get_proxy id h = got (get_status id h.proxy_mgr)

unfoldable pub count_running : List ProxyStatus → ℕ
count_running [] = 0
count_running (p ∷ ps) =
    let rest = count_running ps in if is_running_status p.status then rest + 1 else rest

unfoldable pub health_check : ℕ → Handler → Response
unfolding count_running
health_check now h =
    let proxies = get_all_status h.proxy_mgr in
    healthy (now - h.start_at) (count_running proxies) (length proxies)

-- The second half of a handler: the result of the proxy manager.
started : ℕ → Text → Response → Handler → ProxyOutcome × ProxyManager → Response × Handler
started status error good h (some e, m) =
    (failure status error (of_proxy e), record h { proxy_mgr = m })
started status error good h (none, m) = (good, record h { proxy_mgr = m })

create_saved : ℕ → ProxyConfig → Handler → ConfigOutcome × ConfigManager → Response × Handler
unfolding started
create_saved now pc h (some e, m) =
    (failure 500 (codes "config_save_failed") (of_config e), record h { cfg_mgr = m })
create_saved now pc h (none, m) =
    started 500 (codes "proxy_start_failed") (created pc) (record h { cfg_mgr = m })
      (proxy_add_proxy now pc h.proxy_mgr)

update_saved : ℕ → Text → ProxyConfig → Handler → ConfigOutcome × ConfigManager → Response × Handler
unfolding started
update_saved now id pc h (some e, m) =
    (failure 500 (codes "config_update_failed") (of_config e), record h { cfg_mgr = m })
update_saved now id pc h (none, m) =
    started 500 (codes "proxy_update_failed") (updated pc) (record h { cfg_mgr = m })
      (proxy_update_proxy now id pc h.proxy_mgr)

delete_saved : Text → Handler → ConfigOutcome × ConfigManager → Response × Handler
unfolding started
delete_saved id h (some e, m) =
    (failure 404 (codes "not_found") (of_config e), record h { cfg_mgr = m })
delete_saved id h (none, m) =
    started 500 (codes "proxy_remove_failed") deleted (record h { cfg_mgr = m })
      (proxy_remove_proxy id h.proxy_mgr)

reload_done : ℕ → Handler → Result ConfigError Config × ConfigManager → Response × Handler
reload_done now h (err e, m) =
    (failure 500 (codes "reload_failed") (of_config e), record h { cfg_mgr = m })
reload_done now h (ok cfg, m) = (
  reloaded (length cfg.proxies),
  record h { cfg_mgr = m; proxy_mgr = sync_with_config now cfg.proxies h.proxy_mgr },
)

module _ (y : Yaml) (env : Env) (now : ℕ) where
  create_bound : Text → Handler → Option CreateProxyRequest → Response × Handler
  unfolding create_saved
  create_bound fresh h none = (failure 400 (codes "validation_failed") binding_error, h)
  create_bound fresh h (some r) =
      create_saved now (to_config fresh r) h (config_add_proxy y env (to_config fresh r) h.cfg_mgr)

  -- `fresh` is the text of the new UUID.
  unfoldable pub create_proxy : Text → Option CreateProxyRequest → Handler → Response × Handler
  unfolding create_bound
  create_proxy fresh body h = create_bound fresh h (bind body)

  update_bound : Text → Handler → Option CreateProxyRequest → Response × Handler
  unfolding update_saved
  update_bound id h none = (failure 400 (codes "validation_failed") binding_error, h)
  update_bound id h (some r) =
      update_saved now id (to_config id r) h
        (config_update_proxy y env id (to_config id r) h.cfg_mgr)

  unfoldable pub update_proxy : Text → Option CreateProxyRequest → Handler → Response × Handler
  unfolding update_bound
  update_proxy id body h = update_bound id h (bind body)

  unfoldable pub delete_proxy : Text → Handler → Response × Handler
  unfolding delete_saved
  delete_proxy id h = delete_saved id h (config_remove_proxy y env id h.cfg_mgr)

  unfoldable pub reload_config : Handler → Response × Handler
  unfolding reload_done
  reload_config h = reload_done now h (config_reload y env h.cfg_mgr)
