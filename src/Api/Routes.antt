-- ===== src/Api/Routes.antt =====
-- internal/api/handler.go and access_auth.go: the routes under /api/v1 as `Run` sets them up, with
-- the CORS middleware and the access control before the handlers. The router, gin, is not part of
-- the repository: a call is what it hands to a handler.
pub mod Sound
use pspxy.Base.{
  ℕ, ◌≡◌, ◌≤◌, refl, ℤ, pos, Bool, true, false, not, ◌&&◌, List, [], ◌∷◌, Option, none, some,
  if◌then◌else◌, Text, codes, arith, is_some, inl, inr, ◌⊎◌, Bool-cases,
}
use pspxy.Config.Manager.{Yaml, Env, reload as config_reload}
use pspxy.Config.Manager.Edit.{find_proxy, IsDistinctIds}
use pspxy.Api.{Handler, Response, code, failure, of_auth, preflight}
use pspxy.Api.Access.{Request, AuthError, verify_access_auth}
use pspxy.Api.Proxies.{
  CreateProxyRequest, auth_enabled, auth_login, list_proxies, get_proxy, health_check, create_proxy,
  update_proxy, delete_proxy, reload_config,
}
use pspxy.Api.Proxies.InSync.{
  IsInSync, Settles, create_proxy-Settles, update_proxy-Settles, delete_proxy-Settles,
  reload_config-IsInSync,
}

-- The routes with what their handlers read; `create_call` also has the fresh UUID.
pub data Call : Type 0 where
  enabled_call health_call reload_call : Call
  login_call : Option Text → Call
  list_call get_call delete_call : Text → Call
  create_call update_call : Text → Option CreateProxyRequest → Call

-- The two routes outside the group that is guarded.
abbrev pub is_public : Call → Bool
is_public enabled_call = true
is_public (login_call body) = true
is_public _ = false

-- What a route of the guarded group, or one of the two public ones, does.
module _ (y : Yaml) (env : Env) (now : ℕ) where
  unfoldable pub handle : Call → Handler → Response × Handler
  handle enabled_call h = (auth_enabled h, h)
  handle (login_call body) h = (auth_login body h, h)
  handle (list_call enabled) h = (list_proxies enabled h, h)
  handle (get_call id) h = (get_proxy id h, h)
  handle health_call h = (health_check now h, h)
  handle (create_call fresh body) h = create_proxy y env now fresh body h
  handle (update_call id body) h = update_proxy y env now id body h
  handle (delete_call id) h = delete_proxy y env now id h
  handle reload_call h = reload_config y env now h

  -- `GinAccessAuthMiddleware`
  guarded : Option AuthError → Call → Handler → Response × Handler
  unfolding handle
  guarded (some e) call h = (failure 401 (codes "unauthorized") (of_auth e), h)
  guarded none call h = handle call h

  -- `corsMiddleware` answers OPTIONS itself.
  unfoldable pub serve : (Text → Text) → Request → Call → Handler → Response × Handler
  unfolding guarded handle
  serve sha1_hex r call h =
      let checked = verify_access_auth sha1_hex (pos now) h.cfg_mgr.config.server.auth r in
      if r.is_options
      then (preflight, h)
      else if is_public call
      then handle call h
      else guarded checked call h

-- One call with what it meets: the outcomes of the operating system's calls, the time in seconds,
-- and what the access control reads.
pub record Step : Type 0 where
  pub env : Env
  pub now : ℕ
  pub request : Request
  pub call : Call

module _ (y : Yaml) (sha1_hex : Text → Text) where
  unfoldable pub step : Step → Handler → Response × Handler
  unfolding serve
  step t h = serve y t.env t.now sha1_hex t.request t.call h

  unfoldable pub run : List Step → Handler → Handler
  run [] h = h
  run (t ∷ ts) h = run ts (step t h).1
