-- ===== src/Api/Routes/Sound.antt =====
-- What serving a call does, for every call.
use pspxy.Base.{
  ℕ, ◌≡◌, ◌≤◌, refl, sym, ◌∙◌, pos, Bool, true, false, List, [], ◌∷◌, Option, none, some,
  if◌then◌else◌, Text, arith, inl, inr, ◌⊎◌, Bool-cases,
}
use pspxy.Config.Manager.{Yaml, Env, reload as config_reload}
use pspxy.Config.Manager.Edit.{find_proxy, IsDistinctIds}
use pspxy.Api.{Handler, Response, code, preflight}
use pspxy.Api.Access.Laws.{verify_access_auth_lem}
use pspxy.Api.Access.{Request, AuthError, verify_access_auth}
use pspxy.Api.Proxies.{
  auth_enabled, auth_login, list_proxies, get_proxy, health_check, create_proxy, update_proxy,
  delete_proxy,
}
use pspxy.Api.Proxies.InSync.{
  IsInSync, Settles, create_proxy-Settles, update_proxy-Settles, delete_proxy-Settles,
  reload_config-IsInSync,
}
use pspxy.Api.Routes.{
  Call, enabled_call, health_call, reload_call, login_call, list_call, get_call, delete_call,
  create_call, update_call, is_public, handle, guarded, serve, Step, step, run,
}

leb-cases : (n : ℕ) → (n ≤ 399) ⊎ (400 ≤ n)
leb-cases n = ground arith

excluded : (n : ℕ) → n ≤ 399 → 400 ≤ n → ⊥
excluded n a b = ground arith

-- Either the call succeeds, with what runs and the configuration in agreement, or it fails, with
-- what runs as before.
abbrev pub Keeps : Handler → Response × Handler → Type 0
Keeps h (r, h') = ((code r ≤ 399) × IsInSync h') ⊎ ((400 ≤ code r) × (h'.proxy_mgr ≡ h.proxy_mgr))

same-Keeps : (h : Handler) (r : Response) → IsInSync h → Keeps h (r, h)
same-Keeps h r s = elim (leb-cases (code r)) [ inl c ↦ inl (c, s) | inr c ↦ inr (c, refl) ]

weaken : (h : Handler) (t : Response × Handler) → Settles h t → Keeps h t
weaken h t (inl a) = inl a
weaken h t (inr (c, p, f)) = inr (c, p)

if-Keeps :
    (h : Handler) (b : Bool) (t u : Response × Handler)
    → Keeps h t
    → Keeps h u
    → Keeps h (if b then t else u)
if-Keeps h true t u k l = k
if-Keeps h false t u k l = l

module _ (y : Yaml) (env : Env) (now : ℕ) where
  -- What a call may rely on: a UUID that is fresh, and a file with distinct ids.
  abbrev pub Allowed : Call → Handler → Type 0
  Allowed (create_call fresh body) h = find_proxy fresh h.cfg_mgr.config.proxies ≡ none
  Allowed reload_call h = IsDistinctIds (config_reload y env h.cfg_mgr).1.config.proxies
  Allowed _ h = Unit

  handle-Keeps :
      (call : Call) (h : Handler) → IsInSync h → Allowed call h → Keeps h (handle y env now call h)
  unfolding handle
  handle-Keeps enabled_call h s a = same-Keeps h (auth_enabled h) s
  handle-Keeps (login_call body) h s a = same-Keeps h (auth_login body h) s
  handle-Keeps (list_call enabled) h s a = same-Keeps h (list_proxies enabled h) s
  handle-Keeps (get_call id) h s a = same-Keeps h (get_proxy id h) s
  handle-Keeps health_call h s a = same-Keeps h (health_check now h) s
  handle-Keeps (create_call fresh body) h s a =
      weaken h (create_proxy y env now fresh body h)
        (create_proxy-Settles y env now h s fresh body a)
  handle-Keeps (update_call id body) h s a =
      weaken h (update_proxy y env now id body h) (update_proxy-Settles y env now h s id body)
  handle-Keeps (delete_call id) h s a =
      weaken h (delete_proxy y env now id h) (delete_proxy-Settles y env now h s id)
  handle-Keeps reload_call h s a = elim (reload_config-IsInSync y env now h a) [
    | inl (c, i) ↦ inl (ground arith, i)
    | inr (c, p, f) ↦ inr (ground arith, p)
  ]

  guarded-Keeps :
      (o : Option AuthError) (call : Call) (h : Handler)
      → IsInSync h
      → Allowed call h
      → Keeps h (guarded y env now o call h)
  unfolding guarded
  guarded-Keeps (some e) call h s a = inr (ground arith, refl)
  guarded-Keeps none call h s a = handle-Keeps call h s a

  pub serve-Keeps :
      (sha1_hex : Text → Text) (r : Request) (call : Call) (h : Handler)
      → IsInSync h
      → Allowed call h
      → Keeps h (serve y env now sha1_hex r call h)
  unfolding serve
  serve-Keeps sha1_hex r call h s a =
      let checked = verify_access_auth sha1_hex (pos now) h.cfg_mgr.config.server.auth r in
      if-Keeps h r.is_options (preflight, h) _ (same-Keeps h preflight s)
        (if-Keeps h (is_public call) (handle y env now call h) _ (handle-Keeps call h s a)
          (guarded-Keeps checked call h s a))

  -- A request that the access control refuses changes nothing, whatever it calls, and is answered
  -- with 401 unless it asks whether access control is on or submits a credential: `GET auth/enabled`
  -- and `POST auth/login`.
  pub serve_unauthorized :
      (sha1_hex : Text → Text) (r : Request) (call : Call) (h : Handler) (e : AuthError)
      → verify_access_auth sha1_hex (pos now) h.cfg_mgr.config.server.auth r ≡ some e
      → let (answer, h') = serve y env now sha1_hex r call h in
        (h' ≡ h)
        × ((call ≡ enabled_call)
            ⊎ (((body : Option Text) × (call ≡ login_call body)) ⊎ (code answer ≡ 401)))
  unfolding serve handle
  serve_unauthorized sha1_hex r call h e v = elim (Bool-cases r.is_options) [
    | inl o ↦
        let accepted =
          (verify_access_auth_lem sha1_hex (pos now) h.cfg_mgr.config.server.auth r).1
            (inr (inl o)) in
        absurd (some_none (sym v ∙ accepted))
    | inr o ↦ rw (v, o) (by_call call)
  ]
    where
      by_call :
          (call : Call)
          → let t =
              if is_public call
              then handle y env now call h
              else guarded y env now (some e) call h in
            (t.1 ≡ h)
            × ((call ≡ enabled_call)
                ⊎ (((body : Option Text) × (call ≡ login_call body)) ⊎ (code t.0 ≡ 401)))
      by_call enabled_call = (refl, inl refl)
      by_call (login_call body) = (refl, inr (inl (body, refl)))
      by_call (list_call enabled) = (refl, inr (inr refl))
      by_call (get_call id) = (refl, inr (inr refl))
      by_call health_call = (refl, inr (inr refl))
      by_call (create_call fresh body) = (refl, inr (inr refl))
      by_call (update_call id body) = (refl, inr (inr refl))
      by_call (delete_call id) = (refl, inr (inr refl))
      by_call reload_call = (refl, inr (inr refl))

      some_none : ◌≡◌ {A = Option AuthError} (some e) none → ⊥
      some_none d = cc

module _ (y : Yaml) (sha1_hex : Text → Text) where
  -- Each call may rely on what it needs, and succeeds.
  unfoldable pub AllSucceed : List Step → Handler → Type 0
  AllSucceed [] h = Unit
  AllSucceed (t ∷ ts) h =
      Allowed y t.env t.now t.call h
      × (code (step y sha1_hex t h).0 ≤ 399)
      × AllSucceed ts (step y sha1_hex t h).1

  -- From a state in which what runs is what the configuration says, and as long as every call
  -- succeeds, every new UUID is fresh, and every configuration that is reloaded has distinct ids,
  -- what runs stays what the configuration says.
  pub run-IsInSync :
      (ts : List Step) (h : Handler) → IsInSync h → AllSucceed ts h → IsInSync (run y sha1_hex ts h)
  unfolding AllSucceed run step
  run-IsInSync [] h s a = s
  run-IsInSync (t ∷ ts) h s a = elim (serve-Keeps y t.env t.now sha1_hex t.request t.call h s a.0) [
    | inl (c, i) ↦ run-IsInSync ts _ i a.2
    | inr (c, p) ↦ absurd (excluded _ a.1 c)
  ]
