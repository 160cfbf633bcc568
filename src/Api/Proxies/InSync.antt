-- ===== src/Api/Proxies/InSync.antt =====
-- The running proxies and the configuration agree as long as no request fails.
use pspxy.Base.{
  ℕ, ◌≡◌, refl, ap, ◌≤◌, true, List, [], ◌∷◌, Option, none, some, if◌then◌else◌, Text, arith, ◌==◌,
  is_some, inl, inr, ◌⊎◌, eq_iff, Result, ok, err,
}
use pspxy.Config.{ProxyConfig, Config}
use pspxy.Config.Manager.{
  Yaml, Env, Manager as ConfigManager, Outcome as ConfigOutcome, Error as ConfigError,
  add_proxy as config_add_proxy, update_proxy as config_update_proxy,
  remove_proxy as config_remove_proxy, reload as config_reload,
}
use pspxy.Config.Manager.Save.{config_after, config-reload}
use pspxy.Config.Manager.Edit.{
  find_proxy, IsDistinctIds, update_proxy-find, remove_proxy-find, add_proxy-proxies,
}
use pspxy.Config.Manager.Distinct.{
  find_proxy-append_new, add_proxy-IsDistinctIds, update_proxy-IsDistinctIds,
  remove_proxy-IsDistinctIds, KeepsFile, update_proxy-KeepsFile, remove_proxy-KeepsFile,
}
use pspxy.Proxy.Manager.{Manager as ProxyManager, Outcome as ProxyOutcome}
use pspxy.Proxy.Manager.Sync.{view, as_view, last_proxy, view-sync_with_config}
use pspxy.Proxy.Manager.Views.{add_proxy-Shows, update_proxy-Shows, remove_proxy-view}
use pspxy.Api.{Handler, Response, code}
use pspxy.Api.Proxies.{
  CreateProxyRequest, bind, to_config, create_proxy, create_bound, create_saved, started,
  update_proxy, update_bound, update_saved, delete_proxy, delete_saved, reload_config, reload_done,
}

-- The ids of the configuration are distinct, and what runs under each id is its entry.
pub record IsInSync (h : Handler) : Type 0 where
  pub distinct : IsDistinctIds h.cfg_mgr.config.proxies
  pub runs : (id : Text) → view h.proxy_mgr id ≡ as_view (find_proxy id h.cfg_mgr.config.proxies)

-- A failure that has neither changed what runs nor the file.
abbrev pub Unchanged : Handler → Response × Handler → Type 0
Unchanged h (r, h') =
    (400 ≤ code r) × (h'.proxy_mgr ≡ h.proxy_mgr) × (h'.cfg_mgr.file ≡ h.cfg_mgr.file)

-- Either the request succeeds, with what runs and the configuration in agreement, or it fails.
abbrev pub Settles : Handler → Response × Handler → Type 0
Settles h (r, h') = ((code r ≤ 399) × IsInSync h') ⊎ Unchanged h (r, h')

last-find_proxy :
    (id : Text) (ps : List ProxyConfig) → IsDistinctIds ps → last_proxy id ps ≡ find_proxy id ps
unfolding last_proxy find_proxy IsDistinctIds
last-find_proxy id [] d = refl
last-find_proxy id (p ∷ ps) d = ground (arith, last-find_proxy id ps d.1, eq_iff p.id id, d.0)

module _ (h : Handler) (m : ConfigManager) where
  -- The second half of a handler, on a configuration that is saved.
  started-Settles :
      (status : ℕ) (error : Text) (good : Response) (r : ProxyOutcome × ProxyManager)
      → code good ≤ 399
      → IsDistinctIds m.config.proxies
      → (r.0 ≡ none) × ((id : Text) → view r.1 id ≡ as_view (find_proxy id m.config.proxies))
      → Settles h (started status error good (record h { cfg_mgr = m }) r)
  unfolding started
  started-Settles status error good (some e, pm) c d v = cc
  started-Settles status error good (none, pm) c d v = inl (c, record { distinct = d; runs = v.1 })

module _ (now : ℕ) (h : Handler) (s : IsInSync h) (m : ConfigManager) where
  create_saved-Settles :
      (pc : ProxyConfig) (o : ConfigOutcome)
      → KeepsFile h.cfg_mgr (o, m)
      → IsDistinctIds m.config.proxies
      → find_proxy pc.id h.cfg_mgr.config.proxies ≡ none
      → ((j : Text)
          → find_proxy j m.config.proxies
            ≡ (if pc.id == j then some pc else find_proxy j h.cfg_mgr.config.proxies))
      → Settles h (create_saved now pc h (o, m))
  unfolding create_saved
  create_saved-Settles pc (some e) k d n f = inr (ground arith, refl, k e refl)
  create_saved-Settles pc none k d n f =
      let a = add_proxy-Shows now pc h.proxy_mgr (rw (s.runs pc.id) (rw n refl)) in
      started-Settles h m 500 _ _ _ (ground arith) d
        (a.0, λ j. ground (arith, a.1 j, f j, s.runs j))

  update_saved-Settles :
      (pc : ProxyConfig) (o : ConfigOutcome)
      → KeepsFile h.cfg_mgr (o, m)
      → IsDistinctIds m.config.proxies
      → is_some (find_proxy pc.id h.cfg_mgr.config.proxies) ≡ true
      → ((j : Text)
          → find_proxy j m.config.proxies
            ≡ (if pc.id == j then some pc else find_proxy j h.cfg_mgr.config.proxies))
      → Settles h (update_saved now pc.id pc h (o, m))
  unfolding update_saved
  update_saved-Settles pc (some e) k d n f = inr (ground arith, refl, k e refl)
  update_saved-Settles pc none k d n f =
      let a = update_proxy-Shows now pc h.proxy_mgr (rw (s.runs pc.id) (ground arith)) in
      started-Settles h m 500 _ _ _ (ground arith) d
        (a.0, λ j. ground (arith, a.1 j, f j, s.runs j))

  delete_saved-Settles :
      (id : Text) (o : ConfigOutcome)
      → KeepsFile h.cfg_mgr (o, m)
      → IsDistinctIds m.config.proxies
      → is_some (find_proxy id h.cfg_mgr.config.proxies) ≡ true
      → ((j : Text)
          → find_proxy j m.config.proxies
            ≡ (if id == j then none else find_proxy j h.cfg_mgr.config.proxies))
      → Settles h (delete_saved id h (o, m))
  unfolding delete_saved
  delete_saved-Settles id (some e) k d n f = inr (ground arith, refl, k e refl)
  delete_saved-Settles id none k d n f =
      let a = remove_proxy-view id h.proxy_mgr (rw (s.runs id) (ground arith)) in
      started-Settles h m 500 _ _ _ (ground arith) d
        (a.0, λ j. ground (arith, a.1 j, f j, s.runs j))

module _ (y : Yaml) (env : Env) (now : ℕ) (h : Handler) (s : IsInSync h) where
  find_proxy-added :
      (pc : ProxyConfig)
      → find_proxy pc.id h.cfg_mgr.config.proxies ≡ none
      → (j : Text)
      → find_proxy j (config_add_proxy y env pc h.cfg_mgr).1.config.proxies
        ≡ (if pc.id == j then some pc else find_proxy j h.cfg_mgr.config.proxies)
  find_proxy-added pc n j =
      rw (add_proxy-proxies y env pc h.cfg_mgr).0
        (find_proxy-append_new h.cfg_mgr.config.proxies pc n j)

  create_bound-Settles :
      (fresh : Text) (o : Option CreateProxyRequest)
      → find_proxy fresh h.cfg_mgr.config.proxies ≡ none
      → Settles h (create_bound y env now fresh h o)
  unfolding create_bound
  create_bound-Settles fresh none n = inr (ground arith, refl, refl)
  create_bound-Settles fresh (some r) n =
      let pc = to_config fresh r in
      create_saved-Settles now h s (config_add_proxy y env pc h.cfg_mgr).1 pc _
        (add_proxy-proxies y env pc h.cfg_mgr).1
        (add_proxy-IsDistinctIds y env h.cfg_mgr s.distinct pc n) n (find_proxy-added pc n)

  -- Where what runs and the configuration agree, creating a proxy under an id that is not configured
  -- either succeeds, with what runs and the configuration in agreement again, or is answered with a
  -- code from 400 on and changes neither what runs nor the file.
  pub create_proxy-Settles :
      (fresh : Text) (body : Option CreateProxyRequest)
      → find_proxy fresh h.cfg_mgr.config.proxies ≡ none
      → Settles h (create_proxy y env now fresh body h)
  unfolding create_proxy
  create_proxy-Settles fresh body n = create_bound-Settles fresh (bind body) n

  update_bound-Settles :
      (id : Text) (o : Option CreateProxyRequest) → Settles h (update_bound y env now id h o)
  unfolding update_bound
  update_bound-Settles id none = inr (ground arith, refl, refl)
  update_bound-Settles id (some r) =
      let pc = to_config id r in
      elim (update_proxy-find y env id pc h.cfg_mgr) [
        | inl (n, e) ↦ rw e (inr (ground arith, refl, refl))
        | inr (q, f) ↦
            update_saved-Settles now h s (config_update_proxy y env id pc h.cfg_mgr).1 pc _
              (update_proxy-KeepsFile y env id h.cfg_mgr pc)
              (update_proxy-IsDistinctIds y env h.cfg_mgr s.distinct id pc) q f
      ]

  -- Where what runs and the configuration agree, updating a proxy either succeeds, with what runs and
  -- the configuration in agreement again, or is answered with a code from 400 on and changes neither
  -- what runs nor the file.
  pub update_proxy-Settles :
      (id : Text) (body : Option CreateProxyRequest) → Settles h (update_proxy y env now id body h)
  unfolding update_proxy
  update_proxy-Settles id body = update_bound-Settles id (bind body)

  -- Where what runs and the configuration agree, deleting a proxy either succeeds, with what runs and
  -- the configuration in agreement again, or is answered with a code from 400 on and changes neither
  -- what runs nor the file.
  pub delete_proxy-Settles : (id : Text) → Settles h (delete_proxy y env now id h)
  unfolding delete_proxy
  delete_proxy-Settles id = elim (remove_proxy-find y env id h.cfg_mgr s.distinct) [
    | inl (n, e) ↦ rw e (inr (ground arith, refl, refl))
    | inr (q, f) ↦
        delete_saved-Settles now h s (config_remove_proxy y env id h.cfg_mgr).1 id _
          (remove_proxy-KeepsFile y env id h.cfg_mgr)
          (remove_proxy-IsDistinctIds y env h.cfg_mgr s.distinct id) q f
  ]

  -- Where what runs and the configuration agree: creating a proxy under an id that is not configured,
  -- updating any id and deleting any id each either succeed, with what runs and the configuration in
  -- agreement again, or are answered with a code from 400 on and change neither what runs nor the
  -- file.
  pub edit-Settles :
      (fresh id : Text) (body : Option CreateProxyRequest)
      → find_proxy fresh h.cfg_mgr.config.proxies ≡ none
      → Settles h (create_proxy y env now fresh body h)
        × Settles h (update_proxy y env now id body h)
        × Settles h (delete_proxy y env now id h)
  edit-Settles fresh id body n =
      (create_proxy-Settles fresh body n, update_proxy-Settles id body, delete_proxy-Settles id)

reload_done_lem :
    (now : ℕ) (h : Handler) (m : ConfigManager) (r : Result ConfigError Config)
    → m.config ≡ config_after h.cfg_mgr.config r
    → IsDistinctIds m.config.proxies
    → let t = reload_done now h (r, m) in
      ((code t.0 ≡ 200) × IsInSync t.1)
      ⊎ ((code t.0 ≡ 500) × (t.1.proxy_mgr ≡ h.proxy_mgr) × (t.1.cfg_mgr.config ≡ h.cfg_mgr.config))
unfolding reload_done
reload_done_lem now h m (err e) c d = inr (refl, refl, c)
reload_done_lem now h m (ok cfg) c d = inl (
  refl,
  record {
    distinct = d;
    runs = λ id.
        rw (view-sync_with_config now cfg.proxies h.proxy_mgr id)
          (rw (← c) (ap as_view (last-find_proxy id m.config.proxies d)));
  },
)

-- A reload that fails changes neither what runs nor the configuration in memory; one that succeeds
-- makes what runs what the file says, whatever ran before, if the ids in the file are distinct.
pub reload_config-IsInSync :
    (y : Yaml) (env : Env) (now : ℕ) (h : Handler)
    → IsDistinctIds (config_reload y env h.cfg_mgr).1.config.proxies
    → let t = reload_config y env now h in
      ((code t.0 ≡ 200) × IsInSync t.1)
      ⊎ ((code t.0 ≡ 500) × (t.1.proxy_mgr ≡ h.proxy_mgr) × (t.1.cfg_mgr.config ≡ h.cfg_mgr.config))
unfolding reload_config
reload_config-IsInSync y env now h d =
    reload_done_lem now h (config_reload y env h.cfg_mgr).1 _ (config-reload y env h.cfg_mgr) d
