-- ===== src/Proxy/Manager/Sync.antt =====
-- `SyncWithConfig` makes the running servers those of the configuration.
use pspxy.Base.{
  ℕ, ◌≡◌, refl, Bool, List, [], ◌∷◌, Option, none, some, if◌then◌else◌, Text, arith, ◌==◌, is_some,
  get, any, get-put, get-keep_keys, Bool-cases, inl, inr,
}
use pspxy.Config.{ProxyConfig}
use pspxy.Proxy.Server.{TcpServer, new_tcp_server, stop, reload_config, is_running}
use pspxy.Proxy.Server.Laws.{is_running-eq-enabled, start_total}
use pspxy.Proxy.Manager.{
  Manager, set_server, start_if, sync_started, sync_found, sync_loop, sync_with_config, is_active,
  has_changed,
}

-- The last entry of an id.
unfoldable pub last_proxy : Text → List ProxyConfig → Option ProxyConfig
last_proxy id [] = none
last_proxy id (p ∷ ps) = elim (last_proxy id ps) [
  | some q ↦ some q
  | none ↦ if p.id == id then some p else none
]

-- What is read of a server here: its configuration, and whether it forwards.
abbrev pub View : Type 0
View = Option (ProxyConfig × Bool)

abbrev pub view_of : Option TcpServer → View
view_of none = none
view_of (some s) = some (s.cfg, is_running s)

unfoldable pub view : Manager → Text → View
view m id = view_of (get m.servers id)

-- How a configured proxy is to be seen.
abbrev pub as_view : Option ProxyConfig → View
as_view none = none
as_view (some pc) = some (pc, pc.enabled)

pub view-set_server :
    (k id : Text) (s : TcpServer) (m : Manager)
    → view (set_server k s m) id ≡ (if k == id then view_of (some s) else view m id)
unfolding view set_server
view-set_server k id s m = ground (arith, get-put m.servers k id s)

pub started_view :
    (now : ℕ) (pc : ProxyConfig)
    → (view_of (some (start_if pc.enabled now (new_tcp_server now pc)).1) ≡ as_view (some pc))
      × ((start_if pc.enabled now (new_tcp_server now pc)).0 ≡ none)
unfolding start_if
started_view now pc =
    let r = is_running-eq-enabled now pc (new_tcp_server now pc) in
    let t = start_total now pc (new_tcp_server now pc) in ground (arith, r, t)

view-sync_started :
    (now : ℕ) (pc : ProxyConfig) (kept m : Manager) (id : Text)
    → view (sync_started pc.id kept m (start_if pc.enabled now (new_tcp_server now pc))) id
      ≡ (if pc.id == id then as_view (some pc) else view m id)
unfolding sync_started
view-sync_started now pc kept m id =
    let t = start_if pc.enabled now (new_tcp_server now pc) in
    ground (arith, started_view now pc, view-set_server pc.id id t.1 m)

reloaded_view :
    (now : ℕ) (pc : ProxyConfig) (s : TcpServer)
    → view_of (some (reload_config now pc s).1) ≡ as_view (some pc)
reloaded_view now pc s = ground (arith, is_running-eq-enabled now pc s, start_total now pc s)

-- One round of the loop shows the entry under its id and leaves the rest.
view-sync_found :
    (now : ℕ) (pc : ProxyConfig) (m : Manager) (o : Option TcpServer) (id : Text)
    → view (sync_found now pc m o) id ≡ (if pc.id == id then as_view (some pc) else view m id)
unfolding sync_found
view-sync_found now pc m none id = view-sync_started now pc m m id
view-sync_found now pc m (some s) id = elim (Bool-cases (has_changed s.cfg pc)) [
  | inl e ↦ rw e (view-sync_started now pc (set_server pc.id (stop s) m) m id)
  | inr e ↦ rw e (
      ground (arith, view-set_server pc.id id (reload_config now pc s).1 m, reloaded_view now pc s))
]

abbrev over : Option ProxyConfig → View → View
over none v = v
over (some pc) v = some (pc, pc.enabled)

view-sync_loop :
    (now : ℕ) (pcs : List ProxyConfig) (m : Manager) (id : Text)
    → view (sync_loop now pcs m) id ≡ over (last_proxy id pcs) (view m id)
unfolding sync_loop last_proxy
view-sync_loop now [] m id = refl
view-sync_loop now (pc ∷ pcs) m id = ground (
  arith,
  view-sync_loop now pcs (sync_found now pc m (get m.servers pc.id)) id,
  view-sync_found now pc m (get m.servers pc.id) id,
)

is_active-last_proxy :
    (pcs : List ProxyConfig) (id : Text) → is_active pcs id ≡ is_some (last_proxy id pcs)
unfolding is_active any last_proxy
is_active-last_proxy [] id = refl
is_active-last_proxy (pc ∷ pcs) id = ground (arith, is_active-last_proxy pcs id)

-- After `SyncWithConfig`, whatever ran before, an id is registered exactly when the configuration
-- has an entry of that id, with the last such entry as its configuration, and it forwards exactly
-- when that entry is enabled.
pub view-sync_with_config :
    (now : ℕ) (pcs : List ProxyConfig) (m : Manager) (id : Text)
    → view (sync_with_config now pcs m) id ≡ as_view (last_proxy id pcs)
unfolding sync_with_config view
view-sync_with_config now pcs m id = ground (
  arith,
  get-keep_keys (is_active pcs) (sync_loop now pcs m).servers id,
  is_active-last_proxy pcs id,
  view-sync_loop now pcs m id,
)
