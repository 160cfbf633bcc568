-- ===== src/Proxy/Manager/Views.antt =====
-- What `AddProxy`, `UpdateProxy` and `RemoveProxy` make of the servers that are seen.
use pspxy.Base.{
  ℕ, ◌≡◌, true, none, some, if◌then◌else◌, Text, arith, ◌==◌, is_some, get, get-remove,
}
use pspxy.Config.{ProxyConfig}
use pspxy.Proxy.Server.{new_tcp_server}
use pspxy.Proxy.Manager.{Manager, start_if, add_proxy, update_proxy, remove_proxy}
use pspxy.Proxy.Manager.Sync.{view, as_view, started_view, view-set_server}

-- A map that shows a proxy under its id and is otherwise as before.
abbrev pub Shows : ProxyConfig → Manager → Manager → Type 0
Shows pc m m' = (id : Text) → view m' id ≡ (if pc.id == id then as_view (some pc) else view m id)

view-is_some : (m : Manager) (id : Text) → is_some (get m.servers id) ≡ is_some (view m id)
unfolding view
view-is_some m id = ground arith

-- An id that is not registered can be added: it then shows the new proxy, the others as before.
pub add_proxy-Shows :
    (now : ℕ) (pc : ProxyConfig) (m : Manager)
    → view m pc.id ≡ none
    → ((add_proxy now pc m).0 ≡ none) × Shows pc m (add_proxy now pc m).1
unfolding add_proxy
add_proxy-Shows now pc m h =
    let t = start_if pc.enabled now (new_tcp_server now pc) in
    let s = started_view now pc in
    let e = view-is_some m pc.id in
    (ground arith, λ id. ground (arith, view-set_server pc.id id t.1 m))

-- An id that is registered can be replaced.
pub update_proxy-Shows :
    (now : ℕ) (pc : ProxyConfig) (m : Manager)
    → is_some (view m pc.id) ≡ true
    → ((update_proxy now pc.id pc m).0 ≡ none) × Shows pc m (update_proxy now pc.id pc m).1
unfolding update_proxy
update_proxy-Shows now pc m h =
    let t = start_if pc.enabled now (new_tcp_server now pc) in
    let s = started_view now pc in
    let e = view-is_some m pc.id in
    (ground arith, λ id. ground (arith, view-set_server pc.id id t.1 m))

-- An id that is registered can be removed.
pub remove_proxy-view :
    (id : Text) (m : Manager)
    → is_some (view m id) ≡ true
    → ((remove_proxy id m).0 ≡ none)
      × ((j : Text) → view (remove_proxy id m).1 j ≡ (if id == j then none else view m j))
unfolding remove_proxy view
remove_proxy-view id m h = (ground arith, λ j. ground (arith, get-remove m.servers id j))
