-- ===== src/Proxy/Manager/Invariant.antt =====
-- The invariant of the map of servers, and that every operation keeps it.
use pspxy.Base.{
  ℕ, ◌≡◌, refl, ap, sym, subst, ◌∙◌, Bool, true, false, List, [], ◌∷◌, Option, none, some,
  if◌then◌else◌, Text, arith, ◌==◌, is_some, get, remove, keep_keys, eq_iff, get-put, get-remove,
  get-keep_keys, Bool-cases, inl, inr, IsDistinct, put-IsDistinct, remove-IsDistinct,
  keep_keys-IsDistinct,
}
use pspxy.Config.{ProxyConfig}
use pspxy.Proxy.Server.{TcpServer, new_tcp_server, stop, reload_config, is_running}
use pspxy.Proxy.Server.Laws.{
  IsCoherent, new_tcp_server-IsCoherent, start-IsCoherent, reload_config-IsCoherent,
  is_running-eq-enabled, start_total,
}
use pspxy.Proxy.Manager.{
  Manager, new_manager, set_server, start_if, sync_started, sync_found, sync_loop, has_changed,
  start_all, add_proxy, remove_proxy, update_proxy, add_started, remove_found, update_found,
  update_started,
}

-- A server under its own id that is coherent and forwards exactly when it is enabled.
pub record IsRegistered (id : Text) (s : TcpServer) : Type 0 where
  pub own_id : s.cfg.id ≡ id
  pub coherent : IsCoherent s
  pub runs : is_running s ≡ s.cfg.enabled

-- No id stands twice, and every entry is registered under its own id.
pub record IsValid (m : Manager) : Type 0 where
  pub distinct : IsDistinct m.servers
  pub at : (id : Text) (s : TcpServer) → get m.servers id ≡ some s → IsRegistered id s

pub new_manager-IsValid : IsValid new_manager
unfolding get
new_manager-IsValid = record { distinct = tt; at = λ id s e. cc }

set_server-IsValid :
    (id : Text) (s : TcpServer) (m : Manager)
    → IsRegistered id s
    → IsValid m
    → IsValid (set_server id s m)
unfolding set_server
set_server-IsValid id s m r v = record {
  distinct = put-IsDistinct m.servers id s v.distinct;
  at = λ j t e. at_put j t (sym (get-put m.servers id j s) ∙ e);
}
  where
    at_put :
        (j : Text) (t : TcpServer)
        → (if id == j then some s else get m.servers j) ≡ some t
        → IsRegistered j t
    at_put j t e = elim (Bool-cases (id == j)) [
      | inl q ↦
          let same : s ≡ t = ground arith in
          subst (λ k. IsRegistered k t) ((eq_iff id j).0 q) (subst (IsRegistered id) same r)
      | inr q ↦ v.at j t (ground arith)
    ]

start_if-IsCoherent :
    (b : Bool) (now : ℕ) (s : TcpServer) → IsCoherent s → IsCoherent (start_if b now s).1
unfolding start_if
start_if-IsCoherent true now s h = start-IsCoherent now s h
start_if-IsCoherent false now s h = h

-- The server that `AddProxy`, `UpdateProxy` and `SyncWithConfig` make for a configuration.
started-IsRegistered :
    (now : ℕ) (pc : ProxyConfig)
    → IsRegistered pc.id (start_if pc.enabled now (new_tcp_server now pc)).1
started-IsRegistered now pc =
    let s = new_tcp_server now pc in
    let kept : (start_if pc.enabled now s).1.cfg ≡ pc =
      unfold start_if in ground (arith, start_total now pc s) in
    record {
      own_id = ap (λ (c : ProxyConfig). c.id) kept;
      coherent = start_if-IsCoherent pc.enabled now s (new_tcp_server-IsCoherent now pc);
      runs =
          unfold start_if in ground (arith, start_total now pc s, is_running-eq-enabled now pc s);
    }

started_ok :
    (now : ℕ) (pc : ProxyConfig) → (start_if pc.enabled now (new_tcp_server now pc)).0 ≡ none
unfolding start_if
started_ok now pc = ground (arith, start_total now pc (new_tcp_server now pc))

reloaded-IsRegistered :
    (now : ℕ) (pc : ProxyConfig) (s : TcpServer)
    → IsRegistered pc.id s
    → IsRegistered pc.id (reload_config now pc s).1
reloaded-IsRegistered now pc s r =
    let t = start_total now pc s in
    record {
      own_id = ap (λ (c : ProxyConfig). c.id) t.3;
      coherent = reload_config-IsCoherent now pc s (sym r.own_id) r.coherent;
      runs = ground (arith, t, is_running-eq-enabled now pc s);
    }

remove-IsValid :
    (id : Text) (m : Manager) → IsValid m → IsValid (record { servers = remove m.servers id })
remove-IsValid id m v = record {
  distinct = remove-IsDistinct m.servers id v.distinct;
  at = λ j s e. v.at j s (ground (arith, get-remove m.servers id j));
}

pub keep_keys-IsValid :
    (p : Text → Bool) (m : Manager)
    → IsValid m
    → IsValid (record { servers = keep_keys p m.servers })
keep_keys-IsValid p m v = record {
  distinct = keep_keys-IsDistinct p m.servers v.distinct;
  at = λ j s e. v.at j s (ground (arith, get-keep_keys p m.servers j));
}

-- `AddProxy` keeps the invariant, also when it refuses an id that is there.
pub add_proxy-IsValid :
    (now : ℕ) (pc : ProxyConfig) (m : Manager) → IsValid m → IsValid (add_proxy now pc m).1
unfolding add_proxy
add_proxy-IsValid now pc m v = elim (Bool-cases (is_some (get m.servers pc.id))) [
  | inl e ↦ rw e v
  | inr e ↦
      rw e (go (start_if pc.enabled now (new_tcp_server now pc)) (started-IsRegistered now pc))
]
  where
    go : (r : Option Text × TcpServer) → IsRegistered pc.id r.1 → IsValid (add_started pc.id m r).1
    go (none, s) h = set_server-IsValid pc.id s m h v
    go (some e, s) h = v

pub start_all-IsValid :
    (now : ℕ) (pcs : List ProxyConfig) (m : Manager) → IsValid m → IsValid (start_all now pcs m)
unfolding start_all
start_all-IsValid now [] m v = v
start_all-IsValid now (pc ∷ pcs) m v = start_all-IsValid now pcs _ (add_proxy-IsValid now pc m v)

pub remove_proxy-IsValid : (id : Text) (m : Manager) → IsValid m → IsValid (remove_proxy id m).1
unfolding remove_proxy
remove_proxy-IsValid id m v = go (get m.servers id)
  where
    go : (o : Option TcpServer) → IsValid (remove_found id m o).1
    go none = v
    go (some s) = remove-IsValid id m v

-- `UpdateProxy` with a configuration of the same id, as the handler calls it.
pub update_proxy-IsValid :
    (now : ℕ) (pc : ProxyConfig) (m : Manager) → IsValid m → IsValid (update_proxy now pc.id pc m).1
unfolding update_proxy
update_proxy-IsValid now pc m v = go (get m.servers pc.id)
  where
    replaced :
        (old : TcpServer) (r : Option Text × TcpServer)
        → r.0 ≡ none
        → IsRegistered pc.id r.1
        → IsValid (update_started now pc.id old m r).1
    replaced old (none, s) e h = set_server-IsValid pc.id s m h v
    replaced old (some x, s) e h = cc

    go : (o : Option TcpServer) → IsValid (update_found now pc.id pc m o).1
    go none = v
    go (some old) =
        replaced (stop old) (start_if pc.enabled now (new_tcp_server now pc)) (started_ok now pc)
          (started-IsRegistered now pc)

sync_started-IsValid :
    (now : ℕ) (pc : ProxyConfig) (kept m : Manager) (r : Option Text × TcpServer)
    → r.0 ≡ none
    → IsRegistered pc.id r.1
    → IsValid m
    → IsValid (sync_started pc.id kept m r)
unfolding sync_started
sync_started-IsValid now pc kept m (none, s) e h v = set_server-IsValid pc.id s m h v
sync_started-IsValid now pc kept m (some x, s) e h v = cc

sync_found-IsValid :
    (now : ℕ) (pc : ProxyConfig) (m : Manager) (o : Option TcpServer)
    → get m.servers pc.id ≡ o
    → IsValid m
    → IsValid (sync_found now pc m o)
unfolding sync_found
sync_found-IsValid now pc m none e v =
    sync_started-IsValid now pc m m (start_if pc.enabled now (new_tcp_server now pc))
      (started_ok now pc) (started-IsRegistered now pc) v
sync_found-IsValid now pc m (some old) e v = elim (Bool-cases (has_changed old.cfg pc)) [
  | inl c ↦ rw c (
      sync_started-IsValid now pc (set_server pc.id (stop old) m) m
        (start_if pc.enabled now (new_tcp_server now pc)) (started_ok now pc)
        (started-IsRegistered now pc) v)
  | inr c ↦
      rw c (set_server-IsValid pc.id _ m (reloaded-IsRegistered now pc old (v.at pc.id old e)) v)
]

pub sync_loop-IsValid :
    (now : ℕ) (pcs : List ProxyConfig) (m : Manager) → IsValid m → IsValid (sync_loop now pcs m)
unfolding sync_loop
sync_loop-IsValid now [] m v = v
sync_loop-IsValid now (pc ∷ pcs) m v =
    sync_loop-IsValid now pcs _ (sync_found-IsValid now pc m (get m.servers pc.id) refl v)
