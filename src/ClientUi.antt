-- ===== src/ClientUi.antt =====
-- internal/clientui/server.go: the requests of the client's web interface, over the registry of the
-- tunnels, the manager of the reverse tunnels and the client's file. A request runs to its end
-- before the next one starts. What the operating system, the network and the clock answer during a
-- request is one record.
pub mod Persist
pub mod Sound
pub mod Ordered
pub mod Restart
use pspxy.Base.{
  ◌≡◌, ℕ, Bool, true, false, not, List, [], ◌∷◌, Option, none, some, if◌then◌else◌, Text, Result,
  ok, err,
}
use pspxy.Strings.{trim_space, is_empty}
use pspxy.ClientConfig.{
  Yaml, Env, Error as FileError, Disk, Loaded, load_client_file, save_client_file,
}
use pspxy.ClientTunnel.Tunnel.{Config, Error as TunnelError}
use pspxy.ClientTunnel.Registry.{
  Registry, new_registry, default_single_proxy_id, start as tunnel_start, stop as tunnel_stop,
  stop_all as tunnel_stop_all, remove_id,
}
use pspxy.ClientTunnel.Registry.Views.{
  ProxyRow, snapshot, persisted_configs, bootstrap_from_configs,
}
use pspxy.ClientTunnel.Reverse.{
  ReverseProviderPersist, ReverseConsumerPersist, Error as ReverseError,
}
use pspxy.ClientTunnel.Reverse.Manager.{
  ReverseManager, new_reverse_manager, Handshake, stop_provider, remove_provider, stop_consumer,
  remove_consumer,
}
use pspxy.ClientTunnel.Reverse.Manager.Views.{
  ReverseProviderRow, ReverseConsumerRow, snapshot_providers, snapshot_consumers,
  persisted_providers, persisted_consumers,
}
use pspxy.ClientTunnel.Reverse.Manager.Start.{
  start_provider, start_consumer, stop_all as reverse_stop_all, merge_preserve_provider_tunnel_id,
}
use pspxy.ClientTunnel.Reverse.Manager.Bootstrap.{bootstrap_providers, bootstrap_consumers}

pub record World : Type 0 where
  -- an error of `net.Listen` for a tunnel, and of `Close`
  pub tunnel_listens : Config → Option Text
  pub tunnel_closes : Option Text
  pub handshake : Handshake
  pub consumer_listens : Text → Result Text ℕ
  pub new_id : ReverseProviderPersist → Text
  -- the error with which a goroutine ends
  pub run_err : Option Text
  pub env : Env

-- What the handlers work on.
pub record Client : Type 0 where
  pub reg : Registry
  pub rev : ReverseManager
  pub disk : Disk

pub data Method : Type 0 where
  is_get is_post is_options is_other : Method

-- The body of a stop: none, one that is no JSON, or an id and the flag `stop_all`.
pub data StopBody : Type 0 where
  empty_body invalid_body : StopBody
  stop_body : Text → Bool → StopBody

-- The routes with their bodies, where `none` stands for one that cannot be decoded.
pub data Request : Type 0 where
  starts_tunnel : Option Config → Request
  stops_tunnel : StopBody → Request
  removes_tunnel : Option Text → Request
  asks_status : Request
  starts_provider : Option ReverseProviderPersist → Request
  stops_provider removes_provider : Option Text → Request
  starts_consumer : Option ReverseConsumerPersist → Request
  stops_consumer removes_consumer : Option Text → Request
  stops_all_reverse : Request

pub data UiError : Type 0 where
  bad_body missing_id : UiError
  tunnel_error : TunnelError → UiError
  reverse_error : ReverseError → UiError

-- `PersistWarning` is the error of the save; `ClientConfigFile` is set where there is none.
pub record MultiStatus : Type 0 where
  pub proxies : List ProxyRow
  pub reverse_providers : List ReverseProviderRow
  pub reverse_consumers : List ReverseConsumerRow
  pub issued_reverse_channel : Text
  pub persist_warning : Option FileError

-- The answers with the codes 200, 204, 400 and 405.
pub data Reply : Type 0 where
  status : MultiStatus → Reply
  no_content method_not_allowed : Reply
  bad_request : UiError → Reply

unfoldable pub merged_tunnel_status : Text → Option FileError → Client → MultiStatus
merged_tunnel_status issued warning c = record {
  proxies = snapshot c.reg;
  reverse_providers = snapshot_providers c.rev;
  reverse_consumers = snapshot_consumers c.rev;
  issued_reverse_channel = issued;
  persist_warning = warning;
}

abbrev pub persisted : Client → Loaded
persisted c = (persisted_configs c.reg, (persisted_providers c.rev, persisted_consumers c.rev))

-- Save what the managers hold, and answer with their state.
unfoldable pub attach_persist_result : Yaml → World → Text → Client → Reply × Client
unfolding merged_tunnel_status
attach_persist_result y w issued c =
    let (warning, disk) = save_client_file y w.env (persisted c) c.disk in
    (status (merged_tunnel_status issued warning c), record c { disk = disk })

-- The part of each handler before that: an error, or the channel that was issued.
abbrev pub Change : Type 0
Change = Result UiError Text × Client

tunnel_done : Client → Option TunnelError × Registry → Change
tunnel_done c (some e, r) = (err (tunnel_error e), record c { reg = r })
tunnel_done c (none, r) = (ok [], record c { reg = r })

provider_done : Client → Result ReverseError Text × ReverseManager → Change
provider_done c (err e, m) = (err (reverse_error e), record c { rev = m })
provider_done c (ok ch, m) = (ok ch, record c { rev = m })

consumer_done : Client → Option ReverseError × ReverseManager → Change
consumer_done c (some e, m) = (err (reverse_error e), record c { rev = m })
consumer_done c (none, m) = (ok [], record c { rev = m })

-- A stop drops the error of the registry.
stop_tunnel : World → Text → Client → Change
stop_tunnel w id c = (ok [], record c { reg = (tunnel_stop w.tunnel_closes id c.reg).1 })

-- The handlers that take an id and cannot fail otherwise.
with_id : Option Text → (Text → ReverseManager) → Client → Change
with_id none f c = (err bad_body, c)
with_id (some id) f c =
    if is_empty (trim_space id) then (err missing_id, c) else (ok [], record c { rev = f id })

unfoldable pub change : World → Request → Client → Change
unfolding tunnel_done provider_done consumer_done stop_tunnel with_id
change w (starts_tunnel none) c = (err bad_body, c)
change w (starts_tunnel (some cfg)) c =
    tunnel_done c (tunnel_start (w.tunnel_listens cfg) cfg c.reg)
change w (stops_tunnel empty_body) c = stop_tunnel w default_single_proxy_id c
change w (stops_tunnel invalid_body) c = (err bad_body, c)
change w (stops_tunnel (stop_body id all)) c =
    if all
    then (ok [], record c { reg = tunnel_stop_all c.reg })
    else if not (is_empty (trim_space id))
    then stop_tunnel w (trim_space id) c
    else stop_tunnel w default_single_proxy_id c
change w (removes_tunnel none) c = (err bad_body, c)
change w (removes_tunnel (some id)) c =
    if is_empty (trim_space id)
    then (err missing_id, c)
    else tunnel_done c (remove_id (trim_space id) c.reg)
change w asks_status c = (ok [], c)
change w (starts_provider none) c = (err bad_body, c)
change w (starts_provider (some cfg)) c =
    let merged = merge_preserve_provider_tunnel_id cfg c.rev in
    provider_done c (start_provider w.handshake (w.new_id merged) w.run_err merged c.rev)
change w (stops_provider o) c = with_id o (λ id. stop_provider w.run_err id c.rev) c
change w (removes_provider o) c = with_id o (λ id. remove_provider w.run_err id c.rev) c
change w (starts_consumer none) c = (err bad_body, c)
change w (starts_consumer (some cfg)) c =
    consumer_done c (start_consumer w.consumer_listens w.run_err cfg c.rev)
change w (stops_consumer o) c = with_id o (λ id. stop_consumer w.run_err id c.rev) c
change w (removes_consumer o) c = with_id o (λ id. remove_consumer w.run_err id c.rev) c
change w stops_all_reverse c = (ok [], record c { rev = reverse_stop_all w.run_err c.rev })

respond : Yaml → World → Change → Reply × Client
unfolding attach_persist_result
respond y w (err e, c) = (bad_request e, c)
respond y w (ok issued, c) = attach_persist_result y w issued c

-- One request: the answer to a preflight request, the check of the method, and the handler.
unfoldable pub serve : Yaml → World → Method → Request → Client → Reply × Client
unfolding respond change merged_tunnel_status
serve y w is_options q c = (no_content, c)
serve y w is_get asks_status c = (status (merged_tunnel_status [] none c), c)
serve y w m asks_status c = (method_not_allowed, c)
serve y w is_post q c = respond y w (change w q c)
serve y w m q c = (method_not_allowed, c)

unfoldable pub booted : World → Client → Result FileError Loaded → Client
booted w c (err e) = c
booted w c (ok (ps, (rp, rc))) = record c {
  reg = bootstrap_from_configs w.tunnel_listens ps c.reg;
  rev =
      bootstrap_consumers w.consumer_listens w.run_err rc
        (bootstrap_providers w.handshake w.run_err w.new_id rp c.rev);
}

-- What the start of the program restores from the file; an error is logged.
unfoldable pub try_bootstrap_from_yaml : Yaml → World → Client → Client
unfolding booted
try_bootstrap_from_yaml y w c = booted w c (load_client_file y w.env c.disk)

-- The program at its start, with what the disk holds.
unfoldable pub boot : Yaml → World → Disk → Client
unfolding try_bootstrap_from_yaml
boot y w d =
    try_bootstrap_from_yaml y w (record { reg = new_registry; rev = new_reverse_manager; disk = d })
