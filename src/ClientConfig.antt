-- ===== src/ClientConfig.antt =====
-- internal/clientconfig/config.go: the client's YAML file. The YAML library and the outcomes of the
-- operating system's calls are parameters. The paths are fixed: one file, and a temporary file
-- beside it. The lists that a caller passes to `SaveClientFile` are normalised in place there; here
-- they are in the payload.
pub mod RoundTrip
use pspxy.Base.{
  ◌≡◌, ℕ, Bool, true, false, not, ◌||◌, List, [], ◌∷◌, map, Option, none, some, if◌then◌else◌, Text,
  Result, ok, err,
}
use pspxy.Strings.{trim_space, is_empty}
use pspxy.ClientTunnel.Tunnel.{Config, zero_config, normalize_server_url_for_ws}
use pspxy.ClientTunnel.Registry.{default_single_proxy_id, ensure_proxy_id}
use pspxy.ClientTunnel.Reverse.{
  ReverseProviderPersist, ReverseConsumerPersist, host_or_default, normalize_consumer,
}

pub record FileUnified : Type 0 where
  pub version : ℕ
  pub proxies : List Config
  pub reverse_providers : List ReverseProviderPersist
  pub reverse_consumers : List ReverseConsumerPersist

-- gopkg.in/yaml.v3 at the type `fileUnified`, and at `Config` for the old form of the file.
pub record Yaml : Type 0 where
  pub marshal : FileUnified → Option Text
  pub unmarshal : Text → Option FileUnified
  pub unmarshal_legacy : Text → Option Config

-- What is written can be read back. `Config` has none of the keys of `fileUnified`, and the library
-- passes over unknown keys.
pub record YamlLaws (y : Yaml) : Type 0 where
  pub round_trip : (f : FileUnified) (t : Text) → y.marshal f ≡ some t → y.unmarshal t ≡ some f
  pub legacy_zero :
      (f : FileUnified) (t : Text) → y.marshal f ≡ some t → y.unmarshal_legacy t ≡ some zero_config

-- The outcomes of the calls of the operating system during one operation. The file that cannot be
-- read is there all the same.
pub record Env : Type 0 where
  pub can_read : Bool
  pub can_mkdir : Bool
  pub can_create : Bool
  pub can_write : Bool
  pub can_sync : Bool
  pub can_close : Bool
  pub can_rename : Bool
  pub can_remove : Bool

pub data Error : Type 0 where
  no_client_config_file read_failed parse_failed parse_legacy_failed marshal_failed : Error
  mkdir_failed temp_failed write_failed sync_failed close_failed rename_failed : Error

-- The contents of the file and of the temporary file, where they are.
pub record Disk : Type 0 where
  pub file : Option Text
  pub tmp_file : Option Text

unfoldable pub trim_reverse_prov : ReverseProviderPersist → ReverseProviderPersist
trim_reverse_prov p = record {
  id = trim_space p.id;
  server_url = normalize_server_url_for_ws (trim_space p.server_url);
  local_host = host_or_default p.local_host;
  local_port = p.local_port;
  api_key = trim_space p.api_key;
  channel_id = trim_space p.channel_id;
  enabled = p.enabled;
}

abbrev pub trim_reverse_con : ReverseConsumerPersist → ReverseConsumerPersist
trim_reverse_con c = normalize_consumer c

unfoldable pub trim_cfg : Config → Config
trim_cfg c = record {
  id = trim_space c.id;
  server_url = normalize_server_url_for_ws (trim_space c.server_url);
  proxy_id = trim_space c.proxy_id;
  local_port = c.local_port;
  api_key = trim_space c.api_key;
}

abbrev pub Loaded : Type 0
Loaded = List Config × (List ReverseProviderPersist × List ReverseConsumerPersist)

-- The one proxy of an old file, unless it lacks its address or its id.
unfoldable pub legacy_proxies : Config → List Config
unfolding trim_cfg
legacy_proxies c0 =
    let c = trim_cfg c0 in
    if is_empty (trim_space c.server_url) || is_empty (trim_space c.proxy_id)
    then []
    else (if is_empty (trim_space c.id) then record c { id = default_single_proxy_id } else c) ∷ []

unfoldable pub with_sides : FileUnified → List Config → Loaded
unfolding trim_reverse_prov
with_sides f proxies =
    (proxies, (map trim_reverse_prov f.reverse_providers, map trim_reverse_con f.reverse_consumers))

unfoldable pub with_legacy : FileUnified → Option Config → Result Error Loaded
unfolding with_sides legacy_proxies
with_legacy f none = err parse_legacy_failed
with_legacy f (some c) = ok (with_sides f (legacy_proxies c))

unfoldable pub parsed : Yaml → Text → Option FileUnified → Result Error Loaded
unfolding with_sides with_legacy
parsed y t none = err parse_failed
parsed y t (some f) = by_proxies f.proxies
  where
    by_proxies : List Config → Result Error Loaded
    by_proxies [] = with_legacy f (y.unmarshal_legacy t)
    by_proxies (c ∷ cs) = ok (with_sides f (map trim_cfg (c ∷ cs)))

unfoldable pub load_client_file : Yaml → Env → Disk → Result Error Loaded
unfolding parsed
load_client_file y env d = read d.file
  where
    read : Option Text → Result Error Loaded
    read none = err no_client_config_file
    read (some t) = if env.can_read then parsed y t (y.unmarshal t) else err read_failed

unfoldable pub load_proxies : Yaml → Env → Disk → Result Error (List Config)
load_proxies y env d = first (load_client_file y env d)
  where
    first : Result Error Loaded → Result Error (List Config)
    first (ok l) = ok l.0
    first (err e) = err e

-- An entry as it is written: trimmed, and under the default id if it has none.
unfoldable pub saved_cfg : Config → Config
unfolding trim_cfg
saved_cfg c0 =
    let c = trim_cfg c0 in
    if is_empty (trim_space c.id) then record c { id = ensure_proxy_id [] } else c

unfoldable pub payload : Loaded → FileUnified
unfolding saved_cfg trim_reverse_prov
payload (ps, (rp, rc)) = record {
  version = 2;
  proxies = map saved_cfg ps;
  reverse_providers = map trim_reverse_prov rp;
  reverse_consumers = map trim_reverse_con rc;
}

-- Take the temporary file away, and pass on the error.
unfoldable pub abandon : Env → Error → Disk → Option Error × Disk
abandon env e d = (some e, if env.can_remove then record d { tmp_file = none } else d)

unfoldable pub write_temp : Env → Text → Disk → Option Error × Disk
unfolding abandon
write_temp env t d0 =
    let d = record d0 { tmp_file = some t } in
    if not env.can_write
    then abandon env write_failed d
    else if not env.can_sync
    then abandon env sync_failed d
    else if not env.can_close
    then abandon env close_failed d
    else if not env.can_rename
    then abandon env rename_failed d
    else (none, record { file = some t; tmp_file = none })

unfoldable pub write_data : Env → Disk → Option Text → Option Error × Disk
unfolding write_temp
write_data env d none = (some marshal_failed, d)
write_data env d (some t) =
    if not env.can_mkdir
    then (some mkdir_failed, d)
    else if not env.can_create
    then (some temp_failed, d)
    else write_temp env t d

unfoldable pub save_client_file : Yaml → Env → Loaded → Disk → Option Error × Disk
unfolding write_data payload
save_client_file y env l d = write_data env d (y.marshal (payload l))

unfoldable pub load_reverse_sides_or_empty :
    Yaml → Env → Disk → List ReverseProviderPersist × List ReverseConsumerPersist
load_reverse_sides_or_empty y env d = sides (load_client_file y env d)
  where
    sides : Result Error Loaded → List ReverseProviderPersist × List ReverseConsumerPersist
    sides (ok l) = l.1
    sides (err e) = ([], [])

unfoldable pub save_proxies : Yaml → Env → List Config → Disk → Option Error × Disk
save_proxies y env ps d = save_client_file y env (ps, load_reverse_sides_or_empty y env d) d
