-- ===== src/Config/Manager.antt =====
-- internal/config/config.go: `Manager`. `GetConfig` returns the pointer to the configuration that
-- the manager holds, so `AddProxy`, `UpdateProxy` and `RemoveProxy` edit that configuration before
-- `Save` validates it; the model's functions do the same and return the manager with every result.
-- A call runs to its end before the next one starts. The YAML library and the outcomes of the
-- operating system's calls are parameters.
pub mod Save
pub mod Edit
pub mod Poison
pub mod Distinct
use pspxy.Base.{
  ℕ, ◌≡◌, ℤ, pos, eqb_ℤ, Bool, true, false, not, List, [], ◌∷◌, ◌++◌, Option, none, some,
  if◌then◌else◌, Text, codes, ◌==◌, Result, ok, err,
}
use pspxy.Strings.{is_empty}
use pspxy.Config.{ProxyConfig, ServerConfig, Config}
use pspxy.Config.AccessAuth.{AccessAuth}

-- gopkg.in/yaml.v3 at the type `Config`
pub record Yaml : Type 0 where
  pub marshal : Config → Option Text
  pub unmarshal : Text → Option Config

-- What is written can be read back.
pub record YamlLaws (y : Yaml) : Type 0 where
  pub round_trip : (c : Config) (t : Text) → y.marshal c ≡ some t → y.unmarshal t ≡ some c

-- The outcomes of the calls of the operating system during one operation: `net.ResolveTCPAddr`
-- at each address, `os.WriteFile`, `os.Rename`, a failure of `os.ReadFile` on a file that is there,
-- and what a failed `os.WriteFile` leaves in the file.
pub record Env : Type 0 where
  pub resolves : Text → Bool
  pub can_write : Bool
  pub can_rename : Bool
  pub can_read : Bool
  pub partial : Option Text

pub data Error : Type 0 where
  read_failed parse_failed marshal_failed write_failed rename_failed : Error
  invalid_address : Text → Text → Error
  not_found : Text → Error

-- `file` and `tmp_file` are the contents under `filePath` and `filePath + ".tmp"`; `spawned` holds
-- the configurations that the reload callback was started on, the latest first.
pub record Manager : Type 0 where
  pub file : Option Text
  pub tmp_file : Option Text
  pub config : Config
  pub on_reload : Bool
  pub spawned : List Config

-- nil, or the error
abbrev pub Outcome : Type 0
Outcome = Option Error

abbrev default_port : ℤ
default_port = pos 3000

abbrev default_static_dir : Text
default_static_dir = codes "./frontend/web-admin"

-- The fields that `load` fills in.
unfoldable pub with_defaults : Config → Config
with_defaults c =
    let server = c.server in
    record c {
      server = record server {
        port = if eqb_ℤ server.port (pos 0) then default_port else server.port;
        static_dir = if is_empty server.static_dir then default_static_dir else server.static_dir;
      };
    }

abbrev default_config : Config
default_config = record {
  proxies = [];
  server = record {
    port = default_port;
    static_dir = default_static_dir;
    auth = record { api_key = [] };
  };
}

unfoldable pub validate_loop : (Text → Bool) → List ProxyConfig → Outcome
validate_loop resolves [] = none
validate_loop resolves (p ∷ ps) =
    let rest = validate_loop resolves ps in
    if resolves p.remote_address then rest else some (invalid_address p.name p.remote_address)

unfoldable pub validate : Env → Config → Outcome
unfolding validate_loop
validate env c = validate_loop env.resolves c.proxies

unfoldable pub notify : Config → Manager → Manager
notify c m = if m.on_reload then record m { spawned = c ∷ m.spawned } else m

-- Whether the callback is nil is all that the manager asks of it.
unfoldable set_reload_callback : Bool → Manager → Manager
set_reload_callback is_set m = record m { on_reload = is_set }

module _ (y : Yaml) (env : Env) where
  -- The second part is the file's content afterwards.
  data_default : Option Text → Option Text → Result Error Config × Option Text
  data_default file none = (err marshal_failed, file)
  data_default file (some t) =
      if env.can_write then (ok default_config, some t) else (err write_failed, env.partial)

  unfoldable pub create_default : Option Text → Result Error Config × Option Text
  unfolding data_default
  create_default file = data_default file (y.marshal default_config)

  parsed : Option Config → Result Error Config
  unfolding with_defaults
  parsed none = err parse_failed
  parsed (some c) = ok (with_defaults c)

  unfoldable pub load : Option Text → Result Error Config × Option Text
  unfolding create_default parsed
  load none = create_default none
  load (some t) =
      if env.can_read then (parsed (y.unmarshal t), some t) else (err read_failed, some t)

  -- The result of `load` as `NewManager` uses it.
  new_manager_of : Result Error Config × Option Text → Result Error Manager
  new_manager_of (err e, file) = err e
  new_manager_of (ok c, file) =
      ok (record { file = file; tmp_file = none; config = c; on_reload = false; spawned = [] })

  unfoldable pub new_manager : Option Text → Result Error Manager
  unfolding load new_manager_of
  new_manager file = new_manager_of (load file)

  -- From `os.WriteFile` on.
  write_out : Config → Manager → Option Text → Outcome × Manager
  write_out c m none = (some marshal_failed, m)
  write_out c m (some t) =
      if not env.can_write
      then (some write_failed, record m { tmp_file = env.partial })
      else if not env.can_rename
      then (some rename_failed, record m { tmp_file = none })
      else (none, notify c (record m { file = some t; tmp_file = none; config = c }))

  after_validate : Config → Manager → Outcome → Outcome × Manager
  unfolding write_out
  after_validate c m (some e) = (some e, m)
  after_validate c m none = write_out c m (y.marshal c)

  unfoldable pub save : Config → Manager → Outcome × Manager
  unfolding validate after_validate notify
  save c m = after_validate c m (validate env c)

  -- cfg := m.GetConfig(), edited in place, then m.Save(cfg)
  pub save_edited : List ProxyConfig → Manager → Outcome × Manager
  unfolding save
  save_edited ps m =
      let config = m.config in
      let edited = record config { proxies = ps } in save edited (record m { config = edited })

  unfoldable pub add_proxy : ProxyConfig → Manager → Outcome × Manager
  unfolding save_edited
  add_proxy p m = save_edited (m.config.proxies ++ p ∷ []) m

-- The loop of `UpdateProxy`: the first entry of that id.
unfoldable pub replace_first : Text → ProxyConfig → List ProxyConfig → Option (List ProxyConfig)
replace_first id p [] = none
replace_first id p (q ∷ qs) = elim (q.id == id) [
  | true ↦ some (record p { id = id } ∷ qs)
  | false ↦ elim (replace_first id p qs) [ none ↦ none | some rest ↦ some (q ∷ rest) ]
]

-- The loop and the slices of `RemoveProxy`.
unfoldable pub remove_first : Text → List ProxyConfig → Option (List ProxyConfig)
remove_first id [] = none
remove_first id (q ∷ qs) = elim (q.id == id) [
  | true ↦ some qs
  | false ↦ elim (remove_first id qs) [ none ↦ none | some rest ↦ some (q ∷ rest) ]
]

module _ (y : Yaml) (env : Env) where
  save_found : Text → Manager → Option (List ProxyConfig) → Outcome × Manager
  unfolding save_edited
  save_found id m none = (some (not_found id), m)
  save_found id m (some ps) = save_edited y env ps m

  unfoldable pub update_proxy : Text → ProxyConfig → Manager → Outcome × Manager
  unfolding save_found replace_first
  update_proxy id p m = save_found id m (replace_first id p m.config.proxies)

  unfoldable pub remove_proxy : Text → Manager → Outcome × Manager
  unfolding save_found remove_first
  remove_proxy id m = save_found id m (remove_first id m.config.proxies)

  reload_of : Manager → Result Error Config × Option Text → Result Error Config × Manager
  unfolding notify
  reload_of m (err e, file) = (err e, record m { file = file })
  reload_of m (ok c, file) = (ok c, notify c (record m { file = file; config = c }))

  unfoldable pub reload : Manager → Result Error Config × Manager
  unfolding load reload_of
  reload m = reload_of m (load y env m.file)
