-- ===== src/Config/Manager/Save.antt =====
-- What `Save` does on each outcome, and that `Reload` reads back what `Save` wrote.
use pspxy.Base.{
  ◌≡◌, refl, ap, sym, Bool, true, not, ◌&&◌, List, [], ◌∷◌, Option, none, some, if◌then◌else◌,
  arith, err, Result, all, is_some, Text, ok, Result, err,
}
use pspxy.Config.{ProxyConfig, Config}
use pspxy.Config.Manager.{
  Yaml, YamlLaws, Env, Manager, Error, validate, validate_loop, with_defaults, save, load, reload,
  notify,
}

-- Every address resolves.
unfoldable pub resolves_all : Env → Config → Bool
resolves_all env c = all (λ p. env.resolves p.remote_address) c.proxies

validate_loop-all :
    (r : Text → Bool) (ps : List ProxyConfig)
    → is_some (validate_loop r ps) ≡ not (all (λ p. r p.remote_address) ps)
unfolding validate_loop all
validate_loop-all r [] = refl
validate_loop-all r (p ∷ ps) = ground (arith, validate_loop-all r ps)

pub validate-resolves_all :
    (env : Env) (c : Config) → is_some (validate env c) ≡ not (resolves_all env c)
unfolding validate resolves_all
validate-resolves_all env c = validate_loop-all env.resolves c.proxies

module _ (y : Yaml) (env : Env) (c : Config) (m : Manager) where
  -- `Save` succeeds exactly when every address resolves, the configuration can be written as YAML,
  -- and the file can be written and renamed.
  pub save-succeeds_iff :
      is_some (save y env c m).0
      ≡ not (resolves_all env c && is_some (y.marshal c) && env.can_write && env.can_rename)
  unfolding save
  save-succeeds_iff = ground (arith, validate-resolves_all env c)

  -- A `Save` that fails leaves the file, the configuration in memory and the callback alone.
  pub save_atomic :
      (e : Error)
      → (save y env c m).0 ≡ some e
      → ((save y env c m).1.file ≡ m.file)
        × ((save y env c m).1.config ≡ m.config)
        × ((save y env c m).1.spawned ≡ m.spawned)
  unfolding save
  save_atomic e h = ground arith

  -- A `Save` that succeeds puts the configuration in memory and its YAML into the file, leaves no
  -- temporary file, and starts the callback on it if there is one.
  pub save_stores :
      (save y env c m).0 ≡ none
      → ((save y env c m).1.config ≡ c)
        × ((save y env c m).1.file ≡ y.marshal c)
        × (is_some (y.marshal c) ≡ true)
        × ((save y env c m).1.tmp_file ≡ none)
        × ((save y env c m).1.spawned ≡ (if m.on_reload then c ∷ m.spawned else m.spawned))
  unfolding save
  save_stores h = ground arith

load_file :
    (y : Yaml) (env : Env) (c : Config) (f : Option Text)
    → YamlLaws y
    → env.can_read ≡ true
    → f ≡ y.marshal c
    → is_some (y.marshal c) ≡ true
    → load y env f ≡ (ok (with_defaults c), f)
unfolding load
load_file y env c none laws r e s = cc (ap is_some e)
load_file y env c (some t) laws r e s = rw r (rw (laws.round_trip c t (sym e)))

-- After a `Save` that succeeds, `Reload` returns the configuration saved, with the defaults for an
-- unset port and directory, and keeps it in memory; the file stays as it is.
pub reload-save :
    (y : Yaml) (env env' : Env) (c : Config) (m : Manager)
    → YamlLaws y
    → (save y env c m).0 ≡ none
    → env'.can_read ≡ true
    → let m' = (save y env c m).1 in
      ((reload y env' m').0 ≡ ok (with_defaults c))
      × ((reload y env' m').1.config ≡ with_defaults c)
      × ((reload y env' m').1.file ≡ m'.file)
unfolding reload
reload-save y env env' c m laws h r =
    let s = save_stores y env c m h in
    let e = load_file y env' c (save y env c m).1.file laws r s.1 s.2 in ground (arith, e)

-- What a reload returns, or what was there.
abbrev pub config_after : Config → Result Error Config → Config
config_after c (ok c') = c'
config_after c (err e) = c

-- A reload that fails keeps the configuration in memory, one that succeeds replaces it.
pub config-reload :
    (y : Yaml) (env : Env) (m : Manager)
    → (reload y env m).1.config ≡ config_after m.config (reload y env m).0
unfolding reload notify
config-reload y env m = ground arith
