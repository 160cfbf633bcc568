-- ===== src/ClientTunnel/Tunnel.antt =====
-- internal/clienttunnel/tunnel.go: the configuration of a tunnel and its listener. What
-- `net.Listen` and `Close` answer is an argument, `none` or the error's text.
pub mod Normalize
use pspxy.Base.{
  ℤ, pos, ltb_ℤ, Bool, true, false, not, ◌||◌, [], ◌++◌, Option, none, some, if◌then◌else◌, Text,
  codes, drop,
}
use pspxy.Strings.{trim_space, is_empty, to_lower, has_prefix, contains}

pub record Config : Type 0 where
  pub id : Text
  pub server_url : Text
  pub proxy_id : Text
  pub local_port : ℤ
  pub api_key : Text

-- The zero value of `Config`.
abbrev pub zero_config : Config
zero_config = record { id = []; server_url = []; proxy_id = []; local_port = pos 0; api_key = [] }

pub data Error : Type 0 where
  server_url_required proxy_id_required bad_local_port missing_id : Error
  port_busy : ℤ → Error
  listen_failed : Text → Error
  close_failed : Text → Error

-- nil, or the error
unfoldable pub validate : Config → Option Error
validate c =
    if is_empty (trim_space c.server_url)
    then some server_url_required
    else if is_empty (trim_space c.proxy_id)
    then some proxy_id_required
    else if ltb_ℤ c.local_port (pos 1) || ltb_ℤ (pos 65535) c.local_port
    then some bad_local_port
    else none

unfoldable pub auth_secrets_configured : Text → Bool
auth_secrets_configured api_key = not (is_empty (trim_space api_key))

abbrev http : Text
http = codes "http://"

abbrev https : Text
https = codes "https://"

abbrev ws : Text
ws = codes "ws://"

abbrev wss : Text
wss = codes "wss://"

-- The cases for a text that is trimmed and not empty.
unfoldable pub normalize_trimmed : Text → Text
normalize_trimmed s =
    let lower = to_lower s in
    if has_prefix lower http
    then ws ++ drop 7 s
    else if has_prefix lower https
    then wss ++ drop 8 s
    else if has_prefix lower ws || has_prefix lower wss
    then s
    else if not (contains s (codes "://"))
    then ws ++ s
    else s

unfoldable pub normalize_server_url_for_ws : Text → Text
unfolding normalize_trimmed
normalize_server_url_for_ws raw =
    let s = trim_space raw in if is_empty s then [] else normalize_trimmed s

-- `listening` says whether the listener is there. The count of the open connections, which is only
-- shown, is left out.
pub record Tunnel : Type 0 where
  pub listening : Bool
  pub active_cfg : Config
  pub run_err : Text

abbrev pub new_tunnel : Tunnel
new_tunnel = record { listening = false; active_cfg = zero_config; run_err = [] }

unfoldable pub stop_unsafe_locked : Option Text → Tunnel → Option Error × Tunnel
stop_unsafe_locked closed t =
    if not t.listening then (none, t) else (failed closed, record t { listening = false })
  where
    failed : Option Text → Option Error
    failed none = none
    failed (some e) = some (close_failed e)

listened : Config → Option Text → Tunnel → Option Error × Tunnel
listened cfg (some e) t = (some (listen_failed e), record t { run_err = e })
listened cfg none t = (none, record t { listening = true; active_cfg = cfg })

validated : Config → Option Text → Tunnel → Option Error → Option Error × Tunnel
unfolding listened stop_unsafe_locked
validated cfg listen t (some e) = (some e, t)
validated cfg listen t none =
    let stopped = (stop_unsafe_locked none t).1 in
    listened cfg listen (record stopped { run_err = [] })

-- The error of the `Close` within is dropped.
unfoldable pub start : Option Text → Config → Tunnel → Option Error × Tunnel
unfolding validated validate
start listen cfg t = validated cfg listen t (validate cfg)
