-- ===== src/Config/AccessAuth.antt =====
-- internal/config/access_auth.go: the keys in `server.auth.api_key`.
pub mod Tokens
pub mod Enabled
use pspxy.Base.{ℕ, Bool, List, [], ◌∷◌, if◌then◌else◌, ltb, length, Text}
use pspxy.Strings.{trim_space, split, is_empty}

pub record AccessAuth : Type 0 where
  pub api_key : Text

-- The loop over the parts: the empty ones are dropped.
token_loop : List Text → List Text
token_loop [] = []
token_loop (part ∷ parts) =
    let t = trim_space part in let rest = token_loop parts in if is_empty t then rest else t ∷ rest

unfoldable pub parse_api_key_tokens : Text → List Text
unfolding token_loop
parse_api_key_tokens csv =
    let s = trim_space csv in if is_empty s then [] else token_loop (split b',' s)

unfoldable pub unified_tokens : AccessAuth → List Text
unified_tokens a = parse_api_key_tokens a.api_key

unfoldable pub is_enabled : AccessAuth → Bool
is_enabled a = ltb 0 (length (unified_tokens a))
