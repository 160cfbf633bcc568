-- ===== src/Api/Access.antt =====
-- internal/api/access_auth.go. SHA-1 in hexadecimal is a parameter, `sha1_hex`; the time is the
-- argument `now`, in seconds. `ConstantTimeCompare` is equality.
mod Formula
pub mod Laws
use pspxy.Base.{
  ℕ, ◌≡◌, refl, ℤ, pos, negsuc, ltb_ℤ, ◌+ℤ◌, ◌-ℤ◌, Bool, true, false, not, ◌&&◌, ◌||◌, List, [],
  ◌∷◌, ◌++◌, Option, none, some, if◌then◌else◌, Text, String, codes, ◌==◌, leb, ltb, eqb, length,
  ◌-◌, ◌+◌, ◌*◌, ◌^◌, zero, suc,
}
use pspxy.Strings.{trim_space, to_lower, is_empty}
use pspxy.Strings.Decimal.{parse_int}
use pspxy.Config.AccessAuth.{AccessAuth, is_enabled, unified_tokens}

-- What the check reads of a request: the method and, by header and by query, the key, the time
-- stamp and the signature; one that is absent is empty.
pub record Request : Type 0 where
  pub is_options : Bool
  pub header_key : Text
  pub header_ts : Text
  pub header_sig : Text
  pub query_key : Text
  pub query_ts : Text
  pub query_sig : Text

pub data AuthError : Type 0 where
  missing_parameters bad_timestamp clock_skew bad_signature bad_key : AuthError

abbrev pub max_clock_skew_seconds : ℤ
max_clock_skew_seconds = pos 300

-- The text that is signed.
unfoldable pub canonical : Text → Text → Text → Text
canonical access_key unix_sec secret_key =
    trim_space access_key ++ b'\n' ∷ (trim_space unix_sec ++ b'\n' ∷ trim_space secret_key)

-- A header's value, or the query's if the header has none.
unfoldable pub header_or_query : Text → Text → Text
header_or_query header query =
    let h = trim_space header in if is_empty h then trim_space query else h

unfoldable pub request_key : Request → Text
unfolding header_or_query
request_key r = header_or_query r.header_key r.query_key

unfoldable pub request_ts : Request → Text
unfolding header_or_query
request_ts r = header_or_query r.header_ts r.query_ts

unfoldable pub request_sig : Request → Text
unfolding header_or_query
request_sig r = header_or_query r.header_sig r.query_sig

unfoldable pub subtle_string_eq : Text → Text → Bool
subtle_string_eq a b = if not (eqb (length a) (length b)) then false else a == b

unfoldable pub verify_sig_against : Text → Text → Bool
verify_sig_against expect_hex_lower got =
    let want = to_lower (trim_space expect_hex_lower) in
    let sig = to_lower (trim_space got) in
    if not (eqb (length want) (length sig)) then false else want == sig

unfoldable pub is_skewed : ℤ → ℤ → Bool
is_skewed now sec =
    ltb_ℤ sec (now -ℤ max_clock_skew_seconds) || ltb_ℤ (now +ℤ max_clock_skew_seconds) sec

module _ (sha1_hex : Text → Text) where
  unfoldable pub sign_access_payload : Text → Text → Text → Text
  unfolding canonical
  sign_access_payload access_key unix_sec secret_key =
      sha1_hex (canonical access_key unix_sec secret_key)

  -- The loop over the keys: the first one that equals the request's decides.
  unfoldable pub check_tokens : Text → Text → Text → List Text → Option AuthError
  unfolding subtle_string_eq
  check_tokens ak ts sig [] = some bad_key
  check_tokens ak ts sig (tok ∷ toks) =
      let rest = check_tokens ak ts sig toks in
      if not (subtle_string_eq ak tok)
      then rest
      else if verify_sig_against (sign_access_payload tok ts tok) sig
      then none
      else some bad_signature

  check_time : ℤ → AccessAuth → Request → Option ℤ → Option AuthError
  unfolding check_tokens
  check_time now auth r none = some bad_timestamp
  check_time now auth r (some sec) =
      if is_skewed now sec
      then some clock_skew
      else check_tokens (request_key r) (request_ts r) (request_sig r) (unified_tokens auth)

  -- nil, or the error
  unfoldable pub verify_access_auth : ℤ → AccessAuth → Request → Option AuthError
  unfolding check_time
  verify_access_auth now auth r =
      if not (is_enabled auth) || r.is_options
      then none
      else if is_empty (request_key r) || is_empty (request_ts r) || is_empty (request_sig r)
      then some missing_parameters
      else check_time now auth r (parse_int (request_ts r))

-- The loop of `VerifyPlainCredential`.
unfoldable pub has_token : Text → List Text → Bool
unfolding subtle_string_eq
has_token api [] = false
has_token api (tok ∷ toks) =
    let rest = has_token api toks in if subtle_string_eq api tok then true else rest

-- Whether it returns nil; its one error is "invalid credential".
unfoldable pub verify_plain_credential : AccessAuth → Text → Bool
unfolding has_token
verify_plain_credential auth submitted =
    if not (is_enabled auth)
    then true
    else (let api = trim_space submitted in
        if is_empty api then false else has_token api (unified_tokens auth))
