-- ===== src/ClientTunnel/Dial/Signed.antt =====
-- The address that the client signs, read by the server.
use pspxy.Base.{
  ◌≡◌, ℕ, ◌<◌, ◌^◌, ℤ, pos, true, false, [], Option, none, some, Text, codes, ◌==◌, any, get,
  get-put,
}
use pspxy.Strings.{trim_space, is_empty, to_lower}
use pspxy.Strings.Trim.{trim_space_idem, trim_space-nil}
use pspxy.Strings.Decimal.{format_int}
use pspxy.Strings.Decimal.RoundTrip.{parse_int-format_int, trim_space-format_int}
use pspxy.Config.AccessAuth.{AccessAuth, unified_tokens}
use pspxy.Api.Access.{
  Request, header_or_query, request_key, request_ts, request_sig, is_skewed, canonical,
  sign_access_payload, verify_access_auth,
}
use pspxy.Api.Access.Laws.{DigestLaws, verify_access_auth-read}
use pspxy.ClientTunnel.Dial.{Url, signed_url}

-- A value of the query, empty if it is absent.
unfoldable pub query_value : Text → Url → Text
query_value k u = or_empty (get u.query k)
  where
    or_empty : Option Text → Text
    or_empty none = []
    or_empty (some v) = v

-- The request for an address, without the headers.
abbrev pub as_request : Url → Request
as_request u = record {
  is_options = false;
  header_key = [];
  header_ts = [];
  header_sig = [];
  query_key = query_value (codes "psp_ak") u;
  query_ts = query_value (codes "psp_ts") u;
  query_sig = query_value (codes "psp_sig") u;
}

query_only : (q : Text) → trim_space q ≡ q → header_or_query [] q ≡ q
unfolding header_or_query
query_only q t = rw trim_space-nil t

module _ (sha1_hex : Text → Text) (now : ℤ) (path api_key : Text) (u : Url)
    (keyed : is_empty (trim_space api_key) ≡ false) where
  signed_key :
      query_value (codes "psp_ak") (signed_url sha1_hex now path api_key u) ≡ trim_space api_key
  unfolding query_value signed_url ◌==◌
  signed_key = rw keyed (simp get-put)

  signed_ts : query_value (codes "psp_ts") (signed_url sha1_hex now path api_key u) ≡ format_int now
  unfolding query_value signed_url ◌==◌
  signed_ts = rw keyed (simp get-put)

  signed_sig :
      let ak = trim_space api_key in
      query_value (codes "psp_sig") (signed_url sha1_hex now path api_key u)
      ≡ to_lower (sign_access_payload sha1_hex ak (format_int now) ak)
  unfolding query_value signed_url ◌==◌
  signed_sig = rw keyed (simp get-put)

-- The address that a client signs with a configured key, at a time of 64 bits from 0 on, is accepted
-- by the server, if its clock differs by at most 300 seconds. SHA-1 in hexadecimal is in lower case.
pub verify_access_auth-signed_url :
    (sha1_hex : Text → Text) (laws : DigestLaws sha1_hex)
    → ((t : Text) → to_lower (sha1_hex t) ≡ sha1_hex t)
    → (now : ℕ) (server_now : ℤ) (auth : AccessAuth) (path api_key : Text) (u : Url)
    → is_empty (trim_space api_key) ≡ false
    → any (λ tok. trim_space api_key == tok) (unified_tokens auth) ≡ true
    → now < 2 ^ 63
    → is_skewed server_now (pos now) ≡ false
    → verify_access_auth sha1_hex server_now auth
        (as_request (signed_url sha1_hex (pos now) path api_key u))
      ≡ none
unfolding request_key request_ts request_sig sign_access_payload
verify_access_auth-signed_url sha1_hex laws lower now server_now auth path api_key u keyed known h
      w =
    let key = trim_space api_key in
    let ts = format_int (pos now) in
    let r = as_request (signed_url sha1_hex (pos now) path api_key u) in
    let sig = sign_access_payload sha1_hex key ts key in
    let key_read : request_key r ≡ key =
      rw (signed_key sha1_hex (pos now) path api_key u keyed)
        (query_only key (trim_space_idem api_key)) in
    let ts_read : request_ts r ≡ ts =
      rw (signed_ts sha1_hex (pos now) path api_key u keyed)
        (query_only ts (trim_space-format_int now)) in
    let sig_read : request_sig r ≡ sig =
      rw (signed_sig sha1_hex (pos now) path api_key u keyed) (
        rw (lower (canonical key ts key)) (query_only sig (laws.trimmed (canonical key ts key)))) in
    verify_access_auth-read sha1_hex laws server_now (pos now) auth key ts r known
      (parse_int-format_int now h) w key_read ts_read sig_read
