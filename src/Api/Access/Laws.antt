-- ===== src/Api/Access/Laws.antt =====
-- Which requests and credentials are accepted.
use pspxy.Base.{
  eqb_iff, ℕ, ◌≡◌, ◌≢◌, ◌↔◌, refl, ap, sym, subst, ◌∙◌, ℤ, Bool, true, false, not, ◌&&◌, ◌||◌, List,
  [], ◌∷◌, Option, none, some, Text, arith, ◌==◌, length, any, All, eq_iff, eq_refl, Bool-cases,
  is_some, inl, inr, pos_part, neg_part, ◌≤◌, ◌+◌, ◌++◌, ◌⊎◌, if◌then◌else◌,
}
use pspxy.Strings.Decimal.{parse_int}
use pspxy.Strings.{trim_space, to_lower, is_empty, split}
use pspxy.Config.AccessAuth.{AccessAuth, is_enabled, unified_tokens}
use pspxy.Config.AccessAuth.Tokens.{IsToken, parse_api_key_tokens-IsToken, any-unified_tokens}
use pspxy.Api.Access.{
  Request, AuthError, verify_sig_against, is_skewed, sign_access_payload, canonical,
  verify_access_auth, has_token, verify_plain_credential, request_key, request_ts, request_sig,
  header_or_query,
}
use pspxy.Config.AccessAuth.Enabled.{is_key_char, is_enabled-eq-any}
use pspxy.Api.Access.Formula.{subtle_string_eq_lem, is_skewed_iff, in_window, accepted_lem}

-- The value of a header without the spaces at its ends, or the query's if there is none.
abbrev pub given : Text → Text → Text
given header query = elim (trim_space header) [ [] ↦ trim_space query | c ∷ s ↦ c ∷ s ]

-- A number at most 300 seconds away from now.
abbrev pub IsRecent : ℤ → Option ℤ → Type 0
IsRecent now none = ⊥
IsRecent now (some sec) =
    (pos_part now + neg_part sec ≤ pos_part sec + neg_part now + 300)
    × (pos_part sec + neg_part now ≤ pos_part now + neg_part sec + 300)

-- The digest of the key, the time stamp and the key on three lines, in any case of its letters.
abbrev pub IsSignature : (Text → Text) → Text → Text → Text → Type 0
IsSignature sha1_hex key ts sig =
    to_lower (trim_space sig)
    ≡ to_lower (
        trim_space (sha1_hex (trim_space key ++ b'\n' ∷ (trim_space ts ++ b'\n' ∷ trim_space key))))

-- One of the parts of `api_key` between commas, without the spaces around it.
abbrev pub IsConfigured : Text → AccessAuth → Type 0
IsConfigured key auth =
    any (λ part. key == trim_space part) (split b',' (trim_space auth.api_key)) ≡ true

-- The three parameters are there, the key is configured, and the time and the signature are right.
abbrev pub IsSignedBy : (Text → Text) → ℤ → AccessAuth → Text → Text → Text → Type 0
IsSignedBy sha1_hex now auth key ts sig =
    (key ≢ [])
    × (ts ≢ [])
    × (sig ≢ [])
    × IsRecent now (parse_int ts)
    × IsConfigured key auth
    × IsSignature sha1_hex key ts sig

header_or_query-given : (h q : Text) → header_or_query h q ≡ given h q
unfolding header_or_query
header_or_query-given h q =
    elim (trim_space h)
      as (λ x.
        (if is_empty x then trim_space q else x) ≡ elim x [ [] ↦ trim_space q | c ∷ s ↦ c ∷ s ]) [
          | [] ↦ refl
          | c ∷ s ↦ refl
        ]

verify_sig_against_iff :
    (want got : Text)
    → (verify_sig_against want got ≡ true)
      ↔ (to_lower (trim_space got) ≡ to_lower (trim_space want))
unfolding verify_sig_against
verify_sig_against_iff want got =
    let a = to_lower (trim_space want) in
    let b = to_lower (trim_space got) in
    ground (
      arith,
      eq_iff a b,
      eq_iff b a,
      ap {A = Text} {B = ℕ} length {x = a} {y = b},
      ap {A = Text} {B = ℕ} length {x = b} {y = a},
    )

nothing : (o : Option AuthError) → not (is_some o) ≡ true → o ≡ none
nothing none h = refl
nothing (some e) h = cc

assembled :
    (v : Option AuthError) (on opt f : Bool) (S : Type 0)
    → not (is_some v) ≡ (not on || (opt || f))
    → (f ≡ true) ↔ S
    → (v ≡ none) ↔ ((on ≡ false) ⊎ ((opt ≡ true) ⊎ S))
assembled v false opt f S h (k, l) = (λ e. inl refl, λ s. nothing v h)
assembled v true true f S h (k, l) = (λ e. inr (inl refl), λ s. nothing v h)
assembled v true false true S h (k, l) = (λ e. inr (inr (k refl)), λ s. nothing v h)
assembled none true false false S h (k, l) = absurd (ground arith)
assembled (some x) true false false S h (k, l) = (
  λ e. cc,
  λ s. elim s [ inl e ↦ cc | inr q ↦ elim q [ inl e ↦ cc | inr a ↦ (let b = l a in cc) ] ],
)

is_empty_iff : (s : Text) → (is_empty s ≡ false) ↔ (s ≢ [])
is_empty_iff [] = (λ h. cc, λ h. absurd (h refl))
is_empty_iff (c ∷ s) = (λ h e. cc, λ h. refl)

in_window_iff : (now : ℤ) (o : Option ℤ) → (in_window now o ≡ true) ↔ IsRecent now o
in_window_iff now none = (λ h. cc, λ h. absurd h)
in_window_iff now (some sec) = ground (arith, is_skewed_iff now sec)

module _ (sha1_hex : Text → Text) (now : ℤ) (auth : AccessAuth) (r : Request) where
  signed_iff :
      (key ts sig : Text)
      → ((not (is_empty key)
            && (not (is_empty ts)
                && (not (is_empty sig)
                    && (in_window now (parse_int ts)
                        && (any (λ tok. key == tok) (unified_tokens auth)
                            && verify_sig_against (sign_access_payload sha1_hex key ts key) sig)))))
          ≡ true)
        ↔ IsSignedBy sha1_hex now auth key ts sig
  unfolding sign_access_payload canonical
  signed_iff key ts sig =
      let want = sha1_hex (trim_space key ++ b'\n' ∷ (trim_space ts ++ b'\n' ∷ trim_space key)) in
      let (k, k') = is_empty_iff key in
      let (m, m') = is_empty_iff ts in
      let (s, s') = is_empty_iff sig in
      let (w, w') = in_window_iff now (parse_int ts) in
      let (v, v') = verify_sig_against_iff want sig in
      let one = any-unified_tokens key auth in
      (
        λ h. (
          k (ground arith),
          m (ground arith),
          s (ground arith),
          w (ground arith),
          sym (one (ground arith)) ∙ ground arith,
          v (ground arith),
        ),
        λ (a, b, c, d, e, f). ground (arith, k' a, m' b, s' c, w' d, one (k' a) ∙ e, v' f),
      )

  -- A request is accepted exactly when access control is off, that is `api_key` holds no character
  -- but spaces and commas; or its method is OPTIONS; or it has the three parameters, each in the
  -- header or else in the query, without the spaces around it, the time stamp is a number at most
  -- 300 seconds from now, the key is one of the parts of `api_key` between commas, without the
  -- spaces around it, and the signature is the digest of the key, the time stamp and the key on
  -- three lines, up to the case of letters.
  pub verify_access_auth_lem : (verify_access_auth sha1_hex now auth r ≡ none) ↔ (
      (any is_key_char auth.api_key ≡ false)
      ⊎ ((r.is_options ≡ true)
          ⊎ IsSignedBy sha1_hex now auth
              (given r.header_key r.query_key)
              (given r.header_ts r.query_ts)
              (given r.header_sig r.query_sig)))
  verify_access_auth_lem =
      let formula = accepted_lem sha1_hex now auth r in
      let on = is_enabled-eq-any auth in
      rw
        (
          ← on,
          ← header_or_query-given r.header_key r.query_key,
          ← header_or_query-given r.header_ts r.query_ts,
          ← header_or_query-given r.header_sig r.query_sig,
        )
        (unfold request_key request_ts request_sig in
          assembled _ (is_enabled auth) r.is_options _ _ formula
            (signed_iff (request_key r) (request_ts r) (request_sig r)))

unified_tokens-IsToken : (auth : AccessAuth) → All IsToken (unified_tokens auth)
unfolding unified_tokens
unified_tokens-IsToken auth = parse_api_key_tokens-IsToken auth.api_key

filled : (s : Text) → s ≢ [] → is_empty s ≡ false
filled [] h = absurd (h refl)
filled (c ∷ s) h = refl

any-eq : (t : Text) (ts : List Text) → any (λ x. t == x) ts ≡ true → All IsToken ts → IsToken t
unfolding any
any-eq t [] h a = cc
any-eq t (x ∷ ts) h a = elim (Bool-cases (t == x)) [
  | inl e ↦ subst IsToken (sym ((eq_iff t x).0 e)) a.0
  | inr e ↦ any-eq t ts (ground arith) a.1
]

is_empty-parse_int : (s : Text) (n : ℤ) → parse_int s ≡ some n → is_empty s ≡ false
unfolding parse_int
is_empty-parse_int [] n h = cc (ap is_some h)
is_empty-parse_int (c ∷ s) n h = refl

-- The request that a client sends for a key at a time.
abbrev pub signed_request : (Text → Text) → Text → Text → Request
signed_request sha1_hex key ts = record {
  is_options = false;
  header_key = key;
  header_ts = ts;
  header_sig = sign_access_payload sha1_hex key ts key;
  query_key = [];
  query_ts = [];
  query_sig = [];
}

-- A digest is not empty and has no space at its ends.
pub record DigestLaws (sha1_hex : Text → Text) : Type 0 where
  pub filled : (t : Text) → is_empty (sha1_hex t) ≡ false
  pub trimmed : (t : Text) → trim_space (sha1_hex t) ≡ sha1_hex t

header_or_query_lem : (h : Text) → trim_space h ≡ h → is_empty h ≡ false → header_or_query h [] ≡ h
unfolding header_or_query
header_or_query_lem h t e = rw t (rw e refl)

verify_sig_against_refl : (s : Text) → verify_sig_against s s ≡ true
unfolding verify_sig_against
verify_sig_against_refl s = ground (
  arith,
  eq_refl (to_lower (trim_space s)),
  (eqb_iff (length (to_lower (trim_space s))) (length (to_lower (trim_space s)))).1 refl,
)

module _ (sha1_hex : Text → Text) (laws : DigestLaws sha1_hex) (now sec : ℤ) (auth : AccessAuth)
    (key ts : Text) where
  -- Any request from which the check reads the key, the time stamp and their signature.
  pub verify_access_auth-read :
      (r : Request)
      → any (λ tok. key == tok) (unified_tokens auth) ≡ true
      → parse_int ts ≡ some sec
      → is_skewed now sec ≡ false
      → request_key r ≡ key
      → request_ts r ≡ ts
      → request_sig r ≡ sign_access_payload sha1_hex key ts key
      → verify_access_auth sha1_hex now auth r ≡ none
  unfolding sign_access_payload
  verify_access_auth-read r k p w key_read ts_read sig_read =
      let sig = sign_access_payload sha1_hex key ts key in
      let token : IsToken key = any-eq key (unified_tokens auth) k (unified_tokens-IsToken auth) in
      let no_key : is_empty key ≡ false = filled key token.0 in
      let no_ts : is_empty ts ≡ false = is_empty-parse_int ts sec p in
      let no_sig : is_empty sig ≡ false = laws.filled _ in
      let lem = accepted_lem sha1_hex now auth r in
      let good = verify_sig_against_refl sig in
      nothing _ (lem ∙ rw key_read (rw ts_read (rw sig_read (rw p (ground arith)))))

-- The request that is signed with a configured key, at a time stamp that reads as a number at most
-- 300 seconds from now, is accepted.
pub verify_access_auth-signed_request :
    (sha1_hex : Text → Text) (laws : DigestLaws sha1_hex) (now sec : ℤ) (auth : AccessAuth)
    (key ts : Text)
    → any (λ tok. key == tok) (unified_tokens auth) ≡ true
    → trim_space ts ≡ ts
    → parse_int ts ≡ some sec
    → is_skewed now sec ≡ false
    → verify_access_auth sha1_hex now auth (signed_request sha1_hex key ts) ≡ none
unfolding request_key request_ts request_sig sign_access_payload
verify_access_auth-signed_request sha1_hex laws now sec auth key ts k t p w =
    let r = signed_request sha1_hex key ts in
    let sig = sign_access_payload sha1_hex key ts key in
    let token : IsToken key = any-eq key (unified_tokens auth) k (unified_tokens-IsToken auth) in
    let key_read = header_or_query_lem key token.1 (filled key token.0) in
    let ts_read = header_or_query_lem ts t (is_empty-parse_int ts sec p) in
    let sig_read = header_or_query_lem sig (laws.trimmed _) (laws.filled _) in
    verify_access_auth-read sha1_hex laws now sec auth key ts r k p w key_read ts_read sig_read

has_token_lem : (s : Text) (ts : List Text) → has_token s ts ≡ any (λ tok. s == tok) ts
unfolding has_token any
has_token_lem s [] = refl
has_token_lem s (t ∷ ts) = ground (arith, has_token_lem s ts, subtle_string_eq_lem s t)

any-empty :
    (s : Text) (ts : List Text) → is_empty s ≡ true → All IsToken ts → any (λ x. s == x) ts ≡ false
any-empty s ts e a = elim (Bool-cases (any (λ x. s == x) ts)) [
  | inl h ↦ (let f = filled s (any-eq s ts h a).0 in cc)
  | inr h ↦ h
]

-- A submitted credential is accepted exactly when access control is off or the credential, trimmed,
-- is one of the configured keys.
pub verify_plain_credential_lem :
    (auth : AccessAuth) (s : Text)
    → verify_plain_credential auth s
      ≡ (not (is_enabled auth) || any (λ tok. trim_space s == tok) (unified_tokens auth))
unfolding verify_plain_credential
verify_plain_credential_lem auth s =
    let empty : (is_empty (trim_space s) ≡ true
        → any (λ tok. trim_space s == tok) (unified_tokens auth) ≡ false) =
      λ e. any-empty (trim_space s) (unified_tokens auth) e (unified_tokens-IsToken auth) in
    ground (arith, has_token_lem (trim_space s) (unified_tokens auth), empty)
