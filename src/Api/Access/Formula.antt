-- ===== src/Api/Access/Formula.antt =====
-- The check of a request as one formula.
use pspxy.Base.{
  ℕ, ◌≡◌, ◌↔◌, refl, ap, ℤ, ◌+ℤ◌, ◌-ℤ◌, Bool, false, not, ◌&&◌, ◌||◌, List, [], ◌∷◌, Option, none,
  some, Text, arith, ◌==◌, length, any, eq_iff, Bool-cases, is_some, inl, inr, pos_part, neg_part,
  ◌≤◌, ◌+◌,
}
use pspxy.Strings.Decimal.{parse_int}
use pspxy.Strings.{is_empty}
use pspxy.Config.AccessAuth.{AccessAuth, is_enabled, unified_tokens}
use pspxy.Api.Access.{
  Request, subtle_string_eq, verify_sig_against, is_skewed, sign_access_payload, check_tokens,
  check_time, verify_access_auth, request_key, request_ts, request_sig,
}

-- The length test of `subtleStringEq` changes nothing.
pub subtle_string_eq_lem : (a b : Text) → subtle_string_eq a b ≡ (a == b)
unfolding subtle_string_eq
subtle_string_eq_lem a b = ground (arith, eq_iff a b, ap {A = Text} {B = ℕ} length {x = a} {y = b})

-- The time stamp is in the window exactly when it is at most 300 seconds away from now.
pub is_skewed_iff :
    (now sec : ℤ)
    → (is_skewed now sec ≡ false) ↔ (
        (pos_part now + neg_part sec ≤ pos_part sec + neg_part now + 300)
        × (pos_part sec + neg_part now ≤ pos_part now + neg_part sec + 300))
unfolding is_skewed ◌+ℤ◌ ◌-ℤ◌
is_skewed_iff now sec = ground arith

module _ (sha1_hex : Text → Text) where
  check_tokens_lem :
      (ak ts sig : Text) (toks : List Text)
      → not (is_some (check_tokens sha1_hex ak ts sig toks)) ≡ (
          any (λ tok. ak == tok) toks
          && verify_sig_against (sign_access_payload sha1_hex ak ts ak) sig)
  unfolding check_tokens any
  check_tokens_lem ak ts sig [] = refl
  check_tokens_lem ak ts sig (tok ∷ toks) = elim (Bool-cases (ak == tok)) [
    | inl e ↦ rw (subtle_string_eq_lem ak tok) (rw e (rw (← (eq_iff ak tok).0 e) (ground arith)))
    | inr e ↦ rw (subtle_string_eq_lem ak tok) (rw e (check_tokens_lem ak ts sig toks))
  ]

-- A time stamp that is a number and in the window.
abbrev pub in_window : ℤ → Option ℤ → Bool
in_window now none = false
in_window now (some sec) = not (is_skewed now sec)

module _ (sha1_hex : Text → Text) (now : ℤ) (auth : AccessAuth) (r : Request) where
  check_time_lem :
      (o : Option ℤ)
      → not (is_some (check_time sha1_hex now auth r o)) ≡ (
          in_window now o
          && (any (λ tok. request_key r == tok) (unified_tokens auth)
              && verify_sig_against
                  (sign_access_payload sha1_hex (request_key r) (request_ts r) (request_key r))
                  (request_sig r)))
  unfolding check_time
  check_time_lem none = refl
  check_time_lem (some sec) = ground (
    arith,
    check_tokens_lem sha1_hex (request_key r) (request_ts r) (request_sig r) (unified_tokens auth),
  )

  -- The check as one formula.
  pub accepted_lem : not (is_some (verify_access_auth sha1_hex now auth r)) ≡ (
      not (is_enabled auth)
      || (r.is_options
          || (not (is_empty (request_key r))
              && (not (is_empty (request_ts r))
                  && (not (is_empty (request_sig r))
                      && (in_window now (parse_int (request_ts r))
                          && (any (λ tok. request_key r == tok) (unified_tokens auth)
                              && verify_sig_against
                                  (sign_access_payload sha1_hex
                                    (request_key r)
                                    (request_ts r)
                                    (request_key r))
                                  (request_sig r))))))))
  unfolding verify_access_auth
  accepted_lem = ground (arith, check_time_lem (parse_int (request_ts r)))
