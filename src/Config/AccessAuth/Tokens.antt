-- ===== src/Config/AccessAuth/Tokens.antt =====
-- What the keys are that `parse_api_key_tokens` returns, and when there is one.
use pspxy.Base.{
  refl, sym, true, false, ◌==◌, any, ℕ, ◌≡◌, ◌≢◌, ap, List, [], ◌∷◌, arith, All, Text, Bool-cases,
  inl, inr,
}
use pspxy.Strings.{trim_space, trim_left, trim_right, is_empty, split}
use pspxy.Strings.Trim.{trim_space_idem}
use pspxy.Strings.Split.{Lacks, split-Lacks}
use pspxy.Config.AccessAuth.{AccessAuth, token_loop, parse_api_key_tokens, unified_tokens}

-- A key is not empty, has no space at its ends, and holds no comma.
abbrev pub IsToken : Text → Type 0
IsToken t = (t ≢ []) × (trim_space t ≡ t) × Lacks b',' t

trim_left-Lacks : (sep : ℕ) (s : Text) → Lacks sep s → Lacks sep (trim_left s)
unfolding trim_left
trim_left-Lacks sep [] h = tt
trim_left-Lacks sep (c ∷ s) h = ground (arith, trim_left-Lacks sep s h.1)

trim_right-Lacks : (sep : ℕ) (s : Text) → Lacks sep s → Lacks sep (trim_right s)
unfolding trim_right
trim_right-Lacks sep [] h = tt
trim_right-Lacks sep (c ∷ s) h = ground (arith, trim_right-Lacks sep s h.1)

pub trim_space-Lacks : (sep : ℕ) (s : Text) → Lacks sep s → Lacks sep (trim_space s)
unfolding trim_space
trim_space-Lacks sep s h = trim_right-Lacks sep (trim_left s) (trim_left-Lacks sep s h)

token_loop-IsToken : (ps : List Text) → All (Lacks b',') ps → All IsToken (token_loop ps)
unfolding token_loop
token_loop-IsToken [] h = tt
token_loop-IsToken (p ∷ ps) h = elim (Bool-cases (is_empty (trim_space p))) [
  | inl e ↦ rw e (token_loop-IsToken ps h.1)
  | inr e ↦ rw e (
    ((λ q. cc (ap is_empty q)), trim_space_idem p, trim_space-Lacks b',' p h.0),
    token_loop-IsToken ps h.1,
  )
]

-- Every key is a trimmed text that is not empty and holds no comma.
pub parse_api_key_tokens-IsToken : (csv : Text) → All IsToken (parse_api_key_tokens csv)
unfolding parse_api_key_tokens
parse_api_key_tokens-IsToken csv = elim (Bool-cases (is_empty (trim_space csv))) [
  | inl e ↦ rw e tt
  | inr e ↦ rw e (token_loop-IsToken _ (split-Lacks b',' (trim_space csv)))
]

filled_differs : (s t : Text) → is_empty s ≡ false → is_empty t ≡ true → (s == t) ≡ false
unfolding ◌==◌
filled_differs [] t h k = cc
filled_differs (c ∷ s) [] h k = refl
filled_differs (c ∷ s) (d ∷ t) h k = cc

any-token_loop :
    (key : Text) (parts : List Text)
    → is_empty key ≡ false
    → any (λ tok. key == tok) (token_loop parts) ≡ any (λ part. key == trim_space part) parts
unfolding any token_loop
any-token_loop key [] h = refl
any-token_loop key (part ∷ parts) h = elim (Bool-cases (is_empty (trim_space part))) [
  | inl e ↦ rw (e, filled_differs key (trim_space part) h e) (any-token_loop key parts h)
  | inr e ↦ rw (e, any-token_loop key parts h) refl
]

any-blank :
    (key s : Text)
    → is_empty key ≡ false
    → is_empty s ≡ true
    → any (λ part. key == trim_space part) (split b',' s) ≡ false
unfolding any split trim_space
any-blank key [] h e = rw (filled_differs key [] h refl) refl
any-blank key (c ∷ s) h e = cc

-- A key is a token exactly when it is one of the parts between commas, without the spaces around it.
pub any-unified_tokens :
    (key : Text) (auth : AccessAuth)
    → is_empty key ≡ false
    → any (λ tok. key == tok) (unified_tokens auth)
      ≡ any (λ part. key == trim_space part) (split b',' (trim_space auth.api_key))
unfolding unified_tokens parse_api_key_tokens any split
any-unified_tokens key auth h =
    let s = trim_space auth.api_key in
    elim (Bool-cases (is_empty s)) [
      | inl e ↦ rw e (sym (any-blank key s h e))
      | inr e ↦ rw e (any-token_loop key (split b',' s) h)
    ]
