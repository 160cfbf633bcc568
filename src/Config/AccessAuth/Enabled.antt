-- ===== src/Config/AccessAuth/Enabled.antt =====
-- When `Enabled` holds: a description of `api_key` that does not go through the parts.
use pspxy.Base.{
  ℕ, ◌≡◌, refl, ap, sym, ◌∙◌, Bool, true, false, not, ◌&&◌, ◌||◌, List, [], ◌∷◌, arith, ltb, eqb,
  length, any, All, Text, is_space, Bool-cases, inl, inr,
}
use pspxy.Strings.{trim_space, trim_left, trim_right, split, push_head, is_empty}
use pspxy.Strings.Split.{Lacks, split-Lacks}
use pspxy.Config.AccessAuth.{
  AccessAuth, token_loop, parse_api_key_tokens, unified_tokens, is_enabled,
}

-- Neither a space nor a comma.
abbrev pub is_key_char : ℕ → Bool
is_key_char c = not (is_space c) && not (eqb c b',')

-- Not a space.
abbrev is_bare : ℕ → Bool
is_bare c = not (is_space c)

is_empty-any : (p : ℕ → Bool) (r : Text) → is_empty r ≡ true → any p r ≡ false
unfolding any
is_empty-any p [] h = refl
is_empty-any p (x ∷ r) h = cc

-- A test that no space passes sees through trimming.
module _ (p : ℕ → Bool) (no_space : (c : ℕ) → is_space c ≡ true → p c ≡ false) where
  any-trim_left : (s : Text) → any p (trim_left s) ≡ any p s
  unfolding any trim_left
  any-trim_left [] = refl
  any-trim_left (c ∷ s) = ground (arith, any-trim_left s, no_space c)

  any-trim_right : (s : Text) → any p (trim_right s) ≡ any p s
  unfolding any trim_right
  any-trim_right [] = refl
  any-trim_right (c ∷ s) = elim (Bool-cases (is_empty (trim_right s) && is_space c)) [
    | inl e ↦ rw e (ground (arith, any-trim_right s, no_space c, is_empty-any p (trim_right s)))
    | inr e ↦ rw e (ap (λ b. p c || b) (any-trim_right s))
  ]

  any-trim_space : (s : Text) → any p (trim_space s) ≡ any p s
  unfolding trim_space
  any-trim_space s = rw (any-trim_right (trim_left s)) (any-trim_left s)

is_empty-trim_right : (s : Text) → is_empty (trim_right s) ≡ not (any is_bare s)
unfolding any trim_right
is_empty-trim_right [] = refl
is_empty-trim_right (c ∷ s) = ground (arith, is_empty-trim_right s)

is_empty-trim_space : (s : Text) → is_empty (trim_space s) ≡ not (any is_bare s)
unfolding trim_space
is_empty-trim_space s =
    rw (is_empty-trim_right (trim_left s)) (ap not (any-trim_left is_bare (λ c h. rw h) s))

any-is_key_char : (s : Text) → Lacks b',' s → any is_bare s ≡ any is_key_char s
unfolding any
any-is_key_char [] h = refl
any-is_key_char (c ∷ s) h = ground (arith, any-is_key_char s h.1)

-- Some part has a character for a key.
has_key : List Text → Bool
has_key = any (any is_key_char)

any-push_head : (c : ℕ) (ps : List Text) → has_key (push_head c ps) ≡ (is_key_char c || has_key ps)
unfolding has_key any push_head
any-push_head c [] = ground arith
any-push_head c (p ∷ ps) = ground arith

has_key-split : (s : Text) → has_key (split b',' s) ≡ any is_key_char s
unfolding has_key any split
has_key-split [] = refl
has_key-split (c ∷ s) = elim (Bool-cases (eqb c b',')) [
  | inl e ↦ rw e (ground (arith, has_key-split s))
  | inr e ↦ rw (e, any-push_head c (split b',' s)) (ground (arith, has_key-split s))
]

has_key-token_loop :
    (ps : List Text) → All (Lacks b',') ps → ltb 0 (length (token_loop ps)) ≡ has_key ps
unfolding token_loop has_key any
has_key-token_loop [] h = refl
has_key-token_loop (p ∷ ps) h =
    ground (arith, has_key-token_loop ps h.1, is_empty-trim_space p, any-is_key_char p h.0)

-- Access control is on exactly when `api_key` holds a character that is neither a space nor a
-- comma.
pub is_enabled-eq-any : (a : AccessAuth) → is_enabled a ≡ any is_key_char a.api_key
unfolding is_enabled unified_tokens parse_api_key_tokens
is_enabled-eq-any a =
    let s = trim_space a.api_key in
    let sees : any is_key_char s ≡ any is_key_char a.api_key =
      any-trim_space is_key_char (λ c h. rw h) a.api_key in
    elim (Bool-cases (is_empty s)) [
      | inl e ↦ rw e (sym (sym sees ∙ is_empty-any is_key_char s e))
      | inr e ↦
          rw e (has_key-token_loop (split b',' s) (split-Lacks b',' s) ∙ has_key-split s ∙ sees)
    ]
