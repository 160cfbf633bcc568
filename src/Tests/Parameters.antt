-- ===== src/Tests/Parameters.antt =====
-- Concrete functions for the model's parameters, which have the assumed laws.
use pspxy.Base.{
  ℕ, zero, suc, ◌≡◌, refl, ap, subst, ℤ, pos, negsuc, Bool, true, false, not, List, [], ◌∷◌, ◌++◌,
  Option, none, some, if◌then◌else◌, eqb, arith, Text, codes, length, take, drop,
  take-append_length, drop-append_length, length-append, length-take_le, is_space, eqb_iff, ◌==◌,
}
use pspxy.Strings.{trim_left, trim_right, trim_space, is_empty}
use pspxy.Config.{ProxyConfig, Config}
use pspxy.Config.Manager.{Yaml, YamlLaws, Env}
use pspxy.Api.Access.Laws.{DigestLaws}
use pspxy.Uuid.{Uuid, UuidLaws}

-- A text in braces.
unfoldable pub braced : Text → Text
braced t = b'{' ∷ (t ++ b'}' ∷ [])

ends_filled : (t : Text) (c : ℕ) → is_empty (t ++ c ∷ []) ≡ false
ends_filled [] c = refl
ends_filled (x ∷ t) c = refl

closing : (t : Text) → trim_right (t ++ b'}' ∷ []) ≡ t ++ b'}' ∷ []
unfolding trim_right is_space
closing [] = refl
closing (c ∷ t) = rw (closing t) (rw (ends_filled t b'}') refl)

trim_space-braced : (t : Text) → trim_space (braced t) ≡ braced t
unfolding trim_space trim_left braced is_space
trim_space-braced t = closing (b'{' ∷ t)

pub braced-DigestLaws : DigestLaws braced
unfolding braced
braced-DigestLaws = record { filled = λ t. refl; trimmed = trim_space-braced }

unbraced : Text → Option Text
unbraced [] = none
unbraced (c ∷ s) = if eqb (length s) 17 then some (take 16 s) else none

unbraced-braced : (id : Text) → length id ≡ 16 → unbraced (braced id) ≡ some id
unfolding unbraced braced
unbraced-braced id h = rw (length-append id (b'}' ∷ [])) (
    rw h
      (ap some (subst (λ n. take n (id ++ b'}' ∷ []) ≡ id) h (take-append_length id (b'}' ∷ [])))))

unwrapped : (s t : Text) → some s ≡ some t → s ≡ t
unwrapped s t e = ground arith

length-unbraced : (s id : Text) → unbraced s ≡ some id → length id ≡ 16
unfolding unbraced
length-unbraced [] id e = cc
length-unbraced (c ∷ s) id e = go (eqb (length s) 17) refl e
  where
    go :
        (b : Bool)
        → eqb (length s) 17 ≡ b
        → (if b then some (take 16 s) else none) ≡ some id
        → length id ≡ 16
    go true h e =
        let long : length s ≡ 17 = (eqb_iff (length s) 17).0 h in
        subst (λ (x : Text). length x ≡ 16) (unwrapped (take 16 s) id e)
          (length-take_le 16 s (omega (arith, long)))
    go false h e = cc

unfoldable pub uuid : Uuid
unfolding unbraced
uuid = record { parse = unbraced; format = braced }

pub uuid-UuidLaws : UuidLaws uuid
unfolding uuid
uuid-UuidLaws = record {
  parse_format = unbraced-braced;
  parse_size = length-unbraced;
  format_trimmed = trim_space-braced;
  format_filled = λ id. unfold braced in refl;
}

-- A configuration as numbers: each text behind its length.
unfoldable pub put_text : Text → Text → Text
put_text t k = length t ∷ (t ++ k)

abbrev flag : Bool → ℕ
flag true = 1
flag false = 0

put_proxies : List ProxyConfig → Text → Text
unfolding put_text
put_proxies [] k = k
put_proxies (p ∷ ps) k =
    flag p.enabled ∷ put_text p.id (put_text p.name (put_text p.remote_address (put_proxies ps k)))

put_port : ℤ → Text → Text
put_port (pos n) k = 0 ∷ n ∷ k
put_port (negsuc n) k = 1 ∷ n ∷ k

pub encode : Config → Text
unfolding put_proxies put_port
encode c =
    length c.proxies
    ∷ put_proxies c.proxies
        (put_port c.server.port (put_text c.server.static_dir (put_text c.server.auth.api_key [])))

get_text : Text → Text × Text
get_text [] = ([], [])
get_text (n ∷ r) = (take n r, drop n r)

get_flag : Text → Bool × Text
get_flag [] = (false, [])
get_flag (n ∷ r) = (eqb n 1, r)

get_proxies : ℕ → Text → List ProxyConfig × Text
unfolding get_text get_flag
get_proxies zero t = ([], t)
get_proxies (suc n) t =
    let e = get_flag t in
    let i = get_text e.1 in
    let m = get_text i.1 in
    let a = get_text m.1 in
    let rest = get_proxies n a.1 in
    (record { id = i.0; name = m.0; remote_address = a.0; enabled = e.0 } ∷ rest.0, rest.1)

get_port : Text → ℤ × Text
get_port (b ∷ n ∷ r) = (if eqb b 0 then pos n else negsuc n, r)
get_port _ = (pos 0, [])

decode : Text → Option Config
unfolding get_proxies get_port get_text
decode [] = none
decode (n ∷ t) =
    let ps = get_proxies n t in
    let port = get_port ps.1 in
    let dir = get_text port.1 in
    let key = get_text dir.1 in
    some (record {
      proxies = ps.0;
      server = record { port = port.0; static_dir = dir.0; auth = record { api_key = key.0 } };
    })

get_port-put_port : (p : ℤ) (k : Text) → get_port (put_port p k) ≡ (p, k)
unfolding get_port put_port
get_port-put_port (pos n) k = refl
get_port-put_port (negsuc n) k = refl

eqb-flag : (b : Bool) → eqb (flag b) 1 ≡ b
eqb-flag true = refl
eqb-flag false = refl

get_proxies-put_proxies :
    (ps : List ProxyConfig) (k : Text) → get_proxies (length ps) (put_proxies ps k) ≡ (ps, k)
unfolding get_proxies put_proxies
get_proxies-put_proxies [] k = refl
get_proxies-put_proxies (p ∷ ps) k =
    simp (take-append_length, drop-append_length, get_proxies-put_proxies ps k, eqb-flag p.enabled)

decode-encode : (c : Config) → decode (encode c) ≡ some c
unfolding decode encode
decode-encode c =
    simp
      (get_proxies-put_proxies c.proxies, get_port-put_port, take-append_length, drop-append_length)

unfoldable pub yaml : Yaml
unfolding encode decode
yaml = record { marshal = λ c. some (encode c); unmarshal = decode }

pub yaml-YamlLaws : YamlLaws yaml
unfolding yaml
yaml-YamlLaws = record { round_trip = λ c t e. rw (← unwrapped (encode c) t e) (decode-encode c) }

-- Every call of the operating system succeeds.
abbrev pub all_well : Env
all_well = record {
  resolves = λ a. true;
  can_write = true;
  can_rename = true;
  can_read = true;
  partial = none;
}

-- As that, but the address `bad` does not resolve.
abbrev pub unresolved : Env
unresolved = record {
  resolves = λ a. not (a == codes "bad");
  can_write = true;
  can_rename = true;
  can_read = true;
  partial = none;
}
