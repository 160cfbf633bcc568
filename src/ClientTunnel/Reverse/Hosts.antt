-- ===== src/ClientTunnel/Reverse/Hosts.antt =====
-- internal/clienttunnel/reverse_manager.go: when two addresses take the same port.
use pspxy.Base.{
  ◌≡◌, ℤ, pos, ltb_ℤ, eqb_ℤ, Bool, true, false, not, ◌&&◌, ◌||◌, Option, none, some, if◌then◌else◌,
  Text, arith, codes, ◌==◌, eq_iff,
}
use pspxy.Strings.{trim_space, is_empty}
use pspxy.Strings.Decimal.{atoi}
use pspxy.Strings.HostPort.{split_host_port}
use pspxy.ClientTunnel.Reverse.{localhost, host_or_default}

unfoldable pub is_loopback : Text → Bool
is_loopback h = h == localhost || h == codes "localhost"

unfoldable pub fuzzy_host_match : Text → Text → Bool
unfolding is_loopback host_or_default
fuzzy_host_match a b =
    let na = host_or_default a in
    let nb = host_or_default b in if na == nb then true else is_loopback na && is_loopback nb

-- The number of a port, `none` unless it is a number; the error of `Atoi` or of `SplitHostPort`.
with_port : Option (Text × Text) → Option (Text × ℤ)
with_port none = none
with_port (some (h, p)) = number (atoi p)
  where
    number : Option ℤ → Option (Text × ℤ)
    number none = none
    number (some n) = some (h, n)

unfoldable pub tcp_listen_parts : Text → Option (Text × ℤ)
unfolding with_port
tcp_listen_parts addr = with_port (split_host_port (trim_space addr))

positive : Option (Text × ℤ) → Option ℤ
positive none = none
positive (some (h, n)) = if ltb_ℤ n (pos 1) then none else some n

-- Its first lines are those of `tcp_listen_parts`.
unfoldable pub tcp_listen_port : Text → Option ℤ
unfolding positive with_port
tcp_listen_port addr = positive (with_port (split_host_port (trim_space addr)))

abbrev is_port : Option ℤ → ℤ → Bool
is_port none port = false
is_port (some n) port = eqb_ℤ n port

host_matches : Option (Text × Text) → Text → Bool
host_matches none eh = false
host_matches (some (lh, p)) eh = fuzzy_host_match lh eh

unfoldable pub listen_host_port_collides_expose : Text → Text → ℤ → Bool
unfolding host_matches
listen_host_port_collides_expose listen_addr expose_host expose_port =
    if not (is_port (tcp_listen_port listen_addr) expose_port)
    then false
    else host_matches (split_host_port (trim_space listen_addr)) (host_or_default expose_host)

same_binding : Text → Text → Option (Text × ℤ) → Option (Text × ℤ) → Bool
same_binding a b (some (ha, pa)) (some (hb, pb)) = eqb_ℤ pa pb && fuzzy_host_match ha hb
same_binding a b none eb = a == b
same_binding a b (some x) none = a == b

unfoldable pub tcp_bindings_equiv : Text → Text → Bool
unfolding same_binding
tcp_bindings_equiv a0 b0 =
    let a = trim_space a0 in
    let b = trim_space b0 in
    if is_empty a || is_empty b
    then false
    else same_binding a b (tcp_listen_parts a) (tcp_listen_parts b)

pub eq_comm : (s t : Text) → (s == t) ≡ (t == s)
eq_comm s t = ground (arith, eq_iff s t, eq_iff t s)

pub fuzzy_host_match_comm : (a b : Text) → fuzzy_host_match a b ≡ fuzzy_host_match b a
unfolding fuzzy_host_match
fuzzy_host_match_comm a b = ground (arith, eq_comm (host_or_default a) (host_or_default b))

eqb_ℤ-comm : (a b : ℤ) → eqb_ℤ a b ≡ eqb_ℤ b a
eqb_ℤ-comm a b = ground arith

same_binding_comm :
    (a b : Text) (x y : Option (Text × ℤ)) → same_binding a b x y ≡ same_binding b a y x
unfolding same_binding
same_binding_comm a b (some (ha, pa)) (some (hb, pb)) =
    rw (eqb_ℤ-comm pa pb, fuzzy_host_match_comm ha hb)
same_binding_comm a b none none = eq_comm a b
same_binding_comm a b none (some y) = eq_comm a b
same_binding_comm a b (some x) none = eq_comm a b

pub tcp_bindings_equiv_comm : (a b : Text) → tcp_bindings_equiv a b ≡ tcp_bindings_equiv b a
unfolding tcp_bindings_equiv
tcp_bindings_equiv_comm a b =
    let s = trim_space a in
    let t = trim_space b in
    ground (arith, same_binding_comm s t (tcp_listen_parts s) (tcp_listen_parts t))
