-- ===== src/ClientTunnel/Reverse/Manager/Clash.antt =====
-- What it means that entries clash, in terms of the hosts and the numbers of the ports.
use pspxy.Base.{
  ◌≡◌, ◌≢◌, refl, sym, subst, ◌∙◌, ◌≤◌, is_space, ℤ, pos, negsuc, pos_part, ltb_ℤ, eqb_ℤ, Bool,
  true, false, [], ◌∷◌, some, if◌then◌else◌, Text, codes, arith, ◌==◌, eq_iff, get, ◌⊎◌, inl, inr,
  Bool-cases,
}
use pspxy.Strings.{trim_space, is_empty}
use pspxy.Strings.Trim.{trim_space_idem}
use pspxy.Strings.Decimal.{atoi}
use pspxy.Strings.HostPort.{split_host_port, last_index_of}
use pspxy.ClientTunnel.Reverse.{localhost, host_or_default}
use pspxy.ClientTunnel.Reverse.Hosts.{
  is_loopback, fuzzy_host_match, tcp_listen_parts, tcp_listen_port,
  listen_host_port_collides_expose, tcp_bindings_equiv,
}
use pspxy.ClientTunnel.Reverse.Manager.{ReverseManager, ProviderInst, ConsumerInst}
use pspxy.ClientTunnel.Reverse.Manager.Conflicts.{IsClear}

-- The host without the spaces at its ends; an empty one stands for 127.0.0.1.
abbrev pub named : Text → Text
named h = elim (trim_space h) [ [] ↦ codes "127.0.0.1" | c ∷ s ↦ c ∷ s ]

abbrev pub IsLoop : Text → Type 0
IsLoop h = (h ≡ codes "127.0.0.1") ⊎ (h ≡ codes "localhost")

-- The same name, or two names of the loopback interface.
abbrev pub IsSameHost : Text → Text → Type 0
IsSameHost a b = (named a ≡ named b) ⊎ (IsLoop (named a) × IsLoop (named b))

-- The address is that host and that port, in the syntax of `net.SplitHostPort`.
abbrev pub ListensAt : Text → Text → ℤ → Type 0
ListensAt addr h n =
    (p : Text) × (split_host_port (trim_space addr) ≡ some (h, p)) × (atoi p ≡ some n)

-- Two providers under different ids do not expose the same port of the same host.
abbrev pub TargetsDiffer : ReverseManager → Type 0
TargetsDiffer m =
    (i j : Text) (a b : ProviderInst)
    → get m.providers i ≡ some a
    → get m.providers j ≡ some b
    → i ≢ j
    → a.cfg.local_port ≡ b.cfg.local_port
    → IsSameHost a.cfg.local_host b.cfg.local_host
    → ⊥

-- Two consumers under different ids do not listen on the same port of the same host.
abbrev pub ListenersDiffer : ReverseManager → Type 0
ListenersDiffer m =
    (i j : Text) (a b : ConsumerInst) (h k : Text) (n : ℤ)
    → get m.consumers i ≡ some a
    → get m.consumers j ≡ some b
    → i ≢ j
    → ListensAt a.cfg.listen h n
    → ListensAt b.cfg.listen k n
    → IsSameHost h k
    → ⊥

-- No consumer listens on the port, of the same host, that a provider exposes.
abbrev pub HasNoLoop : ReverseManager → Type 0
HasNoLoop m =
    (i j : Text) (p : ProviderInst) (c : ConsumerInst) (h : Text)
    → get m.providers i ≡ some p
    → get m.consumers j ≡ some c
    → 1 ≤ pos_part p.cfg.local_port
    → ListensAt c.cfg.listen h p.cfg.local_port
    → IsSameHost h p.cfg.local_host
    → ⊥

abbrev pub HasNoClash : ReverseManager → Type 0
HasNoClash m = TargetsDiffer m × ListenersDiffer m × HasNoLoop m

host_or_default-named : (h : Text) → host_or_default h ≡ named h
unfolding host_or_default
host_or_default-named h =
    elim (trim_space h)
      as (λ s.
        (if is_empty s then localhost else s) ≡ elim s [ [] ↦ codes "127.0.0.1" | c ∷ t ↦ c ∷ t ]) [
          | [] ↦ refl
          | c ∷ s ↦ refl
        ]

loop_true : (h : Text) → IsLoop h → is_loopback h ≡ true
unfolding is_loopback
loop_true h (inl e) = ground (arith, (eq_iff h localhost).1 e)
loop_true h (inr e) = ground (arith, (eq_iff h (codes "localhost")).1 e)

same_host : (a b : Text) → IsSameHost a b → fuzzy_host_match a b ≡ true
unfolding fuzzy_host_match
same_host a b (inl e) =
    let f : host_or_default a ≡ host_or_default b =
      host_or_default-named a ∙ e ∙ sym (host_or_default-named b) in
    rw ((eq_iff (host_or_default a) (host_or_default b)).1 f) refl
same_host a b (inr (l, k)) =
    let x : is_loopback (host_or_default a) ≡ true =
      rw (host_or_default-named a) (loop_true (named a) l) in
    let y : is_loopback (host_or_default b) ≡ true =
      rw (host_or_default-named b) (loop_true (named b) k) in
    elim (Bool-cases (host_or_default a == host_or_default b)) [
      | inl e ↦ rw e refl
      | inr e ↦ rw (e, x, y) refl
    ]

default_named :
    (s : Text)
    → trim_space s ≡ s
    → let x : Text = elim s [ [] ↦ codes "127.0.0.1" | c ∷ t ↦ c ∷ t ] in named x ≡ x
unfolding trim_space is_space
default_named [] e = refl
default_named (c ∷ t) e =
    subst (λ (u : Text). elim u [ [] ↦ codes "127.0.0.1" | d ∷ v ↦ d ∷ v ] ≡ c ∷ t) (sym e) refl

-- The default is in effect once.
named_idem : (h : Text) → named (host_or_default h) ≡ named h
named_idem h = rw (host_or_default-named h) (default_named (trim_space h) (trim_space_idem h))

same_target_host :
    (a b : Text) → IsSameHost a b → fuzzy_host_match (host_or_default a) (host_or_default b) ≡ true
same_target_host a b s =
    same_host (host_or_default a) (host_or_default b) (rw (named_idem a, named_idem b) s)

not_below : (n : ℤ) → 1 ≤ pos_part n → ltb_ℤ n (pos 1) ≡ false
not_below (pos k) l = ground arith
not_below (negsuc k) l = ground arith

eqb_ℤ-refl : (n : ℤ) → eqb_ℤ n n ≡ true
eqb_ℤ-refl n = ground arith

listen_parts : (addr h : Text) (n : ℤ) → ListensAt addr h n → tcp_listen_parts addr ≡ some (h, n)
unfolding tcp_listen_parts
listen_parts addr h n (p, s, e) = rw s (rw e refl)

listen_port :
    (addr h : Text) (n : ℤ) → 1 ≤ pos_part n → ListensAt addr h n → tcp_listen_port addr ≡ some n
unfolding tcp_listen_port
listen_port addr h n l (p, s, e) = rw s (rw e (rw (not_below n l) refl))

collides :
    (addr h e : Text) (n : ℤ)
    → 1 ≤ pos_part n
    → ListensAt addr h n
    → IsSameHost h e
    → listen_host_port_collides_expose addr e n ≡ true
unfolding listen_host_port_collides_expose
collides addr h e n l (p, s, q) same =
    rw (listen_port addr h n l (p, s, q))
      (rw s (rw (eqb_ℤ-refl n) (same_host h (host_or_default e) (rw (named_idem e) same))))

again : (addr h : Text) (n : ℤ) → ListensAt addr h n → ListensAt (trim_space addr) h n
again addr h n (p, s, e) = (p, rw (trim_space_idem addr) s, e)

not_blank : (addr h : Text) (n : ℤ) → ListensAt addr h n → is_empty (trim_space addr) ≡ false
unfolding split_host_port last_index_of
not_blank addr h n (p, s, e) = filled (trim_space addr) s
  where
    filled : (t : Text) → split_host_port t ≡ some (h, p) → is_empty t ≡ false
    filled [] f = cc
    filled (c ∷ t) f = refl

bindings :
    (a b h k : Text) (n : ℤ)
    → ListensAt a h n
    → ListensAt b k n
    → IsSameHost h k
    → tcp_bindings_equiv a b ≡ true
unfolding tcp_bindings_equiv
bindings a b h k n la lb s =
    rw
      (
        not_blank a h n la,
        not_blank b k n lb,
        listen_parts (trim_space a) h n (again a h n la),
        listen_parts (trim_space b) k n (again b k n lb),
      )
      (rw (eqb_ℤ-refl n) (same_host h k s))

never : (b : Bool) → b ≡ true → b ≡ false → ⊥
never b t f = cc

-- With `IsClear`, the tests that the manager makes, in these terms.
pub IsClear-HasNoClash : (m : ReverseManager) → IsClear m → HasNoClash m
IsClear-HasNoClash m (targets, listens, loops) = (
  λ i j a b p q n e s.
      never _
        (rw (e, eqb_ℤ-refl b.cfg.local_port) (same_target_host a.cfg.local_host b.cfg.local_host s))
        (targets i j a b p q n),
  λ i j a b h k n p q d la lb s.
      never _ (bindings a.cfg.listen b.cfg.listen h k n la lb s) (listens i j a b p q d),
  λ i j p c h f g l la s.
      never _
        (collides c.cfg.listen h (host_or_default p.cfg.local_host) p.cfg.local_port l la
          (rw (named_idem p.cfg.local_host) s))
        (loops i j p c f g),
)
