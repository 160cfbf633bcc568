-- ===== src/ClientTunnel/Reverse/Manager/Conflicts.antt =====
-- What the checks for conflicts keep true of the manager's entries.
use pspxy.Base.{
  ◌≡◌, eqb_ℤ, Bool, ◌&&◌, Option, none, Text, arith, IsWithin, IsWithin-refl, IsApart,
  within-IsApart, put-IsApart, IsAgainst, within-IsAgainst, put_left-IsAgainst, put_right-IsAgainst,
}
use pspxy.ClientTunnel.Reverse.{ReverseProviderPersist, ReverseConsumerPersist, host_or_default}
use pspxy.ClientTunnel.Reverse.Hosts.{
  fuzzy_host_match, fuzzy_host_match_comm, listen_host_port_collides_expose, tcp_bindings_equiv,
  tcp_bindings_equiv_comm,
}
use pspxy.ClientTunnel.Reverse.Manager.{
  ProviderInst, ConsumerInst, ReverseManager, end_provider, end_consumer, check_provider_conflicts,
  check_consumer_conflicts, listens_on, same_target, same_listen, exposes, set_provider,
  set_consumer,
}

abbrev pub provider_cfg : ProviderInst → ReverseProviderPersist
provider_cfg it = it.cfg

abbrev pub consumer_cfg : ConsumerInst → ReverseConsumerPersist
consumer_cfg it = it.cfg

-- Two providers expose the same port of the same host.
abbrev pub targets_clash : ReverseProviderPersist → ReverseProviderPersist → Bool
targets_clash p q =
    eqb_ℤ p.local_port q.local_port
    && fuzzy_host_match (host_or_default p.local_host) (host_or_default q.local_host)

-- Two consumers listen on the same address.
abbrev pub listens_clash : ReverseConsumerPersist → ReverseConsumerPersist → Bool
listens_clash c d = tcp_bindings_equiv c.listen d.listen

-- A consumer listens on the port that a provider exposes: what arrives there would run in a circle.
abbrev pub loops_back : ReverseProviderPersist → ReverseConsumerPersist → Bool
loops_back p c =
    listen_host_port_collides_expose c.listen (host_or_default p.local_host) p.local_port

abbrev pub IsClear : ReverseManager → Type 0
IsClear m =
    IsApart provider_cfg targets_clash m.providers
    × IsApart consumer_cfg listens_clash m.consumers
    × IsAgainst provider_cfg consumer_cfg loops_back m.providers m.consumers

-- Every entry has a predecessor with its configuration.
abbrev pub IsKept : ReverseManager → ReverseManager → Type 0
IsKept m' m =
    IsWithin provider_cfg m'.providers m.providers × IsWithin consumer_cfg m'.consumers m.consumers

pub kept-IsClear : (m' m : ReverseManager) → IsKept m' m → IsClear m → IsClear m'
kept-IsClear m' m w v = (
  within-IsApart provider_cfg targets_clash m'.providers m.providers w.0 v.0,
  within-IsApart consumer_cfg listens_clash m'.consumers m.consumers w.1 v.1,
  within-IsAgainst provider_cfg consumer_cfg loops_back m.providers m.consumers v.2 m'.providers
      m'.consumers w.0 w.1,
)

targets_clash_comm : (p q : ReverseProviderPersist) → targets_clash p q ≡ targets_clash q p
targets_clash_comm p q =
    ground
      (arith, fuzzy_host_match_comm (host_or_default p.local_host) (host_or_default q.local_host))

-- A provider that passes the check may be stored.
pub set_provider-IsClear :
    (m : ReverseManager) (id : Text) (it : ProviderInst)
    → check_provider_conflicts id it.cfg m ≡ none
    → IsClear m
    → IsClear (set_provider id it m)
unfolding check_provider_conflicts same_target listens_on
set_provider-IsClear m id it free v = (
  put-IsApart provider_cfg targets_clash m.providers id it targets_clash_comm (ground arith) v.0,
  v.1,
  put_left-IsAgainst provider_cfg consumer_cfg loops_back m.providers m.consumers v.2 id it
      (ground arith),
)

pub set_consumer-IsClear :
    (m : ReverseManager) (id : Text) (it : ConsumerInst)
    → check_consumer_conflicts id it.cfg m ≡ none
    → IsClear m
    → IsClear (set_consumer id it m)
unfolding check_consumer_conflicts same_listen exposes
set_consumer-IsClear m id it free v = (
  v.0,
  put-IsApart consumer_cfg listens_clash m.consumers id it
      (λ c d. tcp_bindings_equiv_comm c.listen d.listen) (ground arith) v.1,
  put_right-IsAgainst provider_cfg consumer_cfg loops_back m.providers m.consumers v.2 id it
      (ground arith),
)

IsKept-refl : (m : ReverseManager) → IsKept m m
IsKept-refl m = (IsWithin-refl provider_cfg m.providers, IsWithin-refl consumer_cfg m.consumers)

pub end_provider-cfg : (e : Option Text) (it : ProviderInst) → it.cfg ≡ (end_provider e it).cfg
unfolding end_provider
end_provider-cfg e it = ground arith

pub end_consumer-cfg : (e : Option Text) (it : ConsumerInst) → it.cfg ≡ (end_consumer e it).cfg
unfolding end_consumer
end_consumer-cfg e it = ground arith
