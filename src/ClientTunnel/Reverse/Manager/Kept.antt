-- ===== src/ClientTunnel/Reverse/Manager/Kept.antt =====
-- The calls that store no new configuration: they keep the entries, or remove one.
use pspxy.Base.{
  ◌≡◌, refl, ℕ, Option, none, some, Text, arith, get, remove, IsWithin-refl, put-IsWithin,
  remove-IsWithin, map_values-IsWithin, Bool-cases, Option-cases, inl, inr,
}
use pspxy.Strings.{trim_space, is_empty}
use pspxy.ClientTunnel.Reverse.Manager.{
  ProviderInst, ConsumerInst, ReverseManager, end_provider, end_consumer, wait_provider_ended,
  wait_consumer_ended, set_provider, set_consumer, stop_provider, stop_consumer, remove_provider,
  remove_consumer,
}
use pspxy.ClientTunnel.Reverse.Manager.Start.{stop_all, provider_ended, consumer_ended}
use pspxy.ClientTunnel.Reverse.Manager.Conflicts.{
  provider_cfg, consumer_cfg, IsClear, kept-IsClear, end_provider-cfg, end_consumer-cfg,
}

module _ (m : ReverseManager) (v : IsClear m) where
  keep_provider :
      (id : Text) (old new : ProviderInst)
      → get m.providers id ≡ some old
      → old.cfg ≡ new.cfg
      → IsClear (set_provider id new m)
  keep_provider id old new at e =
      kept-IsClear (set_provider id new m) m
        (
          put-IsWithin provider_cfg m.providers id new old at e,
          IsWithin-refl consumer_cfg m.consumers,
        )
        v

  keep_consumer :
      (id : Text) (old new : ConsumerInst)
      → get m.consumers id ≡ some old
      → old.cfg ≡ new.cfg
      → IsClear (set_consumer id new m)
  keep_consumer id old new at e =
      kept-IsClear (set_consumer id new m) m
        (
          IsWithin-refl provider_cfg m.providers,
          put-IsWithin consumer_cfg m.consumers id new old at e,
        )
        v

  pub wait_provider_ended-IsClear :
      (run_err : Option Text) (id : Text) → IsClear (wait_provider_ended run_err id m)
  unfolding wait_provider_ended
  wait_provider_ended-IsClear run_err id = elim (Option-cases (get m.providers id)) [
    | inl e ↦ rw e v
    | inr (it, e) ↦
        rw e (keep_provider id it (end_provider run_err it) e (end_provider-cfg run_err it))
  ]

  pub wait_consumer_ended-IsClear :
      (run_err : Option Text) (id : Text) → IsClear (wait_consumer_ended run_err id m)
  unfolding wait_consumer_ended
  wait_consumer_ended-IsClear run_err id = elim (Option-cases (get m.consumers id)) [
    | inl e ↦ rw e v
    | inr (it, e) ↦
        rw e (keep_consumer id it (end_consumer run_err it) e (end_consumer-cfg run_err it))
  ]

  pub stop_all-IsClear : (run_err : Option Text) → IsClear (stop_all run_err m)
  unfolding stop_all
  stop_all-IsClear run_err =
      kept-IsClear (stop_all run_err m) m
        (
          map_values-IsWithin provider_cfg (end_provider run_err) m.providers
              (end_provider-cfg run_err),
          map_values-IsWithin consumer_cfg (end_consumer run_err) m.consumers
              (end_consumer-cfg run_err),
        )
        v

  pub provider_ended-IsClear :
      (id : Text) (ws : ℕ) (run_err : Option Text) → IsClear (provider_ended id ws run_err m)
  unfolding provider_ended
  provider_ended-IsClear id ws run_err = elim (Option-cases (get m.providers id)) [
    | inl e ↦ rw e v
    | inr (it, e) ↦
        let set = keep_provider id it (record it { ws = none; last_run_err = run_err }) e refl in
        rw e (ground arith)
  ]

  pub consumer_ended-IsClear :
      (id : Text) (ln : ℕ) (run_err : Option Text) → IsClear (consumer_ended id ln run_err m)
  unfolding consumer_ended
  consumer_ended-IsClear id ln run_err = elim (Option-cases (get m.consumers id)) [
    | inl e ↦ rw e v
    | inr (it, e) ↦
        let set =
          keep_consumer id it (record it { listener = none; last_run_err = run_err }) e refl in
        rw e (ground arith)
  ]

module _ (m : ReverseManager) (v : IsClear m) where
  drop_provider : (id : Text) → IsClear (record m { providers = remove m.providers id })
  drop_provider id =
      kept-IsClear (record m { providers = remove m.providers id }) m
        (remove-IsWithin provider_cfg m.providers id, IsWithin-refl consumer_cfg m.consumers) v

  drop_consumer : (id : Text) → IsClear (record m { consumers = remove m.consumers id })
  drop_consumer id =
      kept-IsClear (record m { consumers = remove m.consumers id }) m
        (IsWithin-refl provider_cfg m.providers, remove-IsWithin consumer_cfg m.consumers id) v

module _ (m : ReverseManager) (v : IsClear m) (run_err : Option Text) (id : Text) where
  pub stop_provider-IsClear : IsClear (stop_provider run_err id m)
  unfolding stop_provider
  stop_provider-IsClear = elim (Bool-cases (is_empty (trim_space id))) [
    | inl e ↦ rw e v
    | inr e ↦ rw e (wait_provider_ended-IsClear m v run_err (trim_space id))
  ]

  pub stop_consumer-IsClear : IsClear (stop_consumer run_err id m)
  unfolding stop_consumer
  stop_consumer-IsClear = elim (Bool-cases (is_empty (trim_space id))) [
    | inl e ↦ rw e v
    | inr e ↦ rw e (wait_consumer_ended-IsClear m v run_err (trim_space id))
  ]

  pub remove_provider-IsClear : IsClear (remove_provider run_err id m)
  unfolding remove_provider
  remove_provider-IsClear = elim (Bool-cases (is_empty (trim_space id))) [
    | inl e ↦ rw e v
    | inr e ↦ rw e (
        drop_provider (wait_provider_ended run_err (trim_space id) m)
          (wait_provider_ended-IsClear m v run_err (trim_space id)) (trim_space id))
  ]

  pub remove_consumer-IsClear : IsClear (remove_consumer run_err id m)
  unfolding remove_consumer
  remove_consumer-IsClear = elim (Bool-cases (is_empty (trim_space id))) [
    | inl e ↦ rw e v
    | inr e ↦ rw e (
        drop_consumer (wait_consumer_ended run_err (trim_space id) m)
          (wait_consumer_ended-IsClear m v run_err (trim_space id)) (trim_space id))
  ]
