-- ===== src/ClientTunnel/Reverse/Manager/Starts.antt =====
-- The calls that store a configuration check it for conflicts first.
use pspxy.Base.{
  ◌≡◌, refl, ℕ, [], Option, none, some, Text, get, Result, ok, err, Bool-cases, inl, inr,
}
use pspxy.Strings.{trim_space}
use pspxy.ClientTunnel.Reverse.{
  ReverseProviderPersist, ReverseConsumerPersist, Error, effective_enabled, normalize_consumer,
  validate_provider, validate_consumer,
}
use pspxy.ClientTunnel.Reverse.Manager.{
  ReverseManager, Handshake, check_provider_conflicts, check_consumer_conflicts, inactive_provider,
  inactive_consumer, provider_running, consumer_running, put_provider_checked, put_consumer_checked,
  put_provider_inactive, put_consumer_inactive, wait_provider_ended, wait_consumer_ended,
  stop_provider, stop_consumer,
}
use pspxy.ClientTunnel.Reverse.Manager.Start.{
  handshake_entry, store_provider, registered, launch_provider, start_provider_valid,
  provider_entry, start_provider, store_consumer, launch_consumer, start_consumer_valid,
  start_consumer,
}
use pspxy.ClientTunnel.Reverse.Manager.Conflicts.{
  IsClear, set_provider-IsClear, set_consumer-IsClear,
}
use pspxy.ClientTunnel.Reverse.Manager.Kept.{
  wait_provider_ended-IsClear, wait_consumer_ended-IsClear, stop_provider-IsClear,
  stop_consumer-IsClear,
}

module _ (m : ReverseManager) (v : IsClear m) where
  put_provider_checked-IsClear :
      (p : ReverseProviderPersist) (o : Option Error)
      → check_provider_conflicts p.id p m ≡ o
      → IsClear (put_provider_checked p m o).1
  unfolding put_provider_checked
  put_provider_checked-IsClear p (some e) h = v
  put_provider_checked-IsClear p none h = set_provider-IsClear m p.id (inactive_provider p) h v

  put_consumer_checked-IsClear :
      (c : ReverseConsumerPersist) (o : Option Error)
      → check_consumer_conflicts c.id c m ≡ o
      → IsClear (put_consumer_checked c m o).1
  unfolding put_consumer_checked
  put_consumer_checked-IsClear c (some e) h = v
  put_consumer_checked-IsClear c none h = set_consumer-IsClear m c.id (inactive_consumer c) h v

  pub put_provider_inactive-IsClear :
      (p : ReverseProviderPersist) → IsClear (put_provider_inactive p m).1
  unfolding put_provider_inactive
  put_provider_inactive-IsClear p =
      let checked = put_provider_checked-IsClear p (check_provider_conflicts p.id p m) refl in
      elim (Bool-cases (provider_running (get m.providers p.id))) [
        | inl e ↦ rw e v
        | inr e ↦ rw e checked
      ]

  pub put_consumer_inactive-IsClear :
      (c : ReverseConsumerPersist) → IsClear (put_consumer_inactive c m).1
  unfolding put_consumer_inactive
  put_consumer_inactive-IsClear c =
      let checked = put_consumer_checked-IsClear c (check_consumer_conflicts c.id c m) refl in
      elim (Bool-cases (consumer_running (get m.consumers c.id))) [
        | inl e ↦ rw e v
        | inr e ↦ rw e checked
      ]

  store_provider-IsClear :
      (p : ReverseProviderPersist) (r : Result Text (Text × ℕ))
      → check_provider_conflicts p.id p m ≡ none
      → IsClear (store_provider p m r).1
  unfolding store_provider
  store_provider-IsClear p (err e) h =
      set_provider-IsClear m p.id
        (record { cfg = p; channel_id = []; ws = none; last_run_err = some e }) h v
  store_provider-IsClear p (ok (ch, ws)) h =
      set_provider-IsClear m p.id
        (record {
          cfg = record p { channel_id = trim_space ch };
          channel_id = ch;
          ws = some ws;
          last_run_err = none;
        })
        (unfold check_provider_conflicts in h) v

  store_consumer-IsClear :
      (c : ReverseConsumerPersist) (r : Result Text ℕ)
      → check_consumer_conflicts c.id c m ≡ none
      → IsClear (store_consumer c m r).1
  unfolding store_consumer
  store_consumer-IsClear c (err e) h =
      set_consumer-IsClear m c.id (record { cfg = c; listener = none; last_run_err = some e }) h v
  store_consumer-IsClear c (ok ln) h =
      set_consumer-IsClear m c.id (record { cfg = c; listener = some ln; last_run_err = none }) h v

registered-manager : (r : Option Error × ReverseManager) → (registered r).1 ≡ r.1
unfolding registered
registered-manager (some e, m) = refl
registered-manager (none, m) = refl

module _ (m : ReverseManager) (v : IsClear m) where
  launch_provider-IsClear :
      (handshake : Handshake) (p : ReverseProviderPersist) (o : Option Error)
      → check_provider_conflicts p.id p m ≡ o
      → IsClear (launch_provider handshake p m o).1
  unfolding launch_provider
  launch_provider-IsClear handshake p (some e) h = v
  launch_provider-IsClear handshake p none h = elim (Bool-cases (effective_enabled p.enabled)) [
    | inl e ↦ rw e (store_provider-IsClear m v p (handshake_entry handshake p) h)
    | inr e ↦
        let stopped = stop_provider none p.id m in
        rw (e, registered-manager (put_provider_inactive p stopped))
          (put_provider_inactive-IsClear stopped (stop_provider-IsClear m v none p.id) p)
  ]

  launch_consumer-IsClear :
      (net_listen : Text → Result Text ℕ) (c : ReverseConsumerPersist) (o : Option Error)
      → check_consumer_conflicts c.id c m ≡ o
      → IsClear (launch_consumer net_listen c m o).1
  unfolding launch_consumer
  launch_consumer-IsClear net_listen c (some e) h = v
  launch_consumer-IsClear net_listen c none h = elim (Bool-cases (effective_enabled c.enabled)) [
    | inl e ↦ rw e (store_consumer-IsClear m v c (net_listen c.listen) h)
    | inr e ↦ rw e (
        put_consumer_inactive-IsClear (stop_consumer none c.id m)
          (stop_consumer-IsClear m v none c.id) c)
  ]

module _ (m : ReverseManager) (v : IsClear m) (run_err : Option Text) where
  start_provider_valid-IsClear :
      (handshake : Handshake) (p : ReverseProviderPersist) (o : Option Error)
      → IsClear (start_provider_valid handshake run_err p m o).1
  unfolding start_provider_valid
  start_provider_valid-IsClear handshake p (some e) = v
  start_provider_valid-IsClear handshake p none =
      let m' = wait_provider_ended run_err p.id m in
      launch_provider-IsClear m' (wait_provider_ended-IsClear m v run_err p.id) handshake p
        (check_provider_conflicts p.id p m') refl

  pub start_provider-IsClear :
      (handshake : Handshake) (new_id : Text) (p : ReverseProviderPersist)
      → IsClear (start_provider handshake new_id run_err p m).1
  unfolding start_provider
  start_provider-IsClear handshake new_id p0 =
      let p = provider_entry new_id p0 in
      start_provider_valid-IsClear handshake p (validate_provider p)

  start_consumer_valid-IsClear :
      (net_listen : Text → Result Text ℕ) (c : ReverseConsumerPersist) (o : Option Error)
      → IsClear (start_consumer_valid net_listen run_err c m o).1
  unfolding start_consumer_valid
  start_consumer_valid-IsClear net_listen c (some e) = v
  start_consumer_valid-IsClear net_listen c none =
      let m' = wait_consumer_ended run_err c.id m in
      launch_consumer-IsClear m' (wait_consumer_ended-IsClear m v run_err c.id) net_listen c
        (check_consumer_conflicts c.id c m') refl

  pub start_consumer-IsClear :
      (net_listen : Text → Result Text ℕ) (c : ReverseConsumerPersist)
      → IsClear (start_consumer net_listen run_err c m).1
  unfolding start_consumer
  start_consumer-IsClear net_listen c0 =
      let c = normalize_consumer c0 in
      start_consumer_valid-IsClear net_listen c (validate_consumer c)
