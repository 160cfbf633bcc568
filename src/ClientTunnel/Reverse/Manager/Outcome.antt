-- ===== src/ClientTunnel/Reverse/Manager/Outcome.antt =====
-- What a start of an entry leaves: the entry runs exactly if the start succeeded, and the other
-- entries are as before.
use pspxy.Base.{
  ◌≡◌, ◌≢◌, refl, ◌∙◌, ℕ, Bool, true, false, ◌&&◌, [], Option, none, some, is_some, Text, arith,
  ◌==◌, eq_iff, get, get-put, get-put_self, Result, ok, err, Bool-cases, Option-cases, inl, inr,
}
use pspxy.Strings.{trim_space, is_empty}
use pspxy.Strings.Trim.{trim_space_idem}
use pspxy.ClientTunnel.Reverse.{
  ReverseProviderPersist, Error, effective_enabled, normalize_provider, validate_provider,
}
use pspxy.ClientTunnel.Reverse.Manager.{
  ProviderInst, ReverseManager, Handshake, check_provider_conflicts, end_provider, provider_running,
  put_provider_checked, put_provider_inactive, set_provider, inactive_provider, wait_provider_ended,
  stop_provider,
}
use pspxy.ClientTunnel.Reverse.Manager.Start.{
  handshake_entry, store_provider, registered, launch_provider, start_provider_valid,
  provider_entry, start_provider,
}

abbrev pub running : ReverseManager → Text → Bool
running m id = provider_running (get m.providers id)

abbrev pub is_ok {ℓ κ} : {E : Type ℓ} {A : Type κ} → Result E A → Bool
is_ok (ok a) = true
is_ok (err e) = false

-- The consumers, and the providers under other ids, are as before.
abbrev pub OnlyProvider : Text → ReverseManager → ReverseManager → Type 0
OnlyProvider id m' m =
    (m'.consumers ≡ m.consumers) × ((j : Text) → id ≢ j → get m'.providers j ≡ get m.providers j)

abbrev pub Outcome : Text → Bool → ReverseManager → Result Error Text × ReverseManager → Type 0
Outcome id enabled m r = (running r.1 id ≡ (enabled && is_ok r.0)) × OnlyProvider id r.1 m

set_provider-Only :
    (id : Text) (it : ProviderInst) (m : ReverseManager) → OnlyProvider id (set_provider id it m) m
set_provider-Only id it m = (
  refl,
  λ j n. elim (Bool-cases (id == j)) [
    | inl e ↦ absurd (n ((eq_iff id j).0 e))
    | inr e ↦ ground (arith, get-put m.providers id j it)
  ],
)

set_provider-running :
    (id : Text) (it : ProviderInst) (m : ReverseManager)
    → running (set_provider id it m) id ≡ is_some it.ws
unfolding provider_running
set_provider-running id it m = rw (get-put_self m.providers id it)

Only-trans :
    (id : Text) (m₂ m₁ m : ReverseManager)
    → OnlyProvider id m₂ m₁
    → OnlyProvider id m₁ m
    → OnlyProvider id m₂ m
Only-trans id m₂ m₁ m a b = (a.0 ∙ b.0, λ j n. a.1 j n ∙ b.1 j n)

end_provider-stopped :
    (e : Option Text) (it : ProviderInst) → is_some (end_provider e it).ws ≡ false
unfolding end_provider
end_provider-stopped e it = ground arith

wait-Outcome :
    (e : Option Text) (id : Text) (m : ReverseManager)
    → (running (wait_provider_ended e id m) id ≡ false)
      × OnlyProvider id (wait_provider_ended e id m) m
unfolding wait_provider_ended
wait-Outcome e id m = elim (Option-cases (get m.providers id)) [
  | inl q ↦ rw q (unfold provider_running in rw q, (refl, λ j n. refl))
  | inr (it, q) ↦ rw q (
    set_provider-running id (end_provider e it) m ∙ end_provider-stopped e it,
    set_provider-Only id (end_provider e it) m,
  )
]

stop-Outcome :
    (e : Option Text) (id : Text) (m : ReverseManager)
    → trim_space id ≡ id
    → running m id ≡ false
    → (running (stop_provider e id m) id ≡ false) × OnlyProvider id (stop_provider e id m) m
unfolding stop_provider
stop-Outcome e id m t r = rw t (elim (Bool-cases (is_empty id)) [
  | inl q ↦ rw q (r, (refl, λ j n. refl))
  | inr q ↦ rw q (wait-Outcome e id m)
])

checked-Outcome :
    (p : ReverseProviderPersist) (m : ReverseManager) (o : Option Error)
    → running m p.id ≡ false
    → Outcome p.id false m (registered (put_provider_checked p m o))
unfolding put_provider_checked registered
checked-Outcome p m (some e) r = (r, (refl, λ j n. refl))
checked-Outcome p m none r = (
  set_provider-running p.id (inactive_provider p) m,
  set_provider-Only p.id (inactive_provider p) m,
)

inactive-Outcome :
    (p : ReverseProviderPersist) (m : ReverseManager)
    → running m p.id ≡ false
    → Outcome p.id false m (registered (put_provider_inactive p m))
unfolding put_provider_inactive
inactive-Outcome p m r = rw r (checked-Outcome p m (check_provider_conflicts p.id p m) r)

store-Outcome :
    (p : ReverseProviderPersist) (m : ReverseManager) (r : Result Text (Text × ℕ))
    → Outcome p.id true m (store_provider p m r)
unfolding store_provider
store-Outcome p m (err e) =
    let it : ProviderInst = record { cfg = p; channel_id = []; ws = none; last_run_err = some e } in
    (set_provider-running p.id it m, set_provider-Only p.id it m)
store-Outcome p m (ok (ch, ws)) =
    let it : ProviderInst = record {
      cfg = record p { channel_id = trim_space ch };
      channel_id = ch;
      ws = some ws;
      last_run_err = none;
    } in
    (set_provider-running p.id it m, set_provider-Only p.id it m)

launch-Outcome :
    (handshake : Handshake) (p : ReverseProviderPersist) (m : ReverseManager) (o : Option Error)
    → trim_space p.id ≡ p.id
    → running m p.id ≡ false
    → Outcome p.id (effective_enabled p.enabled) m (launch_provider handshake p m o)
unfolding launch_provider
launch-Outcome handshake p m (some e) t r = (ground (arith, r), (refl, λ j n. refl))
launch-Outcome handshake p m none t r = elim (Bool-cases (effective_enabled p.enabled)) [
  | inl q ↦ rw q (store-Outcome p m (handshake_entry handshake p))
  | inr q ↦
      let stopped = stop_provider none p.id m in
      let s = stop-Outcome none p.id m t r in
      let put = inactive-Outcome p stopped s.0 in
      let r' = registered (put_provider_inactive p stopped) in
      rw q (put.0, Only-trans p.id r'.1 stopped m put.1 s.1)
]

provider_entry-trimmed :
    (new_id : Text) (p : ReverseProviderPersist)
    → trim_space new_id ≡ new_id
    → trim_space (provider_entry new_id p).id ≡ (provider_entry new_id p).id
unfolding provider_entry normalize_provider
provider_entry-trimmed new_id p t = elim (Bool-cases (is_empty (trim_space (trim_space p.id)))) [
  | inl q ↦ rw q t
  | inr q ↦ rw q (trim_space_idem p.id)
]

-- A start of an entry that passes the validation, under its own id or under a new one without spaces
-- at its ends: afterwards the entry runs exactly if it is enabled and the call succeeded, and the
-- other providers and all consumers are as before. This holds whatever ran under that id, on every
-- path: a conflict, a disabled entry, a failed handshake, and a channel that is reclaimed or new.
pub start_provider-Outcome :
    (handshake : Handshake) (new_id : Text) (e : Option Text) (p : ReverseProviderPersist)
    (m : ReverseManager)
    → trim_space new_id ≡ new_id
    → validate_provider (provider_entry new_id p) ≡ none
    → let q = provider_entry new_id p in
      Outcome q.id (effective_enabled q.enabled) m (start_provider handshake new_id e p m)
unfolding start_provider start_provider_valid
start_provider-Outcome handshake new_id e p m t h =
    let q = provider_entry new_id p in
    let m' = wait_provider_ended e q.id m in
    let w = wait-Outcome e q.id m in
    let o = check_provider_conflicts q.id q m' in
    let l = launch-Outcome handshake q m' o (provider_entry-trimmed new_id p t) w.0 in
    rw h (l.0, Only-trans q.id (launch_provider handshake q m' o).1 m' m l.1 w.1)
