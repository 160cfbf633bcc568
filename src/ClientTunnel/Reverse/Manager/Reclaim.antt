-- ===== src/ClientTunnel/Reverse/Manager/Reclaim.antt =====
-- The channel of a provider survives its restarts.
use pspxy.Base.{
  ◌≡◌, ap, ◌∙◌, subst, ℕ, true, false, not, Option, none, some, if◌then◌else◌, Text, arith, get,
  get-put_self, Result, ok, err,
}
use pspxy.Strings.{trim_space, is_empty}
use pspxy.Strings.Trim.{trim_space_idem}
use pspxy.ClientTunnel.Reverse.{
  ReverseProviderPersist, Error, effective_enabled, normalize_provider, validate_provider,
}
use pspxy.ClientTunnel.Reverse.Manager.{
  ProviderInst, ReverseManager, Handshake, check_provider_conflicts, wait_provider_ended,
  put_provider_inactive, stop_provider,
}
use pspxy.ClientTunnel.Reverse.Manager.Start.{
  handshake_entry, store_provider, registered, launch_provider, start_provider_valid,
  provider_entry, start_provider, merge_preserve_provider_tunnel_id, preserved,
}

-- The map holds an entry whose configuration remembers the channel.
abbrev Remembers : Text → Text → ReverseManager → Type 0
Remembers id ch m =
    (it : ProviderInst) × (get m.providers id ≡ some it) × (it.cfg.channel_id ≡ trim_space ch)

store_provider-Remembers :
    (p : ReverseProviderPersist) (m : ReverseManager) (r : Result Text (Text × ℕ)) (ch : Text)
    → (store_provider p m r).0 ≡ ok ch
    → Remembers p.id ch (store_provider p m r).1
unfolding store_provider
store_provider-Remembers p m (err e) ch h = cc
store_provider-Remembers p m (ok (c, ws)) ch h =
    let it : ProviderInst = record {
      cfg = record p { channel_id = trim_space c };
      channel_id = c;
      ws = some ws;
      last_run_err = none;
    } in
    let same : c ≡ ch = cc in (it, get-put_self m.providers p.id it, ap trim_space same)

launch_provider-Remembers :
    (handshake : Handshake) (p : ReverseProviderPersist) (m : ReverseManager) (o : Option Error)
    (ch : Text)
    → effective_enabled p.enabled ≡ true
    → (launch_provider handshake p m o).0 ≡ ok ch
    → Remembers p.id ch (launch_provider handshake p m o).1
unfolding launch_provider
launch_provider-Remembers handshake p m (some e) ch on h = cc
launch_provider-Remembers handshake p m none ch on h =
    let stored = store_provider-Remembers p m (handshake_entry handshake p) ch in
    rw on (
      stored (
        subst
          (λ b.
            (if not b
              then registered (put_provider_inactive p (stop_provider none p.id m))
              else store_provider p m (handshake_entry handshake p)).0
            ≡ ok ch)
          on h))

start_provider_valid-Remembers :
    (handshake : Handshake) (e : Option Text) (p : ReverseProviderPersist) (m : ReverseManager)
    (o : Option Error) (ch : Text)
    → effective_enabled p.enabled ≡ true
    → (start_provider_valid handshake e p m o).0 ≡ ok ch
    → Remembers p.id ch (start_provider_valid handshake e p m o).1
unfolding start_provider_valid
start_provider_valid-Remembers handshake e p m (some x) ch on h = cc
start_provider_valid-Remembers handshake e p m none ch on h =
    let m' = wait_provider_ended e p.id m in
    launch_provider-Remembers handshake p m' (check_provider_conflicts p.id p m') ch on h

preserved-channel :
    (p : ReverseProviderPersist) (it : ProviderInst) (ch : Text)
    → it.cfg.channel_id ≡ trim_space ch
    → is_empty (trim_space ch) ≡ false
    → (preserved p (some it)).channel_id ≡ trim_space ch
unfolding preserved
preserved-channel p it ch e full = rw (e, trim_space_idem ch, full)

merge-channel :
    (q : ReverseProviderPersist) (m : ReverseManager) (id ch : Text)
    → trim_space q.id ≡ id
    → is_empty id ≡ false
    → is_empty (trim_space q.channel_id) ≡ true
    → Remembers id ch m
    → is_empty (trim_space ch) ≡ false
    → (merge_preserve_provider_tunnel_id q m).channel_id ≡ trim_space ch
unfolding merge_preserve_provider_tunnel_id normalize_provider
merge-channel q m id ch same named absent (it, at, e) full =
    rw (trim_space_idem q.channel_id, absent, trim_space_idem q.id, same, named, at)
      (preserved-channel (record (normalize_provider q) { id = id }) it ch e full)

handshake_entry-preferred :
    (again : Handshake) (q : ReverseProviderPersist) (ch : Text) (r : Text × ℕ)
    → q.channel_id ≡ trim_space ch
    → is_empty (trim_space ch) ≡ false
    → again q (trim_space ch) ≡ ok r
    → handshake_entry again q ≡ ok r
unfolding handshake_entry
handshake_entry-preferred again q ch r e full h =
    let t : trim_space q.channel_id ≡ trim_space ch = ap trim_space e ∙ trim_space_idem ch in
    simp (t, full, h)

provider_entry-enabled :
    (new_id : Text) (p : ReverseProviderPersist) → (provider_entry new_id p).enabled ≡ p.enabled
unfolding provider_entry normalize_provider
provider_entry-enabled new_id p = ground arith

-- An enabled entry starts and the server confirms a channel whose text is not blank. A later form of
-- the entry, under the same id and without a channel, then gets that channel by
-- MergePreserveProviderTunnelID; and if the server grants it again, the next start's handshake is
-- that grant.
pub start_provider-reclaims :
    (handshake again : Handshake) (new_id : Text) (e : Option Text) (p q : ReverseProviderPersist)
    (m : ReverseManager) (ch : Text)
    → effective_enabled p.enabled ≡ true
    → (start_provider handshake new_id e p m).0 ≡ ok ch
    → is_empty (trim_space ch) ≡ false
    → trim_space q.id ≡ (provider_entry new_id p).id
    → is_empty (provider_entry new_id p).id ≡ false
    → is_empty (trim_space q.channel_id) ≡ true
    → let q' = merge_preserve_provider_tunnel_id q (start_provider handshake new_id e p m).1 in
      (q'.channel_id ≡ trim_space ch)
      × ((r : Text × ℕ) → again q' (trim_space ch) ≡ ok r → handshake_entry again q' ≡ ok r)
unfolding start_provider
start_provider-reclaims handshake again new_id e p q m ch on started full same named absent =
    let entry = provider_entry new_id p in
    let o = validate_provider entry in
    let m' = (start_provider_valid handshake e entry m o).1 in
    let on' = ap effective_enabled (provider_entry-enabled new_id p) ∙ on in
    let kept = start_provider_valid-Remembers handshake e entry m o ch on' started in
    let q' = merge_preserve_provider_tunnel_id q m' in
    let at = merge-channel q m' entry.id ch same named absent kept full in
    (at, λ r h. handshake_entry-preferred again q' ch r at full h)
