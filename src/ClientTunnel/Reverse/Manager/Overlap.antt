-- ===== src/ClientTunnel/Reverse/Manager/Overlap.antt =====
-- Two starts of providers that overlap: each is checked before the other one is stored.
use pspxy.Base.{
  ◌≡◌, ◌≢◌, refl, sym, ap, ◌∙◌, ℕ, true, put, [], Option, none, some, Text, arith, eq_iff, get,
  get-put, get-put_self, Result, ok, err,
}
use pspxy.Strings.{trim_space}
use pspxy.ClientTunnel.Reverse.{ReverseProviderPersist, Error, effective_enabled}
use pspxy.ClientTunnel.Reverse.Manager.{ProviderInst, ReverseManager, Handshake, set_provider}
use pspxy.ClientTunnel.Reverse.Manager.Start.{
  store_provider, handshake_entry, launch_provider, begin_provider,
}
use pspxy.ClientTunnel.Reverse.Manager.Clash.{IsSameHost}

-- The entry that the end of a start stores: under its id, with its target.
abbrev Stores : ReverseProviderPersist → ReverseManager → ReverseManager → Type 0
Stores p m m' =
    (it : ProviderInst) × (m' ≡ set_provider p.id it m)
    × (it.cfg.local_port ≡ p.local_port)
    × (it.cfg.local_host ≡ p.local_host)

stores :
    (p : ReverseProviderPersist) (m : ReverseManager) (r : Result Text (Text × ℕ))
    → Stores p m (store_provider p m r).1
unfolding store_provider
stores p m (err e) =
    (record { cfg = p; channel_id = []; ws = none; last_run_err = some e }, refl, refl, refl)
stores p m (ok (ch, ws)) = (
  record {
    cfg = record p { channel_id = trim_space ch };
    channel_id = ch;
    ws = some ws;
    last_run_err = none;
  },
  refl,
  refl,
  refl,
)

launch-Stores :
    (handshake : Handshake) (p : ReverseProviderPersist) (m : ReverseManager)
    → effective_enabled p.enabled ≡ true
    → Stores p m (launch_provider handshake p m none).1
unfolding launch_provider
launch-Stores handshake p m e = rw e (stores p m (handshake_entry handshake p))

two_stored :
    (m : ReverseManager) (i j : Text) (a b : ProviderInst)
    → i ≢ j
    → let d = (set_provider j b (set_provider i a m)).providers in
      (get d i ≡ some a) × (get d j ≡ some b)
two_stored m i j a b n =
    let d = put m.providers i a in
    let n' : j ≢ i = λ e. n (sym e) in
    (
      ground (arith, get-put d j i b, eq_iff j i, n', get-put_self m.providers i a),
      get-put_self d j b,
    )

-- The checks of both first, and then the handshakes and the stores.
unfoldable pub overlapped :
    Handshake
    → Handshake
    → ReverseProviderPersist
    → ReverseProviderPersist
    → ReverseManager
    → Option Error × Option Error × ReverseManager
overlapped hp hq p q m =
    let (ep, m1) = begin_provider none p m in
    let (eq, m2) = begin_provider none q m1 in
    let m3 = (launch_provider hp p m2 none).1 in (ep, eq, (launch_provider hq q m3 none).1)

-- Two enabled entries with different ids and the same target are started at the same time: if the
-- checks of both come before either is stored, and both pass, then afterwards both ids are
-- registered, whatever the handshakes answer, with the same port of the same host as their targets.
pub overlapped-clash :
    (hp hq : Handshake) (p q : ReverseProviderPersist) (m : ReverseManager)
    → effective_enabled p.enabled ≡ true
    → effective_enabled q.enabled ≡ true
    → p.id ≢ q.id
    → p.local_port ≡ q.local_port
    → IsSameHost p.local_host q.local_host
    → (overlapped hp hq p q m).0 ≡ none
    → (overlapped hp hq p q m).1 ≡ none
    → let m' = (overlapped hp hq p q m).2 in
      (a : ProviderInst) × (b : ProviderInst) × (get m'.providers p.id ≡ some a)
      × (get m'.providers q.id ≡ some b)
      × (a.cfg.local_port ≡ b.cfg.local_port)
      × IsSameHost a.cfg.local_host b.cfg.local_host
unfolding overlapped
overlapped-clash hp hq p q m on on' n port host cp cq =
    let m2 = (begin_provider none q (begin_provider none p m).1).1 in
    let m3 = (launch_provider hp p m2 none).1 in
    let (a, sa, pa, ha) = launch-Stores hp p m2 on in
    let (b, sb, pb, hb) = launch-Stores hq q m3 on' in
    let in_turn = sb ∙ ap (set_provider q.id b) sa in
    let (at_p, at_q) = two_stored m2 p.id q.id a b n in
    (a, b, rw in_turn at_p, rw in_turn at_q, pa ∙ port ∙ sym pb, rw (ha, hb) host)
