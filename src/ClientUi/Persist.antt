-- ===== src/ClientUi/Persist.antt =====
-- What a request leaves in the file.
use pspxy.Base.{
  ◌≡◌, refl, sym, ap, ◌∙◌, Bool, true, false, Option, none, some, Text, Result, ok, err, Bool-cases,
  inl, inr, List, map, values, sort, map-sort_Perm, subst,
}
use mathlib.Core.List.{Perm, map-map}
use pspxy.Strings.{trim_space, is_empty}
use pspxy.ClientConfig.{
  Loaded, saved_cfg, trim_reverse_prov, trim_reverse_con, Yaml, YamlLaws, Env, Error as FileError,
  Disk, load_client_file, save_client_file,
}
use pspxy.ClientConfig.RoundTrip.{normalised, load-save_client_file, save_client_file_atomic}
use pspxy.ClientTunnel.Tunnel.{Error as TunnelError}
use pspxy.ClientTunnel.Registry.{Registry, Instance}
use pspxy.ClientTunnel.Registry.Views.{less_config, persisted_configs}
use pspxy.ClientTunnel.Reverse.Manager.Views.{
  less_provider, less_consumer, persisted_providers, persisted_consumers,
}
use pspxy.ClientTunnel.Reverse.{Error as ReverseError}
use pspxy.ClientTunnel.Reverse.Manager.{ReverseManager, ProviderInst, ConsumerInst}
use pspxy.ClientUi.{
  World, Client, is_post, Request, starts_tunnel, stops_tunnel, removes_tunnel, asks_status,
  starts_provider, stops_provider, removes_provider, starts_consumer, stops_consumer,
  removes_consumer, stops_all_reverse, empty_body, invalid_body, stop_body, UiError, Reply, status,
  bad_request, MultiStatus, merged_tunnel_status, persisted, attach_persist_result, Change,
  tunnel_done, provider_done, consumer_done, stop_tunnel, with_id, change, respond, serve,
}

-- What a load of the file gives after a request, by its answer.
abbrev pub Saved : Yaml → Client → Reply × Client → Type 0
Saved y c r =
    ((st : MultiStatus) (env : Env)
      → r.0 ≡ status st
      → st.persist_warning ≡ none
      → env.can_read ≡ true
      → load_client_file y env r.1.disk ≡ ok (normalised (persisted r.1)))
    × ((st : MultiStatus) (e : FileError)
        → r.0 ≡ status st
        → st.persist_warning ≡ some e
        → r.1.disk.file ≡ c.disk.file)
    × ((e : UiError) → r.0 ≡ bad_request e → r.1.disk ≡ c.disk)

abbrev SameDisk : Client → Change → Type 0
SameDisk c ch = ch.1.disk ≡ c.disk

tunnel_done-disk : (c : Client) (r : Option TunnelError × Registry) → SameDisk c (tunnel_done c r)
unfolding tunnel_done
tunnel_done-disk c (some e, r) = refl
tunnel_done-disk c (none, r) = refl

provider_done-disk :
    (c : Client) (r : Result ReverseError Text × ReverseManager) → SameDisk c (provider_done c r)
unfolding provider_done
provider_done-disk c (err e, m) = refl
provider_done-disk c (ok ch, m) = refl

consumer_done-disk :
    (c : Client) (r : Option ReverseError × ReverseManager) → SameDisk c (consumer_done c r)
unfolding consumer_done
consumer_done-disk c (some e, m) = refl
consumer_done-disk c (none, m) = refl

with_id-disk :
    (o : Option Text) (f : Text → ReverseManager) (c : Client) → SameDisk c (with_id o f c)
unfolding with_id
with_id-disk none f c = refl
with_id-disk (some id) f c = elim (Bool-cases (is_empty (trim_space id))) [
  | inl e ↦ rw e refl
  | inr e ↦ rw e refl
]

stop-disk :
    (w : World) (id : Text) (all : Bool) (c : Client)
    → SameDisk c (change w (stops_tunnel (stop_body id all)) c)
unfolding change stop_tunnel
stop-disk w id true c = refl
stop-disk w id false c = elim (Bool-cases (is_empty (trim_space id))) [
  | inl e ↦ rw e refl
  | inr e ↦ rw e refl
]

remove-disk :
    (w : World) (id : Text) (c : Client) → SameDisk c (change w (removes_tunnel (some id)) c)
unfolding change
remove-disk w id c = elim (Bool-cases (is_empty (trim_space id))) [
  | inl e ↦ rw e refl
  | inr e ↦ rw e (tunnel_done-disk c _)
]

-- The file is written by the save alone.
change-disk : (w : World) (q : Request) (c : Client) → SameDisk c (change w q c)
unfolding change stop_tunnel
change-disk w (starts_tunnel none) c = refl
change-disk w (starts_tunnel (some cfg)) c = tunnel_done-disk c _
change-disk w (stops_tunnel empty_body) c = refl
change-disk w (stops_tunnel invalid_body) c = refl
change-disk w (stops_tunnel (stop_body id all)) c = stop-disk w id all c
change-disk w (removes_tunnel none) c = refl
change-disk w (removes_tunnel (some id)) c = remove-disk w id c
change-disk w asks_status c = refl
change-disk w (starts_provider none) c = refl
change-disk w (starts_provider (some cfg)) c = provider_done-disk c _
change-disk w (stops_provider o) c = with_id-disk o _ c
change-disk w (removes_provider o) c = with_id-disk o _ c
change-disk w (starts_consumer none) c = refl
change-disk w (starts_consumer (some cfg)) c = consumer_done-disk c _
change-disk w (stops_consumer o) c = with_id-disk o _ c
change-disk w (removes_consumer o) c = with_id-disk o _ c
change-disk w stops_all_reverse c = refl

module _ (y : Yaml) (laws : YamlLaws y) (w : World) where
  warning-shown :
      (issued : Text) (o : Option FileError) (c : Client) (st : MultiStatus)
      → ◌≡◌ {A = Reply} (status (merged_tunnel_status issued o c)) (status st)
      → st.persist_warning ≡ o
  unfolding merged_tunnel_status
  warning-shown issued o c st e = cc

  respond-Saved : (c : Client) (ch : Change) → SameDisk c ch → Saved y c (respond y w ch)
  unfolding respond
  respond-Saved c (err e, c') same = (λ st env h. cc, λ st x h. cc, λ x h. same)
  respond-Saved c (ok issued, c') same =
      unfold attach_persist_result in
      let l = persisted c' in
      let o = (save_client_file y w.env (persisted c') c'.disk).0 in
      (
        λ st env h n r.
            load-save_client_file y w.env (persisted c') c'.disk env laws
              (sym (warning-shown issued o c' st h) ∙ n) r,
        λ st x h n.
            (save_client_file_atomic y w.env (persisted c') c'.disk x
              (sym (warning-shown issued o c' st h) ∙ n)).0
            ∙ ap (λ (d : Disk). d.file) same,
        λ x h. cc,
      )

  filed : (q : Request) (c : Client) → Saved y c (respond y w (change w q c))
  filed q c = respond-Saved c (change w q c) (change-disk w q c)

  pub serve-Saved : (q : Request) (c : Client) → Saved y c (serve y w is_post q c)
  unfolding serve
  serve-Saved asks_status c = (λ st env h. cc, λ st x h. cc, λ x h. cc)
  serve-Saved (starts_tunnel o) c = filed (starts_tunnel o) c
  serve-Saved (stops_tunnel o) c = filed (stops_tunnel o) c
  serve-Saved (removes_tunnel o) c = filed (removes_tunnel o) c
  serve-Saved (starts_provider o) c = filed (starts_provider o) c
  serve-Saved (stops_provider o) c = filed (stops_provider o) c
  serve-Saved (removes_provider o) c = filed (removes_provider o) c
  serve-Saved (starts_consumer o) c = filed (starts_consumer o) c
  serve-Saved (stops_consumer o) c = filed (stops_consumer o) c
  serve-Saved (removes_consumer o) c = filed (removes_consumer o) c
  serve-Saved stops_all_reverse c = filed stops_all_reverse c

-- What each manager has under its ids, as often as it occurs, as the file gives it back.
abbrev pub IsStateOf : Client → Loaded → Type 0
IsStateOf c (ps, (rp, rc)) =
    Perm ps (map (λ (it : Instance). saved_cfg it.cfg) (values c.reg.items))
    × Perm rp (map (λ (it : ProviderInst). trim_reverse_prov it.cfg) (values c.rev.providers))
    × Perm rc (map (λ (it : ConsumerInst). trim_reverse_con it.cfg) (values c.rev.consumers))

sorted_map {ℓ} :
    {V A B : Type ℓ} (less : A → A → Bool) (f : A → B) (g : V → A) (vs : List V)
    → Perm (map f (sort less (map g vs))) (map (λ v. f (g v)) vs)
sorted_map less f g vs =
    subst (Perm (map f (sort less (map g vs)))) (map-map f g vs) (map-sort_Perm f less (map g vs))

persisted-IsStateOf : (c : Client) → IsStateOf c (normalised (persisted c))
unfolding persisted_configs persisted_providers persisted_consumers
persisted-IsStateOf c = (
  sorted_map less_config saved_cfg (λ (it : Instance). it.cfg) (values c.reg.items),
  sorted_map less_provider trim_reverse_prov (λ (it : ProviderInst). it.cfg)
      (values c.rev.providers),
  sorted_map less_consumer trim_reverse_con (λ (it : ConsumerInst). it.cfg)
      (values c.rev.consumers),
)

-- What the file holds after a request, by its answer.
abbrev pub Filed : Yaml → Client → Reply × Client → Type 0
Filed y c r =
    ((st : MultiStatus) (env : Env)
      → r.0 ≡ status st
      → st.persist_warning ≡ none
      → env.can_read ≡ true
      → (l : Loaded) × (load_client_file y env r.1.disk ≡ ok l) × IsStateOf r.1 l)
    × ((st : MultiStatus) (e : FileError)
        → r.0 ≡ status st
        → st.persist_warning ≡ some e
        → r.1.disk.file ≡ c.disk.file)
    × ((e : UiError) → r.0 ≡ bad_request e → r.1.disk ≡ c.disk)

-- A request by POST: where it is answered with the state and no warning, a later load of the file
-- gives the configuration of every entry that the registry and the reverse manager then have,
-- running or not, and nothing else, each normalised; where the answer warns, the file is as before;
-- and an error leaves the disk alone.
pub serve-Filed :
    (y : Yaml) (laws : YamlLaws y) (w : World) (q : Request) (c : Client)
    → Filed y c (serve y w is_post q c)
serve-Filed y laws w q c =
    let r = serve y w is_post q c in
    let (saved, warned, refused) = serve-Saved y laws w q c in
    (
      λ st env h n e. (normalised (persisted r.1), saved st env h n e, persisted-IsStateOf r.1),
      warned,
      refused,
    )
