-- ===== src/ClientConfig/RoundTrip.antt =====
-- Loading gives back what was saved, and a save that fails changes nothing.
use pspxy.Base.{
  ◌≡◌, refl, ap, ◌∙◌, true, List, [], ◌∷◌, map, Option, none, some, Text, ok, arith, is_space,
  Bool-cases, inl, inr,
}
use pspxy.Strings.{trim_space, is_empty}
use pspxy.Strings.Trim.{trim_space_idem, trim_space-nil}
use pspxy.ClientTunnel.Tunnel.{Config, zero_config, normalize_server_url_for_ws}
use pspxy.ClientTunnel.Tunnel.Normalize.{normalize-trimmed_idem}
use pspxy.ClientTunnel.Registry.{ensure_proxy_id}
use pspxy.ClientTunnel.Reverse.{
  ReverseProviderPersist, ReverseConsumerPersist, host_or_default, normalize_consumer, localhost,
}
use pspxy.ClientConfig.{
  Yaml, YamlLaws, Env, Error, Disk, Loaded, trim_reverse_prov, trim_reverse_con, trim_cfg,
  legacy_proxies, with_sides, with_legacy, parsed, load_client_file, saved_cfg, payload, abandon,
  write_temp, write_data, save_client_file, load_reverse_sides_or_empty, save_proxies,
}

localhost-trimmed : trim_space localhost ≡ localhost
unfolding trim_space is_space
localhost-trimmed = refl

host_or_default_idem : (h : Text) → host_or_default (host_or_default h) ≡ host_or_default h
unfolding host_or_default
host_or_default_idem h = elim (Bool-cases (is_empty (trim_space h))) [
  | inl e ↦ rw e (rw localhost-trimmed)
  | inr e ↦ rw e (rw (trim_space_idem h, e) refl)
]

trim_reverse_prov_idem :
    (p : ReverseProviderPersist) → trim_reverse_prov (trim_reverse_prov p) ≡ trim_reverse_prov p
unfolding trim_reverse_prov
trim_reverse_prov_idem p = rw (
  trim_space_idem p.id,
  normalize-trimmed_idem p.server_url,
  host_or_default_idem p.local_host,
  trim_space_idem p.api_key,
  trim_space_idem p.channel_id,
)

trim_reverse_con_idem :
    (c : ReverseConsumerPersist) → trim_reverse_con (trim_reverse_con c) ≡ trim_reverse_con c
unfolding normalize_consumer
trim_reverse_con_idem c = elim (Bool-cases (is_empty (trim_space c.legacy_channel_id))) [
  | inl e ↦ rw (
    e,
    trim_space-nil,
    trim_space_idem c.id,
    trim_space_idem c.listen,
    normalize-trimmed_idem c.server_url,
    trim_space_idem c.api_key,
  )
  | inr e ↦ rw (
    e,
    trim_space-nil,
    trim_space_idem c.legacy_channel_id,
    trim_space_idem c.listen,
    normalize-trimmed_idem c.server_url,
    trim_space_idem c.api_key,
  )
]

unnamed-trimmed : trim_space (ensure_proxy_id []) ≡ ensure_proxy_id []
unfolding ensure_proxy_id trim_space is_space
unnamed-trimmed = refl

trim_cfg-saved_cfg : (c : Config) → trim_cfg (saved_cfg c) ≡ saved_cfg c
unfolding trim_cfg saved_cfg
trim_cfg-saved_cfg c = elim (Bool-cases (is_empty (trim_space (trim_space c.id)))) [
  | inl e ↦ rw (
    e,
    unnamed-trimmed,
    normalize-trimmed_idem c.server_url,
    trim_space_idem c.proxy_id,
    trim_space_idem c.api_key,
  )
  | inr e ↦ rw (
    e,
    trim_space_idem c.id,
    normalize-trimmed_idem c.server_url,
    trim_space_idem c.proxy_id,
    trim_space_idem c.api_key,
  )
]

map-fixed {ℓ} :
    {A : Type ℓ} (f g : A → A)
    → ((a : A) → f (g a) ≡ g a)
    → (xs : List A) → map f (map g xs) ≡ map g xs
map-fixed f g h [] = refl
map-fixed f g h (x ∷ xs) = rw (h x, map-fixed f g h xs)

-- What a load of the file gives after a save of these lists.
abbrev pub normalised : Loaded → Loaded
normalised (ps, (rp, rc)) = (map saved_cfg ps, (map trim_reverse_prov rp, map trim_reverse_con rc))

legacy_proxies-zero : legacy_proxies zero_config ≡ []
unfolding legacy_proxies trim_cfg normalize_server_url_for_ws trim_space
legacy_proxies-zero = refl

with_sides-payload : (l : Loaded) → with_sides (payload l) (map saved_cfg l.0) ≡ normalised l
unfolding with_sides payload
with_sides-payload (ps, (rp, rc)) = rw (
  map-fixed trim_reverse_prov trim_reverse_prov trim_reverse_prov_idem rp,
  map-fixed trim_reverse_con trim_reverse_con trim_reverse_con_idem rc,
)

parsed-payload :
    (y : Yaml) (t : Text) (l : Loaded)
    → YamlLaws y
    → y.marshal (payload l) ≡ some t
    → parsed y t (some (payload l)) ≡ ok (normalised l)
unfolding parsed with_legacy payload
parsed-payload y t ([], s) laws m =
    rw (laws.legacy_zero (payload ([], s)) t m, legacy_proxies-zero)
      (ap ok (with_sides-payload ([], s)))
parsed-payload y t (c ∷ cs, s) laws m =
    rw (map-fixed trim_cfg saved_cfg trim_cfg-saved_cfg (c ∷ cs))
      (ap ok (with_sides-payload (c ∷ cs, s)))

module _ (y : Yaml) (env : Env) (l : Loaded) (d : Disk) where
  write_temp-none :
      (t : Text) → (write_temp env t d).0 ≡ none → (write_temp env t d).1.file ≡ some t
  unfolding write_temp abandon
  write_temp-none t h = ground arith

  write_data-none :
      (o : Option Text)
      → (write_data env d o).0 ≡ none
      → (t : Text) × (o ≡ some t) × ((write_data env d o).1.file ≡ some t)
  unfolding write_data
  write_data-none none h = cc
  write_data-none (some t) h = (t, refl, ground (arith, write_temp-none t))

  -- After a save that succeeds, a load that can read the file returns the lists that were saved, each
  -- entry normalised and a proxy without an id under the default one. This holds for empty lists too,
  -- where the load takes the file for one of the old form.
  pub load-save_client_file :
      (env' : Env)
      → YamlLaws y
      → (save_client_file y env l d).0 ≡ none
      → env'.can_read ≡ true
      → load_client_file y env' (save_client_file y env l d).1 ≡ ok (normalised l)
  unfolding save_client_file load_client_file
  load-save_client_file env' laws h r =
      let (t, m, at) = write_data-none (y.marshal (payload l)) h in
      rw (at, r, laws.round_trip (payload l) t m) (parsed-payload y t l laws m)

  write_temp-some :
      (t : Text) (e : Error)
      → (write_temp env t d).0 ≡ some e
      → ((write_temp env t d).1.file ≡ d.file)
        × (env.can_remove ≡ true → d.tmp_file ≡ none → (write_temp env t d).1.tmp_file ≡ none)
  unfolding write_temp abandon
  write_temp-some t e h = ground arith

  write_data-some :
      (o : Option Text) (e : Error)
      → (write_data env d o).0 ≡ some e
      → ((write_data env d o).1.file ≡ d.file)
        × (env.can_remove ≡ true → d.tmp_file ≡ none → (write_data env d o).1.tmp_file ≡ none)
  unfolding write_data
  write_data-some none e h = (refl, λ r n. n)
  write_data-some (some t) e h = ground (arith, write_temp-some t e)

  -- A save that fails, at whichever step, leaves the file as it was; and it leaves no temporary file
  -- if there was none and `os.Remove` succeeds.
  pub save_client_file_atomic :
      (e : Error)
      → (save_client_file y env l d).0 ≡ some e
      → ((save_client_file y env l d).1.file ≡ d.file)
        × (env.can_remove ≡ true
            → d.tmp_file ≡ none
            → (save_client_file y env l d).1.tmp_file ≡ none)
  unfolding save_client_file
  save_client_file_atomic e h = write_data-some (y.marshal (payload l)) e h

-- After a save of a configuration, a later save of the proxies alone keeps the entries of the reverse
-- tunnels, where the reads and both saves succeed.
pub save_proxies-keeps :
    (y : Yaml) (env env' env'' : Env) (l : Loaded) (ps : List Config) (d : Disk)
    → YamlLaws y
    → (save_client_file y env l d).0 ≡ none
    → env'.can_read ≡ true
    → env''.can_read ≡ true
    → let d' = (save_client_file y env l d).1 in
      (save_proxies y env' ps d').0 ≡ none
      → load_client_file y env'' (save_proxies y env' ps d').1
        ≡ ok (map saved_cfg ps, (normalised l).1)
unfolding save_proxies load_reverse_sides_or_empty
save_proxies-keeps y env env' env'' (ps0, (rp, rc)) ps d laws h r r' h' =
    let d' = (save_client_file y env (ps0, (rp, rc)) d).1 in
    let read = load-save_client_file y env (ps0, (rp, rc)) d env' laws h r in
    let sides : load_reverse_sides_or_empty y env' d' ≡ (normalised (ps0, (rp, rc))).1 =
      unfold load_reverse_sides_or_empty in rw read refl in
    let after =
      load-save_client_file y env' (ps, load_reverse_sides_or_empty y env' d') d' env'' laws h'
        r' in
    after
    ∙ ap (λ s. ok (normalised (ps, s))) sides
    ∙ ap ok (
        rw (
          map-fixed trim_reverse_prov trim_reverse_prov trim_reverse_prov_idem rp,
          map-fixed trim_reverse_con trim_reverse_con trim_reverse_con_idem rc,
        ))
