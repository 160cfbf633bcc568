-- ===== src/ClientUi/Restart.antt =====
-- A restart of the client after a request that was saved.
use pspxy.Base.{
  ◌≡◌, ◌≢◌, refl, sym, true, map, values, List, [], ◌∷◌, none, All, sort, All-map, map-All,
  All-sort, sort-All, Pairs, Pairs-sort, Pairs-map, map-Pairs,
}
use pspxy.ClientTunnel.Tunnel.{Config, validate}
use pspxy.ClientTunnel.Registry.{Instance, effective}
use pspxy.ClientConfig.{Yaml, YamlLaws, saved_cfg}
use pspxy.ClientTunnel.Registry.Views.{persisted_configs, less_config}
use pspxy.ClientTunnel.Registry.Restore.{IsRestorable, Runs, bootstrap_from_configs-Runs}
use pspxy.ClientUi.{
  World, Client, Request, is_post, status, MultiStatus, serve, booted, boot,
  try_bootstrap_from_yaml,
}
use pspxy.ClientUi.Persist.{serve-Saved}

-- Every port can be listened on, and the file can be read.
abbrev pub fine : World → World
fine w = record w { tunnel_listens = λ c. none; env = record w.env { can_read = true } }

abbrev IsReady : Config → Type 0
IsReady c = (effective c ≡ c) × (validate c ≡ none)

abbrev AreApart : Config → Config → Type 0
AreApart c d = (c.id ≢ d.id) × (c.local_port ≢ d.local_port)

to_Pairs : (cs : List Config) → IsRestorable cs → All IsReady cs × Pairs AreApart cs
to_Pairs [] r = (tt, tt)
to_Pairs (c ∷ cs) (e, v, a, r) = let (x, y) = to_Pairs cs r in (((e, v), x), (a, y))

of_Pairs : (cs : List Config) → All IsReady cs → Pairs AreApart cs → IsRestorable cs
of_Pairs [] x y = tt
of_Pairs (c ∷ cs) x y = (x.0.0, x.0.1, y.0, of_Pairs cs x.1 y.1)

AreApart-sym : (c d : Config) → AreApart c d → AreApart d c
AreApart-sym c d (i, p) = (λ e. i (sym e), λ e. p (sym e))

-- Whether entries can all run does not depend on their order.
IsRestorable-sort :
    (xs : List Config)
    → IsRestorable (map saved_cfg xs)
    → IsRestorable (map saved_cfg (sort less_config xs))
IsRestorable-sort xs r =
    let (x, y) = to_Pairs (map saved_cfg xs) r in
    of_Pairs (map saved_cfg (sort less_config xs))
      (All-map saved_cfg IsReady (sort less_config xs)
        (All-sort less_config (λ c. IsReady (saved_cfg c)) xs (map-All saved_cfg IsReady xs x)))
      (Pairs-map saved_cfg AreApart (sort less_config xs) (
        Pairs-sort less_config (λ c d. AreApart (saved_cfg c) (saved_cfg d))
          (λ c d. AreApart-sym (saved_cfg c) (saved_cfg d)) xs (map-Pairs saved_cfg AreApart xs y)))

-- The configurations of all entries of the registry, running or not.
abbrev pub held_configs : Client → List Config
held_configs c = map (λ (it : Instance). it.cfg) (values c.reg.items)

-- A request by POST is answered with the state and no warning, and the program is started again on
-- the disk as it then is, where the file can be read and every port can be listened on. If the
-- entries that the registry had, running or not, are, in normal form, valid and have different ids
-- and ports, each of them runs again, with that normal form.
pub serve-boot-Runs :
    (y : Yaml) (laws : YamlLaws y) (w w' : World) (q : Request) (c : Client) (st : MultiStatus)
    → let r = serve y w is_post q c in
      r.0 ≡ status st
      → st.persist_warning ≡ none
      → IsRestorable (map saved_cfg (held_configs r.1))
      → All (Runs (boot y (fine w') r.1.disk).reg) (map saved_cfg (held_configs r.1))
unfolding boot try_bootstrap_from_yaml booted persisted_configs
serve-boot-Runs y laws w w' q c st answered quiet ready =
    let r = serve y w is_post q c in
    let xs = held_configs r.1 in
    let reg = (boot y (fine w') r.1.disk).reg in
    let loaded = (serve-Saved y laws w q c).0 st (fine w').env answered quiet refl in
    let runs : All (Runs reg) (map saved_cfg (sort less_config xs)) = rw loaded (
      bootstrap_from_configs-Runs (map saved_cfg (sort less_config xs))
        (IsRestorable-sort xs ready)) in
    All-map saved_cfg (Runs reg) xs (
      sort-All less_config (λ d. Runs reg (saved_cfg d)) xs
        (map-All saved_cfg (Runs reg) (sort less_config xs) runs))
