-- ===== src/Tests/Config.antt =====
-- internal/config at concrete inputs.
use pspxy.Base.{
  ◌≡◌, ◌≢◌, All, eq_iff, arith, refl, pos, true, false, not, ◌&&◌, List, [], ◌∷◌, ◌++◌, any, all,
  none, some, codes, is_some, ok, ◌==◌, is_space,
}
use pspxy.Strings.{trim_space, split}
use pspxy.Config.{ProxyConfig, Config}
use pspxy.Config.AccessAuth.{AccessAuth, parse_api_key_tokens}
use pspxy.Config.Manager.{Env, Manager, invalid_address, with_defaults, save, reload, add_proxy}
use pspxy.Config.Manager.Save.{resolves_all, save-succeeds_iff, save_atomic, reload-save}
use pspxy.Config.Manager.Edit.{find_proxy, IsDistinctIds}
use pspxy.Config.Manager.Poison.{Edit, adds, updates, removes, outcomes, add_proxy_poisons}
use pspxy.Config.Watcher.{Loop, Step, watch_error, file_event, written, received, loop}
use pspxy.Config.Watcher.HotReload.{stays, is_change, goes_on, is_undisturbed, is_heard, loop-reads}
use pspxy.Tests.Parameters.{encode, yaml, yaml-YamlLaws, all_well, unresolved}

abbrev pub shop : ProxyConfig
shop = record { id = codes "a"; name = codes "shop"; remote_address = codes "h:1"; enabled = true }

abbrev pub lost : ProxyConfig
lost = record { id = codes "b"; name = codes "lost"; remote_address = codes "bad"; enabled = true }

abbrev pub with_proxies : List ProxyConfig → Config
with_proxies ps = record {
  proxies = ps;
  server = record { port = pos 0; static_dir = codes "web"; auth = record { api_key = codes "k" } };
}

abbrev pub holding : Config → Manager
holding c = record { file = none; tmp_file = none; config = c; on_reload = true; spawned = [] }

abbrev keys : AccessAuth
keys = record { api_key = codes " k1, ,k2" }

-- Test
parse_api_key_tokens_test : parse_api_key_tokens keys.api_key ≡ codes "k1" ∷ codes "k2" ∷ []
unfolding parse_api_key_tokens trim_space is_space split
parse_api_key_tokens_test = refl

save-succeeds_iff_example :
    is_some (save yaml unresolved (with_proxies (shop ∷ lost ∷ [])) (holding (with_proxies []))).0
    ≡ not (
        resolves_all unresolved (with_proxies (shop ∷ lost ∷ []))
        && is_some (yaml.marshal (with_proxies (shop ∷ lost ∷ [])))
        && true
        && true)
save-succeeds_iff_example =
    save-succeeds_iff yaml unresolved (with_proxies (shop ∷ lost ∷ [])) (holding (with_proxies []))

refused_lem :
    (save yaml unresolved (with_proxies (lost ∷ [])) (holding (with_proxies []))).0
    ≡ some (invalid_address (codes "lost") (codes "bad"))
unfolding save ◌==◌ yaml
refused_lem = refl

save_atomic_example :
    let m' = (save yaml unresolved (with_proxies (lost ∷ [])) (holding (with_proxies []))).1 in
    (m'.file ≡ none) × (m'.config ≡ with_proxies []) × (m'.spawned ≡ [])
save_atomic_example =
    save_atomic yaml unresolved (with_proxies (lost ∷ [])) (holding (with_proxies []))
      (invalid_address (codes "lost") (codes "bad")) refused_lem

saved_lem : (save yaml all_well (with_proxies (shop ∷ [])) (holding (with_proxies []))).0 ≡ none
unfolding save yaml
saved_lem = refl

reload-save_example :
    let m' = (save yaml all_well (with_proxies (shop ∷ [])) (holding (with_proxies []))).1 in
    ((reload yaml all_well m').0 ≡ ok (with_defaults (with_proxies (shop ∷ []))))
    × ((reload yaml all_well m').1.config ≡ with_defaults (with_proxies (shop ∷ [])))
    × ((reload yaml all_well m').1.file ≡ m'.file)
reload-save_example =
    reload-save yaml all_well all_well (with_proxies (shop ∷ [])) (holding (with_proxies []))
      yaml-YamlLaws saved_lem refl

distinct_lem : IsDistinctIds (shop ∷ lost ∷ [])
unfolding IsDistinctIds find_proxy ◌==◌
distinct_lem = (refl, (refl, tt))

bad_lem : unresolved.resolves (codes "bad") ≡ false
unfolding ◌==◌
bad_lem = refl

-- Another proxy with a good address, and two edits of one that is not there.
abbrev later_edits : List (Env × Edit)
later_edits =
    (unresolved, adds shop)
    ∷ (unresolved, updates (codes "c") shop)
    ∷ (unresolved, removes (codes "c"))
    ∷ []

other_lem : lost.id ≢ codes "c"
other_lem e = ground (arith, (eq_iff (codes "b") (codes "c")).1 e)

add_proxy_poisons_example :
    let m = holding (with_proxies []) in
    (is_some (add_proxy yaml unresolved lost m).0 ≡ true)
    × All (λ o. is_some o ≡ true) (outcomes yaml later_edits (add_proxy yaml unresolved lost m).1)
add_proxy_poisons_example =
    add_proxy_poisons yaml unresolved lost (holding (with_proxies [])) later_edits bad_lem
      (bad_lem, ((other_lem, bad_lem), ((other_lem, bad_lem), tt)))

-- A turn of an editor: the file is written, and then renamed over.
abbrev edits : List Step
edits = received all_well (file_event true false) ∷ received all_well (file_event false true) ∷ []

abbrev waiting : Loop
waiting = record { mgr = holding (with_proxies []); running = true }

parses_lem : yaml.unmarshal (encode (with_proxies (shop ∷ []))) ≡ some (with_proxies (shop ∷ []))
unfolding yaml
parses_lem =
    yaml-YamlLaws.round_trip (with_proxies (shop ∷ [])) (encode (with_proxies (shop ∷ []))) refl

heard_lem : any is_heard edits ≡ true
unfolding any is_heard is_change
heard_lem = refl

undisturbed_lem : all is_undisturbed edits ≡ true
unfolding all is_undisturbed stays
undisturbed_lem = refl

abbrev warned : List Step
warned = received all_well (watch_error (codes "e")) ∷ []

warned_lem : all goes_on warned ≡ true
unfolding all goes_on stays
warned_lem = refl

loop-reads_example :
    let steps = warned ++ written (some (encode (with_proxies (shop ∷ [])))) ∷ edits in
    (loop yaml steps waiting).mgr.config ≡ with_defaults (with_proxies (shop ∷ []))
loop-reads_example =
    loop-reads yaml (encode (with_proxies (shop ∷ []))) (with_proxies (shop ∷ [])) parses_lem warned
      edits waiting refl warned_lem undisturbed_lem heard_lem
