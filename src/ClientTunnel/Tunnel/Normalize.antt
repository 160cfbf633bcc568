-- ===== src/ClientTunnel/Tunnel/Normalize.antt =====
-- Normalising a server's address twice is normalising it once.
use pspxy.Base.{
  ◌≡◌, refl, ◌∙◌, false, ◌||◌, [], ◌++◌, Text, codes, drop, is_space, Bool-cases, inl, inr,
}
use pspxy.Strings.{trim_left, trim_right, trim_space, is_empty, to_lower, has_prefix, contains}
use pspxy.Strings.Trim.{trim_space_idem, trim_space-append, trim_right-drop, trim_space-trim_right}
use pspxy.ClientTunnel.Tunnel.{normalize_trimmed, normalize_server_url_for_ws}

-- A text that begins with `ws://` or `wss://`.
trim_space-ws : (r : Text) → trim_right r ≡ r → trim_space (codes "ws://" ++ r) ≡ codes "ws://" ++ r
unfolding is_space
trim_space-ws r h =
    trim_space-append b'w' (codes "s://") r (refl, (refl, (refl, (refl, (refl, tt))))) h

trim_space-wss :
    (r : Text) → trim_right r ≡ r → trim_space (codes "wss://" ++ r) ≡ codes "wss://" ++ r
unfolding is_space
trim_space-wss r h =
    trim_space-append b'w' (codes "ss://") r (refl, (refl, (refl, (refl, (refl, (refl, tt)))))) h

normalize-ws :
    (r : Text)
    → trim_right r ≡ r
    → normalize_server_url_for_ws (codes "ws://" ++ r) ≡ codes "ws://" ++ r
unfolding normalize_server_url_for_ws normalize_trimmed to_lower has_prefix
normalize-ws r h = rw (trim_space-ws r h)

normalize-wss :
    (r : Text)
    → trim_right r ≡ r
    → normalize_server_url_for_ws (codes "wss://" ++ r) ≡ codes "wss://" ++ r
unfolding normalize_server_url_for_ws normalize_trimmed to_lower has_prefix
normalize-wss r h = rw (trim_space-wss r h)

normalize-same :
    (s : Text)
    → trim_space s ≡ s
    → is_empty s ≡ false
    → normalize_trimmed s ≡ s
    → normalize_server_url_for_ws s ≡ s
unfolding normalize_server_url_for_ws
normalize-same s t full h = rw (t, full, h)

normalize-normalize_trimmed :
    (s : Text)
    → trim_space s ≡ s
    → is_empty s ≡ false
    → normalize_server_url_for_ws (normalize_trimmed s) ≡ normalize_trimmed s
unfolding normalize_trimmed
normalize-normalize_trimmed s t full =
    let lower = to_lower s in
    let r = trim_space-trim_right s t in
    let same = normalize-same s t full in
    elim (Bool-cases (has_prefix lower (codes "http://"))) [
      | inl e ↦ rw e (normalize-ws (drop 7 s) (trim_right-drop 7 s r))
      | inr e ↦ rw e (elim (Bool-cases (has_prefix lower (codes "https://"))) [
        | inl f ↦ rw f (normalize-wss (drop 8 s) (trim_right-drop 8 s r))
        | inr f ↦
            rw f
              (elim (Bool-cases
                (has_prefix lower (codes "ws://") || has_prefix lower (codes "wss://"))) [
                  | inl g ↦ rw g (same (unfold normalize_trimmed in rw (e, f, g)))
                  | inr g ↦ rw g (elim (Bool-cases (contains s (codes "://"))) [
                    | inl c ↦ rw c (same (unfold normalize_trimmed in rw (e, f, g, c)))
                    | inr c ↦ rw c (normalize-ws s r)
                  ])
                ])
      ])
    ]

normalize-trim_space :
    (s : Text) → normalize_server_url_for_ws (trim_space s) ≡ normalize_server_url_for_ws s
unfolding normalize_server_url_for_ws
normalize-trim_space s = rw (trim_space_idem s)

-- Normalising twice is normalising once.
pub normalize_server_url_for_ws_idem :
    (raw : Text)
    → normalize_server_url_for_ws (normalize_server_url_for_ws raw)
      ≡ normalize_server_url_for_ws raw
normalize_server_url_for_ws_idem raw = elim (Bool-cases (is_empty (trim_space raw))) [
  | inl e ↦
      let n : normalize_server_url_for_ws raw ≡ [] = unfold normalize_server_url_for_ws in rw e in
      rw n (unfold normalize_server_url_for_ws trim_space trim_left trim_right in refl)
  | inr e ↦
      let n : normalize_server_url_for_ws raw ≡ normalize_trimmed (trim_space raw) =
        unfold normalize_server_url_for_ws in rw e in
      rw n (normalize-normalize_trimmed (trim_space raw) (trim_space_idem raw) e)
]

-- As the program writes it, with the text trimmed first.
pub normalize-trimmed_idem :
    (s : Text)
    → let n = normalize_server_url_for_ws (trim_space s) in
      normalize_server_url_for_ws (trim_space n) ≡ n
normalize-trimmed_idem s =
    normalize-trim_space (normalize_server_url_for_ws (trim_space s))
    ∙ normalize_server_url_for_ws_idem (trim_space s)
