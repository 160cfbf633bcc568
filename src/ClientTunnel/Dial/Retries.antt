-- ===== src/ClientTunnel/Dial/Retries.antt =====
-- The attempts of a dial: how many, how long, and which one decides.
use pspxy.Base.{
  ◌≡◌, refl, subst, ap, ◌∙◌, ℕ, zero, suc, ◌+◌, ◌≤◌, ◌<◌, ℤ, Option, some, Text, arith, [], Result,
  ok, err, Option-cases, inl, inr,
}
use pspxy.ClientTunnel.Tunnel.{normalize_server_url_for_ws}
use pspxy.ClientTunnel.Dial.{
  Url, DialError, gave_up, handshake_refused, Attempt, connected, bad_handshake, failed, wait_after,
  last_error, decided, dial_loop, dial_web_socket_path, signed_url, attempts,
}

-- The seconds that `n` failed attempts wait, the first of them with the number `i`.
pub wait_total : ℕ → ℕ → ℕ
unfolding wait_after
wait_total zero i = 0
wait_total (suc n) i = wait_after i + wait_total n (suc i)

-- An attempt that ends the loop, with its result.
abbrev pub Decides : Attempt → Result DialError ℕ → Type 0
Decides (connected c) r = r ≡ ok c
Decides (bad_handshake s) r = r ≡ err (handshake_refused s)
Decides (failed e) r = ⊥

abbrev pub Fails : Attempt → Type 0
Fails (failed e) = Unit
Fails _ = ⊥

the_same : (a b : ℕ) → a ≡ b → a ≡ b
the_same a b e = e

module _ (dial : ℕ → Attempt) where
  decided-bound :
      (a : Attempt) (waited total : ℕ) (rest : Result DialError ℕ × ℕ)
      → rest.1 ≤ waited + total
      → (decided a waited rest).1 ≤ waited + total
  unfolding decided
  decided-bound (connected c) waited total rest h = omega arith
  decided-bound (bad_handshake s) waited total rest h = omega arith
  decided-bound (failed e) waited total rest h = h

  dial_loop-bound :
      (n i : ℕ) (last : Text) (waited : ℕ)
      → (dial_loop dial n i last waited).1 ≤ waited + wait_total n i
  unfolding dial_loop wait_total
  dial_loop-bound zero i last waited = omega arith
  dial_loop-bound (suc n) i last waited =
      let last' = last_error last (dial i) in
      let rest = dial_loop dial n (suc i) last' (waited + wait_after i) in
      let h = dial_loop-bound n (suc i) last' (waited + wait_after i) in
      decided-bound (dial i) waited (wait_after i + wait_total n (suc i)) rest (omega (arith, h))

  decided-Decides :
      (a : Attempt) (r : Result DialError ℕ) (waited : ℕ) (rest : Result DialError ℕ × ℕ)
      → Decides a r
      → decided a waited rest ≡ (r, waited)
  unfolding decided
  decided-Decides (connected c) r waited rest d = rw d refl
  decided-Decides (bad_handshake s) r waited rest d = rw d refl
  decided-Decides (failed e) r waited rest d = elim d [ ]

  decided-Fails :
      (a : Attempt) (waited : ℕ) (rest : Result DialError ℕ × ℕ)
      → Fails a
      → decided a waited rest ≡ rest
  unfolding decided
  decided-Fails (connected c) waited rest f = elim f [ ]
  decided-Fails (bad_handshake s) waited rest f = elim f [ ]
  decided-Fails (failed e) waited rest f = refl

  -- After `k` failures the next attempt decides.
  pub dial_loop-Decides :
      (k n i : ℕ) (last : Text) (waited : ℕ) (r : Result DialError ℕ)
      → k < n
      → ((j : ℕ) → j < k → Fails (dial (i + j)))
      → Decides (dial (i + k)) r
      → dial_loop dial n i last waited ≡ (r, waited + wait_total k i)
  unfolding dial_loop wait_total
  dial_loop-Decides k zero i last waited r h fs d = absurd (omega arith)
  dial_loop-Decides zero (suc n) i last waited r h fs d =
      let here : Decides (dial i) r =
        subst (λ x. Decides (dial x) r) (the_same (i + 0) i (omega arith)) d in
      let rest = dial_loop dial n (suc i) (last_error last (dial i)) (waited + wait_after i) in
      decided-Decides (dial i) r waited rest here ∙ ap (λ w. (r, w)) (omega arith)
  dial_loop-Decides (suc k) (suc n) i last waited r h fs d =
      let last' = last_error last (dial i) in
      let rest = dial_loop dial n (suc i) last' (waited + wait_after i) in
      let here : Fails (dial i) =
        subst (λ x. Fails (dial x)) (the_same (i + 0) i (omega arith)) (fs 0 (omega arith)) in
      let later : ((j : ℕ) → j < k → Fails (dial (suc i + j))) = λ j lt.
        subst (λ x. Fails (dial x)) (the_same (i + suc j) (suc i + j) (omega arith))
          (fs (suc j) (omega arith)) in
      let at : Decides (dial (suc i + k)) r =
        subst (λ x. Decides (dial x) r) (the_same (i + suc k) (suc i + k) (omega arith)) d in
      decided-Fails (dial i) waited rest here
      ∙ dial_loop-Decides k n (suc i) last' (waited + wait_after i) r (omega arith) later at
      ∙ ap (λ w. (r, w)) (omega arith)

  -- All `n` attempts fail.
  pub dial_loop-gives_up :
      (n i : ℕ) (last : Text) (waited : ℕ)
      → ((j : ℕ) → j < n → Fails (dial (i + j)))
      → (e : Text) × (dial_loop dial n i last waited ≡ (err (gave_up e), waited + wait_total n i))
  unfolding dial_loop wait_total
  dial_loop-gives_up zero i last waited fs = (last, ap (λ w. (err (gave_up last), w)) (omega arith))
  dial_loop-gives_up (suc n) i last waited fs =
      let last' = last_error last (dial i) in
      let rest = dial_loop dial n (suc i) last' (waited + wait_after i) in
      let here : Fails (dial i) =
        subst (λ x. Fails (dial x)) (the_same (i + 0) i (omega arith)) (fs 0 (omega arith)) in
      let later : ((j : ℕ) → j < n → Fails (dial (suc i + j))) = λ j lt.
        subst (λ x. Fails (dial x)) (the_same (i + suc j) (suc i + j) (omega arith))
          (fs (suc j) (omega arith)) in
      let (e, h) = dial_loop-gives_up n (suc i) last' (waited + wait_after i) later in
      (
        e,
        decided-Fails (dial i) waited rest here ∙ h ∙ ap (λ w. (err (gave_up e), w)) (omega arith),
      )

wait_total-attempts : wait_total attempts 0 ≡ 303
unfolding wait_total wait_after
wait_total-attempts = refl

module _ (sha1_hex : Text → Text) (parse_url : Text → Option Url) (dial : Url → ℕ → Attempt)
    (now : ℤ) (server_url path api_key : Text) where
  -- A dial ends, whatever the answers, after at most 303 seconds of waiting.
  pub dial_web_socket_path-bound :
      (dial_web_socket_path sha1_hex parse_url dial now server_url path api_key).1 ≤ 303
  unfolding dial_web_socket_path
  dial_web_socket_path-bound =
      elim (Option-cases (parse_url (normalize_server_url_for_ws server_url))) [
        | inl e ↦ rw e (omega arith)
        | inr (u, e) ↦
            let answers = dial (signed_url sha1_hex now path api_key u) in
            let h = dial_loop-bound answers attempts 0 [] 0 in
            rw e (omega (arith, h, wait_total-attempts))
      ]

  -- Where the address parses, the first of the ten attempts that does not merely fail decides: a
  -- connection is returned, and a refused handshake ends the dial with an error at once. Before the
  -- attempt with the number `k` the dial waits after each of the `k` failures. If all ten attempts
  -- fail the dial gives up after 303 seconds.
  pub dial_web_socket_path-Decides :
      (u : Url)
      → parse_url (normalize_server_url_for_ws server_url) ≡ some u
      → let answers = dial (signed_url sha1_hex now path api_key u) in
        let result = dial_web_socket_path sha1_hex parse_url dial now server_url path api_key in
        ((k : ℕ) (r : Result DialError ℕ)
          → k < 10
          → ((j : ℕ) → j < k → Fails (answers j))
          → Decides (answers k) r
          → result ≡ (r, wait_total k 0))
        × (((j : ℕ) → j < 10 → Fails (answers j)) → (e : Text) × (result ≡ (err (gave_up e), 303)))
  unfolding dial_web_socket_path wait_total
  dial_web_socket_path-Decides u e =
      let answers = dial (signed_url sha1_hex now path api_key u) in
      let shift : ((j : ℕ) → Fails (answers j) → Fails (answers (0 + j))) =
        λ j. subst (λ x. Fails (answers x)) (the_same j (0 + j) (omega arith)) in
      rw e (
        λ k r h fs d.
            dial_loop-Decides answers k attempts 0 [] 0 r h (λ j lt. shift j (fs j lt))
              (subst (λ x. Decides (answers x) r) (the_same k (0 + k) (omega arith)) d)
            ∙ ap (λ w. (r, w)) (omega arith),
        λ fs.
            rw (← wait_total-attempts)
              (dial_loop-gives_up answers attempts 0 [] 0 (λ j lt. shift j (fs j lt))),
      )
