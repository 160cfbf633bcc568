-- ===== src/Proxy/Bridge/Relay.antt =====
-- What a tunnel carries, whatever the order of its loops' turns.
use pspxy.Base.{
  ◌≡◌, refl, sym, subst, ap, ◌∙◌, ℕ, Bool, true, false, List, [], ◌∷◌, ◌++◌, take, drop,
  take-append-drop, append_assoc, append-nil, Option, none, some, if◌then◌else◌, Text, arith,
}
use pspxy.Proxy.Bridge.{
  MsgType, text_message, binary_message, other_message, Pump, Turn, read_failed, all_written,
  write_failed, pump, Bridge, Event, from_client, from_target, finish, client_turn, target_turn,
  step, run, opened,
}

-- The data of a message.
unfoldable pub data_of : Option (MsgType × Text) → Text
data_of none = []
data_of (some (text_message, d)) = d
data_of (some (binary_message, d)) = d
data_of (some (other_message, d)) = []

unfoldable pub chunk_of : Option Text → List Text
chunk_of none = []
chunk_of (some d) = d ∷ []

-- What the client sent, as one text.
unfoldable pub messages : List Event → Text
unfolding data_of
messages [] = []
messages (from_client m w ∷ es) = data_of m ++ messages es
messages (from_target d sent ∷ es) = messages es
messages (finish ∷ es) = messages es

-- What the target sent, chunk by chunk.
unfoldable pub chunks : List Event → List Text
unfolding chunk_of
chunks [] = []
chunks (from_client m w ∷ es) = chunks es
chunks (from_target d sent ∷ es) = chunk_of d ++ chunks es
chunks (finish ∷ es) = chunks es

-- A beginning of the list is written, and all of it while the loop runs.
abbrev pub Carries : {A : Type 0} → Pump A → List A → Type 0
Carries {A} p xs = (rest : List A) × (p.out ++ rest ≡ xs) × (p.is_done ≡ false → rest ≡ [])

module _ {A : Type 0} where
  -- What a turn is about.
  payload : Turn A → List A
  payload read_failed = []
  payload (all_written xs) = xs
  payload (write_failed xs n) = xs

  done-Carries :
      (p : Pump A) (xs ys : List A)
      → Carries p xs
      → Carries (record p { is_done = true }) (xs ++ ys)
  done-Carries p xs ys (r, e, w) =
      (r ++ ys, sym (append_assoc p.out r ys) ∙ ap (λ zs. zs ++ ys) e, λ f. absurd (ground arith))

  all_of : (out xs r : List A) → out ++ r ≡ xs → r ≡ [] → out ≡ xs
  all_of out xs r e n = sym (append-nil out) ∙ ap (λ zs. out ++ zs) (sym n) ∙ e

  turned :
      (t : Turn A) (d : Bool) (out xs : List A)
      → Carries (record { is_done = d; out = out }) xs
      → Carries (pump t (record { is_done = d; out = out })) (xs ++ payload t)
  unfolding pump payload
  turned t true out xs c = done-Carries (record { is_done = true; out = out }) xs (payload t) c
  turned read_failed false out xs c = done-Carries (record { is_done = false; out = out }) xs [] c
  turned (all_written zs) false out xs (r, e, w) =
      ([], append-nil (out ++ zs) ∙ ap (λ ys. ys ++ zs) (all_of out xs r e (w refl)), λ f. refl)
  turned (write_failed zs n) false out xs (r, e, w) = (
    drop n zs,
    append_assoc out (take n zs) (drop n zs)
        ∙ ap (λ ys. out ++ ys) (take-append-drop n zs)
        ∙ ap (λ ys. ys ++ zs) (all_of out xs r e (w refl)),
    λ f. absurd (ground arith),
  )

  pump-Carries :
      (t : Turn A) (p : Pump A) (xs : List A) → Carries p xs → Carries (pump t p) (xs ++ payload t)
  pump-Carries t p xs c = turned t p.is_done p.out xs c

  -- The connection is closed, whatever there was to read.
  failed :
      (d : Bool) (out xs ys : List A)
      → Carries (record { is_done = d; out = out }) xs
      → Carries (pump read_failed (record { is_done = d; out = out })) (xs ++ ys)
  unfolding pump
  failed true out xs ys c = done-Carries (record { is_done = true; out = out }) xs ys c
  failed false out xs ys c = done-Carries (record { is_done = false; out = out }) xs ys c

  turn-Carries :
      (is_closed : Bool) (t : Turn A) (p : Pump A) (xs ys : List A)
      → payload t ≡ ys
      → Carries p xs
      → Carries (pump (if is_closed then read_failed else t) p) (xs ++ ys)
  turn-Carries false t p xs ys e c =
      subst (λ zs. Carries (pump t p) (xs ++ zs)) e (pump-Carries t p xs c)
  turn-Carries true t p xs ys e c = failed p.is_done p.out xs ys c

payload-client_turn :
    (m : Option (MsgType × Text)) (w : Option ℕ) → payload (client_turn m w) ≡ data_of m
unfolding payload client_turn data_of
payload-client_turn none w = refl
payload-client_turn (some (other_message, d)) w = refl
payload-client_turn (some (text_message, d)) none = refl
payload-client_turn (some (text_message, d)) (some n) = refl
payload-client_turn (some (binary_message, d)) none = refl
payload-client_turn (some (binary_message, d)) (some n) = refl

payload-target_turn : (d : Option Text) (sent : Bool) → payload (target_turn d sent) ≡ chunk_of d
unfolding payload target_turn chunk_of
payload-target_turn none sent = refl
payload-target_turn (some d) true = refl
payload-target_turn (some d) false = refl

run-Carries :
    (es : List Event) (b : Bridge) (xs : Text) (ys : List Text)
    → Carries b.to_target xs
    → Carries b.to_client ys
    → let b' = run es b in
      Carries b'.to_target (xs ++ messages es) × Carries b'.to_client (ys ++ chunks es)
unfolding run step messages chunks
run-Carries [] b xs ys c d = (
  subst (Carries b.to_target) (sym (append-nil xs)) c,
  subst (Carries b.to_client) (sym (append-nil ys)) d,
)
run-Carries (from_client m w ∷ es) b xs ys c d =
    let now =
      turn-Carries b.is_closed (client_turn m w) b.to_target xs (data_of m)
        (payload-client_turn m w) c in
    rw (← append_assoc xs (data_of m) (messages es))
      (run-Carries es (step (from_client m w) b) (xs ++ data_of m) ys now d)
run-Carries (from_target t sent ∷ es) b xs ys c d =
    let now =
      turn-Carries b.is_closed (target_turn t sent) b.to_client ys (chunk_of t)
        (payload-target_turn t sent) d in
    rw (← append_assoc ys (chunk_of t) (chunks es))
      (run-Carries es (step (from_target t sent) b) xs (ys ++ chunk_of t) c now)
run-Carries (finish ∷ es) b xs ys c d = run-Carries es (step finish b) xs ys c d

-- Whatever the order of the turns, and whatever the reads and writes answer: the target has been
-- written a beginning of the data of the client's text and binary messages, in order, and all of it
-- as long as that loop runs; and the client has been sent the first of the target's chunks, each as
-- one message, and all of them as long as that loop runs.
pub run-opened-Carries :
    (es : List Event)
    → Carries (run es opened).to_target (messages es)
      × Carries (run es opened).to_client (chunks es)
run-opened-Carries es = run-Carries es opened [] [] ([], refl, λ f. refl) ([], refl, λ f. refl)
