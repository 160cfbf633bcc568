-- ===== src/ReverseTunnel/Frame.antt =====
-- internal/reversetunnel/frame.go: a binary message is the 16 bytes of a session's UUID and the
-- payload. Bytes are numbers.
use pspxy.Base.{
  ℕ, ◌≡◌, subst, append-nil, ◌<◌, ◌++◌, Option, none, some, if◌then◌else◌, ltb, length, take, drop,
  arith, Text, length-append, length-take_le, take-append_length, drop-append_length,
  take-append-drop, Bool-cases, inl, inr, ◌⊎◌, [],
}

abbrev pub session_id_size : ℕ
session_id_size = 16

-- `copy` fills the first 16 bytes of `out` from `sid[:]`, and the rest from the payload.
unfoldable pub prepend_session_id : Text → Text → Text
prepend_session_id sid payload = take session_id_size sid ++ payload

-- The session and the body, if `ok`.
unfoldable pub parse_prefixed_message : Text → Option (Text × Text)
parse_prefixed_message d =
    if ltb (length d) session_id_size
    then none
    else some (take session_id_size d, drop session_id_size d)

module _ (sid payload : Text) (whole : length sid ≡ session_id_size) where
  take_sid : take session_id_size (sid ++ payload) ≡ sid
  take_sid = subst (λ k. take k (sid ++ payload) ≡ sid) whole (take-append_length sid payload)

  drop_sid : drop session_id_size (sid ++ payload) ≡ payload
  drop_sid = subst (λ k. drop k (sid ++ payload) ≡ payload) whole (drop-append_length sid payload)

pub take_all : (sid : Text) → length sid ≡ session_id_size → take session_id_size sid ≡ sid
take_all sid h =
    subst (λ (s : Text). take session_id_size s ≡ sid) (append-nil sid) (take_sid sid [] h)

-- What is framed for a session comes back as that session and the same payload.
pub parse-prepend :
    (sid payload : Text)
    → length sid ≡ session_id_size
    → parse_prefixed_message (prepend_session_id sid payload) ≡ some (sid, payload)
unfolding parse_prefixed_message prepend_session_id
parse-prepend sid payload h =
    rw (take_all sid h)
      (ground (arith, take_sid sid payload h, drop_sid sid payload h, length-append sid payload))

-- A message parses exactly when it has at least 16 bytes; framing the parts again gives it back.
pub prepend-parse :
    (d : Text)
    → ((length d < session_id_size) × (parse_prefixed_message d ≡ none))
      ⊎ ((sid : Text) × (body : Text) × (parse_prefixed_message d ≡ some (sid, body))
          × (length sid ≡ session_id_size)
          × (prepend_session_id sid body ≡ d))
unfolding parse_prefixed_message prepend_session_id
prepend-parse d = elim (Bool-cases (ltb (length d) session_id_size)) [
  | inl e ↦ inl (ground arith, rw e)
  | inr e ↦ inr (
    take 16 d,
    drop 16 d,
    rw e,
    length-take_le 16 d (ground arith),
    rw (take_all (take 16 d) (length-take_le 16 d (ground arith))) (take-append-drop 16 d),
  )
]
