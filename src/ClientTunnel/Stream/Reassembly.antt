-- ===== src/ClientTunnel/Stream/Reassembly.antt =====
-- The reads of the stream give the bytes of the messages, in order.
use pspxy.Base.{
  ℕ, zero, suc, ◌+◌, ◌≤◌, ◌≡◌, ◌≢◌, refl, ap, sym, ◌∙◌, append_assoc, true, false, List, [], ◌∷◌,
  ◌++◌, Option, none, some, Text, arith, leb, length, take, drop, Bool-cases, inl, inr,
}
use pspxy.ClientTunnel.Stream.{
  ByteReader, WsConnWrapper, byte_read, read_next, took, read_from, read,
}

-- The bytes that are still to be read.
unfoldable pub joined : List Text → Text
joined [] = []
joined (m ∷ ms) = m ++ joined ms

abbrev left : Option ByteReader → Text
left none = []
left (some r) = drop r.pos r.data_bytes

unfoldable pub pending : WsConnWrapper → Text
unfolding joined
pending w = left w.reader ++ joined w.incoming

take-drop_taken : (n : ℕ) (s : Text) → take n s ++ drop (length (take n s)) s ≡ s
take-drop_taken zero s = refl
take-drop_taken (suc n) [] = refl
take-drop_taken (suc n) (c ∷ s) = ap (◌∷◌ c) (take-drop_taken n s)

drop-nil : (n : ℕ) → ◌≡◌ {A = Text} (drop n []) []
drop-nil zero = refl
drop-nil (suc n) = refl

drop-add : (p k : ℕ) (s : Text) → drop (p + k) s ≡ drop k (drop p s)
drop-add zero k s = ap (λ n. drop n s) (omega arith)
drop-add (suc p) k [] = drop-nil (suc p + k) ∙ sym (drop-nil k)
drop-add (suc p) k (c ∷ s) =
    let e : suc p + k ≡ suc (p + k) = omega arith in ap (λ n. drop n (c ∷ s)) e ∙ drop-add p k s

drop_past : (p : ℕ) (s : Text) → leb (length s) p ≡ true → drop p s ≡ []
drop_past zero [] h = refl
drop_past zero (c ∷ s) h = ground arith
drop_past (suc p) [] h = refl
drop_past (suc p) (c ∷ s) h = drop_past p s (ground arith)

length-take-le : (n : ℕ) (s : Text) → length (take n s) ≤ n
length-take-le zero s = omega arith
length-take-le (suc n) [] = omega arith
length-take-le (suc n) (c ∷ s) = omega (arith, length-take-le n s)

taken_filled :
    (size p : ℕ) (s : Text) → leb (length s) p ≡ false → 1 ≤ size → take size (drop p s) ≢ []
taken_filled zero p s h l e = absurd (omega (arith, l))
taken_filled (suc n) zero [] h l e = ground arith
taken_filled (suc n) zero (c ∷ s) h l e = cc
taken_filled (suc n) (suc p) [] h l e = ground arith
taken_filled (suc n) (suc p) (c ∷ s) h l e = taken_filled (suc n) p s (ground arith) l e

-- What a read does to the bytes that were pending.
abbrev pub Reads : ℕ → Text → Option Text × WsConnWrapper → Type 0
Reads size before (some b, w) = (b ++ pending w ≡ before) × (length b ≤ size) × (1 ≤ size → b ≢ [])
Reads size before (none, w) = (before ≡ []) × (pending w ≡ [])

-- What `byteReader.Read` does.
abbrev ByteReads : ℕ → ByteReader → Option Text × ByteReader → Type 0
ByteReads size r (some b, r') =
    (b ++ drop r'.pos r'.data_bytes ≡ drop r.pos r.data_bytes)
    × (length b ≤ size)
    × (1 ≤ size → b ≢ [])
ByteReads size r (none, r') = drop r.pos r.data_bytes ≡ []

byte_read-ByteReads : (size : ℕ) (r : ByteReader) → ByteReads size r (byte_read size r)
unfolding byte_read
byte_read-ByteReads size r = elim (Bool-cases (leb (length r.data_bytes) r.pos)) [
  | inl e ↦ rw e (drop_past r.pos r.data_bytes e)
  | inr e ↦ rw e (
    rw (drop-add r.pos (length (take size (drop r.pos r.data_bytes))) r.data_bytes)
        (take-drop_taken size (drop r.pos r.data_bytes)),
    length-take-le size (drop r.pos r.data_bytes),
    taken_filled size r.pos r.data_bytes e,
  )
]

kept : (b d s t : Text) → b ++ d ≡ s → b ++ (d ++ t) ≡ s ++ t
kept b d s t e = rw (← append_assoc b d t) (ap (λ (x : Text). x ++ t) e)

took-Reads :
    (size : ℕ) (ms : List Text) (r : ByteReader) (rest : Option Text × WsConnWrapper)
    (t : Option Text × ByteReader)
    → ByteReads size r t
    → Reads size (joined ms) rest
    → Reads size (left (some r) ++ joined ms) (took ms rest t)
unfolding took pending
took-Reads size ms r rest (none, r') e h = rw e h
took-Reads size ms r rest (some b, r') e h =
    (kept b (drop r'.pos r'.data_bytes) (drop r.pos r.data_bytes) (joined ms) e.0, e.1, e.2)

read_next-Reads : (size : ℕ) (ms : List Text) → Reads size (joined ms) (read_next size ms)
unfolding read_next joined
read_next-Reads size [] = (refl, unfold pending in refl)
read_next-Reads size (m ∷ ms) =
    let r : ByteReader = record { data_bytes = m; pos = 0 } in
    took-Reads size ms r (read_next size ms) (byte_read size r) (byte_read-ByteReads size r)
      (read_next-Reads size ms)

read_from-Reads :
    (size : ℕ) (ms : List Text) (o : Option ByteReader)
    → Reads size (left o ++ joined ms) (read_from size ms o)
unfolding read_from
read_from-Reads size ms none = read_next-Reads size ms
read_from-Reads size ms (some r) =
    took-Reads size ms r (read_next size ms) (byte_read size r) (byte_read-ByteReads size r)
      (read_next-Reads size ms)

-- A read gives the first of the bytes that were pending and leaves the others pending in order, at
-- most as many as the buffer holds, and at least one if it holds any; it gives the error of
-- `ReadMessage` only when no byte was pending.
pub read-Reads : (size : ℕ) (w : WsConnWrapper) → Reads size (pending w) (read size w)
unfolding read pending
read-Reads size w = read_from-Reads size w.incoming w.reader
