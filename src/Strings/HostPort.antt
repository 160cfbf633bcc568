-- ===== src/Strings/HostPort.antt =====
-- net.SplitHostPort: the host and the port of an address, `none` for an error.
use pspxy.Base.{
  ℕ, suc, ◌-◌, ◌||◌, Bool, [], ◌∷◌, Option, none, some, if◌then◌else◌, eqb, take, drop, Text, any,
}

shift : Option ℕ → Option ℕ
shift none = none
shift (some i) = some (suc i)

-- strings.IndexByte
unfoldable pub index_of : ℕ → Text → Option ℕ
unfolding shift
index_of c [] = none
index_of c (x ∷ s) = let rest = index_of c s in if eqb x c then some 0 else shift rest

-- strings.LastIndexByte
unfoldable pub last_index_of : ℕ → Text → Option ℕ
last_index_of c [] = none
last_index_of c (x ∷ s) = later (last_index_of c s)
  where
    later : Option ℕ → Option ℕ
    later none = if eqb x c then some 0 else none
    later (some i) = some (suc i)

abbrev has : ℕ → Text → Bool
has c s = any (λ x. eqb x c) s

-- A bracketed host, whose `]` stands at `end`; the last colon stands at `i`.
bracketed : Text → ℕ → Option ℕ → Option (Text × Text)
bracketed s i none = none
bracketed s i (some end) =
    if eqb (suc end) i
    then (if has b'[' (drop 1 s) || has b']' (drop (suc end) s)
        then none
        else some (take (end - 1) (drop 1 s), drop (suc i) s))
    else none

plain : Text → ℕ → Option (Text × Text)
plain s i =
    if has b':' (take i s) || has b'[' s || has b']' s
    then none
    else some (take i s, drop (suc i) s)

at_colon : Text → Option ℕ → Option (Text × Text)
unfolding bracketed plain
at_colon s none = none
at_colon [] (some i) = none
at_colon (c ∷ s) (some i) =
    if eqb c b'[' then bracketed (c ∷ s) i (index_of b']' (c ∷ s)) else plain (c ∷ s) i

unfoldable pub split_host_port : Text → Option (Text × Text)
unfolding at_colon
split_host_port s = at_colon s (last_index_of b':' s)
