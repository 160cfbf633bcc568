-- ===== src/ReverseTunnel/Session/Waiters/Lemmas.antt =====
-- How each change of the store or of the mailboxes bears on the waiters.
use pspxy.Base.{
  refl, sym, ap, ◌∙◌, Dict, get, ℕ, ◌≡◌, Bool, true, false, ◌&&◌, List, [], ◌∷◌, ◌++◌, Option, none,
  some, if◌then◌else◌, Text, arith, ◌==◌, is_some, put, remove, length, get_elem?, modify,
  IsDistinct, eqb, eq_iff, Bool-cases, inl, inr, ◌⊎◌, ◌<◌, get_elem?-modify, get_elem?-append,
  get_elem?-lt, get-put, get-remove, put-IsDistinct, remove-IsDistinct, map_option,
}
use pspxy.ReverseTunnel.Broker.{Channel, Broker, AttachResult, offer_reply}

abbrev pub waits_in : Option Channel → Text → Option ℕ
waits_in none sid = none
waits_in (some ch) sid = get ch.ack_wait sid

-- The mailbox that a session of a channel waits on.
abbrev pub waits : List Channel → ℕ → Text → Option ℕ
waits objects ref sid = waits_in (get_elem? objects ref) sid

abbrev pub DistinctIn : Option Channel → Type 0
DistinctIn none = Unit
DistinctIn (some ch) = IsDistinct ch.ack_wait

pub record Inv (objects : List Channel) (mailboxes : List (Option AttachResult)) : Type 0 where
  pub empty :
      (ref : ℕ) (sid : Text) (k : ℕ)
      → waits objects ref sid ≡ some k
      → get_elem? mailboxes k ≡ some none
  pub apart :
      (ref ref' : ℕ) (sid sid' : Text) (k : ℕ)
      → waits objects ref sid ≡ some k
      → waits objects ref' sid' ≡ some k
      → (ref ≡ ref') × (sid ≡ sid')
  pub distinct : (ref : ℕ) → DistinctIn (get_elem? objects ref)

abbrev pub InvOf : Broker → Type 0
InvOf b = Inv b.objects b.mailboxes

-- Fewer waiters, on mailboxes that have not changed.
pub Inv-shrink :
    (os os' : List Channel) (ms ms' : List (Option AttachResult))
    → ((ref : ℕ) (sid : Text) (k : ℕ)
        → waits os' ref sid ≡ some k
        → (waits os ref sid ≡ some k) × (get_elem? ms' k ≡ get_elem? ms k))
    → ((ref : ℕ) → DistinctIn (get_elem? os' ref))
    → Inv os ms
    → Inv os' ms'
Inv-shrink os os' ms ms' fewer distinct v = record {
  empty = λ ref sid k e. (fewer ref sid k e).1 ∙ v.empty ref sid k (fewer ref sid k e).0;
  apart = λ ref ref' sid sid' k e e'.
      v.apart ref ref' sid sid' k (fewer ref sid k e).0 (fewer ref' sid' k e').0;
  distinct = distinct;
}

-- A change of one channel that keeps the keys distinct.
pub modify-distinct :
    (os : List Channel) (ref : ℕ) (f : Channel → Channel)
    → ((r : ℕ) → DistinctIn (get_elem? os r))
    → ((ch : Channel) → IsDistinct ch.ack_wait → IsDistinct (f ch).ack_wait)
    → (r : ℕ) → DistinctIn (get_elem? (modify os ref f) r)
modify-distinct os ref f d df r =
    rw (get_elem?-modify os ref r f) (go (eqb ref r) (get_elem? os r) (d r))
  where
    go :
        (b : Bool) (o : Option Channel)
        → DistinctIn o
        → DistinctIn (if b then map_option f o else o)
    go false o h = h
    go true none h = tt
    go true (some c) h = df c h

-- The waiters after a change of the table of one channel.
pub waits-modify :
    (os : List Channel) (ref : ℕ) (f : Channel → Channel) (r : ℕ) (sid : Text)
    → waits (modify os ref f) r sid
      ≡ (if eqb ref r then waits_in (map_option f (get_elem? os r)) sid else waits os r sid)
waits-modify os ref f r sid = ground (arith, get_elem?-modify os ref r f)

abbrev pub drop_waiter : Text → Channel → Channel
drop_waiter sid c = record c { ack_wait = remove c.ack_wait sid }

abbrev pub add_waiter : Text → ℕ → Channel → Channel
add_waiter sid k c = record c { ack_wait = put c.ack_wait sid k }

pub waits-drop :
    (os : List Channel) (ref : ℕ) (sid : Text) (r : ℕ) (s : Text)
    → waits (modify os ref (drop_waiter sid)) r s
      ≡ (if eqb ref r && (sid == s) then none else waits os r s)
waits-drop os ref sid r s = rw (waits-modify os ref (drop_waiter sid) r s) (go (get_elem? os r))
  where
    go :
        (o : Option Channel)
        → (if eqb ref r then waits_in (map_option (drop_waiter sid) o) s else waits_in o s)
          ≡ (if eqb ref r && (sid == s) then none else waits_in o s)
    go none = ground arith
    go (some c) = ground (arith, get-remove c.ack_wait sid s)

-- A waiter is dropped.
pub Inv-drop :
    (os : List Channel) (ms : List (Option AttachResult)) (ref : ℕ) (sid : Text)
    → Inv os ms
    → Inv (modify os ref (drop_waiter sid)) ms
Inv-drop os ms ref sid v =
    Inv-shrink os _ ms ms (λ r s k e. (ground (arith, waits-drop os ref sid r s), refl))
      (modify-distinct os ref (drop_waiter sid) v.distinct
        (λ ch h. remove-IsDistinct ch.ack_wait sid h))
      v

-- A waiter gets its reply, and is dropped.
pub Inv-reply :
    (os : List Channel) (ms : List (Option AttachResult)) (ref : ℕ) (sid : Text) (k : ℕ)
    (r : AttachResult)
    → waits os ref sid ≡ some k
    → Inv os ms
    → Inv (modify os ref (drop_waiter sid)) (modify ms k (offer_reply r))
Inv-reply os ms ref sid k r w v =
    Inv-shrink os _ ms _ fewer
      (modify-distinct os ref (drop_waiter sid) v.distinct
        (λ ch h. remove-IsDistinct ch.ack_wait sid h))
      v
  where
    fewer :
        (r' : ℕ) (s : Text) (j : ℕ)
        → waits (modify os ref (drop_waiter sid)) r' s ≡ some j
        → (waits os r' s ≡ some j) × (get_elem? (modify ms k (offer_reply r)) j ≡ get_elem? ms j)
    fewer r' s j e =
        let kept : waits os r' s ≡ some j = ground (arith, waits-drop os ref sid r' s) in
        (
          kept,
          ground (
            arith,
            get_elem?-modify ms k j (offer_reply r),
            v.apart ref r' sid s k w,
            waits-drop os ref sid r' s,
            eq_iff sid s,
          ),
        )

pub waits-add :
    (os : List Channel) (ref : ℕ) (sid : Text) (n r : ℕ) (s : Text)
    → waits (modify os ref (add_waiter sid n)) r s
      ≡ (if eqb ref r && (sid == s) && is_some (get_elem? os r) then some n else waits os r s)
waits-add os ref sid n r s = rw (waits-modify os ref (add_waiter sid n) r s) (go (get_elem? os r))
  where
    go :
        (o : Option Channel)
        → (if eqb ref r then waits_in (map_option (add_waiter sid n) o) s else waits_in o s)
          ≡ (if eqb ref r && (sid == s) && is_some o then some n else waits_in o s)
    go none = ground arith
    go (some c) = ground (arith, get-put c.ack_wait sid s n)

-- A new waiter on a new mailbox.
module _ (os : List Channel) (ms : List (Option AttachResult)) (ref : ℕ) (sid : Text)
    (v : Inv os ms) where
  abbrev added : List Channel
  added = modify os ref (add_waiter sid (length ms))

  abbrev is_new : ℕ → Text → Bool
  is_new r s = eqb ref r && (sid == s) && is_some (get_elem? os r)

  -- A waiter is the new one, or an old one with a mailbox below the new.
  waiter_cases :
      (r : ℕ) (s : Text) (k : ℕ)
      → waits added r s ≡ some k
      → ((k ≡ length ms) × (ref ≡ r) × (sid ≡ s)) ⊎ ((waits os r s ≡ some k) × (k < length ms))
  waiter_cases r s k e = elim (Bool-cases (is_new r s)) [
    | inl q ↦ inl (ground (arith, waits-add os ref sid (length ms) r s, eq_iff sid s))
    | inr q ↦
        let old : waits os r s ≡ some k = ground (arith, waits-add os ref sid (length ms) r s) in
        inr (old, get_elem?-lt ms k (v.empty r s k old))
  ]

  pub Inv-add : Inv added (ms ++ none ∷ [])
  Inv-add = record {
    empty =
        λ r s k e. ground (arith, waiter_cases r s k e, get_elem?-append ms none k, v.empty r s k);
    apart = λ r r' s s' k e e'.
        ground (arith, waiter_cases r s k e, waiter_cases r' s' k e', v.apart r r' s s' k);
    distinct =
        modify-distinct os ref (add_waiter sid (length ms)) v.distinct
          (λ ch h. put-IsDistinct ch.ack_wait sid (length ms) h);
  }

-- A change that leaves the waiters of a channel alone.
pub Inv-keep :
    (os : List Channel) (ms : List (Option AttachResult)) (ref : ℕ) (f : Channel → Channel)
    → ((c : Channel) → (f c).ack_wait ≡ c.ack_wait)
    → Inv os ms
    → Inv (modify os ref f) ms
Inv-keep os ms ref f same v =
    Inv-shrink os _ ms ms (λ r s k e. (sym (same_waits r s) ∙ e, refl))
      (modify-distinct os ref f v.distinct (λ ch h. rw (same ch) h)) v
  where
    go :
        (o : Option Channel) (r : ℕ) (s : Text)
        → (if eqb ref r then waits_in (map_option f o) s else waits_in o s) ≡ waits_in o s
    go none r s = ground arith
    go (some c) r s = ground (arith, ap (λ (d : Dict ℕ). get d s) (same c))

    same_waits : (r : ℕ) (s : Text) → waits (modify os ref f) r s ≡ waits os r s
    same_waits r s = waits-modify os ref f r s ∙ go (get_elem? os r) r s
