-- ===== src/Outbound/Ordered.antt =====
-- The addresses that `validate_outbound_url` of backend/outbound_security.py puts in order.
use opportunity_radar.Prelude.{
  ◌≤◌, not, false, ◌≡◌, refl, true, List, [], ◌∷◌, if_cases, arith, text_eq, text_eq_self, any, All,
  length, Bool, Bool-cases, inl, inr,
}
use opportunity_radar.Outbound.Validate.{Address, is_routable, before, insert_address, ordered}

abbrev pub Routable : List Address → Type 0
Routable addresses = All (λ a. is_routable a ≡ true) addresses

insert-Routable :
    (a : Address) (rest : List Address)
    → is_routable a ≡ true
    → Routable rest
    → Routable (insert_address a rest)
unfolding insert_address
insert-Routable a [] h hs = (h, tt)
insert-Routable a (b ∷ rest) h hs =
    if_cases Routable (text_eq a.shown b.shown) (λ _. hs)
      (λ _.
        if_cases Routable (before a b) (λ _. (h, hs)) (λ _. (hs.0, insert-Routable a rest h hs.1)))

pub ordered-Routable : (l : List Address) → Routable l → Routable (ordered l)
unfolding ordered
ordered-Routable [] h = tt
ordered-Routable (a ∷ rest) h = insert-Routable a (ordered rest) h.0 (ordered-Routable rest h.1)

abbrev pub NonEmpty : List Address → Type 0
NonEmpty l = 1 ≤ length l

insert-NonEmpty : (a : Address) (rest : List Address) → NonEmpty (insert_address a rest)
unfolding insert_address
insert-NonEmpty a [] = omega arith
insert-NonEmpty a (b ∷ rest) =
    if_cases NonEmpty (text_eq a.shown b.shown) (λ _. omega arith)
      (λ _. if_cases NonEmpty (before a b) (λ _. omega arith) (λ _. omega arith))

pub ordered-NonEmpty : (l : List Address) → NonEmpty l → NonEmpty (ordered l)
unfolding ordered
ordered-NonEmpty [] h = h
ordered-NonEmpty (a ∷ rest) h = insert-NonEmpty a (ordered rest)

pub none_refused : (l : List Address) → any (λ a. not (is_routable a)) l ≡ false → Routable l
none_refused [] h = tt
none_refused (a ∷ rest) h = (ground arith, none_refused rest (ground arith))

-- An address of the list has the same text.
unfoldable pub has : List Address → Address → Bool
has addresses a = any (λ b. text_eq a.shown b.shown) addresses

has_self : (a : Address) (rest : List Address) → has (insert_address a rest) a ≡ true
unfolding has insert_address
has_self a [] = rw (text_eq_self a.shown) refl
has_self a (b ∷ rest) =
    if_cases (λ l. has l a ≡ true) (text_eq a.shown b.shown) (λ same. rw same refl)
      (λ _.
        if_cases (λ l. has l a ≡ true) (before a b) (λ _. rw (text_eq_self a.shown) refl)
          (λ _. ground (arith, has_self a rest)))

has-insert :
    (a c : Address) (rest : List Address) → has rest c ≡ true → has (insert_address a rest) c ≡ true
unfolding has insert_address
has-insert a c [] h = cc h
has-insert a c (b ∷ rest) h =
    if_cases (λ l. has l c ≡ true) (text_eq a.shown b.shown) (λ _. h)
      (λ _.
        if_cases (λ l. has l c ≡ true) (before a b) (λ _. ground (arith, h))
          (λ _. elim (Bool-cases (text_eq c.shown b.shown)) [
            | inl e ↦ rw e refl
            | inr e ↦ rw e (has-insert a c rest (rw e at h))
          ]))

insert-HasAll :
    (a : Address) (l rest : List Address)
    → All (λ c. has rest c ≡ true) l
    → All (λ c. has (insert_address a rest) c ≡ true) l
insert-HasAll a [] rest h = tt
insert-HasAll a (c ∷ l) rest h = (has-insert a c rest h.0, insert-HasAll a l rest h.1)

-- No address is lost.
pub ordered-HasAll : (l : List Address) → All (λ a. has (ordered l) a ≡ true) l
unfolding ordered
ordered-HasAll [] = tt
ordered-HasAll (a ∷ rest) =
    (has_self a (ordered rest), insert-HasAll a rest (ordered rest) (ordered-HasAll rest))
