-- ===== src/Routing/Order/Longest.antt =====
-- The first network in the search order that holds an address is the longest that does.
use mathlib.Core.List.{reverse, reverse-append}
use native.Mathlib.Decide.{dec_le}
use router_sim.Base.{
  ℕ, ◌≤◌, ◌≡◌, refl, ap, true, false, List, [], ◌∷◌, ◌++◌, Option, none, some, In, All, All_at,
  Bool-cases, inl, inr, ◌⊎◌, arith,
}
use router_sim.Base.Sorting.{
  sort_by-IsSortedBy, sort_by-IsLexSorted, IsLexSorted, Precedes, In-sort_by, All-sort_by,
}
use router_sim.Net.{Network, net_eq, contains, host, IsNetwork}
use router_sim.Net.Prefix.{overlaps-host, longer_starts_later}
use router_sim.Routing.Order.{search_order, first_overlap, by_length, by_address}

-- Each network comes before those that start lower, or there are shorter.
abbrev pub IsDescending : List Network → Type 0
IsDescending [] = Unit
IsDescending (x ∷ xs) = All (λ y. Precedes by_address by_length y x) xs × IsDescending xs

module _ (P : Network → Type 0) where
  All-append : (xs ys : List Network) → All P xs → All P ys → All P (xs ++ ys)
  All-append [] ys a b = b
  All-append (x ∷ xs) ys a b = (a.0, All-append xs ys a.1 b)

  All-reverse : (xs : List Network) → All P xs → All P (reverse xs)
  All-reverse [] a = tt
  All-reverse (x ∷ xs) a =
      rw (reverse-append (x ∷ []) xs)
        (All-append (reverse xs) (x ∷ []) (All-reverse xs a.1) (a.0, tt))

pub append-IsDescending :
    (xs : List Network) (x : Network)
    → IsDescending xs
    → All (λ y. Precedes by_address by_length x y) xs
    → IsDescending (xs ++ x ∷ [])
append-IsDescending [] x d a = (tt, tt)
append-IsDescending (y ∷ ys) x d a = (
  All-append (λ z. Precedes by_address by_length z y) ys (x ∷ []) d.0 (a.0, tt),
  append-IsDescending ys x d.1 a.1,
)

reverse-IsDescending :
    (xs : List Network) → IsLexSorted by_address by_length xs → IsDescending (reverse xs)
reverse-IsDescending [] l = tt
reverse-IsDescending (x ∷ xs) l = rw (reverse-append (x ∷ []) xs) (
    append-IsDescending (reverse xs) x (reverse-IsDescending xs l.1)
      (All-reverse (λ y. Precedes by_address by_length x y) xs l.0))

pub search_order-IsDescending : (ps : List Network) → IsDescending (search_order ps)
unfolding search_order
search_order-IsDescending ps =
    reverse-IsDescending _
      (sort_by-IsLexSorted by_address by_length _ (sort_by-IsSortedBy by_length ps))

In-append : (n : Network) (xs ys : List Network) → In n xs ⊎ In n ys → In n (xs ++ ys)
In-append n [] ys (inl i) = elim i [ ]
In-append n [] ys (inr i) = i
In-append n (x ∷ xs) ys (inl (inl e)) = inl e
In-append n (x ∷ xs) ys (inl (inr i)) = inr (In-append n xs ys (inl i))
In-append n (x ∷ xs) ys (inr i) = inr (In-append n xs ys (inr i))

In-reverse : (n : Network) (xs : List Network) → In n xs → In n (reverse xs)
In-reverse n [] i = i
In-reverse n (x ∷ xs) (inl e) =
    rw (reverse-append (x ∷ []) xs) (In-append n (reverse xs) (x ∷ []) (inr (inl e)))
In-reverse n (x ∷ xs) (inr i) =
    rw (reverse-append (x ∷ []) xs) (In-append n (reverse xs) (x ∷ []) (inl (In-reverse n xs i)))

pub In-search_order : (n : Network) (ps : List Network) → In n ps → In n (search_order ps)
unfolding search_order
In-search_order n ps i = In-reverse n _ (In-sort_by by_address n _ (In-sort_by by_length n ps i))

pub All-search_order :
    (P : Network → Type 0) (ps : List Network) → All P ps → All P (search_order ps)
unfolding search_order
All-search_order P ps a =
    All-reverse P _ (All-sort_by by_address P _ (All-sort_by by_length P ps a))

-- What a search for a host's address among networks finds.
abbrev pub Longest : ℕ → List Network → Option Network → Type 0
Longest a ps none = All (λ q. contains q a ≡ false) ps
Longest a ps (some p) =
    In p ps
    × (contains p a ≡ true)
    × ((q : Network) → In q ps → contains q a ≡ true → q.prefixlen ≤ p.prefixlen)

not_longer :
    (a : ℕ) (p q : Network)
    → IsNetwork p
    → IsNetwork q
    → contains p a ≡ true
    → contains q a ≡ true
    → Precedes by_address by_length q p
    → q.prefixlen ≤ p.prefixlen
not_longer a p q wp wq hp hq l = elim (dec_le q.prefixlen p.prefixlen) [
  | yes le ↦ le
  | no longer ↦
      absurd (omega (arith, longer_starts_later p q a wp wq hp hq (omega arith), l.0, l.1))
]

first_longest :
    (a : ℕ) (p : Network) (ps : List Network)
    → All IsNetwork (p ∷ ps)
    → All (λ y. Precedes by_address by_length y p) ps
    → contains p a ≡ true
    → (q : Network) → In q (p ∷ ps)
    → contains q a ≡ true
    → q.prefixlen ≤ p.prefixlen
first_longest a p ps w d hp q (inl e) hq = omega (arith, ap by_length e)
first_longest a p ps w d hp q (inr i) hq =
    not_longer a p q w.0 (All_at IsNetwork ps q w.1 i) hp hq
      (All_at (λ y. Precedes by_address by_length y p) ps q d i)

extend :
    (a : ℕ) (p : Network) (ps : List Network) (r : Option Network)
    → contains p a ≡ false
    → Longest a ps r
    → Longest a (p ∷ ps) r
extend a p ps none miss l = (miss, l)
extend a p ps (some r) miss (i, c, best) = (inr i, c, others)
  where
    others : (q : Network) → In q (p ∷ ps) → contains q a ≡ true → q.prefixlen ≤ r.prefixlen
    others q (inl e) h = absurd (cc (miss, h, e))
    others q (inr j) h = best q j h

-- The first hit in a descending list is the longest prefix.
pub first_overlap-Longest :
    (a : ℕ) (ps : List Network)
    → All IsNetwork ps
    → IsDescending ps
    → Longest a ps (first_overlap (host a) ps)
unfolding first_overlap
first_overlap-Longest a [] w d = tt
first_overlap-Longest a (p ∷ ps) w d = elim (Bool-cases (contains p a)) [
  | inl hit ↦ rw (overlaps-host p a, hit) (inl refl, hit, first_longest a p ps w d.0 hit)
  | inr miss ↦
      rw (overlaps-host p a, miss)
        (extend a p ps (first_overlap (host a) ps) miss (first_overlap-Longest a ps w.1 d.1))
]
