-- ===== src/Dhcp/First.antt =====
-- Which address the server of routersim/dhcp.py finds for a client without a lease.
use router_sim.Base.{
  ℕ, zero, suc, ◌+◌, ◌-◌, ◌≤◌, ◌<◌, ◌≡◌, ◌⊎◌, subst, true, false, ltb, Option, none, some, get,
  has-get, nat_eq, arith, inl, inr, Bool-cases,
}
use router_sim.Net.{Network, size, last, first_host, host_count}
use router_sim.Dhcp.{Server, is_free, find_free, find_address}

-- The least free one of `n` addresses from `a` on, or nothing if none of them is free.
abbrev LeastFrom : ℕ → ℕ → Server → Option ℕ → Type 0
LeastFrom n a s none = (b : ℕ) → a ≤ b → b < a + n → is_free s b ≡ false
LeastFrom n a s (some c) =
    (a ≤ c) × (c < a + n) × (is_free s c ≡ true) × ((b : ℕ) → a ≤ b → b < c → is_free s b ≡ false)

at_or_after : (x y : ℕ) → x ≤ y → (x ≡ y) ⊎ (x + 1 ≤ y)
at_or_after x y low = omega arith

extend :
    (n a : ℕ) (s : Server) (o : Option ℕ)
    → is_free s a ≡ false
    → LeastFrom n (a + 1) s o
    → LeastFrom (suc n) a s o
extend n a s none taken rest = λ b low high. elim (at_or_after a b low) [
  | inl same ↦ subst (λ x. is_free s x ≡ false) same taken
  | inr above ↦ rest b above (omega arith)
]
extend n a s (some c) taken (low, high, free, before) = (
  omega arith,
  omega arith,
  free,
  λ b above under. elim (at_or_after a b above) [
    | inl same ↦ subst (λ x. is_free s x ≡ false) same taken
    | inr more ↦ before b more under
  ],
)

find_free-LeastFrom : (n a : ℕ) (s : Server) → LeastFrom n a s (find_free n a s)
unfolding find_free
find_free-LeastFrom zero a s = λ b low high. absurd (omega arith)
find_free-LeastFrom (suc n) a s = elim (Bool-cases (is_free s a)) [
  | inl free ↦
      rw (find_free, free) (omega arith, omega arith, free, λ b low high. absurd (omega arith))
  | inr taken ↦
      rw (find_free, taken)
        (extend n a s (find_free n (a + 1) s) taken (find_free-LeastFrom n (a + 1) s))
]

-- A host's address in a network: neither the first address nor the broadcast address.
abbrev pub IsHost : Network → ℕ → Type 0
IsHost n a = (n.network_address < a) × (a < last n)

-- An address in the server's range that is no key of its holds, and is not among the addresses that were
-- ever leased.
abbrev pub IsOffered : Server → ℕ → Type 0
IsOffered s a =
    (s.subnet.range_from ≤ a)
    × (a ≤ s.subnet.range_to)
    × (get s.held a ≡ none)
    × (get s.leased a ≡ none)

is_free-IsOffered : (s : Server) (a : ℕ) → is_free s a ≡ true → IsOffered s a
unfolding is_free
is_free-IsOffered s a free = ground (arith, free, has-get s.held a, has-get s.leased a)

IsOffered-is_free : (s : Server) (a : ℕ) → is_free s a ≡ false → ¬ IsOffered s a
unfolding is_free
IsOffered-is_free s a taken (low, high, unheld, unleased) =
    ground (arith, taken, low, high, unheld, unleased, has-get s.held a, has-get s.leased a)

-- The least of a network's hosts that may be offered, or nothing if none may be.
abbrev pub LeastHost : Server → Option ℕ → Type 0
LeastHost s none = (b : ℕ) → IsHost s.subnet.network b → ¬ IsOffered s b
LeastHost s (some a) =
    IsHost s.subnet.network a
    × IsOffered s a
    × ((b : ℕ) → IsHost s.subnet.network b → b < a → ¬ IsOffered s b)

host_of :
    (s : Server) (o : Option ℕ)
    → LeastFrom (size s.subnet.network - 2) (s.subnet.network.network_address + 1) s o
    → LeastHost s o
host_of s none least = λ b (low, high). IsOffered-is_free s b (least b (omega arith) (omega arith))
host_of s (some a) (low, high, free, before) = (
  (omega arith, omega arith),
  is_free-IsOffered s a free,
  λ b (above, inside) less. IsOffered-is_free s b (before b (omega arith) less),
)

-- For a client without a lease, on a subnet with a prefix length of at most 30, the server finds the
-- least host address that is in the range, that it has no hold under and that it never leased, and finds
-- nothing only if the subnet has no such host. The holds and the leased addresses are those of its
-- dictionaries, stale ones included.
pub find_address-LeastHost :
    (client : ℕ) (s : Server)
    → get s.leases client ≡ none
    → s.subnet.network.prefixlen ≤ 30
    → LeastHost s (find_address client s)
unfolding find_address first_host host_count
find_address-LeastHost client s new short =
    let net = s.subnet.network in
    let plain : ltb 30 net.prefixlen ≡ false = ground arith in
    rw (find_address, new, plain)
      (host_of s (find_free (size net - 2) (net.network_address + 1) s)
        (find_free-LeastFrom (size net - 2) (net.network_address + 1) s))
