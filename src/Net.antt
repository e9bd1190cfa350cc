-- ===== src/Net.antt =====
-- What the program uses of Python's `ipaddress`: IPv4 addresses as numbers, and networks as the
-- first address with a prefix length. A network from `ip_network` has no host bits set.
use Prim.Native.Nat.{ℕ, ◌+◌, ◌-◌, ◌*◌, ◌^◌, ◌≤◌, ◌%◌}
pub mod Prefix
use router_sim.Base.{
  Bool, if◌then◌else◌, ◌&&◌, ◌||◌, ◌≡◌, ◌↔◌, ltb, leb, arith, Hashable, ◌==◌, nat_eq, true, refl,
}

pub record Network : Type 0 where
  pub network_address : ℕ
  pub prefixlen : ℕ

abbrev pub size : Network → ℕ
size n = 2 ^ (32 - n.prefixlen)

-- `first` is the network address and `last` the broadcast address.
abbrev pub last : Network → ℕ
last n = n.network_address + size n - 1

-- `address in network`
abbrev pub contains : Network → ℕ → Bool
contains n a = leb n.network_address a && leb a (last n)

-- `a.overlaps(b)`
unfoldable pub overlaps : Network → Network → Bool
overlaps a b =
    contains b a.network_address
    || (contains b (last a) || (contains a b.network_address || contains a (last b)))

-- `ip_network(address)` of a bare address
unfoldable pub host : ℕ → Network
host a = record { network_address = a; prefixlen = 32 }

unfoldable pub default_network : Network
default_network = record { network_address = 0; prefixlen = 0 }

abbrev pub net_beq : Network → Network → Bool
net_beq a b = a.network_address == b.network_address && a.prefixlen == b.prefixlen

pub net_beq_iff : (a b : Network) → (net_beq a b ≡ true) ↔ (a ≡ b)
net_beq_iff a b = ground arith

instance abbrev pub net_eq : Hashable Network
net_eq = record { eqv = net_beq; eqv_iff = net_beq_iff }

-- What `ip_network` guarantees: a prefix length of at most 32 and no host bits.
pub record IsNetwork (n : Network) : Type 0 where
  pub short : n.prefixlen ≤ 32
  pub aligned : n.network_address % size n ≡ 0

-- `network.hosts()`: the first address and how many there are
unfoldable pub first_host : Network → ℕ
first_host n = if ltb 30 n.prefixlen then n.network_address else n.network_address + 1

unfoldable pub host_count : Network → ℕ
host_count n = if ltb 30 n.prefixlen then size n else size n - 2
