-- ===== src/Net/Prefix.antt =====
-- Which addresses a network holds, and how two networks that share an address are nested.
use native.Mathlib.Nat.{
  one-le-pow, mod-mod_of_dvd, mod-le, dvd-mul_left, pow-succ', zero-add, suc-add, mod-add-mod,
  mod-eq_of_lt,
}
use router_sim.Base.{
  ℕ, zero, suc, ◌+◌, ◌-◌, ◌*◌, ◌%◌, ◌^◌, ◌≤◌, ◌<◌, ◌≡◌, sym, ap, ◌∙◌, true, arith,
}
use router_sim.Net.{Network, IsNetwork, size, contains, overlaps, host}

pub size_pos : (n : Network) → 0 < size n
size_pos n = one-le-pow (32 - n.prefixlen) 2 (omega arith)

-- A host network overlaps a network exactly if the network holds its address.
pub overlaps-host : (n : Network) (a : ℕ) → overlaps (host a) n ≡ contains n a
unfolding overlaps host
overlaps-host n a = ground (arith, size_pos n)

-- The remainder by a multiple is at least the remainder.
mod_le_mod : (a s k : ℕ) → a % s ≤ a % (k * s)
mod_le_mod a s k =
    let e : a % (k * s) % s ≡ a % s = mod-mod_of_dvd s a (dvd-mul_left s k) in
    rw (← e) (mod-le (a % (k * s)) s)

pow_shift : (d i : ℕ) → 2 ^ (d + i) ≡ 2 ^ d * 2 ^ i
pow_shift zero i = rw zero-add (omega arith)
pow_shift (suc d) i = rw (suc-add, pow-succ', pow-succ', pow_shift d i) (omega arith)

pow_split : (i j : ℕ) → i ≤ j → 2 ^ j ≡ 2 ^ (j - i) * 2 ^ i
pow_split i j h = rw (← pow_shift (j - i) i) (ap (λ t. 2 ^ t) (omega arith))

mod_in_block : (s n a : ℕ) → n % s ≡ 0 → n ≤ a → a < n + s → n + a % s ≡ a
mod_in_block s n a z l u =
    let shift : (n % s + (a - n)) % s ≡ (n + (a - n)) % s = mod-add-mod n s (a - n) in
    let whole : n + (a - n) ≡ a = omega arith in
    let base : n % s + (a - n) ≡ a - n = omega arith in
    let low : (a - n) % s ≡ a - n = mod-eq_of_lt (omega arith) in
    let e : a % s ≡ a - n = sym (rw (base, whole) at shift) ∙ low in omega (arith, e)

-- A network that holds an address begins at the address less its remainder by the network's size.
starts_at :
    (n : Network) (a : ℕ) → IsNetwork n → contains n a ≡ true → n.network_address + a % size n ≡ a
starts_at n a w h =
    mod_in_block (size n) n.network_address a w.aligned (ground arith) (ground (arith, size_pos n))

-- Of two networks that hold one address, the longer prefix does not begin earlier.
pub longer_starts_later :
    (p q : Network) (a : ℕ)
    → IsNetwork p
    → IsNetwork q
    → contains p a ≡ true
    → contains q a ≡ true
    → p.prefixlen ≤ q.prefixlen
    → p.network_address ≤ q.network_address
longer_starts_later p q a wp wq hp hq l =
    let split = pow_split (32 - q.prefixlen) (32 - p.prefixlen) (omega arith) in
    let k = 2 ^ (32 - p.prefixlen - (32 - q.prefixlen)) in
    let low : a % size q ≤ a % size p = rw split (mod_le_mod a (size q) k) in
    omega (arith, low, starts_at p a wp hp, starts_at q a wq hq)
