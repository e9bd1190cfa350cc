-- ===== src/Switching/Learning.antt =====
-- `BridgingTable` of routersim/switching/bridging.py: what is learned is found until it ages out.
use router_sim.Base.{
  ℕ, ◌+◌, ◌*◌, ◌≡◌, ◌∙◌, Option, none, some, if◌then◌else◌, ltb, ◌==◌, nat_eq, get, get-set, arith,
  Option-cases, Bool-cases, inl, inr,
}
use router_sim.Switching.{BridgeEntry, BridgingTable, is_expired, learn, lookup_mac}

-- What a table holds of a MAC address after it learned one.
pub get-learn :
    (now mac i other : ℕ) (t : BridgingTable)
    → get (learn now mac i t) other
      ≡ (if mac == other then some (record { interface = i; last_seen = now }) else get t other)
unfolding learn get
get-learn now mac i other t = elim (Option-cases (get t mac)) [
  | inl e ↦ rw (e, learn) (get-set t mac other _)
  | inr (b, e) ↦ elim (Bool-cases (b.interface == i)) [
    | inl same ↦ rw (e, learn, same) (get-set t mac other _ ∙ ground (arith, same))
    | inr moved ↦ rw (e, learn, moved) (get-set t mac other _)
  ]
]

-- What a lookup makes of what the table holds.
abbrev pub found_by : ℕ → ℕ → Option BridgeEntry → Option ℕ
found_by aging now none = none
found_by aging now (some e) = if is_expired aging now e then none else some e.interface

pub lookup-get :
    (aging now mac : ℕ) (t : BridgingTable)
    → (lookup_mac aging now mac t).0 ≡ found_by aging now (get t mac)
unfolding lookup_mac
lookup-get aging now mac t = ground arith

-- A lookup after learning finds the interface as long as the aging time has not passed since, and
-- then nothing; the lookups of the other addresses are as before.
pub lookup_mac-learn :
    (aging now later mac i other : ℕ) (t : BridgingTable)
    → (lookup_mac aging later other (learn now mac i t)).0 ≡ (
        if mac == other
        then (if ltb (now + 1000 * aging) later then none else some i)
        else (lookup_mac aging later other t).0)
unfolding is_expired
lookup_mac-learn aging now later mac i other t =
    rw (lookup-get, get-learn) (ground (arith, lookup-get aging later other t))
