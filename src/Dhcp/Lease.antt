-- ===== src/Dhcp/Lease.antt =====
-- The server of routersim/dhcp.py keeps its leases apart, while clients request what was offered.
use router_sim.Base.{
  ℕ, zero, suc, ◌+◌, ◌≤◌, ◌≡◌, refl, sym, Bool, true, List, [], ◌∷◌, ◌++◌, none, some, nat_eq, Dict,
  get, delete, has, has-set, has-get, get-set, get-delete, arith, Option-cases, Bool-cases, inl,
  inr, subst, ap, ◌∙◌,
}
use router_sim.Base.Outcome.{Outcome, ok, err, ◌>>=◌}
use router_sim.Dhcp.{
  Server, Message, MessageType, discover, request, another, Hold, Iface, Parameter, subnet_of,
  is_free, find_free, find_address, head?, reserve, offer, lease, ack, clear_hold, bind_and_ack,
  process_types, cleared,
}

-- No address is leased twice, leased and held addresses are noted as such and lie in the range, and a
-- held address is leased to nobody but the client that it is held for.
pub record IsServer (s : Server) : Type 0 where
  pub unique : (c d a : ℕ) → get s.leases c ≡ some a → get s.leases d ≡ some a → c ≡ d
  pub noted : (c a : ℕ) → get s.leases c ≡ some a → has s.leased a ≡ true
  pub lease_range :
      (c a : ℕ) → get s.leases c ≡ some a → (s.subnet.range_from ≤ a) × (a ≤ s.subnet.range_to)
  pub hold : (c : ℕ) (h : Hold) → get s.holds c ≡ some h → get s.held h.offer ≡ some c
  pub hold_range :
      (c : ℕ) (h : Hold)
      → get s.holds c ≡ some h
      → (s.subnet.range_from ≤ h.offer) × (h.offer ≤ s.subnet.range_to)
  pub free : (c d a : ℕ) → get s.held a ≡ some c → get s.leases d ≡ some a → d ≡ c

-- An address that may be offered to a client.
abbrev Offerable : Server → ℕ → ℕ → Type 0
Offerable s c a =
    (s.subnet.range_from ≤ a)
    × (a ≤ s.subnet.range_to)
    × ((d : ℕ) → get s.held a ≡ some d → d ≡ c)
    × ((d : ℕ) → get s.leases d ≡ some a → d ≡ c)

has-of-get : {V : Type 0} (m : Dict ℕ V) (k : ℕ) (v : V) → get m k ≡ some v → has m k ≡ true
has-of-get m k v h = ground (arith, h, has-get m k)

is_free-Offerable : (a : ℕ) (s : Server) (c : ℕ) → IsServer s → is_free s a ≡ true → Offerable s c a
unfolding is_free
is_free-Offerable a s c w h =
    let low : s.subnet.range_from ≤ a = ground (arith, h) in
    let high : a ≤ s.subnet.range_to = ground (arith, h) in
    (
      low,
      high,
      λ d k. absurd (ground (arith, h, has-of-get s.held a d k)),
      λ d k. absurd (ground (arith, h, w.noted d a k)),
    )

find_free-Offerable :
    (n a : ℕ) (s : Server) (c b : ℕ) → IsServer s → find_free n a s ≡ some b → Offerable s c b
unfolding find_free is_free
find_free-Offerable zero a s c b w e = absurd (cc e)
find_free-Offerable (suc n) a s c b w e = elim (Bool-cases (is_free s a)) [
  | inl taken ↦
      let same : a ≡ b = ground (arith, rw taken at e) in
      subst (Offerable s c) same (is_free-Offerable a s c w taken)
  | inr refused ↦ find_free-Offerable n (a + 1) s c b w (rw refused at e)
]

find_address-Offerable :
    (c : ℕ) (s : Server) (a : ℕ) → IsServer s → find_address c s ≡ some a → Offerable s c a
unfolding find_address
find_address-Offerable c s a w e = elim (Option-cases (get s.leases c)) [
  | inl new ↦ find_free-Offerable _ _ s c a w (rw (new, find_address) at e)
  | inr (b, old) ↦
      let same : b ≡ a = ground (arith, rw (old, find_address) at e) in
      let mine = subst (λ x. get s.leases c ≡ some x) same old in
      let (low, high) = w.lease_range c a mine in
      (low, high, λ d k. sym (w.free d c a k mine), λ d k. w.unique d c a k mine)
]

reserve-IsServer :
    (i : Iface) (m : Message) (a : ℕ) (ps : List Parameter) (s : Server)
    → Offerable s m.chaddr a
    → IsServer s
    → IsServer (reserve i m a ps s)
unfolding reserve
reserve-IsServer i m a ps s (low, high, held, leased) w = record {
  unique = w.unique;
  noted = w.noted;
  lease_range = w.lease_range;
  hold = λ c h k. ground (
    arith,
    k,
    get-set s.holds m.chaddr c (record { offer = a; param_req_list = ps; xid = m.xid }),
    get-set s.held a h.offer m.chaddr,
    w.hold c h,
    held c,
  );
  hold_range = λ c h k. ground (
    arith,
    k,
    low,
    high,
    get-set s.holds m.chaddr c (record { offer = a; param_req_list = ps; xid = m.xid }),
    w.hold_range c h,
  );
  free = λ c d b k l. ground (arith, k, get-set s.held a b m.chaddr, w.free c d b, l, leased d);
}

-- What the first of a message's types takes: a discover lists the parameters that it asks for, and a
-- request names an address, the one held for the client if there is a hold.
abbrev pub Follows : List MessageType → Message → Server → Type 0
Follows [] m s = Unit
Follows (discover ∷ ts) m s = (ps : List Parameter) × (head? m.param_req_lists ≡ some ps)
Follows (request ∷ ts) m s =
    (a : ℕ) × (head? m.requested_addrs ≡ some a)
    × ((h : Hold) → get s.holds m.chaddr ≡ some h → a ≡ h.offer)
Follows (another ∷ ts) m s = Follows ts m s

-- A packet that comes over the server's interface, of a client that follows the protocol.
pub record IsComplete (i : Iface) (m : Message) (s : Server) : Type 0 where
  pub interface : subnet_of i s ≡ some s.subnet
  pub follows : Follows m.types m s

-- What a server is once a hold has become a lease.
abbrev pub bound : Iface → ℕ → Hold → ℕ → Server → Server
bound i c h a s = ack i c h (
    lease c a (record s {
      held = delete s.held h.offer;
      holds = delete s.holds c;
      log = s.log ++ cleared c h.offer ∷ [];
    }))

bound-IsServer :
    (i : Iface) (c : ℕ) (h : Hold) (s : Server)
    → get s.holds c ≡ some h
    → IsServer s
    → IsServer (bound i c h h.offer s)
unfolding lease ack
bound-IsServer i c h s at w =
    let (low, high) = w.hold_range c h at in
    let mine = w.hold c h at in
    record {
      unique = λ d d' a k l. ground (
        arith,
        k,
        l,
        get-set s.leases c d h.offer,
        get-set s.leases c d' h.offer,
        w.unique d d' a,
        w.free c d a,
        w.free c d' a,
        mine,
      );
      noted = λ d a k.
          ground
            (arith, k, get-set s.leases c d h.offer, has-set s.leased h.offer a true, w.noted d a);
      lease_range =
          λ d a k. ground (arith, k, low, high, get-set s.leases c d h.offer, w.lease_range d a);
      hold = λ d g k.
          ground
            (arith, k, get-delete s.holds c d, get-delete s.held h.offer g.offer, w.hold d g, mine);
      hold_range = λ d g k. ground (arith, k, get-delete s.holds c d, w.hold_range d g);
      free = λ d d' a k l.
          ground (
            arith,
            k,
            l,
            get-delete s.held h.offer a,
            get-set s.leases c d' h.offer,
            w.free d d' a,
          );
    }

pub bind_and_ack-bound :
    (i : Iface) (m : Message) (h : Hold) (a : ℕ) (s : Server)
    → get s.holds m.chaddr ≡ some h
    → get s.held h.offer ≡ some m.chaddr
    → head? m.requested_addrs ≡ some a
    → bind_and_ack i m s ≡ ok (bound i m.chaddr h a s)
unfolding clear_hold bind_and_ack
bind_and_ack-bound i m h a s at held asked =
    rw (at, has-of-get s.held h.offer m.chaddr held, asked) refl

bind_and_ack-unheld :
    (i : Iface) (m : Message) (a : ℕ) (s : Server)
    → get s.holds m.chaddr ≡ none
    → head? m.requested_addrs ≡ some a
    → bind_and_ack i m s ≡ ok s
unfolding clear_hold bind_and_ack
bind_and_ack-unheld i m a s unheld asked = rw (unheld, asked) refl

-- What a handler must end with.
abbrev pub Good : Outcome (Server × Bool) → Type 0
Good (ok (s, b)) = IsServer s
Good (err e) = ⊥

module _ (i : Iface) (m : Message) (s : Server) (w : IsServer s) where
  offer-Good :
      (ps : List Parameter)
      → subnet_of i s ≡ some s.subnet
      → head? m.param_req_lists ≡ some ps
      → Good (offer i m s >>= λ s'. ok (s', true))
  unfolding offer
  offer-Good ps here listed = elim (Option-cases (find_address m.chaddr s)) [
    | inl full ↦ rw (here, full) w
    | inr (a, e) ↦
        rw (here, e, listed)
          (reserve-IsServer i m a ps s (find_address-Offerable m.chaddr s a w e) w)
  ]

  bind_and_ack-Good :
      (a : ℕ)
      → head? m.requested_addrs ≡ some a
      → ((h : Hold) → get s.holds m.chaddr ≡ some h → a ≡ h.offer)
      → Good (bind_and_ack i m s >>= λ s'. ok (s', true))
  bind_and_ack-Good a asked honest = elim (Option-cases (get s.holds m.chaddr)) [
    | inl unheld ↦ rw (bind_and_ack-unheld i m a s unheld asked) w
    | inr (h, at) ↦
        rw
          (bind_and_ack-bound i m h h.offer s at (w.hold m.chaddr h at)
            (asked ∙ ap (λ x. some x) (honest h at)))
          (bound-IsServer i m.chaddr h s at w)
  ]

  pub process_types-Good :
      subnet_of i s ≡ some s.subnet
      → (ts : List MessageType) → Follows ts m s
      → Good (process_types ts i m s)
  unfolding process_types
  process_types-Good here [] follows = w
  process_types-Good here (discover ∷ ts) (ps, listed) = offer-Good ps here listed
  process_types-Good here (request ∷ ts) (a, asked, honest) = bind_and_ack-Good a asked honest
  process_types-Good here (another ∷ ts) follows = process_types-Good here ts follows
