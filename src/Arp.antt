-- ===== src/Arp.antt =====
-- routersim/arp.py: the ARP cache and the packets that wait for an answer. Addresses are numbers, and
-- the interfaces with their addresses are passed by those who call.
pub mod Waiting
use router_sim.Base.{
  ℕ, Bool, true, false, ◌&&◌, List, [], ◌∷◌, ◌++◌, Option, none, some, if◌then◌else◌, Hashable,
  ◌==◌, nat_eq, Dict, get, set, delete,
}
use router_sim.Mpls.{IpPacket}

-- `ArpEntry`, under the text of its address
pub record ArpEntry : Type 0 where
  pub l2address : ℕ
  pub last_used : ℕ

pub data ArpType : Type 0 where
  request reply : ArpType

pub record ArpPacket : Type 0 where
  pub op : ArpType
  pub hwsrc : ℕ
  pub psrc : ℕ
  pub pdst : ℕ

-- A logical interface: its name and its IPv4 address, if it has one.
pub record Interface : Type 0 where
  pub name : ℕ
  pub address : Option ℕ

-- What is sent: a request for an address, with the sender's; a reply to a station that the address is
-- here; a packet that waited, to the hardware address.
pub data Sent : Type 0 where
  asked : (interface target source : ℕ) → Sent
  answered : (interface target_hw target from_address : ℕ) → Sent
  released : (interface hw : ℕ) → IpPacket → Sent

pub record ArpHandler : Type 0 where
  pub cache : Dict ℕ ArpEntry
  pub send_q : Dict ℕ (List (IpPacket × Interface))
  -- the events of new or changed entries
  pub log : List (ℕ × ℕ)
  pub sent : List Sent

-- `cache[address]`
unfoldable pub lookup : ℕ → ArpHandler → Option ℕ
lookup a s = elim (get s.cache a) [ none ↦ none | some e ↦ some e.l2address ]

abbrev pub is_entry : ℕ → Option ℕ → Bool
is_entry hw none = false
is_entry hw (some h) = h == hw

-- The sender's entry is written. The guard of the source compares a text with an address, which
-- always differ.
unfoldable pub remember : ℕ → ArpPacket → ArpHandler → ArpHandler
unfolding lookup
remember now p s = record s {
  cache = set s.cache p.psrc (record { l2address = p.hwsrc; last_used = now });
  log = if is_entry p.hwsrc (lookup p.psrc s) then s.log else s.log ++ (p.psrc, p.hwsrc) ∷ [];
}

-- What is replied to a packet: an answer to a request for the interface's own address.
unfoldable pub answers : ArpPacket → Interface → List Sent
answers p i = elim p.op [
  | reply ↦ []
  | request ↦ elim i.address [
    | none ↦ []
    | some a ↦ if p.pdst == a then answered i.name p.hwsrc p.psrc p.pdst ∷ [] else []
  ]
]

-- `for item in self.send_q[…]`
unfoldable pub release : ℕ → List (IpPacket × Interface) → List Sent
release hw [] = []
release hw ((p, i) ∷ rest) = released i.name hw p ∷ release hw rest

unfoldable pub flush : ArpPacket → ArpHandler → ArpHandler
unfolding release
flush p s = elim (get s.send_q p.psrc) [
  | none ↦ s
  | some items ↦ record s {
    send_q = delete s.send_q p.psrc;
    sent = s.sent ++ release p.hwsrc items;
  }
]

unfoldable pub process : ℕ → ArpPacket → Interface → ArpHandler → ArpHandler
unfolding remember answers flush
process now p i s =
    let known = remember now p s in flush p (record known { sent = known.sent ++ answers p i })

abbrev pub queued : Option (List (IpPacket × Interface)) → List (IpPacket × Interface)
queued none = []
queued (some items) = items

unfoldable pub enqueue : ℕ → IpPacket → Interface → ArpHandler → ArpHandler
enqueue nh p i s = record s { send_q = set s.send_q nh (queued (get s.send_q nh) ++ (p, i) ∷ []) }

-- `request`: without an address of its own, the interface asks from 0.0.0.0
unfoldable pub ask : ℕ → Interface → ArpHandler → ArpHandler
ask target i s = record s {
  sent = s.sent ++ asked i.name target (elim i.address [ none ↦ 0 | some a ↦ a ]) ∷ [];
}
