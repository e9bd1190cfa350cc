-- ===== src/Isis.antt =====
-- routersim/isis/tlv.py and routersim/isis/pdu.py: what IS-IS packets hold. System ids are numbers in
-- the order of the source's texts, and an LSP's id is its system's id, as in the source.
pub mod Spf
pub mod Update
pub mod Paths
pub mod Routes
pub mod Local
pub mod Sync
pub mod Adjacency
use router_sim.Base.{
  ℕ, Bool, true, false, List, [], ◌∷◌, Option, none, some, if◌then◌else◌, ◌==◌, nat_eq,
}
use router_sim.Net.{Network}

-- `ConnectionState` of interface.py
pub data ConnectionState : Type 0 where
  up down : ConnectionState

-- The state of an adjacency, a text in the source.
pub data NeighborState : Type 0 where
  new initializing adjacent down : NeighborState

-- The TLVs inside an IS reachability TLV.
pub data SubTlv : Type 0 where
  interface_address : ℕ → ConnectionState → SubTlv
  neighbor_address : ℕ → SubTlv

pub record ExtendedIsReachability : Type 0 where
  pub system_id : ℕ
  pub metric : ℕ
  pub tlvs : List SubTlv

-- `local_ip` and `neighbor_ip`: the first of the kind
unfoldable pub local_ip : List SubTlv → Option ℕ
local_ip [] = none
local_ip (interface_address a s ∷ ts) = some a
local_ip (neighbor_address a ∷ ts) = local_ip ts

unfoldable pub neighbor_ip : List SubTlv → Option ℕ
neighbor_ip [] = none
neighbor_ip (neighbor_address a ∷ ts) = some a
neighbor_ip (interface_address a s ∷ ts) = neighbor_ip ts

pub record ExtendedIpReachability : Type 0 where
  pub prefix : Network
  pub metric : ℕ
  pub state : ConnectionState

pub data Tlv : Type 0 where
  p2p_adjacency : ℕ → NeighborState → Tlv
  area_address : ℕ → Tlv
  ip_address : ℕ → Tlv
  te_router : ℕ → Tlv
  is_reachability : ExtendedIsReachability → Tlv
  ip_reachability : ExtendedIpReachability → Tlv
  lsp_entry : ℕ → ℕ → Tlv
  dynamic_hostname : ℕ → Tlv

pub record LinkStatePdu : Type 0 where
  pub source_address : ℕ
  pub lsp_id : ℕ
  pub seq_no : ℕ
  pub tlvs : List Tlv

-- `LinkStatePDU.neighbors`
unfoldable pub is_tlvs : List Tlv → List ExtendedIsReachability
is_tlvs [] = []
is_tlvs (is_reachability r ∷ ts) = r ∷ is_tlvs ts
is_tlvs (t ∷ ts) = is_tlvs ts

-- `LinkStatePDU.addresses`
unfoldable pub ip_tlvs : List Tlv → List ExtendedIpReachability
ip_tlvs [] = []
ip_tlvs (ip_reachability r ∷ ts) = r ∷ ip_tlvs ts
ip_tlvs (t ∷ ts) = ip_tlvs ts

-- `LinkStatePDU.routerid`
unfoldable pub routerid : List Tlv → Option ℕ
routerid [] = none
routerid (te_router a ∷ ts) = some a
routerid (t ∷ ts) = routerid ts

-- `LinkStatePDU.hostname`
unfoldable pub hostname : List Tlv → Option ℕ
hostname [] = none
hostname (dynamic_hostname h ∷ ts) = some h
hostname (t ∷ ts) = hostname ts

-- Whether a TLV is the reachability of a system.
unfoldable pub reaches : ℕ → Tlv → Bool
reaches i (is_reachability r) = r.system_id == i
reaches i t = false

-- `LinkStatePDU.remove_neighbor`: what is left, and whether anything went
unfoldable pub remove_neighbor : ℕ → List Tlv → List Tlv × Bool
unfolding reaches
remove_neighbor i [] = ([], false)
remove_neighbor i (t ∷ ts) =
    let rest = remove_neighbor i ts in if reaches i t then (rest.0, true) else (t ∷ rest.0, rest.1)
