-- ===== src/Tests/Resolution.antt =====
-- routersim/arp.py: two packets wait for an address that then answers.
use router_sim.Base.{ℕ, ◌≡◌, refl, false, List, [], ◌∷◌, ◌++◌, some, none, get, nat_eq}
use router_sim.Mpls.{IpPacket, pos}
use router_sim.Arp.{ArpPacket, ArpHandler, Interface, reply, lookup, answers, release, process}
use router_sim.Arp.Waiting.{enqueue_all, process-enqueue_all}

abbrev packet : ℕ → IpPacket
packet n = record { dst = 20; src = 10; ttl = pos 64; alert = false; payload = n }

abbrev port : Interface
port = record { name = 1; address = some 10 }

abbrev idle : ArpHandler
idle = record { cache = []; send_q = []; log = []; sent = [] }

abbrev here_i_am : ArpPacket
here_i_am = record { op = reply; hwsrc = 99; psrc = 20; pdst = 10 }

abbrev waiting : List (IpPacket × Interface)
waiting = (packet 1, port) ∷ (packet 2, port) ∷ []

process-enqueue_all_example :
    ((process 7 here_i_am port (enqueue_all 20 waiting idle)).sent
      ≡ (idle.sent ++ answers here_i_am port) ++ release 99 waiting)
    × (get (process 7 here_i_am port (enqueue_all 20 waiting idle)).send_q 20 ≡ none)
    × (lookup 20 (process 7 here_i_am port (enqueue_all 20 waiting idle)) ≡ some 99)
unfolding get
process-enqueue_all_example = process-enqueue_all 7 here_i_am port waiting idle refl
