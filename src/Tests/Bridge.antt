-- ===== src/Tests/Bridge.antt =====
-- routersim/switching/bridging.py on a switch with three ports.
use router_sim.Base.{ℕ, ◌≡◌, ◌≢◌, ◌↔◌, refl, List, [], ◌∷◌, In, nat_eq, get, arith, inr}
use router_sim.Switching.{BridgingTable, lookup_mac, Frame, Port, forward, flood, process_frame}
use router_sim.Switching.Flooding.{process_frame-floods, process_frame-answers}

abbrev station : ℕ
station = 17

abbrev names : List ℕ
names = 1 ∷ 2 ∷ 3 ∷ []

abbrev two : ℕ
two = 2

abbrev known : BridgingTable
known = (17, record { interface = 4; last_seen = 1000 }) ∷ []

abbrev first_port : Port
first_port = record { name = 1; hw_address = 101; logical = 11 ∷ [] }

abbrev second_port : Port
second_port = record { name = 2; hw_address = 102; logical = 12 ∷ [] }

abbrev hello : Frame
hello = record { dst = 18; src = 17 }

abbrev answer : Frame
answer = record { dst = 17; src = 18 }

process_frame-floods_example :
    In (flood two) (process_frame 255 names 300 2000 hello first_port known).0
    ↔ In two names × (two ≢ 1)
unfolding lookup_mac get
process_frame-floods_example =
    process_frame-floods 255 names 300 2000 hello first_port known (λ e. omega (arith, e))
      (inr refl) two

process_frame-answers_example :
    (process_frame 255 names 300 9000 answer second_port
      (process_frame 255 names 300 2000 hello first_port known).1).0
    ≡ forward 11 ∷ []
process_frame-answers_example =
    process_frame-answers 255 names 300 2000 9000 hello answer first_port second_port 11 [] known
      refl refl (λ e. omega (arith, e)) (omega arith)
