-- ===== src/Switching/Flooding.antt =====
-- `SwitchingEngine` of routersim/switching/bridging.py: where frames go.
use router_sim.Base.{
  ℕ, ◌+◌, ◌*◌, ◌≤◌, ◌≡◌, ◌≢◌, ◌↔◌, refl, List, [], ◌∷◌, none, some, nat_eq, In, arith, ◌⊎◌,
}
use router_sim.Switching.{
  BridgingTable, learn, lookup_mac, Frame, Port, forward, flood, broadcast_frame, accept_own,
  learn_first, deliver, destination, process_frame,
}
use router_sim.Switching.Learning.{lookup_mac-learn}

In-broadcast_frame :
    (ports : List ℕ) (source p : ℕ)
    → In (flood p) (broadcast_frame ports source) ↔ In p ports × (p ≢ source)
unfolding broadcast_frame
In-broadcast_frame [] source p = ground arith
In-broadcast_frame (q ∷ ps) source p = ground (arith, In-broadcast_frame ps source p)

accept_own-foreign : (f : Frame) (hw : ℕ) (ls : List ℕ) → f.dst ≢ hw → accept_own f hw ls ≡ []
unfolding accept_own
accept_own-foreign f hw [] h = refl
accept_own-foreign f hw (l ∷ ls) h = ground (arith, accept_own-foreign f hw ls h)

-- A frame to the broadcast address, or to an address that is looked up in vain, and that is not the
-- source port's own, goes out on exactly the interfaces other than the one that it came in on.
pub process_frame-floods :
    (broadcast : ℕ) (ports : List ℕ) (aging now : ℕ) (f : Frame) (source : Port) (t : BridgingTable)
    → f.dst ≢ source.hw_address
    → (f.dst ≡ broadcast) ⊎ ((lookup_mac aging now f.dst t).0 ≡ none)
    → (p : ℕ)
    → In (flood p) (process_frame broadcast ports aging now f source t).0
      ↔ In p ports × (p ≢ source.name)
unfolding process_frame
process_frame-floods broadcast ports aging now f source t foreign unknown p =
    let lost : (destination broadcast aging now f t).0 ≡ none =
      unfold destination in ground (arith, unknown) in
    rw (lost, deliver, accept_own-foreign f source.hw_address source.logical foreign)
      (In-broadcast_frame ports source.name p)

-- Once a frame has come in on a port with a logical interface, a frame back to its sender goes out
-- on that logical interface alone, from whatever port, as long as the aging time has not passed.
pub process_frame-answers :
    (broadcast : ℕ) (ports : List ℕ) (aging now later : ℕ) (f g : Frame) (source other : Port)
    (l : ℕ) (ls : List ℕ) (t : BridgingTable)
    → source.logical ≡ l ∷ ls
    → g.dst ≡ f.src
    → f.src ≢ broadcast
    → later ≤ now + 1000 * aging
    → (process_frame broadcast ports aging later g other
        (process_frame broadcast ports aging now f source t).1).0
      ≡ forward l ∷ []
unfolding process_frame
process_frame-answers broadcast ports aging now later f g source other l ls t has_one back single
      soon =
    let t' = (destination broadcast aging now f t).1 in
    let seen : (destination broadcast aging later g (learn now f.src l t')).0 ≡ some l =
      unfold destination in
      ground (arith, back, single, soon, lookup_mac-learn aging now later f.src l f.src t') in
    rw (has_one, learn_first, seen, deliver) refl
