-- ===== src/Tests/Wire.antt =====
-- routersim/interface.py: two interfaces are connected, and one sends a frame.
use router_sim.Base.{◌≡◌, refl, [], ◌∷◌, In, inl}
use router_sim.Isis.{up}
use router_sim.Links.{
  Physical, Link, one, two, change, report, receive, opposite, connect, send_frame, run,
}
use router_sim.Links.Delivery.{Reachable, initial, next, sends, runs, received_was_taken}

abbrev near : Physical
near = record { name = 1; admin_state = up; state = up; interfaces = [] }

abbrev far : Physical
far = record { name = 2; admin_state = up; state = up; interfaces = [] }

abbrev sending : Link
sending = send_frame one 77 (connect near far 10)

abbrev arriving : Link
arriving =
    run (receive two 77) (record sending {
      queue = (10, change one up) ∷ (10, change two up) ∷ (0, report one 77) ∷ [];
    })

queued :
    sending.queue
    ≡ (10, change one up) ∷ (10, change two up) ∷ (0, report one 77) ∷ (20, receive two 77) ∷ []
unfolding send_frame connect
queued = refl

arriving-Reachable : Reachable near far 10 arriving
unfolding send_frame connect
arriving-Reachable = next (next initial (sends one 77)) (
    runs ((10, change one up) ∷ (10, change two up) ∷ (0, report one 77) ∷ []) [] 20
      (receive two 77) queued)

arrived : In (two, 77) arriving.received
unfolding run send_frame connect
arrived = inl refl

received_was_taken_example : In (opposite two, 77) arriving.taken
received_was_taken_example =
    received_was_taken near far 10 arriving two 77 arriving-Reachable arrived
