-- ===== src/Tests/Observers.antt =====
-- routersim/observers.py: an observer listens to changes of links beside a logger of all events.
use router_sim.Base.{ℕ, ◌≡◌, ◌≢◌, refl, [], ◌∷◌, ◌++◌, get, nat_eq, arith}
use router_sim.Events.{Listeners, listeners_of, observe, listen, stop_listening}
use router_sim.Events.Listening.{observe-listen, stop_listening-listen}

abbrev logging : Listeners
logging = (0, 7 ∷ []) ∷ (4, 8 ∷ []) ∷ []

observe-listen_example :
    (observe 4 (listen 4 9 logging) ≡ observe 4 logging ++ 9 ∷ [])
    × ((u : ℕ) → u ≢ 4 → observe u (listen 4 9 logging) ≡ observe u logging)
observe-listen_example = observe-listen 4 9 logging (λ e. omega (arith, e))

stop_listening-listen_example :
    listeners_of (stop_listening 5 9 (listen 5 9 logging)) 4 ≡ listeners_of logging 4
unfolding listeners_of get
stop_listening-listen_example = stop_listening-listen 5 9 logging refl 4
