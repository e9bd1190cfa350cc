-- ===== src/Links.antt =====
-- routersim/interface.py: two physical interfaces, the endpoints of a link. What the source puts into
-- the global queue is a list of tasks, of which the scheduler may run any next; delays count half
-- milliseconds. Names and frames are numbers.
pub mod Delivery
use router_sim.Base.{ℕ, ◌*◌, Bool, true, false, ◌&&◌, List, [], ◌∷◌, ◌++◌, map, if◌then◌else◌}
use router_sim.Isis.{ConnectionState, up, down}

abbrev pub is_state_up : ConnectionState → Bool
is_state_up up = true
is_state_up down = false

-- `LogicalInterface`, as far as a link changes it
pub record Logical : Type 0 where
  pub name : ℕ
  pub admin_state : ConnectionState
  pub state : ConnectionState

-- `PhysicalInterface`; an endpoint of a link has the link.
pub record Physical : Type 0 where
  pub name : ℕ
  pub admin_state : ConnectionState
  pub state : ConnectionState
  pub interfaces : List Logical

-- `EventType.LINK_STATE` of an interface
pub data LinkEvent : Type 0 where
  physical_now logical_now : ℕ → ConnectionState → LinkEvent

unfoldable pub is_up : Physical → Bool
is_up p = is_state_up p.state && is_state_up p.admin_state

-- `up` and `down` of the logical interfaces, with their events
unfoldable pub set_logical : ConnectionState → Logical → Logical
set_logical st l = record l { state = st }

unfoldable pub logical_events : ConnectionState → List Logical → List LinkEvent
logical_events st [] = []
logical_events down (l ∷ ls) = logical_now l.name down ∷ logical_events down ls
logical_events up (l ∷ ls) =
    let rest = logical_events up ls in
    if is_state_up l.admin_state then logical_now l.name up ∷ rest else rest

-- `up` and `down` of a physical interface
unfoldable pub set_physical : ConnectionState → Physical → Physical
unfolding set_logical
set_physical st p = record p { state = st; interfaces = map (set_logical st) p.interfaces }

unfoldable pub physical_events : ConnectionState → Physical → List LinkEvent
unfolding logical_events
physical_events st p = physical_now p.name st ∷ logical_events st p.interfaces

pub data Side : Type 0 where
  one two : Side

abbrev pub opposite : Side → Side
opposite one = two
opposite two = one

-- What waits in the queue: an endpoint's change of state, the report that an endpoint sends a frame,
-- and a frame's arrival.
pub data Job : Type 0 where
  change : Side → ConnectionState → Job
  report : Side → ℕ → Job
  receive : Side → ℕ → Job

-- `PhysicalLink` with its endpoints and its part of the queue. `taken` has the frames that the link
-- took, under their senders; `sent` and `received` the packet events observed.
pub record Link : Type 0 where
  pub endpoint1 : Physical
  pub endpoint2 : Physical
  pub state : ConnectionState
  pub latency : ℕ
  pub queue : List (ℕ × Job)
  pub taken : List (Side × ℕ)
  pub sent : List (Side × ℕ)
  pub received : List (Side × ℕ)
  pub log : List LinkEvent

abbrev pub endpoint : Side → Link → Physical
endpoint one c = c.endpoint1
endpoint two c = c.endpoint2

-- `PhysicalLink.up` and `down`
unfoldable pub set_link : ConnectionState → Link → Link
set_link st c = record c {
  state = st;
  queue = c.queue ++ (c.latency, change one st) ∷ (c.latency, change two st) ∷ [];
}

-- `connect`
unfoldable pub connect : Physical → Physical → ℕ → Link
unfolding set_link
connect a b latency = set_link up (record {
  endpoint1 = a;
  endpoint2 = b;
  state = down;
  latency = latency;
  queue = [];
  taken = [];
  sent = [];
  received = [];
  log = [];
})

-- `PhysicalInterface.send_frame` with `PhysicalLink.send`
unfoldable pub send_frame : Side → ℕ → Link → Link
unfolding is_up
send_frame s f c =
    if is_up (endpoint s c) && is_state_up c.state
    then record c {
      queue = c.queue ++ (0, report s f) ∷ (2 * c.latency, receive (opposite s) f) ∷ [];
      taken = c.taken ++ (s, f) ∷ [];
    }
    else c

-- What a task does when the scheduler runs it.
unfoldable pub run : Job → Link → Link
unfolding set_physical physical_events is_up
run (change one st) c = record c {
  endpoint1 = set_physical st c.endpoint1;
  log = c.log ++ physical_events st c.endpoint1;
}
run (change two st) c = record c {
  endpoint2 = set_physical st c.endpoint2;
  log = c.log ++ physical_events st c.endpoint2;
}
run (report s f) c = record c { sent = c.sent ++ (s, f) ∷ [] }
run (receive s f) c =
    if is_up (endpoint s c) then record c { received = c.received ++ (s, f) ∷ [] } else c
