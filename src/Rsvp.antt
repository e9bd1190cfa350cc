-- ===== src/Rsvp.antt =====
-- routersim/rsvp: paths through the network for label switched paths. Addresses and names are numbers.
pub mod Cspf
pub mod Reservation
