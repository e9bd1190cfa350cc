-- ===== src/Rsvp/Cspf/Known.antt =====
-- Every router keeps its place in `prev_system` while the search goes on.
use router_sim.Base.{
  ℕ, zero, suc, ◌+◌, ◌≡◌, ◌∙◌, true, ◌||◌, List, [], ◌∷◌, ◌++◌, none, some, ltb, ◌==◌, nat_eq, Dict,
  get, set, has, keys, has-set, In, arith, Bool-cases, inl, inr,
}
use router_sim.Base.Outcome.{key_error}
use router_sim.Net.{net_eq}
use router_sim.Isis.{
  ConnectionState, up, down, LinkStatePdu, ExtendedIsReachability, ExtendedIpReachability, is_tlvs,
  ip_tlvs,
}
use router_sim.Isis.Spf.{
  State, Run, done, unconverged, fault, out_of_fuel, ◌>>=◌, subscript, relax, relax_all,
  reach_address, reach_addresses, offer, improves, settle, take_nearest, loop, Database,
  init_systems, begin, blank, maxsize,
}
use router_sim.Isis.Spf.Start.{described}

abbrev pub Keeps : ℕ → Run State → Type 0
Keeps v (done s) = has s.prev_system v ≡ true
Keeps v unconverged = Unit
Keeps v (fault e) = Unit
Keeps v out_of_fuel = Unit

>>=-Keeps :
    (v : ℕ) (r : Run State) (f : State → Run State)
    → Keeps v r
    → ((t : State) → has t.prev_system v ≡ true → Keeps v (f t))
    → Keeps v (r >>= f)
>>=-Keeps v (done s) f h k = k s h
>>=-Keeps v unconverged f h k = tt
>>=-Keeps v (fault e) f h k = tt
>>=-Keeps v out_of_fuel f h k = tt

-- What does not yield a state keeps whatever comes after it does.
from-Keeps :
    {A : Type 0} (v : ℕ) (r : Run A) (f : A → Run State)
    → ((a : A) → Keeps v (f a))
    → Keeps v (r >>= f)
from-Keeps v (done a) f k = k a
from-Keeps v unconverged f k = tt
from-Keeps v (fault e) f k = tt
from-Keeps v out_of_fuel f k = tt

relax-Keeps :
    (v node source : ℕ) (n : ExtendedIsReachability) (s : State)
    → has s.prev_system v ≡ true
    → Keeps v (relax node source n s)
unfolding relax
relax-Keeps v node source n s h = elim (Bool-cases (has s.system_distance n.system_id)) [
  | inr absent ↦ rw (relax, absent) tt
  | inl there ↦
      rw (relax, there)
        (from-Keeps v (subscript key_error (get s.system_distance node)) _ (λ d.
          from-Keeps v (subscript key_error (get s.system_distance n.system_id)) _ (λ old.
            elim (Bool-cases (ltb (d + n.metric) old)) [
              | inl shorter ↦
                  rw shorter (has-set s.prev_system n.system_id v (some source) ∙ ground (arith, h))
              | inr longer ↦ rw longer h
            ])))
]

relax_all-Keeps :
    (v node source : ℕ) (ns : List ExtendedIsReachability) (s : State)
    → has s.prev_system v ≡ true
    → Keeps v (relax_all node source ns s)
unfolding relax_all
relax_all-Keeps v node source [] s h = h
relax_all-Keeps v node source (n ∷ ns) s h =
    >>=-Keeps v (relax node source n s) (relax_all node source ns) (relax-Keeps v node source n s h)
      (relax_all-Keeps v node source ns)

reach_address-Keeps :
    (v node source : ℕ) (a : ExtendedIpReachability) (s : State)
    → has s.prev_system v ≡ true
    → Keeps v (reach_address node source a s)
unfolding reach_address
reach_address-Keeps v node source a s h = on a.state
  where
    on :
        (c : ConnectionState)
        → Keeps v (elim c [
          | down ↦ done s
          | up ↦ subscript key_error (get s.system_distance node) >>= λ d.
              done (offer source (d + a.metric) a.prefix s)
        ])
    on down = h
    on up = from-Keeps v (subscript key_error (get s.system_distance node)) _ (λ d.
        elim (Bool-cases (improves (d + a.metric) (get s.distance a.prefix))) [
          | inl better ↦ rw better h
          | inr worse ↦ rw worse h
        ])

reach_addresses-Keeps :
    (v node source : ℕ) (ps : List ExtendedIpReachability) (s : State)
    → has s.prev_system v ≡ true
    → Keeps v (reach_addresses node source ps s)
unfolding reach_addresses
reach_addresses-Keeps v node source [] s h = h
reach_addresses-Keeps v node source (a ∷ rest) s h =
    >>=-Keeps v (reach_address node source a s) (reach_addresses node source rest)
      (reach_address-Keeps v node source a s h) (reach_addresses-Keeps v node source rest)

settle-Keeps :
    (v : ℕ) (db : Database) (node : ℕ) (s : State)
    → has s.prev_system v ≡ true
    → Keeps v (settle db node s)
unfolding settle
settle-Keeps v db node s h = from-Keeps v (subscript key_error (get db node)) _ (λ lsp.
    >>=-Keeps v (relax_all node lsp.source_address (is_tlvs lsp.tlvs) s)
      (reach_addresses node lsp.source_address (ip_tlvs lsp.tlvs))
      (relax_all-Keeps v node lsp.source_address (is_tlvs lsp.tlvs) s h)
      (reach_addresses-Keeps v node lsp.source_address (ip_tlvs lsp.tlvs)))

pub loop-Keeps :
    (v : ℕ) (db : Database) (fuel : ℕ) (s : State) (queue : List ℕ)
    → has s.prev_system v ≡ true
    → Keeps v (loop db fuel s queue)
unfolding loop
loop-Keeps v db fuel s [] h = h
loop-Keeps v db zero s (q ∷ qs) h = tt
loop-Keeps v db (suc fuel) s (q ∷ qs) h = from-Keeps v (take_nearest s (q ∷ qs)) _ (λ t.
    >>=-Keeps v (settle db t.0 s) (λ s'. loop db fuel s' t.1) (settle-Keeps v db t.0 s h)
      (λ s' k. loop-Keeps v db fuel s' t.1 k))

init_systems-has :
    (v : ℕ) (ps : List LinkStatePdu) (s : State) (queue : List ℕ)
    → (has s.prev_system v || described v ps) ≡ true
    → has (init_systems ps s queue).0.prev_system v ≡ true
unfolding init_systems
init_systems-has v [] s queue h = ground (arith, h)
init_systems-has v (p ∷ ps) s queue h =
    init_systems-has v ps
      (record s {
        system_distance = set s.system_distance p.source_address maxsize;
        prev_system = set s.prev_system p.source_address none;
      })
      (queue ++ p.source_address ∷ [])
      (ground (arith, h, has-set s.prev_system p.source_address v none))

pub begin-has :
    (v self : ℕ) (ps : List LinkStatePdu)
    → described v ps ≡ true
    → has (begin self ps).0.prev_system v ≡ true
unfolding begin
begin-has v self ps h = init_systems-has v ps blank [] (ground (arith, h))

pub key_of_has : {V : Type 0} (m : Dict ℕ V) (v : ℕ) → has m v ≡ true → In v (keys m)
unfolding has
key_of_has [] v h = absurd (cc h)
key_of_has ((k, x) ∷ m) v h = elim (Bool-cases (k == v)) [
  | inl match ↦ inl (ground (arith, match))
  | inr other ↦ inr (key_of_has m v (ground (arith, h, other)))
]
