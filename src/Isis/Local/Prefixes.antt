-- ===== src/Isis/Local/Prefixes.antt =====
-- One interface's network in the LSP that `__refresh_local` of routersim/isis/process.py makes.
use router_sim.Base.{
  ℕ, ◌≡◌, ◌≢◌, refl, sym, ap, ◌∙◌, Bool, true, false, ◌||◌, List, [], ◌∷◌, ◌++◌, if◌then◌else◌,
  ◌==◌, nat_eq, In, In-append, inl, inr, ◌⊎◌, Bool-cases,
}
use router_sim.Net.{Network, net_eq, net_beq_iff}
use router_sim.Isis.{
  ConnectionState, ExtendedIpReachability, Tlv, is_reachability, ip_reachability, p2p_adjacency,
  area_address, ip_address, te_router, lsp_entry, dynamic_hostname, ip_tlvs,
}
use router_sim.Isis.Update.{Interface}
use router_sim.Isis.Local.{Refresh, update_prefix, advertise_prefix}
use router_sim.Isis.Local.Reachability.{ip_tlvs-append}

-- The IP reachability in a list of TLVs has the network `n`, and always with metric `m` and state `c`.
abbrev pub Advertises : Network → ℕ → ConnectionState → List ExtendedIpReachability → Type 0
Advertises n m c ps =
    ((r : ExtendedIpReachability) × In r ps × (r.prefix ≡ n))
    × ((r : ExtendedIpReachability) → In r ps → r.prefix ≡ n → (r.metric ≡ m) × (r.state ≡ c))

-- the loop over `lsp.addresses`, on the IP reachability alone
abbrev renew : Network → ℕ → ConnectionState → ExtendedIpReachability → ExtendedIpReachability
renew n m c r = if r.prefix == n then record r { metric = m; state = c } else r

abbrev renew_all :
    Network → ℕ → ConnectionState → List ExtendedIpReachability → List ExtendedIpReachability
renew_all n m c [] = []
renew_all n m c (r ∷ ps) = renew n m c r ∷ renew_all n m c ps

abbrev has_prefix : Network → List ExtendedIpReachability → Bool
has_prefix n [] = false
has_prefix n (r ∷ ps) = r.prefix == n || has_prefix n ps

abbrev Renewed : Network → ℕ → ConnectionState → List Tlv → Type 0
Renewed n m c ts =
    (ip_tlvs (update_prefix n m c ts).0 ≡ renew_all n m c (ip_tlvs ts))
    × ((update_prefix n m c ts).1.0 ≡ has_prefix n (ip_tlvs ts))

update_prefix-Renewed :
    (n : Network) (m : ℕ) (c : ConnectionState) (ts : List Tlv) → Renewed n m c ts
unfolding ip_tlvs update_prefix
update_prefix-Renewed n m c [] = (refl, refl)
update_prefix-Renewed n m c (ip_reachability q ∷ ts) =
    let (all, found) = update_prefix-Renewed n m c ts in
    elim (Bool-cases (q.prefix == n)) [
      | inl here ↦ (rw (update_prefix, here, all) refl, rw (update_prefix, here) refl)
      | inr away ↦ (rw (update_prefix, away, all) refl, rw (update_prefix, away) found)
    ]
update_prefix-Renewed n m c (is_reachability q ∷ ts) = update_prefix-Renewed n m c ts
update_prefix-Renewed n m c (p2p_adjacency k st ∷ ts) = update_prefix-Renewed n m c ts
update_prefix-Renewed n m c (area_address a ∷ ts) = update_prefix-Renewed n m c ts
update_prefix-Renewed n m c (ip_address a ∷ ts) = update_prefix-Renewed n m c ts
update_prefix-Renewed n m c (te_router a ∷ ts) = update_prefix-Renewed n m c ts
update_prefix-Renewed n m c (lsp_entry k j ∷ ts) = update_prefix-Renewed n m c ts
update_prefix-Renewed n m c (dynamic_hostname h ∷ ts) = update_prefix-Renewed n m c ts

-- `advertise_prefix`, on the IP reachability alone
abbrev pub step :
    Network → ℕ → ConnectionState → List ExtendedIpReachability → List ExtendedIpReachability
step n m c ps =
    if has_prefix n ps
    then renew_all n m c ps
    else ps ++ record { prefix = n; metric = m; state = c } ∷ []

pub ip_tlvs-advertise_prefix :
    (x : Interface) (r : Refresh)
    → ip_tlvs (advertise_prefix x r).tlvs ≡ step x.network x.metric x.state (ip_tlvs r.tlvs)
unfolding advertise_prefix ip_tlvs
ip_tlvs-advertise_prefix x r =
    let (all, found) = update_prefix-Renewed x.network x.metric x.state r.tlvs in
    elim (Bool-cases (has_prefix x.network (ip_tlvs r.tlvs))) [
      | inl there ↦
          let seen : (update_prefix x.network x.metric x.state r.tlvs).1.0 ≡ true = found ∙ there in
          rw (advertise_prefix, seen, there) all
      | inr missing ↦
          let lost : (update_prefix x.network x.metric x.state r.tlvs).1.0 ≡ false =
            found ∙ missing in
          rw (advertise_prefix, lost, missing) (ip_tlvs-append r.tlvs _)
    ]

In-renew_all :
    (n : Network) (m : ℕ) (c : ConnectionState) (ps : List ExtendedIpReachability)
    (r : ExtendedIpReachability)
    → In r (renew_all n m c ps)
    → (q : ExtendedIpReachability) × In q ps × (r ≡ renew n m c q)
In-renew_all n m c [] r at = absurd at
In-renew_all n m c (q ∷ ps) r (inl same) = (q, inl refl, sym same)
In-renew_all n m c (q ∷ ps) r (inr later) =
    let (p, i, e) = In-renew_all n m c ps r later in (p, inr i, e)

renew_all-In :
    (n : Network) (m : ℕ) (c : ConnectionState) (ps : List ExtendedIpReachability)
    (q : ExtendedIpReachability)
    → In q ps
    → In (renew n m c q) (renew_all n m c ps)
renew_all-In n m c [] q at = absurd at
renew_all-In n m c (p ∷ ps) q (inl same) = inl (ap (renew n m c) same)
renew_all-In n m c (p ∷ ps) q (inr later) = inr (renew_all-In n m c ps q later)

-- which of them a TLV is
renew-cases :
    (n : Network) (m : ℕ) (c : ConnectionState) (q : ExtendedIpReachability)
    → ((q.prefix ≡ n) × (renew n m c q ≡ record q { metric = m; state = c }))
      ⊎ ((q.prefix ≢ n) × (renew n m c q ≡ q))
renew-cases n m c q = elim (Bool-cases (q.prefix == n)) [
  | inl here ↦ inl ((net_beq_iff q.prefix n).0 here, rw here refl)
  | inr away ↦ inr ((λ e. cc ((net_beq_iff q.prefix n).1 e, away)), rw away refl)
]

has_prefix-In :
    (n : Network) (ps : List ExtendedIpReachability)
    → has_prefix n ps ≡ true
    → (q : ExtendedIpReachability) × In q ps × (q.prefix ≡ n)
has_prefix-In n [] h = cc h
has_prefix-In n (q ∷ ps) h = elim (Bool-cases (q.prefix == n)) [
  | inl here ↦ (q, inl refl, (net_beq_iff q.prefix n).0 here)
  | inr away ↦ let (p, i, e) = has_prefix-In n ps (rw away at h) in (p, inr i, e)
]

In-has_prefix :
    (n : Network) (ps : List ExtendedIpReachability) (q : ExtendedIpReachability)
    → In q ps
    → q.prefix ≡ n
    → has_prefix n ps ≡ true
In-has_prefix n [] q at own = absurd at
In-has_prefix n (p ∷ ps) q (inl same) own =
    rw ((net_beq_iff p.prefix n).1 (ap (λ y. y.prefix) same ∙ own)) refl
In-has_prefix n (p ∷ ps) q (inr later) own = elim (Bool-cases (p.prefix == n)) [
  | inl here ↦ rw here refl
  | inr away ↦ rw away (In-has_prefix n ps q later own)
]

prefix-renew :
    (n : Network) (m : ℕ) (c : ConnectionState) (q : ExtendedIpReachability)
    → (renew n m c q).prefix ≡ q.prefix
prefix-renew n m c q = elim (Bool-cases (q.prefix == n)) [
  | inl here ↦ rw here refl
  | inr away ↦ rw away refl
]

In-last : {A : Type 0} (xs : List A) (x : A) → In x (xs ++ x ∷ [])
In-last [] x = inl refl
In-last (y ∷ xs) x = inr (In-last xs x)

In-before : {A : Type 0} (xs ys : List A) (x : A) → In x xs → In x (xs ++ ys)
In-before [] ys x at = absurd at
In-before (y ∷ xs) ys x (inl same) = inl same
In-before (y ∷ xs) ys x (inr later) = inr (In-before xs ys x later)

-- Every TLV with the network after the step for that network.
pub step-Advertises :
    (n : Network) (m : ℕ) (c : ConnectionState) (ps : List ExtendedIpReachability)
    → Advertises n m c (step n m c ps)
step-Advertises n m c ps = elim (Bool-cases (has_prefix n ps)) [
  | inl there ↦
      let (q, i, own) = has_prefix-In n ps there in
      rw there (
        (renew n m c q, renew_all-In n m c ps q i, prefix-renew n m c q ∙ own),
        λ r at mine.
            let (p, j, same) = In-renew_all n m c ps r at in
            elim (renew-cases n m c p) [
              | inl (_, new) ↦ (ap (λ y. y.metric) (same ∙ new), ap (λ y. y.state) (same ∙ new))
              | inr (other, old) ↦ absurd (other (ap (λ y. y.prefix) (sym (same ∙ old)) ∙ mine))
            ],
      )
  | inr missing ↦
      let new : ExtendedIpReachability = record { prefix = n; metric = m; state = c } in
      rw missing (
        (new, In-last ps new, refl),
        λ r at mine. elim (In-append r ps (new ∷ []) at) [
          | inl before ↦ absurd (cc (In-has_prefix n ps r before mine, missing))
          | inr (inl same) ↦ (ap (λ y. y.metric) (sym same), ap (λ y. y.state) (sym same))
          | inr (inr never) ↦ absurd never
        ],
      )
]

-- The step for another interface keeps what is advertised, unless it is of the same network with
-- another metric or state.
pub Advertises-step :
    (n n' : Network) (m m' : ℕ) (c c' : ConnectionState) (ps : List ExtendedIpReachability)
    → (n' ≡ n → (m' ≡ m) × (c' ≡ c))
    → Advertises n m c ps
    → Advertises n m c (step n' m' c' ps)
Advertises-step n n' m m' c c' ps agree ((q, i, own), all) = elim (Bool-cases (has_prefix n' ps)) [
  | inl there ↦ rw there (
    (renew n' m' c' q, renew_all-In n' m' c' ps q i, prefix-renew n' m' c' q ∙ own),
    λ r at mine.
        let (p, j, same) = In-renew_all n' m' c' ps r at in
        let p_n : p.prefix ≡ n =
          sym (prefix-renew n' m' c' p) ∙ ap (λ y. y.prefix) (sym same) ∙ mine in
        elim (renew-cases n' m' c' p) [
          | inl (p_n', new) ↦
              let (metric, state) = agree (sym p_n' ∙ p_n) in
              (ap (λ y. y.metric) (same ∙ new) ∙ metric, ap (λ y. y.state) (same ∙ new) ∙ state)
          | inr (other, old) ↦
              let (metric, state) = all p j p_n in
              (ap (λ y. y.metric) (same ∙ old) ∙ metric, ap (λ y. y.state) (same ∙ old) ∙ state)
        ],
  )
  | inr missing ↦
      let new : ExtendedIpReachability = record { prefix = n'; metric = m'; state = c' } in
      rw missing (
        (q, In-before ps (new ∷ []) q i, own),
        λ r at mine. elim (In-append r ps (new ∷ []) at) [
          | inl before ↦ all r before mine
          | inr (inl same) ↦
              let (metric, state) = agree (ap (λ y. y.prefix) same ∙ mine) in
              (ap (λ y. y.metric) (sym same) ∙ metric, ap (λ y. y.state) (sym same) ∙ state)
          | inr (inr never) ↦ absurd never
        ],
      )
]
