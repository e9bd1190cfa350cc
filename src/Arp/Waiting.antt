-- ===== src/Arp/Waiting.antt =====
-- What becomes of the packets that wait in routersim/arp.py.
use router_sim.Base.{
  ℕ, ◌≡◌, refl, sym, ◌∙◌, ap, List, [], ◌∷◌, ◌++◌, none, some, nat_eq, get, get-set, get-delete,
  beq_refl, Option-cases, inl, inr,
}
use router_sim.Mpls.{IpPacket}
use router_sim.Arp.{
  ArpPacket, ArpHandler, Interface, lookup, remember, answers, release, flush, process, queued,
  enqueue,
}

-- Packets put into the queue one after the other.
abbrev pub enqueue_all : ℕ → List (IpPacket × Interface) → ArpHandler → ArpHandler
enqueue_all nh [] s = s
enqueue_all nh ((p, i) ∷ rest) s = enqueue_all nh rest (enqueue nh p i s)

append_assoc : {A : Type 0} (xs ys zs : List A) → (xs ++ ys) ++ zs ≡ xs ++ (ys ++ zs)
append_assoc [] ys zs = refl
append_assoc (x ∷ xs) ys zs = ap (λ l. x ∷ l) (append_assoc xs ys zs)

append_nil : {A : Type 0} (xs : List A) → xs ++ [] ≡ xs
append_nil [] = refl
append_nil (x ∷ xs) = ap (λ l. x ∷ l) (append_nil xs)

queued-enqueue_all :
    (nh : ℕ) (items : List (IpPacket × Interface)) (s : ArpHandler)
    → queued (get (enqueue_all nh items s).send_q nh) ≡ queued (get s.send_q nh) ++ items
unfolding enqueue
queued-enqueue_all nh [] s = sym (append_nil _)
queued-enqueue_all nh ((p, i) ∷ rest) s =
    queued-enqueue_all nh rest (enqueue nh p i s)
    ∙ rw (get-set, beq_refl nh) (append_assoc (queued (get s.send_q nh)) ((p, i) ∷ []) rest)

sent-enqueue_all :
    (nh : ℕ) (items : List (IpPacket × Interface)) (s : ArpHandler)
    → (enqueue_all nh items s).sent ≡ s.sent
unfolding enqueue
sent-enqueue_all nh [] s = refl
sent-enqueue_all nh ((p, i) ∷ rest) s = sent-enqueue_all nh rest (enqueue nh p i s)

sent-process :
    (now : ℕ) (p : ArpPacket) (i : Interface) (s : ArpHandler)
    → ((process now p i s).sent
        ≡ (s.sent ++ answers p i) ++ release p.hwsrc (queued (get s.send_q p.psrc)))
      × (get (process now p i s).send_q p.psrc ≡ none)
unfolding process flush remember release
sent-process now p i s = elim (Option-cases (get s.send_q p.psrc)) [
  | inl idle ↦ (rw (flush, idle) (sym (append_nil _)), rw (flush, idle) idle)
  | inr (items, waiting) ↦
      (rw (flush, waiting) refl, rw (flush, waiting, get-delete, beq_refl p.psrc) refl)
]

lookup-process :
    (now : ℕ) (p : ArpPacket) (i : Interface) (s : ArpHandler)
    → lookup p.psrc (process now p i s) ≡ some p.hwsrc
unfolding process flush remember lookup
lookup-process now p i s = elim (Option-cases (get s.send_q p.psrc)) [
  | inl idle ↦ rw (flush, idle, lookup, remember, get-set, beq_refl p.psrc) refl
  | inr (items, waiting) ↦ rw (flush, waiting, lookup, remember, get-set, beq_refl p.psrc) refl
]

-- Packets that were queued for an address are all sent, in their order and after any reply, to the
-- hardware address that a packet from there names; none is left, and the cache has the address.
pub process-enqueue_all :
    (now : ℕ) (p : ArpPacket) (i : Interface) (items : List (IpPacket × Interface)) (s : ArpHandler)
    → get s.send_q p.psrc ≡ none
    → ((process now p i (enqueue_all p.psrc items s)).sent
        ≡ (s.sent ++ answers p i) ++ release p.hwsrc items)
      × (get (process now p i (enqueue_all p.psrc items s)).send_q p.psrc ≡ none)
      × (lookup p.psrc (process now p i (enqueue_all p.psrc items s)) ≡ some p.hwsrc)
process-enqueue_all now p i items s empty =
    let t = enqueue_all p.psrc items s in
    let (sent, gone) = sent-process now p i t in
    let waiting : queued (get t.send_q p.psrc) ≡ items =
      rw (queued-enqueue_all p.psrc items s, empty) refl in
    (sent ∙ rw (waiting, sent-enqueue_all p.psrc items s) refl, gone, lookup-process now p i t)
