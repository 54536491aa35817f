-- ===== src/Health/Election/Best.antt =====
-- Whoever proposes what in which order, health/health.go ends with the preferred live server.
use gnatsd.Prelude.{
  ℕ, true, false, [], ◌∷◌, ltb, leb, Bytes, bytes_eq, bytes_eq→eq, ◌⊎◌, ◌≡◌, refl, sym, ◌∙◌, ap,
  arith, inl, inr, Bool-cases,
}
use gnatsd.Health.Election.{
  HostPort, AgentLoc, LeadHolder, accept, string_lt, less_than_string, ranks_before,
  agent_loc_less_than, set_leader,
}
use gnatsd.Health.Election.Order.{agent_loc_less_than-IsStrict}

string_lt_total :
    (a b : Bytes) → bytes_eq a b ≡ false → string_lt a b ≡ false → string_lt b a ≡ true
unfolding string_lt bytes_eq
string_lt_total [] [] p q = absurd (ground (arith, p))
string_lt_total [] (y ∷ b) p q = absurd (ground (arith, q))
string_lt_total (x ∷ a) [] p q = refl
string_lt_total (x ∷ a) (y ∷ b) p q = ground (arith, p, q, string_lt_total a b)

string-total :
    (a b : Bytes)
    → bytes_eq a b ≡ false
    → less_than_string a b ≡ false
    → less_than_string b a ≡ true
unfolding less_than_string bytes_eq
string-total a [] p q = absurd (ground (arith, q))
string-total [] (y ∷ b) p q = refl
string-total (x ∷ a) (y ∷ b) p q = string_lt_total (x ∷ a) (y ∷ b) p q

bytes_eq_sym : (a b : Bytes) → bytes_eq a b ≡ bytes_eq b a
unfolding bytes_eq
bytes_eq_sym [] [] = refl
bytes_eq_sym [] (y ∷ b) = refl
bytes_eq_sym (x ∷ a) [] = refl
bytes_eq_sym (x ∷ a) (y ∷ b) = ground (arith, bytes_eq_sym a b)

abbrev nowhere : HostPort
nowhere = record { host = []; port = 0 }

-- A server without the addresses of `Grpc`, which are never compared.
abbrev pub bare : AgentLoc → AgentLoc
bare s = record s { grpc = record { external = nowhere; internal = nowhere } }

bare-before : (a b : AgentLoc) → agent_loc_less_than (bare a) (bare b) ≡ agent_loc_less_than a b
unfolding agent_loc_less_than ranks_before
bare-before a b = refl

-- Servers with an id, of which none is preferred, are the same: all that is compared is equal.
ranks_before-same :
    (i j : AgentLoc) → ranks_before i j ≡ false → ranks_before j i ≡ false → bare i ≡ bare j
unfolding ranks_before
ranks_before-same i j p q =
    let a = string-total i.id j.id in
    let b = string-total i.nats_host j.nats_host in
    let c = bytes_eq_sym i.id j.id in
    let d = bytes_eq_sym i.nats_host j.nats_host in
    let rank : i.rank ≡ j.rank = ground (arith, p, q) in
    let ids : bytes_eq i.id j.id ≡ true = ground (arith, p, q, a, c) in
    let hosts : bytes_eq i.nats_host j.nats_host ≡ true = ground (arith, p, q, b, c, d, ids) in
    let port : i.nats_client_port ≡ j.nats_client_port = ground (arith, p, q, c, d, ids, hosts) in
    let pid : i.pid ≡ j.pid = ground (arith, p, q, c, d, ids, hosts, port) in
    let lease : i.lease_expires ≡ j.lease_expires =
      ground (arith, p, q, c, d, ids, hosts, port, pid) in
    ap (λ x. record (bare i) { rank = x }) rank
    ∙ ap (λ x. record (bare i) { rank = j.rank; id = x }) (bytes_eq→eq i.id j.id ids)
    ∙ ap
        (λ x. record (bare j) {
          nats_host = x;
          nats_client_port = i.nats_client_port;
          pid = i.pid;
          lease_expires = i.lease_expires;
        })
        (bytes_eq→eq i.nats_host j.nats_host hosts)
    ∙ ap
        (λ x. record (bare j) {
          nats_client_port = x;
          pid = i.pid;
          lease_expires = i.lease_expires;
        })
        port
    ∙ ap (λ x. record (bare j) { pid = x; lease_expires = i.lease_expires }) pid
    ∙ ap (λ x. record (bare j) { lease_expires = x }) lease

same_agent :
    (i j : AgentLoc)
    → bytes_eq i.id [] ≡ false
    → agent_loc_less_than i j ≡ false
    → agent_loc_less_than j i ≡ false
    → bare i ≡ bare j
unfolding agent_loc_less_than
same_agent i j n p q = ranks_before-same i j (ground (arith, n, p, q)) (ground (arith, n, p, q))

-- A server with an id and a lease that has not expired.
abbrev pub IsLive : ℕ → AgentLoc → Type 0
IsLive now s = (bytes_eq s.id [] ≡ false) × (leb s.lease_expires now ≡ false)

-- The first is the second, but for the addresses of `Grpc`, or is preferred to it.
abbrev pub Prefers : AgentLoc → AgentLoc → Type 0
Prefers d q = (bare q ≡ bare d) ⊎ (agent_loc_less_than d q ≡ true)

pub Prefers-trans : (a b c : AgentLoc) → Prefers a b → Prefers b c → Prefers a c
Prefers-trans a b c (inl p) (inl q) = inl (q ∙ p)
Prefers-trans a b c (inl p) (inr q) =
    inr (
      sym (bare-before a c)
      ∙ ap (λ x. agent_loc_less_than x (bare c)) (sym p)
      ∙ bare-before b c
      ∙ q)
Prefers-trans a b c (inr p) (inl q) =
    inr (sym (bare-before a c) ∙ ap (agent_loc_less_than (bare a)) q ∙ bare-before a b ∙ p)
Prefers-trans a b c (inr p) (inr q) = inr (agent_loc_less_than-IsStrict.0 a b c p q)

-- Two servers that are preferred to each other are the same, but for those addresses.
pub Prefers-antisym : (a b : AgentLoc) → Prefers a b → Prefers b a → bare a ≡ bare b
Prefers-antisym a b (inl p) q = sym p
Prefers-antisym a b (inr p) (inl q) = q
Prefers-antisym a b (inr p) (inr q) =
    absurd
      (ground (arith, agent_loc_less_than-IsStrict.0 a b a p q, agent_loc_less_than-IsStrict.1 a))

-- The two ends of `setLeader`.
abbrev pub Outcome : ℕ → AgentLoc → LeadHolder → LeadHolder → Type 0
Outcome now s e d =
    ((d ≡ e) × (IsLive now s → (leb e.sloc.lease_expires now ≡ false) × Prefers e.sloc s))
    ⊎ ((d ≡ accept s e)
        × IsLive now s
        × (leb e.sloc.lease_expires now ≡ false → agent_loc_less_than s e.sloc ≡ true))

pub set_leader-Outcome :
    (now : ℕ) (s : AgentLoc) (e : LeadHolder) → Outcome now s e (set_leader now s e).1
unfolding set_leader
set_leader-Outcome now s e = elim (Bool-cases (bytes_eq s.id [])) [
  | inl a ↦ inl (rw a refl, λ live. absurd (ground (arith, a, live.0)))
  | inr a ↦ elim (Bool-cases (leb s.lease_expires now)) [
    | inl b ↦ inl (rw (a, b) refl, λ live. absurd (ground (arith, b, live.1)))
    | inr b ↦ elim (Bool-cases (leb e.sloc.lease_expires now)) [
      | inl c ↦ inr (rw (c, a, b) refl, (a, b), λ h. absurd (ground (arith, c, h)))
      | inr c ↦ elim (Bool-cases (agent_loc_less_than s e.sloc)) [
        | inl d ↦ inr (rw (d, a, b, c) refl, (a, b), λ h. d)
        | inr d ↦ elim (Bool-cases (agent_loc_less_than e.sloc s)) [
          | inl f ↦ inl (rw (d, f, a, b, c) refl, λ live. (c, inr f))
          | inr f ↦
              let p = same_agent s e.sloc a d f in
              let level : ltb e.sloc.lease_expires s.lease_expires ≡ false =
                ground (arith, ap (λ x. x.lease_expires) p) in
              inl (rw (d, f, level, a, b, c) refl, λ live. (c, inl p))
        ]
      ]
    ]
  ]
]
