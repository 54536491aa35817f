-- ===== src/Health/Election/Tests.antt =====
-- Elections of health/health.go, and their theorem at concrete inputs.
use gnatsd.Prelude.{ℕ, true, List, [], ◌∷◌, Bytes, ◌≡◌, refl, inl, inr}
use gnatsd.Health.RingBuf.{new_ring_buf}
use gnatsd.Health.Election.{AgentLoc, LeadHolder, set_leader, set_leaders}
use gnatsd.Health.Election.Best.{bare}
use gnatsd.Health.Election.Agree.{Among, set_leaders-agree}

abbrev agent : ℕ → ℕ → Bytes → AgentLoc
agent rank lease name = record {
  id = name;
  nats_host = [];
  nats_client_port = 4222;
  grpc = record {
    external = record { host = []; port = 1 };
    internal = record { host = []; port = 2 };
  };
  lease_expires = lease;
  rank = rank;
  pid = 1;
}

-- No leader yet.
abbrev nobody : LeadHolder
nobody = record { sloc = agent 0 0 []; history = new_ring_buf 100 }

-- `ann` is preferred by rank, but her lease is over.
abbrev ann : AgentLoc
ann = agent 0 5 (97 ∷ [])

abbrev bob : AgentLoc
bob = agent 1 20 (98 ∷ [])

abbrev cat : AgentLoc
cat = agent 2 20 (99 ∷ [])

bob_elected : (set_leaders 10 (cat ∷ ann ∷ bob ∷ []) nobody).sloc ≡ bob
unfolding set_leaders gnatsd.Prelude.bytes_eq
bob_elected = refl

-- A later lease of the same server renews its lease.
lease_renewed :
    (set_leader 10 (agent 1 30 (98 ∷ [])) (record { sloc = bob; history = new_ring_buf 100 })).0
    ≡ true
unfolding set_leader gnatsd.Prelude.bytes_eq
lease_renewed = refl

set_leaders-agree_example :
    bare (set_leaders 10 (cat ∷ bob ∷ []) nobody).sloc
    ≡ bare (set_leaders 10 (bob ∷ cat ∷ []) nobody).sloc
unfolding gnatsd.Prelude.bytes_eq
set_leaders-agree_example =
    set_leaders-agree 10 (cat ∷ bob ∷ []) (bob ∷ cat ∷ []) nobody nobody bob (swapped cat bob)
      (swapped bob cat) refl refl (inr (inl refl)) (refl, refl)
  where
    swapped : (a b s : AgentLoc) → Among s (a ∷ b ∷ []) → Among s (b ∷ a ∷ [])
    swapped a b s (inl p) = inr (inl p)
    swapped a b s (inr (inl p)) = inl p
    swapped a b s (inr (inr p)) = absurd p
