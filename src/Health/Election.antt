-- ===== src/Health/Election.antt =====
-- health/health.go and health/aloc.go: how a leader is chosen, by rank, and kept, by lease.
pub mod Order
pub mod Best
pub mod Agree
mod Tests
use gnatsd.Prelude.{
  ℕ, ◌+◌, Bool, true, false, List, [], ◌∷◌, Option, none, some, ltb, leb, ◌==◌, ◌||◌, ◌&&◌, not,
  if◌then◌else◌, Bytes, bytes_eq, map,
}
use gnatsd.Prelude.Int.{ℤ}
use gnatsd.Health.RingBuf.{RingBuf, append}

pub record HostPort : Type 0 where
  pub host : Bytes
  pub port : ℕ

pub record ExtInt : Type 0 where
  pub external : HostPort
  pub internal : HostPort

-- A server of the cluster. Strings are their bytes, numbers start at 0, and `LeaseExpires` is in
-- nanoseconds.
pub record AgentLoc : Type 0 where
  pub id : Bytes
  pub nats_host : Bytes
  pub nats_client_port : ℕ
  pub grpc : ExtInt
  pub lease_expires : ℕ
  pub rank : ℕ
  pub pid : ℕ

-- `i < j` of strings, in Go.
unfoldable pub string_lt : Bytes → Bytes → Bool
string_lt i [] = false
string_lt [] (y ∷ j) = true
string_lt (x ∷ i) (y ∷ j) =
    let rest = string_lt i j in if ltb x y then true else if ltb y x then false else rest

-- `lessThanString`
unfoldable pub less_than_string : Bytes → Bytes → Bool
unfolding string_lt
less_than_string i [] = true
less_than_string [] (y ∷ j) = false
less_than_string (x ∷ i) (y ∷ j) = string_lt (x ∷ i) (y ∷ j)

-- `AgentLocLessThan` of servers with an id, from the rank on.
unfoldable pub ranks_before : AgentLoc → AgentLoc → Bool
unfolding less_than_string
ranks_before i j =
    if not (i.rank == j.rank)
    then ltb i.rank j.rank
    else if not (bytes_eq i.id j.id)
    then less_than_string i.id j.id
    else if not (bytes_eq i.nats_host j.nats_host)
    then less_than_string i.nats_host j.nats_host
    else if not (i.nats_client_port == j.nats_client_port)
    then ltb i.nats_client_port j.nats_client_port
    else if not (i.pid == j.pid)
    then ltb i.pid j.pid
    else ltb j.lease_expires i.lease_expires

-- `AgentLocLessThan`
unfoldable pub agent_loc_less_than : AgentLoc → AgentLoc → Bool
unfolding ranks_before
agent_loc_less_than i j =
    if bytes_eq i.id [] && bytes_eq j.id []
    then false
    else if bytes_eq j.id []
    then true
    else if bytes_eq i.id []
    then false
    else ranks_before i j

-- The parts of `leadHolder` that an election reads or writes. The ring `history` takes no more leaders
-- once it is full: `setLeader` ignores the error of `Append`.
pub record LeadHolder : Type 0 where
  pub sloc : AgentLoc
  pub history : RingBuf AgentLoc

-- The stores of `setLeader` where the new server wins.
abbrev pub accept : AgentLoc → LeadHolder → LeadHolder
accept sloc e = record { sloc = sloc; history = (append (some sloc) e.history).0 }

-- `setLeader`: whether the new server won, and the state; `alt` is the leader in that state.
unfoldable pub set_leader : ℕ → AgentLoc → LeadHolder → Bool × LeadHolder
unfolding agent_loc_less_than
set_leader now sloc e =
    let cur_expired = leb e.sloc.lease_expires now in
    let new_expired = leb sloc.lease_expires now in
    let new_won = cur_expired || agent_loc_less_than sloc e.sloc in
    let old_won = not cur_expired && agent_loc_less_than e.sloc sloc in
    if bytes_eq sloc.id []
    then (false, e)
    else if new_expired
    then (false, e)
    else if not new_won && not old_won
    then if ltb e.sloc.lease_expires sloc.lease_expires then (true, accept sloc e) else (false, e)
    else if new_won
    then (true, accept sloc e)
    else (false, e)

-- Proposals in turn, at one time.
unfoldable pub set_leaders : ℕ → List AgentLoc → LeadHolder → LeadHolder
unfolding set_leader
set_leaders now [] e = e
set_leaders now (sloc ∷ slocs) e = set_leaders now slocs (set_leader now sloc e).1
