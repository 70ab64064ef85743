-- ===== src/Raft/Node.antt =====
-- The node of internal/consensus/service/node.go, and what several of its handlers share.
use not_ahivemind.Base.{
  ℕ, ◌+◌, ◌/◌, Bool, true, false, none, some, List, [], ◌∷◌, ltb, ◌==◌, if◌then◌else◌, Text,
  text_eq, Map, lookup, values,
}
use not_ahivemind.Storage.Codec.{LogEntry}
use not_ahivemind.Storage.Handler.{Handler}
use not_ahivemind.Storage.Reader
use not_ahivemind.Raft.State.{Moment, State, become_follower, set_current_term}

pub record Node : Type 0 where
  pub state : State
  pub handler : Handler
  pub peers : Map State
  pub commit_index : ℕ

-- The address to send a client to: that of the known leader, or nothing.
unfoldable pub leader_address : Node → Text
leader_address n =
    if text_eq n.state.leader_id []
    then []
    else if text_eq n.state.leader_id n.state.id
    then n.state.address
    else (elim (lookup n.state.leader_id n.peers) [ none ↦ [] | some peer ↦ peer.address ])

-- checkStepDown: whether the peer's term made the node a follower.
unfoldable pub check_step_down : Moment → ℕ → Node → Node × Bool
unfolding become_follower set_current_term
check_step_down t peer_term n =
    if ltb n.state.current_term peer_term
    then (record n { state = set_current_term peer_term (become_follower t n.state) }, true)
    else (n, false)

unfoldable pub first_term : List LogEntry → ℕ
first_term [] = 0
first_term (e ∷ es) = e.term

-- getPrevLogTerm.
unfoldable pub prev_log_term : ℕ → Handler → ℕ
unfolding first_term
prev_log_term prev_log_index h =
    if prev_log_index == h.disc_index
    then h.disc_term
    else if ltb 0 prev_log_index
    then first_term (Reader.entries prev_log_index (prev_log_index + 1) h)
    else 0

-- The number of nodes that make a majority, of the node and its peers.
unfoldable pub majority : ℕ → ℕ
majority peers = (peers + 1) / 2 + 1

count_connected : List State → ℕ
count_connected [] = 0
count_connected (p ∷ ps) = let rest = count_connected ps in if p.connected then rest + 1 else rest

-- NumberConnected of connections.go.
unfoldable pub number_connected : Node → ℕ
unfolding count_connected
number_connected n = count_connected (values n.peers)
