-- ===== src/Raft/Exchanges.antt =====
-- Runs of a leader, its peers and its clients: the theorems about them, applied.
use mathlib.Core.List.{flatten}
use not_ahivemind.Base.{
  ◌≤◌, ◌<◌, ◌≡◌, ◌⊎◌, refl, true, false, none, some, [], ◌∷◌, ◌++◌, arith, text_eq,
}
use not_ahivemind.Base.Int.{ℤ, pos, ◌≤ℤ◌}
use not_ahivemind.Storage.Samples.{origin, two_entries, two_entries-IsValid}
use not_ahivemind.Storage.Codec.{LogEntry}
use not_ahivemind.Storage.Writer.{WriteFault}
use not_ahivemind.Storage.Reader.{Peek, query_entries, query_loop, candidate, passes, member}
use not_ahivemind.Storage.Snapshot.{InstallFault, install_snapshot}
use not_ahivemind.Raft.State.{follower, leader, Moment}
use not_ahivemind.Raft.Node.{Node}
use not_ahivemind.Raft.Append.{success, append_entries}
use not_ahivemind.Raft.Leader.{RawAppendRequest, new_entry, replication_request, propose}
use not_ahivemind.Raft.Catchup.{catchup_request, chunks}
use not_ahivemind.Raft.Serve.{
  CasPeek, check_cas_conflict, compare_cas, repeats_claim, InstallSnapshotRequest, install_request,
}
use not_ahivemind.Raft.Place.{no_faults}
use not_ahivemind.Raft.Proposal.{propose-append_entries}
use not_ahivemind.Raft.Transfer.{receive, receive-chunks}
use not_ahivemind.Raft.Lagging.{Carries, catchup_request-Carries}
use not_ahivemind.Raft.Serving.{Meets, check_cas_conflict_claim, install_request_cases}
use not_ahivemind.Raft.Samples.{node_in}

abbrev now : Moment
now = record { now = 1000; draw = 7 }

abbrev wish : RawAppendRequest
wish = record { request_id = 9 ∷ []; scheduler_id = 65 ∷ []; payload = 7 ∷ 8 ∷ [] }

abbrev head_node : Node
head_node = node_in leader 3

abbrev peer_node : Node
peer_node = node_in follower 2

propose-append_entries_example :
    let n' = (propose WriteFault.no_fault wish head_node).0 in
    let (f', resp) = append_entries no_faults now (replication_request wish head_node) peer_node in
    ((propose WriteFault.no_fault wish head_node).1 ≡ some (replication_request wish head_node))
    × (resp.status ≡ success)
    × (n'.handler.entries ≡ two_entries.entries ++ new_entry wish head_node ∷ [])
    × (f'.handler.entries ≡ two_entries.entries ++ new_entry wish head_node ∷ [])
    × (f'.handler.prev_index ≡ n'.handler.prev_index)
    × (f'.handler.prev_term ≡ n'.handler.prev_term)
propose-append_entries_example =
    propose-append_entries origin origin now wish head_node peer_node two_entries-IsValid
      two_entries-IsValid refl (omega arith) refl refl (λ p. ground arith)

receive-chunks_example :
    let after = receive (chunks 3 9 4 0 ((1 ∷ 2 ∷ []) ∷ (3 ∷ []) ∷ [])) two_entries in
    (after.snapshot ≡ flatten ((1 ∷ 2 ∷ []) ∷ (3 ∷ []) ∷ []))
    × (after.temporary ≡ none)
    × (after.entries ≡ [])
    × (after.prev_index ≡ 9)
    × (after.prev_term ≡ 4)
    × (after.disc_index ≡ 9)
    × (after.disc_term ≡ 4)
unfolding flatten
receive-chunks_example =
    receive-chunks origin 3 9 4 (1 ∷ 2 ∷ []) ((3 ∷ []) ∷ []) two_entries refl (λ p. ground arith)
      ((λ p. ground arith), tt) refl

catchup_request-Carries_example :
    (e : LogEntry) × Carries two_entries 2 (catchup_request 2 head_node) e
catchup_request-Carries_example =
    catchup_request-Carries origin head_node 2 two_entries-IsValid (omega arith) (omega arith)

abbrev running_job : Peek
running_job bytes = some (record { id = 74 ∷ []; state = some (pos 1); entry = none })

abbrev running_cas : CasPeek
running_cas bytes =
    some (record { id = 74 ∷ []; state = some (pos 1); entry = none; timestamp = pos 0 })

check_cas_conflict_claim_example :
    (m : Meets running_job running_cas two_entries (7 ∷ [])) × (s : ℤ) × (m.incoming.state ≡ some s)
    × (m.current.state ≡ some s)
    × (pos 0 ≤ℤ s)
unfolding check_cas_conflict compare_cas repeats_claim query_entries query_loop candidate passes
    member text_eq
check_cas_conflict_claim_example =
    check_cas_conflict_claim running_job running_cas (7 ∷ []) two_entries refl

abbrev part : InstallSnapshotRequest
part = record {
  leader_id = 3 ∷ [];
  term = 4;
  chunk = record {
    offset = 0;
    bytes = 1 ∷ [];
    done = true;
    last_included_index = 5;
    last_included_term = 2;
  };
}

install_request_cases_example :
    ((part.term < 2)
      × (install_request InstallFault.no_fault now part peer_node ≡ (peer_node, some 2)))
    ⊎ ((2 ≤ part.term)
        × ((install_request InstallFault.no_fault now part peer_node).0.state.current_term ≡ 4)
        × ((install_request InstallFault.no_fault now part peer_node).0.state.role ≡ follower)
        × ((install_request InstallFault.no_fault now part peer_node).0.state.voted_for ≡ [])
        × ((install_request InstallFault.no_fault now part peer_node).0.handler
            ≡ (install_snapshot InstallFault.no_fault part.chunk two_entries).0)
        × ((((install_request InstallFault.no_fault now part peer_node).1 ≡ some 2)
              × ((install_snapshot InstallFault.no_fault part.chunk two_entries).1 ≡ false))
            ⊎ (((install_request InstallFault.no_fault now part peer_node).1 ≡ none)
                × ((install_snapshot InstallFault.no_fault part.chunk two_entries).1 ≡ true))))
install_request_cases_example = install_request_cases InstallFault.no_fault now part peer_node
