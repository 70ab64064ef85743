-- ===== src/Raft/Commit.antt =====
-- The end of AddLog in internal/consensus/service/add.go: what a request that is resolved as true means
-- for the logs of the followers.
use not_ahivemind.Base.{
  ℕ, ◌+◌, ◌*◌, ◌≤◌, ◌<◌, ◌≡◌, ◌≢◌, refl, inl, inr, Bool, true, List, [], ◌∷◌, arith, length, map,
  if◌then◌else◌, All, Bool-cases,
}
use not_ahivemind.Storage.Codec.Frame.{IsEncodable}
use not_ahivemind.Storage.Handler.{LogName}
use not_ahivemind.Storage.Valid.{IsValid}
use not_ahivemind.Raft.State.{Moment}
use not_ahivemind.Raft.Node.{Node}
use not_ahivemind.Raft.Append.{AppendRequest, AppendResponse, success, entry_of, append_entries}
use not_ahivemind.Raft.Leader.{Delivery, answered, failed, acknowledges, successful_acks, settle}
use not_ahivemind.Raft.Place.{no_faults}
use not_ahivemind.Raft.Replication.{EndsWith}
use not_ahivemind.Raft.Delivery.{append_entries_success}

-- A follower when the request comes, and whether its answer comes back in time.
pub record Follower : Type 0 where
  pub log : LogName
  pub time : Moment
  pub node : Node
  pub is_reached : Bool

abbrev pub IsSound : Follower → Type 0
IsSound f = IsValid f.log f.node.handler

-- The first list is a part of the second, in the same order.
pub data Picks {ℓ} {A : Type ℓ} : List A → List A → Type ℓ where
  nothing_left : Picks [] []
  passes_over : {xs ys : List A} (y : A) → Picks xs ys → Picks xs (y ∷ ys)
  picks : {xs ys : List A} (y : A) → Picks xs ys → Picks (y ∷ xs) (y ∷ ys)

module _ (req : AppendRequest) where
  -- The answer of a follower that is reached is its AppendEntries of the request.
  abbrev pub deliver : Follower → Delivery
  deliver f =
      if f.is_reached then answered (append_entries no_faults f.time req f.node).1 else failed

  -- The follower's log after the request is valid and ends with the entry.
  abbrev pub Holds : Follower → Type 0
  Holds f =
      EndsWith f.log f.node.handler (entry_of req)
        (append_entries no_faults f.time req f.node).0.handler

  abbrev Collected : List Follower → Type 0
  Collected fs =
      (holders : List Follower) × Picks holders fs
      × All Holds holders
      × (successful_acks (map deliver fs) ≡ 1 + length holders)

  answered_success :
      (resp : AppendResponse) → acknowledges (answered resp) ≡ true → resp.status ≡ success
  unfolding acknowledges
  answered_success resp h = ground arith

  module _ (fits : IsEncodable (entry_of req)) (loaded : req.payload ≢ []) where
    acknowledged-Holds : (f : Follower) → IsSound f → acknowledges (deliver f) ≡ true → Holds f
    unfolding acknowledges
    acknowledged-Holds f v h = elim (Bool-cases f.is_reached) [
      | inl reached ↦
          (append_entries_success f.log f.time req f.node v fits loaded (
            answered_success (append_entries no_faults f.time req f.node).1
              (ground (arith, reached, h)))).3
      | inr lost ↦ absurd (ground (arith, lost, h))
    ]

    collect : (fs : List Follower) → All IsSound fs → Collected fs
    unfolding successful_acks
    collect [] v = ([], nothing_left, tt, refl)
    collect (f ∷ fs) (v, vs) =
        let (holders, part, hold, count) = collect fs vs in
        elim (Bool-cases (acknowledges (deliver f))) [
          | inl a ↦ (
            f ∷ holders,
            picks f part,
            (acknowledged-Holds f v a, hold),
            ground (arith, a, count),
          )
          | inr a ↦ (holders, passes_over f part, hold, ground (arith, a, count))
        ]

module _ (total_nodes next_idx : ℕ) (deliveries : List Delivery) (n : Node) where
  settle-true :
      (settle total_nodes next_idx deliveries n).1 ≡ true
      → (total_nodes < 2 * successful_acks deliveries)
        × (next_idx ≤ (settle total_nodes next_idx deliveries n).0.commit_index)
  unfolding settle
  settle-true h = ground arith

-- The leader resolves a request as true when each follower has either answered it or failed to, and none
-- is being caught up. Where the followers' logs were valid, the entry is encodable and not empty and no
-- write fails, more than half of the nodes, the leader counted among them, are the leader and followers
-- whose logs are valid and end with the entry; the commit index has reached the entry's.
pub settle-Holds :
    (req : AppendRequest) (total_nodes next_idx : ℕ) (fs : List Follower) (n : Node)
    → IsEncodable (entry_of req)
    → req.payload ≢ []
    → All IsSound fs
    → (settle total_nodes next_idx (map (deliver req) fs) n).1 ≡ true
    → (holders : List Follower) × Picks holders fs
      × All (Holds req) holders
      × (total_nodes < 2 * (1 + length holders))
      × (next_idx ≤ (settle total_nodes next_idx (map (deliver req) fs) n).0.commit_index)
settle-Holds req total_nodes next_idx fs n fits loaded v h =
    let (holders, part, hold, count) = collect req fits loaded fs v in
    let (majority, reached) = settle-true total_nodes next_idx (map (deliver req) fs) n h in
    (holders, part, hold, omega (arith, majority, count), reached)
