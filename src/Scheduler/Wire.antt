-- ===== src/Scheduler/Wire.antt =====
-- What a job keeps on its way through the consensus log, and what the clients of the log do.
use not_ahivemind.Base.{
  ℕ, zero, suc, ◌+◌, ◌<◌, ◌≡◌, ◌≢◌, ◌⊎◌, inl, inr, refl, ap, ◌∙◌, Bool, true, false, not, ◌&&◌,
  ◌||◌, Option, none, some, List, [], ◌∷◌, arith, if◌then◌else◌, Bool-cases, Option-cases, Text,
  text_eq_iff,
}
use not_ahivemind.Base.Int.{ℤ, pos}
use not_ahivemind.Models.{JobPayload, heartbeat_failed}
use not_ahivemind.Scheduler.State.{JobRef, JobCell, State}
use not_ahivemind.Scheduler.Messages.{
  commit_object, cast_from_global_model, fetched, fetch_job, failed, no_requirement, dispatch_job,
  is_empty_text,
}
use not_ahivemind.Scheduler.RaftClient.{
  RaftClient, open_link, switch_connection, heal_from, heal_connection, raft_tick, raft_ticks,
  take_over,
}

module _ (unmarshal : List ℕ → Option JobPayload) (address : ℕ) (job : JobRef) (cell : JobCell)
    (bytes : List ℕ) (others : List (List ℕ))
    (reads : unmarshal bytes ≡ some (commit_object job cell)) where
  -- A job that CommitJob has written and FetchJob reads has its ID, image, priority, payload and status,
  -- and asks for no processors and no memory, whatever it asked for; so no cluster is sent it.
  fetched_job_refused :
      (node_id : Text) (answer : Option Bool) (s : State)
      → is_empty_text job.id ≡ false
      → is_empty_text job.image_alias ≡ false
      → let ref = record job {
        address = address;
        cpu_requirement = pos 0;
        memory_requirement = pos 0;
      } in
        (fetch_job unmarshal address (fetched (bytes ∷ others) true)
          ≡ some (ref, record { status = cell.status; assigned_cluster_id = []; response = [] }))
        × (dispatch_job node_id true answer ref s ≡ (s, failed no_requirement))
  unfolding fetch_job cast_from_global_model commit_object dispatch_job
  fetched_job_refused node_id answer s id image = (rw reads refl, rw (dispatch_job, id, image) refl)

-- When nobody writes after the HeartbeatFailed event of another scheduler, that event is what is read
-- back, and the takeover ends there: RedistributedJobs is not committed.
silent_not_taken_over :
    (second : Bool) (own dead entry : Text) (timestamp : ℤ)
    → own ≢ dead
    → take_over
        (true, second)
        (some
          (record { id = dead; origin_scheduler_id = own; entry = entry; timestamp = timestamp }))
        dead
      ≡ heartbeat_failed ∷ []
unfolding take_over
silent_not_taken_over second own dead entry timestamp ne = ground (arith, text_eq_iff own dead)

module _ (can_dial answers : Text → Bool) where
  abbrev is_reachable : Text → Bool
  is_reachable addr = can_dial addr && answers addr

  -- The first reachable address of a list.
  abbrev pub first_reachable : List Text → Option Text
  first_reachable [] = none
  first_reachable (addr ∷ pool) =
      if can_dial addr && answers addr then some addr else first_reachable pool

  switched-address :
      (addr new : Text) (c : RaftClient)
      → (let t = (switch_connection can_dial addr c).0 in
          record t { address = new; link = open_link })
        ≡ record c { address = new; link = open_link }
  unfolding switch_connection
  switched-address addr new c = ground arith

  switched-dialled :
      (addr : Text) (c : RaftClient) → (switch_connection can_dial addr c).1 ≡ can_dial addr
  unfolding switch_connection
  switched-dialled addr c = ground arith

  switched_to :
      (addr : Text) (c : RaftClient)
      → can_dial addr ≡ true
      → switch_connection can_dial addr c ≡ (record c { address = addr; link = open_link }, true)
  unfolding switch_connection
  switched_to addr c d = ground arith

  heal_found :
      (pool : List Text) (c : RaftClient) (addr : Text)
      → first_reachable pool ≡ some addr
      → heal_from can_dial answers pool c ≡ (record c { address = addr; link = open_link }, true)
  unfolding heal_from
  heal_found [] c addr e = absurd (cc)
  heal_found (a ∷ pool) c addr e = elim (Bool-cases (can_dial a && answers a)) [
    | inl r ↦
        let d : can_dial a ≡ true = ground arith in
        let n : answers a ≡ true = ground arith in
        let same : a ≡ addr = ground (arith, r) in rw (heal_from, switched_to a c d, n, same) refl
    | inr r ↦
        let later : first_reachable pool ≡ some addr = ground (arith, r) in
        rw (heal_from, switched-dialled a c, r)
          (heal_found pool (switch_connection can_dial a c).0 addr later
            ∙ ap (λ (t : RaftClient). (t, true)) (switched-address a addr c))
  ]

  heal_lost :
      (pool : List Text) (c : RaftClient)
      → first_reachable pool ≡ none
      → (heal_from can_dial answers pool c).1 ≡ false
  unfolding heal_from
  heal_lost [] c e = refl
  heal_lost (a ∷ pool) c e = elim (Bool-cases (can_dial a && answers a)) [
    | inl r ↦ absurd (ground (arith, r))
    | inr r ↦
        let later : first_reachable pool ≡ none = ground (arith, r) in
        rw (heal_from, switched-dialled a c, r)
          (heal_lost pool (switch_connection can_dial a c).0 later)
  ]

  -- healConnection gives no error exactly where an address of the pool can be dialled and answers, and
  -- the client is then connected to the first such address.
  heal_connection_lem :
      (c : RaftClient)
      → ((addr : Text) × (first_reachable c.address_pool ≡ some addr)
          × (heal_connection can_dial answers c
              ≡ (record c { address = addr; link = open_link }, true)))
        ⊎ ((first_reachable c.address_pool ≡ none)
            × ((heal_connection can_dial answers c).1 ≡ false))
  unfolding heal_connection
  heal_connection_lem c = elim (Option-cases (first_reachable c.address_pool)) [
    | inl o ↦ inr (o, heal_lost c.address_pool c o)
    | inr (addr, o) ↦ inl (addr, o, heal_found c.address_pool c addr o)
  ]

-- Whether the first `n` ticks find the log unreachable.
abbrev pub starts_lost : ℕ → List Bool → Bool
starts_lost zero ts = true
starts_lost (suc n) [] = false
starts_lost (suc n) (t ∷ ts) = not t && starts_lost n ts

-- Whether three ticks in a row do.
abbrev pub has_three_lost : List Bool → Bool
has_three_lost [] = false
has_three_lost (t ∷ ts) = starts_lost 3 (t ∷ ts) || has_three_lost ts

module _ (ts : List Bool) (count : ℕ) where
  ticks-true : raft_ticks (true ∷ ts) count ≡ raft_ticks ts 0
  unfolding raft_ticks raft_tick
  ticks-true = refl

  ticks-false : count < 2 → raft_ticks (false ∷ ts) count ≡ raft_ticks ts (count + 1)
  unfolding raft_ticks raft_tick
  ticks-false h = ground arith

  ticks-last : raft_ticks (false ∷ ts) (count + 2) ≡ true
  unfolding raft_ticks raft_tick
  ticks-last = ground arith

starts_two : (ts : List Bool) → starts_lost 2 ts ≡ true → starts_lost 1 ts ≡ true
starts_two [] h = cc
starts_two (t ∷ []) h = ground arith
starts_two (t ∷ u ∷ ts) h = ground arith

raft_ticks_cases :
    (ts : List Bool)
    → (raft_ticks ts 0 ≡ has_three_lost ts)
      × (raft_ticks ts 1 ≡ (starts_lost 2 ts || has_three_lost ts))
      × (raft_ticks ts 2 ≡ (starts_lost 1 ts || has_three_lost ts))
raft_ticks_cases [] = unfold raft_ticks in (refl, refl, refl)
raft_ticks_cases (true ∷ ts) =
    let (zeroth, first, second) = raft_ticks_cases ts in
    (ticks-true ts 0 ∙ zeroth, ticks-true ts 1 ∙ zeroth, ticks-true ts 2 ∙ zeroth)
raft_ticks_cases (false ∷ ts) =
    let (zeroth, first, second) = raft_ticks_cases ts in
    (
      ticks-false ts 0 (omega arith) ∙ first,
      ticks-false ts 1 (omega arith) ∙ second ∙ ground (arith, starts_two ts),
      ticks-last ts 0,
    )

-- The scheduler is killed exactly where three ticks in a row find the log unreachable.
raft_ticks_lem : (ts : List Bool) → raft_ticks ts 0 ≡ has_three_lost ts
raft_ticks_lem ts = (raft_ticks_cases ts).0
