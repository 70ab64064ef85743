-- ===== src/Scheduler/Execution.antt =====
-- executeJobAssignment settles the job that it is called for.
use not_ahivemind.Base.{
  ℕ, ◌≡◌, ◌≢◌, ◌⊎◌, inl, inr, refl, sym, ap, ◌∙◌, Bool, true, false, List, [], ◌∷◌, arith, ltb,
  if◌then◌else◌, All, Bool-cases, Text,
}
use not_ahivemind.Scheduler.State.{JobRef, State, assign_job, unassign_job, purge_job, seconds}
use not_ahivemind.Scheduler.Lifecycle.{IsConsistent}
use not_ahivemind.Scheduler.Peers.{PeerScore, top_free_peers}
use not_ahivemind.Scheduler.Packer.{
  CommitResult, committed, concurrent_conflict, commit_failed, DispatchResult, dispatch_failed,
  refused, taken, attempt_job_assignment, Offer, unconnected, rejected, accepted, offer_job,
  redistribute, after_redistribute, RoutineIo, execute_job_assignment,
}
use not_ahivemind.Scheduler.Settling.{
  IsIssued, IsRefused, IsReached, IsSettled-later, dispatched, handed_over, in_limbo,
  unassign-Frames, unassign-IsSettled, purge-Frames, purge-absent, assign-Frames, assign-IsIssued,
  assign-placed, assign-ok, Frames-trans, Frames-refl, Settles,
}

Offer-cases : (o : Offer) → (o ≡ unconnected) ⊎ (o ≡ rejected) ⊎ (o ≡ accepted)
Offer-cases unconnected = inl refl
Offer-cases rejected = inr (inl refl)
Offer-cases accepted = inr (inr refl)

-- The peers that are asked: the best ones with room, five at most, and none once the quota is reached.
abbrev pub asked_peers : (List PeerScore → List PeerScore) → ℕ → JobRef → State → ℕ → ℕ → List Text
asked_peers sort_slice now job s redistributed quota =
    if ltb redistributed quota
    then top_free_peers sort_slice 5 now (seconds 5) job.cpu_requirement job.memory_requirement s
    else []

failed_dispatch : dispatch_failed ≢ taken
failed_dispatch p = ground arith

refused_dispatch : refused ≢ taken
refused_dispatch p = ground arith

conflicting : concurrent_conflict ≢ committed
conflicting p = ground arith

failed_commit : commit_failed ≢ committed
failed_commit p = ground arith

module _ (io : RoutineIo) (job : JobRef) (s : State) (v : IsConsistent s) (i : IsIssued job s) where
  unassign-Settles :
      (asked : List Text) (target : Text)
      → IsRefused io asked target
      → Settles io asked job target s (unassign_job job.id s)
  unassign-Settles asked target why =
      (unassign-Frames job s v i, unassign-IsSettled job s v i io asked target s why)

  -- The job as it is once AssignJob has been called.
  module _ (cluster : Text) where
    assigned : State
    assigned = (assign_job job.id cluster s).0

    assigned-IsConsistent : IsConsistent assigned
    unfolding assigned
    assigned-IsConsistent = (assign-Frames job s v i cluster).consistent

    assigned-IsIssued : IsIssued job assigned
    unfolding assigned
    assigned-IsIssued = assign-IsIssued job s v i cluster

    give_up-Settles :
        (asked : List Text)
        → IsRefused io asked cluster
        → Settles io asked job cluster s (unassign_job job.id assigned)
    unfolding assigned
    give_up-Settles asked why = (
      Frames-trans job s assigned _ (assign-Frames job s v i cluster)
          (unassign-Frames job assigned assigned-IsConsistent assigned-IsIssued),
      unassign-IsSettled job assigned assigned-IsConsistent assigned-IsIssued io asked cluster s
          why,
    )

    taken-Settles :
        (asked : List Text)
        → cluster ≢ []
        → io.commit ≡ committed
        → io.dispatch ≡ taken
        → Settles io asked job cluster s (assign_job job.id cluster assigned).0
    unfolding assigned
    taken-Settles asked given c d = (
      Frames-trans job s assigned _ (assign-Frames job s v i cluster)
          (assign-Frames job assigned assigned-IsConsistent assigned-IsIssued cluster),
      dispatched given c d
          (assign-IsIssued job assigned assigned-IsConsistent assigned-IsIssued cluster).running
          (assign-placed job assigned assigned-IsConsistent assigned-IsIssued cluster),
    )

    attempt-Settles :
        (asked : List Text)
        → cluster ≢ []
        → (commit : CommitResult) (dispatch : DispatchResult) → io.commit ≡ commit
        → io.dispatch ≡ dispatch
        → Settles io asked job cluster s (attempt_job_assignment commit dispatch cluster job s).0
    unfolding attempt_job_assignment assigned
    attempt-Settles asked given committed dispatch_failed c d =
        rw (attempt_job_assignment, assign-ok job s v i cluster)
          (give_up-Settles asked (inl (given, inr (λ e. failed_dispatch (sym d ∙ e)))))
    attempt-Settles asked given committed refused c d =
        rw (attempt_job_assignment, assign-ok job s v i cluster)
          (give_up-Settles asked (inl (given, inr (λ e. refused_dispatch (sym d ∙ e)))))
    attempt-Settles asked given committed taken c d =
        rw (attempt_job_assignment, assign-ok job s v i cluster) (taken-Settles asked given c d)
    attempt-Settles asked given concurrent_conflict dispatch c d =
        rw (attempt_job_assignment, assign-ok job s v i cluster)
          (give_up-Settles asked (inl (given, inl (λ e. conflicting (sym c ∙ e)))))
    attempt-Settles asked given commit_failed dispatch c d =
        rw (attempt_job_assignment, assign-ok job s v i cluster)
          (give_up-Settles asked (inl (given, inl (λ e. failed_commit (sym c ∙ e)))))

  offer_unconnected :
      (peer : Text) (peers : List Text)
      → io.offers peer ≡ unconnected
      → offer_job io.offers (peer ∷ peers) job s ≡ (s, true)
  unfolding offer_job
  offer_unconnected peer peers o = ground (arith, o)

  offer_rejected :
      (peer : Text) (peers : List Text)
      → io.offers peer ≡ rejected
      → offer_job io.offers (peer ∷ peers) job s ≡ offer_job io.offers peers job s
  unfolding offer_job
  offer_rejected peer peers o = ground (arith, o)

  offer_accepted :
      (peer : Text) (peers : List Text)
      → io.offers peer ≡ accepted
      → offer_job io.offers (peer ∷ peers) job s ≡ (purge_job job.id s, true)
  unfolding offer_job
  offer_accepted peer peers o = ground (arith, o)

  -- Every peer has rejected, the state is left and there is an error, or the job is settled.
  abbrev OfferEnds : List Text → State × Bool → Type 0
  OfferEnds peers r =
      ((r ≡ (s, false)) × All (λ peer. io.offers peer ≡ rejected) peers)
      ⊎ ((r.1 ≡ true) × Settles io peers job [] s r.0)

  OfferEnds-later :
      (peer : Text) (peers : List Text) (r : State × Bool)
      → io.offers peer ≡ rejected
      → OfferEnds peers r
      → OfferEnds (peer ∷ peers) r
  OfferEnds-later peer peers r o (inl (e, h)) = inl (e, (o, h))
  OfferEnds-later peer peers r o (inr (e, (f, h))) =
      inr (e, (f, IsSettled-later io peers job [] s r.0 peer refl o h))

  offer_job_cases : (peers : List Text) → OfferEnds peers (offer_job io.offers peers job s)
  unfolding offer_job
  offer_job_cases [] = inl (refl, tt)
  offer_job_cases (peer ∷ peers) = elim (Offer-cases (io.offers peer)) [
    | inl o ↦ inr (
        rw (offer_unconnected peer peers o)
          (refl, (Frames-refl job s v, in_limbo peer refl (first peer peers) o refl)))
    | inr (inl o) ↦
        rw (offer_rejected peer peers o) (OfferEnds-later peer peers _ o (offer_job_cases peers))
    | inr (inr o) ↦ inr (
        rw (offer_accepted peer peers o) (
          refl,
          (
            purge-Frames job s v i,
            handed_over peer refl (first peer peers) o (purge-absent job s v i),
          ),
        ))
  ]
    where
      first : (peer : Text) (peers : List Text) → IsReached io (peer ∷ peers) peer
      first peer peers = record { before = []; after = peers; split = refl; rejections = tt }

  redistributed-Settles :
      (asked : List Text) (r : State × Bool)
      → OfferEnds asked r
      → Settles io asked job [] s (after_redistribute job r)
  unfolding after_redistribute
  redistributed-Settles asked (t, true) (inl (e, h)) = absurd (cc)
  redistributed-Settles asked (t, true) (inr (e, h)) = h
  redistributed-Settles asked (t, false) (inl (e, h)) =
      rw (ap (λ (x : State × Bool). x.0) e) (unassign-Settles asked [] (inr (refl, h)))
  redistributed-Settles asked (t, false) (inr (e, h)) = absurd (cc)

  pub execute_job_assignment-Settles :
      (sort_slice : List PeerScore → List PeerScore) (target : Text) (redistributed quota : ℕ)
      → Settles io
          (asked_peers sort_slice io.now job s redistributed quota)
          job
          target
          s
          (execute_job_assignment sort_slice io job target redistributed quota s).0
  unfolding execute_job_assignment
  execute_job_assignment-Settles sort_slice [] redistributed quota =
      elim (Bool-cases (ltb redistributed quota)) [
        | inl l ↦
            rw (execute_job_assignment, l)
              (unfold redistribute in redistributed-Settles _ _ (offer_job_cases _))
        | inr l ↦ rw (execute_job_assignment, l) (unassign-Settles [] [] (inr (refl, tt)))
      ]
  execute_job_assignment-Settles sort_slice (c ∷ cs) redistributed quota =
      attempt-Settles (c ∷ cs) (asked_peers sort_slice io.now job s redistributed quota)
        (λ p. ground arith) io.commit io.dispatch refl refl
