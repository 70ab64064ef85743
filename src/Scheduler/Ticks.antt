-- ===== src/Scheduler/Ticks.antt =====
-- A tick of the packer: no job is lost.
use not_ahivemind.Base.{
  ℕ, ◌≡◌, ◌⊎◌, inl, inr, ap, ◌∙◌, true, List, [], ◌∷◌, arith, All, Bool-cases, Text, text_eq,
  text_eq_iff,
}
use not_ahivemind.Scheduler.State.{JobRef, State}
use not_ahivemind.Scheduler.Lifecycle.{absent, waiting, finished, phase, IsConsistent}
use not_ahivemind.Scheduler.Peers.{PeerScore}
use not_ahivemind.Scheduler.Packer.{RoutineIo, accepted}
use not_ahivemind.Scheduler.Schedule.{reallocate_dead_cluster_jobs, process_batch, schedule_tick}
use not_ahivemind.Scheduler.Rounds.{named, HasWaited}
use not_ahivemind.Scheduler.Batch.{
  Ends, ends_waiting, ends_active, ends_elsewhere, ends_in_limbo, EndsIn, process_batch-IsRound,
}
use not_ahivemind.Scheduler.Reallocation.{reallocate_dead_cluster_jobs_lem}

module _ (outcomes : JobRef → RoutineIo) (s t : State) (k : Text) where
  -- A job of the batch has the ID.
  record IsHandled : Type 0 where
    job : JobRef
    same : job.id ≡ k
    waited : phase s job.id ≡ waiting
    ends : Ends (outcomes job) job.id t

  handled :
      (jobs : List (JobRef × Text))
      → named k jobs ≡ true
      → All (HasWaited s) jobs
      → All (EndsIn outcomes t) jobs
      → IsHandled
  handled [] n ws es = absurd (ground (arith, n))
  handled ((job, target) ∷ jobs) n ((known, w), ws) (e, es) = elim (Bool-cases (text_eq job.id k)) [
    | inl q ↦ record { job = job; same = (text_eq_iff job.id k).0 q; waited = w; ends = e }
    | inr q ↦ handled jobs (ground (arith, n, q)) ws es
  ]

Ends-absent :
    (io : RoutineIo) (k : Text) (t : State)
    → Ends io k t
    → phase t k ≡ absent
    → (peer : Text) × (io.offers peer ≡ accepted)
Ends-absent io k t (ends_waiting w) a = absurd (ground (arith, w, a))
Ends-absent io k t (ends_active c d w) a = absurd (ground (arith, w, a))
Ends-absent io k t (ends_elsewhere peer o w) a = (peer, o)
Ends-absent io k t (ends_in_limbo peer o w) a = absurd (ground (arith, w, a))

-- A tick of the packer keeps the tables consistent. A finished job stays finished, no ID that is unknown
-- becomes known, and a job that is unknown after the tick was so before, or one with its ID was accepted
-- by a peer.
pub schedule_tick_lem :
    (sort_slice : List PeerScore → List PeerScore) (outcomes : JobRef → RoutineIo) (seen : ℕ → ℕ)
    (now : ℕ) (s : State)
    → IsConsistent s
    → let t = schedule_tick sort_slice outcomes seen now s in
      IsConsistent t
      × ((k : Text) → phase s k ≡ finished → phase t k ≡ finished)
      × ((k : Text) → phase s k ≡ absent → phase t k ≡ absent)
      × ((k : Text)
          → phase t k ≡ absent
          → (phase s k ≡ absent)
            ⊎ ((job : JobRef) × (peer : Text) × (job.id ≡ k)
                × ((outcomes job).offers peer ≡ accepted)))
unfolding schedule_tick
schedule_tick_lem sort_slice outcomes seen now s v =
    let u = reallocate_dead_cluster_jobs now s in
    let (w, phases, moved, free) = reallocate_dead_cluster_jobs_lem now s v in
    let r = process_batch sort_slice outcomes 50 seen u in
    let (round, waited, le) = process_batch-IsRound sort_slice outcomes 50 seen u w in
    (
      round.consistent,
      (λ k f. elim (Bool-cases (named k r.0)) [
        | inl n ↦
            let h = handled outcomes u r.1 k r.0 n waited round.ends in
            absurd (ground (arith, moved k, f, ap (phase u) h.same, h.waited))
        | inr n ↦ ground (arith, round.others k n, moved k, f)
      ]),
      (λ k f. elim (Bool-cases (named k r.0)) [
        | inl n ↦
            let h = handled outcomes u r.1 k r.0 n waited round.ends in
            absurd (ground (arith, moved k, f, ap (phase u) h.same, h.waited))
        | inr n ↦ ground (arith, round.others k n, moved k, f)
      ]),
      (λ k f. elim (Bool-cases (named k r.0)) [
        | inl n ↦
            let h = handled outcomes u r.1 k r.0 n waited round.ends in
            let (peer, o) =
              Ends-absent (outcomes h.job) h.job.id r.1 h.ends (ap (phase r.1) h.same ∙ f) in
            inr (h.job, peer, h.same, o)
        | inr n ↦ inl (ground (arith, round.others k n, moved k, f))
      ]),
    )
