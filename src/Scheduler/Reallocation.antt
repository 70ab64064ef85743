-- ===== src/Scheduler/Reallocation.antt =====
-- reallocateDeadClusterJobs of internal/scheduler/packer/monitor.go: what becomes of the jobs of a
-- cluster that was not heard of.
use not_ahivemind.Base.{
  ℕ, ◌≡◌, ◌⊎◌, inl, inr, refl, ap, true, false, List, [], ◌∷◌, arith, All, Bool-cases, Text,
  text_eq, text_eq_iff, text_eq_refl, has, ◌&&◌, if◌then◌else◌,
}
use not_ahivemind.Scheduler.State.{State, jobs_in_cluster, seconds}
use not_ahivemind.Scheduler.Externs.{stale_clusters}
use not_ahivemind.Scheduler.Lifecycle.{waiting, active, phase, IsConsistent}
use not_ahivemind.Scheduler.Schedule.{reallocate_from, reallocate_dead_cluster_jobs}
use not_ahivemind.Scheduler.Clearing.{listed}
use not_ahivemind.Scheduler.Stranding.{stands_in, reallocate_from-phase}
use not_ahivemind.Scheduler.Rolling.{placed_at, listed-jobs_in_cluster, rolled, cluster-AreRolled}

listed_nil : (ids : List Text) → ((k : Text) → listed k ids ≡ false) → ids ≡ []
listed_nil [] h = refl
listed_nil (id ∷ ids) h = absurd (ground (arith, h id, text_eq_refl id))

-- Every job stands as it did, or was active and waits, and none is placed where it was not.
record Moves (s t : State) : Type 0 where
  consistent : IsConsistent t
  moved : (k : Text) → (phase t k ≡ phase s k) ⊎ ((phase s k ≡ active) × (phase t k ≡ waiting))
  places :
      (cluster k : Text)
      → text_eq cluster [] ≡ false
      → placed_at cluster k t ≡ true
      → placed_at cluster k s ≡ true

rolled-Moves : (cluster : Text) (s : State) → IsConsistent s → Moves s (rolled cluster s)
rolled-Moves cluster s v =
    let a = cluster-AreRolled cluster s v in
    record {
      consistent = a.consistent;
      moved = λ k. elim (Bool-cases (listed k (jobs_in_cluster cluster s))) [
        | inl l ↦ inr (
          ground (arith, listed-jobs_in_cluster cluster s k, v.assigned k, l),
          ground (arith, a.phases k, l),
        )
        | inr l ↦ inl (ground (arith, a.phases k, l))
      ];
      places = a.places;
    }

Moves-trans : (s t u : State) → Moves s t → Moves t u → Moves s u
Moves-trans s t u a b = record {
  consistent = b.consistent;
  moved = λ k. ground (arith, a.moved k, b.moved k);
  places = λ c k ne p. a.places c k ne (b.places c k ne p);
}

-- The cluster has no jobs, unless its ID is empty.
abbrev IsFree : State → Text → Type 0
IsFree t cluster = (cluster ≡ []) ⊎ (jobs_in_cluster cluster t ≡ [])

module _ (cluster k : Text) (s : State) where
  left-active :
      IsConsistent s
      → listed k (jobs_in_cluster cluster s) ≡ true
      → (phase s k ≡ active) × (placed_at cluster k s ≡ true)
  left-active v l = (
    v.assigned k (ground (arith, listed-jobs_in_cluster cluster s k, l)),
    ground (arith, listed-jobs_in_cluster cluster s k, l),
  )

  active-left :
      phase s k ≡ active
      → placed_at cluster k s ≡ true
      → listed k (jobs_in_cluster cluster s) ≡ true
  active-left a p = ground (arith, listed-jobs_in_cluster cluster s k, a, p)

cleared_not :
    (cluster : Text) (s : State) (v : IsConsistent s) (k : Text)
    → text_eq cluster [] ≡ false
    → listed k (jobs_in_cluster cluster (rolled cluster s)) ≡ false
cleared_not cluster s v k ne =
    let a = cluster-AreRolled cluster s v in
    elim (Bool-cases (listed k (jobs_in_cluster cluster (rolled cluster s)))) [
      | inr l ↦ l
      | inl l ↦
          let (act, here) = left-active cluster k (rolled cluster s) a.consistent l in
          let was = a.places cluster k ne here in
          absurd (ground (arith, a.phases k, act, active-left cluster k s, was))
    ]

rolled-IsFree : (cluster : Text) (s : State) → IsConsistent s → IsFree (rolled cluster s) cluster
rolled-IsFree cluster s v = elim (Bool-cases (text_eq cluster [])) [
  | inl e ↦ inl (ground (arith, text_eq_iff cluster []))
  | inr ne ↦ inr (listed_nil _ (λ k. cleared_not cluster s v k ne))
]

Moves-IsFree : (s t : State) → Moves s t → (cluster : Text) → IsFree s cluster → IsFree t cluster
Moves-IsFree s t m cluster (inl e) = inl e
Moves-IsFree s t m cluster (inr e) = elim (Bool-cases (text_eq cluster [])) [
  | inl q ↦ inl (ground (arith, text_eq_iff cluster []))
  | inr ne ↦ inr (
      listed_nil _ (λ k. elim (Bool-cases (listed k (jobs_in_cluster cluster t))) [
        | inr l ↦ l
        | inl l ↦
            let (act, here) = left-active cluster k t m.consistent l in
            let was = m.places cluster k ne here in
            absurd (ground (arith, m.moved k, act, was, active-left cluster k s, ap (listed k) e))
      ]))
]

reallocate_from-Moves :
    (clusters : List Text) (s : State)
    → IsConsistent s
    → Moves s (reallocate_from clusters s) × All (IsFree (reallocate_from clusters s)) clusters
unfolding reallocate_from
reallocate_from-Moves [] s v =
    (record { consistent = v; moved = λ k. inl refl; places = λ c k ne p. p }, tt)
reallocate_from-Moves (cluster ∷ clusters) s v =
    let m = rolled-Moves cluster s v in
    let (rest, free) = reallocate_from-Moves clusters (rolled cluster s) m.consistent in
    (
      Moves-trans s (rolled cluster s) _ m rest,
      (Moves-IsFree (rolled cluster s) _ rest cluster (rolled-IsFree cluster s v), free),
    )

-- The stale clusters are those not heard of for more than five seconds. reallocateDeadClusterJobs makes
-- exactly the jobs wait that were active and bore the ID of a stale cluster: every other job keeps its
-- phase, and a job that moves was active. It leaves no job with a stale cluster, unless its ID is empty,
-- and keeps the tables consistent.
pub reallocate_dead_cluster_jobs_lem :
    (now : ℕ) (s : State)
    → IsConsistent s
    → let t = reallocate_dead_cluster_jobs now s in
      let stale = stale_clusters now (seconds 5) s in
      IsConsistent t
      × ((k : Text)
          → phase t k
            ≡ (if has k s.assigned_jobs && stands_in stale k s then waiting else phase s k))
      × ((k : Text) → (phase t k ≡ phase s k) ⊎ ((phase s k ≡ active) × (phase t k ≡ waiting)))
      × All (λ cluster. (cluster ≡ []) ⊎ (jobs_in_cluster cluster t ≡ [])) stale
unfolding reallocate_dead_cluster_jobs
reallocate_dead_cluster_jobs_lem now s v =
    let stale = stale_clusters now (seconds 5) s in
    let (m, free) = reallocate_from-Moves stale s v in
    (m.consistent, (λ k. reallocate_from-phase stale s v k), m.moved, free)
