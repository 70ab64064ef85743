-- ===== src/Cluster/Assigning.antt =====
-- A packed job in its container: the routine that PackNextJob starts.
use not_ahivemind.Base.{
  ℕ, ◌≡◌, ◌⊎◌, inl, inr, refl, ap, ◌∙◌, Bool, true, false, not, ◌||◌, Bool-cases, none, some, [],
  ◌∷◌, arith, Text, text_eq, text_eq_refl, text_eq_iff, lookup, lookup-insert, lookup-remove,
}
use not_ahivemind.Arbiter.Queue.{push}
use not_ahivemind.Arbiter.Packing.{IsQueue, push-IsQueue}
use not_ahivemind.Cluster.Jobs.{Job, job_accessors, Jobs, mark_running, rollback_job}
use not_ahivemind.Cluster.Container.{
  Container, running, is_empty_id, is_running_state, assign_payload,
}
use not_ahivemind.Cluster.Pool.{Pool, find, replace}
use not_ahivemind.Cluster.Packing.{Node, roll_back, release_container, assign_ready, assign_job}

pub find_id : (id : Text) (cs : Pool) (c : Container) → find id cs ≡ some c → c.id ≡ id
unfolding find
find_id id [] c e = absurd (ground (arith, e))
find_id id (d ∷ cs) c e = elim (Bool-cases (text_eq d.id id)) [
  | inl q ↦ ground (arith, e, q, text_eq_iff d.id id)
  | inr q ↦ find_id id cs c (ground (arith, e, q))
]

pub find-replace :
    (id : Text) (cs : Pool) (c d : Container)
    → find id cs ≡ some c
    → d.id ≡ id
    → find id (replace id d cs) ≡ some d
unfolding find replace
find-replace id [] c d e s = absurd (ground (arith, e))
find-replace id (x ∷ cs) c d e s = elim (Bool-cases (text_eq x.id id)) [
  | inl q ↦ ground (arith, q, text_eq_iff d.id id)
  | inr q ↦ ground (arith, q, find-replace id cs c d (ground (arith, e, q)) s)
]

-- The job waits again, and bears no container.
pub record IsBack (j : Job) (after : Jobs) : Type 0 where
  pub waiting : lookup j.id after.pending.items ≡ some (record j { assigned_container_id = [] })
  pub not_active : lookup j.id after.active ≡ none
  pub queue : IsQueue job_accessors after.pending

-- The job runs in the container.
pub record IsRunning (j : Job) (container_id : Text) (after : Node) : Type 0 where
  pub active :
      lookup j.id after.jobs.active ≡ some (record j { assigned_container_id = container_id })
  pub container : Container
  pub held : find container_id after.pool ≡ some container
  pub state : container.state ≡ running
  pub holds : container.assigned_job_id ≡ j.id

rollback_pending :
    (j : Job) (at : Text) (q : Jobs)
    → lookup j.id q.active ≡ some (record j { assigned_container_id = at })
    → (rollback_job j.id q).0.pending
      ≡ push job_accessors (record j { assigned_container_id = [] }) q.pending
unfolding rollback_job
rollback_pending j at q a = ground (arith, a)

rollback-IsBack :
    (j : Job) (at : Text) (q : Jobs)
    → IsQueue job_accessors q.pending
    → lookup j.id q.active ≡ some (record j { assigned_container_id = at })
    → IsBack j (rollback_job j.id q).0
rollback-IsBack j at q v a = record {
  waiting = rw (rollback_pending j at q a) (
      unfold push in
      ground (
        arith,
        text_eq_refl j.id,
        lookup-insert j.id j.id (record j { assigned_container_id = [] }) q.pending.items,
      ));
  not_active =
      unfold rollback_job in ground (arith, a, text_eq_refl j.id, lookup-remove j.id j.id q.active);
  queue =
      rw (rollback_pending j at q a)
        (push-IsQueue job_accessors (record j { assigned_container_id = [] }) q.pending v);
}

module _ (j : Job) (at container_id : Text) (now : ℕ) where
  mark_active :
      (q : Jobs)
      → lookup j.id q.active ≡ some (record j { assigned_container_id = at })
      → let r = mark_running j.id container_id q in
        (r.1 ≡ false)
        × (r.0.pending ≡ q.pending)
        × (lookup j.id r.0.active ≡ some (record j { assigned_container_id = container_id }))
  unfolding mark_running
  mark_active q a = (
    ground (arith, a),
    ground (arith, a),
    ground (
      arith,
      a,
      text_eq_refl j.id,
      lookup-insert j.id j.id (record j { assigned_container_id = container_id }) q.active,
    ),
  )

  assign_payload_cases :
      (writes : Bool) (c : Container)
      → ((assign_payload writes j.id now c).1 ≡ true)
        ⊎ (((assign_payload writes j.id now c).1 ≡ false)
            × ((assign_payload writes j.id now c).0.state ≡ running)
            × ((assign_payload writes j.id now c).0.assigned_job_id ≡ j.id)
            × ((assign_payload writes j.id now c).0.id ≡ c.id))
  unfolding assign_payload
  assign_payload_cases writes c =
      elim (Bool-cases (is_empty_id c.docker_id || (is_running_state c.state || not writes))) [
        | inl h ↦ inl (ground (arith, h))
        | inr h ↦ inr (ground (arith, h), ground (arith, h), ground (arith, h), ground (arith, h))
      ]

  abbrev Assigned : Node × Bool → Type 0
  Assigned r = ((r.1 ≡ false) × IsBack j r.0.jobs) ⊎ ((r.1 ≡ true) × IsRunning j container_id r.0)

  assign_ready_failed :
      (writes : Bool) (c : Container) (n : Node)
      → (assign_payload writes j.id now c).1 ≡ true
      → assign_ready writes now j (some c) n ≡ (roll_back j.id n, false)
  unfolding assign_ready
  assign_ready_failed writes c n e = rw (assign_ready, e) refl

  assign_ready_fine :
      (writes : Bool) (c : Container) (n : Node)
      → (assign_payload writes j.id now c).1 ≡ false
      → assign_ready writes now j (some c) n
        ≡ (record n { pool = replace c.id (assign_payload writes j.id now c).0 n.pool }, true)
  unfolding assign_ready
  assign_ready_fine writes c n e = rw (assign_ready, e) refl

  assign_ready_cases :
      (writes : Bool) (c : Container) (n : Node)
      → IsQueue job_accessors n.jobs.pending
      → lookup j.id n.jobs.active ≡ some (record j { assigned_container_id = container_id })
      → find container_id n.pool ≡ some c
      → Assigned (assign_ready writes now j (some c) n)
  assign_ready_cases writes c n v a f = elim (assign_payload_cases writes c) [
    | inl e ↦
        rw (assign_ready_failed writes c n e)
          (inl (refl, unfold roll_back in rollback-IsBack j container_id n.jobs v a))
    | inr (e, st, holds, same) ↦
        let id_lem = find_id container_id n.pool c f in
        rw (assign_ready_fine writes c n e) (
          inr (
            refl,
            record {
              active = a;
              container = (assign_payload writes j.id now c).0;
              held =
                  ap
                    (λ k. find container_id (replace k (assign_payload writes j.id now c).0 n.pool))
                    id_lem
                  ∙ find-replace container_id n.pool c (assign_payload writes j.id now c).0 f
                      (same ∙ id_lem);
              state = st;
              holds = holds;
            },
          ))
  ]

  release_container-jobs : (n : Node) → (release_container container_id n).jobs ≡ n.jobs
  unfolding release_container
  release_container-jobs n = ground arith

  give_up :
      (n : Node)
      → IsQueue job_accessors n.jobs.pending
      → lookup j.id n.jobs.active ≡ some (record j { assigned_container_id = at })
      → Assigned (release_container container_id (roll_back j.id n), false)
  give_up n v a = inl (
    refl,
    rw (release_container-jobs (roll_back j.id n))
        (unfold roll_back in rollback-IsBack j at n.jobs v a),
  )

  assign_job_ready :
      (writes : Bool) (c : Container) (n : Node)
      → (mark_running j.id container_id n.jobs).1 ≡ false
      → find container_id n.pool ≡ some c
      → assign_job true writes now j container_id n
        ≡ assign_ready writes now j
            (some c)
            (record n { jobs = (mark_running j.id container_id n.jobs).0 })
  unfolding assign_job
  assign_job_ready writes c n m f = rw (assign_job, m, f) refl

  assign_job_unready :
      (writes : Bool) (n : Node)
      → assign_job false writes now j container_id n
        ≡ (release_container container_id (roll_back j.id n), false)
  unfolding assign_job
  assign_job_unready writes n = refl

  -- An active job whose container is in the pool is given to it, from a well-formed queue. Either that
  -- fails, and the job waits again, bears no container and is not active; or the job is active with the
  -- container, which runs it.
  pub assign_job_cases :
      (ready writes : Bool) (c : Container) (n : Node)
      → IsQueue job_accessors n.jobs.pending
      → lookup j.id n.jobs.active ≡ some (record j { assigned_container_id = at })
      → find container_id n.pool ≡ some c
      → let r = assign_job ready writes now j container_id n in
        ((r.1 ≡ false) × IsBack j r.0.jobs) ⊎ ((r.1 ≡ true) × IsRunning j container_id r.0)
  assign_job_cases false writes c n v a f = rw (assign_job_unready writes n) (give_up n v a)
  assign_job_cases true writes c n v a f =
      let (m, same, marked) = mark_active n.jobs a in
      rw (assign_job_ready writes c n m f) (
        assign_ready_cases writes c (record n { jobs = (mark_running j.id container_id n.jobs).0 })
          (rw same v) marked f)
