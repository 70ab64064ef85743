-- ===== src/Scheduler/Handover.antt =====
-- A job on its way from one scheduler to another.
use not_ahivemind.Base.{
  ℕ, ◌≡◌, ◌⊎◌, inl, inr, refl, ap, Bool, true, false, Option, none, some, List, arith, Bool-cases,
  if◌then◌else◌, Text,
}
use not_ahivemind.Arbiter.Packing.{orders}
use not_ahivemind.Scheduler.State.{JobRef, State, job_accessors, purge_job}
use not_ahivemind.Scheduler.Lifecycle.{absent, phase, IsConsistent}
use not_ahivemind.Scheduler.Handler.{
  new_job, RedistributeRequest, RedistributeResponse, take_redistributed,
}
use not_ahivemind.Scheduler.Coordinate.{
  Conn, redistribute_request, find_conn, hand_over_on, hand_over,
}
use not_ahivemind.Scheduler.Settling.{IsIssued, Frames, purge-Frames, purge-absent}
use not_ahivemind.Scheduler.Admission.{IsAdmitted, response, take_redistributed_cases}

module _ (address : ℕ) (job : JobRef) (s p : State) where
  abbrev there : JobRef
  there = record job { address = address }

  abbrev request : RedistributeRequest
  request = redistribute_request s.id job false

  answer_cases :
      IsConsistent p
      → phase p job.id ≡ absent
      → orders job_accessors job.id p.unassigned_jobs.order ≡ false
      → (take_redistributed address request p ≡ (p, response address request p false))
        ⊎ (((take_redistributed address request p).1.accept ≡ true)
            × IsAdmitted there p (take_redistributed address request p).0)
  unfolding redistribute_request new_job
  answer_cases v new fresh = elim (take_redistributed_cases address request p v new fresh) [
    | inl (full, capped, same) ↦ inl same
    | inr (can, answer, inl (g, same)) ↦ absurd (ground (arith, g))
    | inr (can, answer, inr (g, a)) ↦ inr (ap (λ (x : RedistributeResponse). x.accept) answer, a)
  ]

  -- Neither has changed; or the job has left the origin for the peer; or the answer was lost, and the job
  -- is with both.
  abbrev pub IsHandedOver : Bool → State × State → Type 0
  IsHandedOver answered r =
      (r ≡ (s, p))
      ⊎ ((answered ≡ true)
          × Frames job s r.0
          × (phase r.0 job.id ≡ absent)
          × IsAdmitted there p r.1)
      ⊎ ((answered ≡ false) × (r.0 ≡ s) × IsAdmitted there p r.1)

  module _ (v : IsConsistent s) (i : IsIssued job s) where
    hand_over_refused :
        (c : Conn) (answered : Bool)
        → take_redistributed address request p ≡ (p, response address request p false)
        → hand_over_on (some c) answered address job s p ≡ (s, p)
    unfolding hand_over_on
    hand_over_refused c answered e = ground (arith, e)

    hand_over_taken :
        (c : Conn) (answered : Bool)
        → c.connected ≡ true
        → (take_redistributed address request p).1.accept ≡ true
        → hand_over_on (some c) answered address job s p
          ≡ (if answered then purge_job job.id s else s, (take_redistributed address request p).0)
    unfolding hand_over_on
    hand_over_taken c answered on e = ground (arith, on, e)

    hand_over_on_cases :
        (o : Option Conn) (answered : Bool)
        → (take_redistributed address request p ≡ (p, response address request p false))
          ⊎ (((take_redistributed address request p).1.accept ≡ true)
              × IsAdmitted there p (take_redistributed address request p).0)
        → IsHandedOver answered (hand_over_on o answered address job s p)
    unfolding hand_over_on
    hand_over_on_cases none answered a = inl refl
    hand_over_on_cases (some c) answered (inl e) = inl (hand_over_refused c answered e)
    hand_over_on_cases (some c) answered (inr (e, a)) = elim (Bool-cases c.connected) [
      | inr off ↦ inl (ground (arith, off))
      | inl on ↦ rw (hand_over_taken c answered on e) (elim (Bool-cases answered) [
        | inl q ↦ rw q (inr (inl (refl, purge-Frames job s v i, purge-absent job s v i, a)))
        | inr q ↦ rw q (inr (inr (refl, refl, a)))
      ])
    ]

    -- A job that was issued is offered to a peer that does not know it. Either neither scheduler changes;
    -- or the answer comes, the job is gone here, waits there with the fields it had, and no other job
    -- has moved; or the answer is lost, nothing changes here, and the job waits there too.
    pub hand_over_cases :
        (conns : List Conn) (peer : Text) (answered : Bool)
        → IsConsistent p
        → phase p job.id ≡ absent
        → orders job_accessors job.id p.unassigned_jobs.order ≡ false
        → IsHandedOver answered (hand_over conns peer answered address job s p)
    unfolding hand_over
    hand_over_cases conns peer answered w new fresh =
        hand_over_on_cases (find_conn peer conns) answered (answer_cases w new fresh)
