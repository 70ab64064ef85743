-- ===== src/Scheduler/Runs.antt =====
-- Runs of calls, and the run of the abstract table beside them.
use mathlib.Core.Path.{fun_ext}
use not_ahivemind.Base.{ℕ, ◌≡◌, refl, inr, some, Option, List, [], ◌∷◌, arith, Text, lookup}
use not_ahivemind.Arbiter.Packing.{orders}
use not_ahivemind.Arbiter.Reachable.{new_queue-IsQueue}
use not_ahivemind.Scheduler.State.{JobCell, ClusterState, State, job_accessors, new_state}
use not_ahivemind.Scheduler.Lifecycle.{
  Phase, absent, waiting, phase, IsConsistent, Event, step, issued, IsAllowed, promised,
}
use not_ahivemind.Scheduler.Refinement.{step-Keeps}

unfoldable pub run : List Event → State → State
run [] s = s
run (e ∷ es) s = run es (step e s)

-- Each call is allowed where it is made.
unfoldable pub AllAllowed : List Event → State → Type 0
AllAllowed [] s = Unit {0}
AllAllowed (e ∷ es) s = IsAllowed e s × AllAllowed es (step e s)

-- What the calls give, in their order.
unfoldable pub answers : List Event → State → List (Option Text)
answers [] s = []
answers (e ∷ es) s = issued e s ∷ answers es (step e s)

-- The abstract table takes the same calls with the same answers; it allows only a waiting job to be
-- issued.
unfoldable pub Accepts : List Event → List (Option Text) → (Text → Phase) → (Text → Phase) → Type 0
Accepts [] [] phases last = phases ≡ last
Accepts (e ∷ es) (a ∷ as') phases last =
    ((id : Text) → a ≡ some id → phases id ≡ waiting) × Accepts es as' (promised e a phases) last
Accepts _ _ phases last = ⊥

new_state-IsConsistent :
    (id address : Text) (job_cells : ℕ → JobCell) (cluster_cells : ℕ → ClusterState)
    → IsConsistent (new_state id address job_cells cluster_cells)
unfolding lookup
new_state-IsConsistent id address job_cells cluster_cells = record {
  queue = new_queue-IsQueue job_accessors;
  tidy = record {
    distinct = tt;
    held = tt;
    live = λ d k o. absurd (unfold orders in ground arith);
  };
  keyed = λ k j h. cc;
  shared = λ k j h. cc;
  queued = λ k h. cc;
  waiting_queued = λ k h. cc;
  assigned = λ k h. cc;
  completed = λ k h. cc;
  stale = λ k o. inr (inr refl);
}

run-Accepts :
    (es : List Event) (s : State)
    → IsConsistent s
    → AllAllowed es s
    → IsConsistent (run es s) × Accepts es (answers es s) (phase s) (phase (run es s))
unfolding run AllAllowed answers Accepts
run-Accepts [] s v h = (v, refl)
run-Accepts (e ∷ es) s v (a, h) =
    let k = step-Keeps e s v a in
    let (v', accepts) = run-Accepts es (step e s) k.consistent h in
    (v', (k.waited, rw⁻¹ (fun_ext k.phases) accepts))

-- Any calls that are allowed lead from a new state to one whose tables are consistent, and they are a
-- run of the table from IDs to phases: with the same answers it goes through the same phases, ends in
-- those of the state, and issues only jobs that wait.
pub run_refines :
    (id address : Text) (job_cells : ℕ → JobCell) (cluster_cells : ℕ → ClusterState)
    (es : List Event)
    → AllAllowed es (new_state id address job_cells cluster_cells)
    → let s = new_state id address job_cells cluster_cells in
      IsConsistent (run es s) × Accepts es (answers es s) (λ k. absent) (phase (run es s))
unfolding lookup
run_refines id address job_cells cluster_cells es h =
    run-Accepts es (new_state id address job_cells cluster_cells)
      (new_state-IsConsistent id address job_cells cluster_cells) h
