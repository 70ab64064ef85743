-- ===== src/Cluster/Health.antt =====
-- internal/cluster/scheduler/health.go.
use not_ahivemind.Base.{
  ℕ, ◌-◌, ◌*◌, Bool, true, false, not, ◌&&◌, ◌||◌, Option, none, some, List, [], ◌∷◌, ◌++◌, ◌==◌,
  ltb, if◌then◌else◌, Text, lookup,
}
use not_ahivemind.Base.Int.{pos, leb_ℤ, ltb_ℤ, pos_part}
use not_ahivemind.Cluster.Jobs.{Jobs, mark_completed, pending_job_types}
use not_ahivemind.Cluster.Container.{
  Container, ContainerState, reserved, Ended, fine, failed, panicked, Removal, Inspection,
  is_free_state, is_running_state, health, cleanup,
}
use not_ahivemind.Cluster.Pool.{Pool, remove}

pub data HealthAction : Type 0 where
  health_continue health_skip health_delete : HealthAction

abbrev pub HealthRule : Type 0
HealthRule = Container → Jobs → HealthAction

abbrev pub is_reserved_state : ContainerState → Bool
is_reserved_state reserved = true
is_reserved_state _ = false

abbrev pub is_ill : Option ℕ → Bool
is_ill none = false
is_ill (some n) = not (n == 0 || n == 1)

unfoldable pub rule_unresponsive : (Container → Option Inspection) → HealthRule
rule_unresponsive inspect c j =
    if is_ill (health (inspect c) c) && not (is_reserved_state c.state)
    then health_delete
    else health_continue

abbrev pub second : ℕ
second = 1000000000

unfoldable pub rule_timed_out : ℕ → HealthRule
rule_timed_out now c j =
    if leb_ℤ c.image.timeout (pos 0)
    then health_continue
    else if ltb 0 c.total_jobs
        && (is_free_state c.state
            && ltb (second * pos_part c.image.timeout) (now - c.last_state_change))
    then health_delete
    else health_continue

unfoldable pub rule_exceeded_job_limits : HealthRule
rule_exceeded_job_limits c j =
    if ltb_ℤ c.image.max_jobs (pos c.total_jobs) && is_free_state c.state
    then health_delete
    else health_continue

abbrev pub count_of : Option ℕ → ℕ
count_of none = 0
count_of (some n) = n

unfoldable pub rule_no_more_jobs : ℕ → HealthRule
rule_no_more_jobs now c j =
    if is_free_state c.state
      && (ltb (now - c.last_state_change) (5 * second)
          && count_of (lookup c.image.alias (pending_job_types j)) == 0)
    then health_delete
    else health_continue

-- The rules in turn for one container: whether it is to be deleted.
unfoldable pub judge : List HealthRule → Container → Jobs → Bool
judge [] c j = false
judge (rule ∷ rules) c j =
    let rest = judge rules c j in
    elim (rule c j) [ health_continue ↦ rest | health_skip ↦ false | health_delete ↦ true ]

-- A container that is to be deleted: its job, if it runs, is completed as failed, and it is cleaned up.
unfoldable pub condemn : Removal → ℕ → Container → Jobs → (Container × Ended) × Jobs
condemn io now c j = (
  cleanup io now c,
  if is_running_state c.state then (mark_completed c.assigned_job_id [] false j).0 else j,
)

-- What the loop leaves: the containers, the jobs, the IDs to remove, and how it ended.
pub record Checked : Type 0 where
  pub containers : Pool
  pub jobs : Jobs
  pub delete_ids : List Text
  pub ended : Ended

-- The loop over the containers, which the first error of Cleanup ends.
unfoldable pub check_each :
    List HealthRule → (Container → Removal) → ℕ → Pool → Jobs → List Text → Checked
unfolding judge condemn
check_each rules io now [] j ids = record {
  containers = [];
  jobs = j;
  delete_ids = ids;
  ended = fine;
}
check_each rules io now (c ∷ cs) j ids =
    let kept = check_each rules io now cs j ids in
    let r = condemn (io c) now c j in
    let rest = check_each rules io now cs r.1 (ids ++ (c.id ∷ [])) in
    if judge rules c j
    then (elim r.0.1 [
      | fine ↦ record rest { containers = r.0.0 ∷ rest.containers }
      | failed ↦ record {
        containers = r.0.0 ∷ cs;
        jobs = r.1;
        delete_ids = ids ++ (c.id ∷ []);
        ended = failed;
      }
      | panicked ↦ record {
        containers = r.0.0 ∷ cs;
        jobs = r.1;
        delete_ids = ids ++ (c.id ∷ []);
        ended = panicked;
      }
    ])
    else record kept { containers = c ∷ kept.containers }

unfoldable pub remove_each : (Text → Removal) → List Text → Pool → Pool
remove_each io [] cs = cs
remove_each io (id ∷ ids) cs = remove_each io ids (remove (io id) id cs).0

-- RunHealthRule.
unfoldable pub run_health_rule :
    List HealthRule
    → (Container → Removal)
    → (Text → Removal)
    → ℕ
    → Pool
    → Jobs
    → (Pool × Jobs) × Ended
unfolding check_each remove_each
run_health_rule rules io io' now cs j =
    let r = check_each rules io now cs j [] in
    elim r.ended [
      | fine ↦ ((remove_each io' r.delete_ids r.containers, r.jobs), fine)
      | failed ↦ ((r.containers, r.jobs), failed)
      | panicked ↦ ((r.containers, r.jobs), panicked)
    ]

-- The rules of healthChecks in cmd/cluster_node/main.go, and a tick of it, which reads the clock once.
unfoldable pub health_rules : (Container → Option Inspection) → ℕ → List HealthRule
health_rules inspect now =
    rule_unresponsive inspect
    ∷ rule_timed_out now
    ∷ rule_exceeded_job_limits
    ∷ rule_no_more_jobs now
    ∷ []

unfoldable pub health_tick :
    (Container → Option Inspection)
    → (Container → Removal)
    → (Text → Removal)
    → ℕ
    → Pool
    → Jobs
    → (Pool × Jobs) × Ended
unfolding health_rules run_health_rule
health_tick inspect io io' now cs j = run_health_rule (health_rules inspect now) io io' now cs j
