-- ===== src/Cluster/Upkeep.antt =====
-- healthChecks on a cluster node: which containers a tick deletes, and what becomes of their jobs.
use not_ahivemind.Base.{
  ℕ, ◌-◌, ◌*◌, ◌+◌, ◌≡◌, refl, ◌∙◌, Bool, true, false, not, ◌&&◌, ◌||◌, Option, List, [], ◌∷◌,
  arith, ◌==◌, ltb, if◌then◌else◌, Text, text_eq, lookup, lookup-insert, insert, Map,
}
use not_ahivemind.Base.Int.{pos, ltb_ℤ, pos_part}
use not_ahivemind.Cluster.Jobs.{Job, Jobs, pending_jobs, pending_job_types, count_types}
use not_ahivemind.Cluster.Container.{Container, Inspection, is_free_state, health}
use not_ahivemind.Cluster.Health.{
  HealthAction, HealthRule, health_continue, health_delete, is_reserved_state, is_ill, second,
  count_of, rule_unresponsive, rule_timed_out, rule_exceeded_job_limits, rule_no_more_jobs, judge,
  health_rules,
}

-- A job of the image waits.
unfoldable pub is_wanted : Text → List Job → Bool
is_wanted alias [] = false
is_wanted alias (job ∷ jobs) = text_eq job.image.alias alias || is_wanted alias jobs

count_types-is_wanted :
    (alias : Text) (jobs : List Job) (types : Map ℕ)
    → count_of (lookup alias (count_types jobs types)) == 0
      ≡ (not (is_wanted alias jobs) && count_of (lookup alias types) == 0)
unfolding count_types is_wanted
count_types-is_wanted alias [] types = refl
count_types-is_wanted alias (job ∷ jobs) types =
    let n = count_of (lookup job.image.alias types) + 1 in
    ground (
      arith,
      count_types-is_wanted alias jobs (insert job.image.alias n types),
      lookup-insert job.image.alias alias n types,
    )

no_more_jobs :
    (alias : Text) (j : Jobs)
    → (count_of (lookup alias (pending_job_types j)) == 0) ≡ not (is_wanted alias (pending_jobs j))
unfolding pending_job_types pending_jobs lookup
no_more_jobs alias j = count_types-is_wanted alias (pending_jobs j) [] ∙ and-true _
  where
    and-true : (b : Bool) → (b && true) ≡ b
    and-true b = ground arith

abbrev deletes_if : Bool → HealthAction
deletes_if b = if b then health_delete else health_continue

judge-deletes_if :
    (rule : HealthRule) (rules : List HealthRule) (c : Container) (j : Jobs) (b : Bool)
    → rule c j ≡ deletes_if b
    → judge (rule ∷ rules) c j ≡ (b || judge rules c j)
unfolding judge
judge-deletes_if rule rules c j true e = rw e
judge-deletes_if rule rules c j false e = rw e

judge_none : (c : Container) (j : Jobs) → judge [] c j ≡ false
unfolding judge
judge_none c j = refl

rule_unresponsive_lem :
    (inspect : Container → Option Inspection) (c : Container) (j : Jobs)
    → rule_unresponsive inspect c j
      ≡ deletes_if (is_ill (health (inspect c) c) && not (is_reserved_state c.state))
unfolding rule_unresponsive
rule_unresponsive_lem inspect c j = refl

-- A free container has been idle for longer than its image allows.
unfoldable pub is_idle : ℕ → Container → Bool
is_idle now c =
    ltb 0 c.total_jobs
    && (ltb_ℤ (pos 0) c.image.timeout
        && ltb (second * pos_part c.image.timeout) (now - c.last_state_change))

-- A container has run more jobs than its image allows.
unfoldable pub is_worn : Container → Bool
is_worn c = ltb_ℤ c.image.max_jobs (pos c.total_jobs)

-- A container has just become free, and no job of its image waits.
unfoldable pub is_unwanted : ℕ → List Job → Container → Bool
is_unwanted now waiting c =
    ltb (now - c.last_state_change) (5 * second) && not (is_wanted c.image.alias waiting)

module _ (now : ℕ) (c : Container) (j : Jobs) where
  rule_timed_out_lem : rule_timed_out now c j ≡ deletes_if (is_free_state c.state && is_idle now c)
  unfolding rule_timed_out is_idle
  rule_timed_out_lem = ground arith

  rule_exceeded_job_limits_lem :
      rule_exceeded_job_limits c j ≡ deletes_if (is_free_state c.state && is_worn c)
  unfolding rule_exceeded_job_limits is_worn
  rule_exceeded_job_limits_lem = ground arith

  rule_no_more_jobs_lem :
      rule_no_more_jobs now c j
      ≡ deletes_if (is_free_state c.state && is_unwanted now (pending_jobs j) c)
  unfolding rule_no_more_jobs is_unwanted
  rule_no_more_jobs_lem = ground (arith, no_more_jobs c.image.alias j)

module _ (inspect : Container → Option Inspection) (now : ℕ) where
  -- The containers that a tick deletes, by their own state and the jobs that wait.
  unfoldable pub is_doomed : List Job → Container → Bool
  is_doomed waiting c =
      is_ill (health (inspect c) c) && not (is_reserved_state c.state)
      || is_free_state c.state && (is_idle now c || is_worn c || is_unwanted now waiting c)

  pub judge-is_doomed :
      (c : Container) (j : Jobs)
      → judge (health_rules inspect now) c j ≡ is_doomed (pending_jobs j) c
  unfolding health_rules is_doomed
  judge-is_doomed c j =
      let unresponsive = is_ill (health (inspect c) c) && not (is_reserved_state c.state) in
      ground (
        arith,
        judge-deletes_if (rule_unresponsive inspect)
            (rule_timed_out now ∷ rule_exceeded_job_limits ∷ rule_no_more_jobs now ∷ []) c j
            unresponsive (rule_unresponsive_lem inspect c j),
        judge-deletes_if (rule_timed_out now)
            (rule_exceeded_job_limits ∷ rule_no_more_jobs now ∷ []) c j _
            (rule_timed_out_lem now c j),
        judge-deletes_if rule_exceeded_job_limits (rule_no_more_jobs now ∷ []) c j _
            (rule_exceeded_job_limits_lem now c j),
        judge-deletes_if (rule_no_more_jobs now) [] c j _ (rule_no_more_jobs_lem now c j),
        judge_none c j,
      )
