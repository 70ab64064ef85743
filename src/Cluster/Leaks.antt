-- ===== src/Cluster/Leaks.antt =====
-- healthChecks: a container whose removal fails.
use not_ahivemind.Base.{
  ℕ, ◌≡◌, ◌∙◌, Bool, true, false, Option, List, [], ◌∷◌, ◌++◌, arith, Text, All,
}
use not_ahivemind.Cluster.Jobs.{Job, Jobs, pending_jobs}
use not_ahivemind.Cluster.Container.{Container, failed, Removal, Inspection, reserved, cleanup}
use not_ahivemind.Cluster.Pool.{Pool}
use not_ahivemind.Cluster.Health.{
  HealthRule, judge, condemn, check_each, run_health_rule, health_rules, health_tick,
}
use not_ahivemind.Cluster.Upkeep.{is_doomed, judge-is_doomed}

cleanup-state : (io : Removal) (now : ℕ) (c : Container) → (cleanup io now c).0.state ≡ reserved
unfolding cleanup
cleanup-state io now c = ground arith

reserved-is_kept :
    (inspect : Container → Option Inspection) (now : ℕ) (waiting : List Job) (c : Container)
    → c.state ≡ reserved
    → is_doomed inspect now waiting c ≡ false
unfolding is_doomed
reserved-is_kept inspect now waiting c e = ground arith

module _ (rules : List HealthRule) (io : Container → Removal) (now : ℕ) (c : Container)
    (rest : Pool) (j : Jobs) (ill : judge rules c j ≡ true)
    (broken : (cleanup (io c) now c).1 ≡ failed) where
  check_each-failed :
      (cs : Pool) (ids : List Text)
      → All (λ other. judge rules other j ≡ false) cs
      → ((check_each rules io now (cs ++ c ∷ rest) j ids).ended ≡ failed)
        × ((check_each rules io now (cs ++ c ∷ rest) j ids).containers
            ≡ cs ++ (cleanup (io c) now c).0 ∷ rest)
  unfolding check_each condemn
  check_each-failed [] ids well = ground arith
  check_each-failed (other ∷ cs) ids well = ground (arith, check_each-failed cs ids well.1)

module _ (inspect : Container → Option Inspection) (io : Container → Removal) (io' : Text → Removal)
    (now : ℕ) (cs rest : Pool) (c : Container) (j : Jobs) where
  abbrev judged : Container → Bool
  judged = is_doomed inspect now (pending_jobs j)

  All-judge :
      (others : Pool)
      → All (λ other. judged other ≡ false) others
      → All (λ other. judge (health_rules inspect now) other j ≡ false) others
  All-judge [] h = tt
  All-judge (other ∷ others) h = (judge-is_doomed inspect now other j ∙ h.0, All-judge others h.1)

  -- Where the removal of the first container that a tick of healthChecks judges gives an error, the
  -- tick ends there and leaves that container in the pool, and no tick judges it again, whatever Docker
  -- says of it, at whatever time, and whatever jobs wait.
  pub health_tick_stuck :
      All (λ other. judged other ≡ false) cs
      → judged c ≡ true
      → (cleanup (io c) now c).1 ≡ failed
      → let ((cs', j'), ended) = health_tick inspect io io' now (cs ++ c ∷ rest) j in
        (ended ≡ failed)
        × (cs' ≡ cs ++ (cleanup (io c) now c).0 ∷ rest)
        × ((inspect' : Container → Option Inspection) (now' : ℕ) (waiting : List Job)
            → is_doomed inspect' now' waiting (cleanup (io c) now c).0 ≡ false)
  unfolding health_tick run_health_rule
  health_tick_stuck well ill broken =
      let stopped =
        check_each-failed (health_rules inspect now) io now c rest j
          (judge-is_doomed inspect now c j ∙ ill) broken cs [] (All-judge cs well) in
      (
        ground arith,
        ground arith,
        λ inspect' now' waiting.
            reserved-is_kept inspect' now' waiting (cleanup (io c) now c).0
              (cleanup-state (io c) now c),
      )
