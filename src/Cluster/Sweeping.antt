-- ===== src/Cluster/Sweeping.antt =====
-- RunHealthRule: the containers that are judged are cleaned up and removed.
use mathlib.Core.List.{append-nil, append_assoc}
use not_ahivemind.Base.{
  ℕ, ◌≡◌, ◌≢◌, refl, sym, ◌∙◌, ap, Bool, true, Option, none, some, List, [], ◌∷◌, ◌++◌, arith,
  if◌then◌else◌, Text, text_eq_iff, All, lookup,
}
use not_ahivemind.Cluster.Jobs.{Job, Jobs, pending_jobs}
use not_ahivemind.Cluster.Container.{Container, fine, Removal, Inspection, cleanup}
use not_ahivemind.Cluster.Pool.{Pool, remove}
use not_ahivemind.Cluster.Health.{
  HealthRule, judge, condemn, check_each, remove_each, run_health_rule, health_rules, health_tick,
}
use not_ahivemind.Cluster.Losses.{
  failure, Among, IsFailed, condemn-pending, losses, lost, losses-active, losses-pending,
  losses-completed, sent, sent-IsFailed, sent-Among, lost_jobs, sent-lost_jobs, none_passed,
}
use not_ahivemind.Cluster.Upkeep.{is_doomed, judge-is_doomed}

-- The containers that are not judged.
unfoldable pub kept : (Container → Bool) → Pool → Pool
kept d [] = []
kept d (c ∷ cs) = let rest = kept d cs in if d c then rest else c ∷ rest

cleanup-id : (io : Removal) (now : ℕ) (c : Container) → (cleanup io now c).0.id ≡ c.id
unfolding cleanup
cleanup-id io now c = ground arith

module _ (io : Removal) (now : ℕ) (c : Container) (j : Jobs) where
  condemn-cleanup : (condemn io now c j).0 ≡ cleanup io now c
  unfolding condemn
  condemn-cleanup = refl

module _ (d : Container → Bool) (io : Container → Removal) (now : ℕ) where
  swept : Pool → Pool
  swept [] = []
  swept (c ∷ cs) = (if d c then (cleanup (io c) now c).0 else c) ∷ swept cs

  doomed_ids : Pool → List Text
  doomed_ids [] = []
  doomed_ids (c ∷ cs) = let rest = doomed_ids cs in if d c then c.id ∷ rest else rest

  module _ (rules : List HealthRule) (waiting : List Job)
      (agree : (c : Container) (j : Jobs) → pending_jobs j ≡ waiting → judge rules c j ≡ d c) where
    check_each_lem :
        (cs : Pool) (j : Jobs) (ids : List Text)
        → pending_jobs j ≡ waiting
        → (check_each rules io now cs j ids).ended ≡ fine
        → check_each rules io now cs j ids ≡ record {
          containers = swept cs;
          jobs = losses d io now cs j;
          delete_ids = ids ++ doomed_ids cs;
          ended = fine;
        }
    unfolding check_each swept losses doomed_ids
    check_each_lem [] j ids p e = simp append-nil
    check_each_lem (c ∷ cs) j ids p e = ground (
      arith,
      agree c j p,
      check_each_lem cs j ids p,
      check_each_lem cs (condemn (io c) now c j).1 (ids ++ (c.id ∷ []))
          (condemn-pending (io c) now c j ∙ p),
      condemn-cleanup (io c) now c j,
      append_assoc ids (c.id ∷ []) (doomed_ids cs),
    )

module _ (io : Text → Removal) where
  remove-head :
      (id : Text) (c : Container) (cs : Pool) → id ≡ c.id → (remove (io id) id (c ∷ cs)).0 ≡ cs
  unfolding remove
  remove-head id c cs e = ground (arith, text_eq_iff c.id id)

  remove-tail :
      (id : Text) (c : Container) (cs : Pool)
      → c.id ≢ id
      → (remove (io id) id (c ∷ cs)).0 ≡ c ∷ (remove (io id) id cs).0
  unfolding remove
  remove-tail id c cs e = ground (arith, text_eq_iff c.id id)

  remove_each-apart :
      (c : Container) (ids : List Text) (cs : Pool)
      → All (λ id. c.id ≢ id) ids
      → remove_each io ids (c ∷ cs) ≡ c ∷ remove_each io ids cs
  unfolding remove_each
  remove_each-apart c [] cs h = refl
  remove_each-apart c (id ∷ ids) cs h =
      rw (remove-tail id c cs h.0) (remove_each-apart c ids (remove (io id) id cs).0 h.1)

-- No two containers of a pool have the same ID.
abbrev pub Distinct : Pool → Type 0
Distinct [] = Unit
Distinct (c ∷ cs) = All (λ other. c.id ≢ other.id) cs × Distinct cs

module _ (d : Container → Bool) (io : Container → Removal) (io' : Text → Removal) (now : ℕ) where
  doomed_ids-apart :
      (id : Text) (cs : Pool)
      → All (λ other. id ≢ other.id) cs
      → All (λ other. id ≢ other) (doomed_ids d io now cs)
  unfolding doomed_ids
  doomed_ids-apart id [] h = tt
  doomed_ids-apart id (c ∷ cs) h = ground (arith, doomed_ids-apart id cs h.1)

  remove_each-swept :
      (cs : Pool)
      → Distinct cs
      → remove_each io' (doomed_ids d io now cs) (swept d io now cs) ≡ kept d cs
  unfolding doomed_ids swept kept remove_each
  remove_each-swept [] h = refl
  remove_each-swept (c ∷ cs) h = ground (
    arith,
    remove-head io' c.id (cleanup (io c) now c).0 (swept d io now cs)
        (sym (cleanup-id (io c) now c)),
    remove_each-apart io' c (doomed_ids d io now cs) (swept d io now cs)
        (doomed_ids-apart c.id cs h.0),
    remove_each-swept cs h.1,
  )

run_health_rule_fine :
    (rules : List HealthRule) (io : Container → Removal) (io' : Text → Removal) (now : ℕ)
    (cs : Pool) (j : Jobs)
    → (run_health_rule rules io io' now cs j).1 ≡ fine
    → (check_each rules io now cs j []).ended ≡ fine
unfolding run_health_rule
run_health_rule_fine rules io io' now cs j h = ground arith

run_health_rule_ends :
    (rules : List HealthRule) (io : Container → Removal) (io' : Text → Removal) (now : ℕ)
    (cs : Pool) (j : Jobs)
    → let r = check_each rules io now cs j [] in
      r.ended ≡ fine
      → (run_health_rule rules io io' now cs j).0
        ≡ (remove_each io' r.delete_ids r.containers, r.jobs)
unfolding run_health_rule
run_health_rule_ends rules io io' now cs j h = ground arith

module _ (inspect : Container → Option Inspection) (io : Container → Removal) (io' : Text → Removal)
    (now : ℕ) (cs : Pool) (j : Jobs) (apart : Distinct cs)
    (well : (health_tick inspect io io' now cs j).1 ≡ fine) where
  abbrev judged : Container → Bool
  judged = is_doomed inspect now (pending_jobs j)

  checked_well : (check_each (health_rules inspect now) io now cs j []).ended ≡ fine
  unfolding health_tick
  checked_well = run_health_rule_fine (health_rules inspect now) io io' now cs j well

  checked : check_each (health_rules inspect now) io now cs j [] ≡ record {
    containers = swept judged io now cs;
    jobs = losses judged io now cs j;
    delete_ids = doomed_ids judged io now cs;
    ended = fine;
  }
  checked =
      check_each_lem judged io now (health_rules inspect now) (pending_jobs j)
        (λ c j' p. judge-is_doomed inspect now c j' ∙ ap (λ w. is_doomed inspect now w c) p) cs j []
        refl checked_well

  health_tick_ends :
      (health_tick inspect io io' now cs j).0 ≡ (kept judged cs, losses judged io now cs j)
  unfolding health_tick
  health_tick_ends =
      run_health_rule_ends (health_rules inspect now) io io' now cs j checked_well
      ∙ ap (λ r. (remove_each io' r.delete_ids r.containers, r.jobs)) checked
      ∙ ap (λ p. (p, losses judged io now cs j)) (remove_each-swept judged io io' now cs apart)

  -- A tick of healthChecks that no error ends deletes exactly the containers that are unresponsive, or
  -- free and idle for too long, worn out or unwanted, from a pool whose IDs differ. The waiting jobs
  -- stay; of the active ones exactly those that ran in a deleted container are active no more. What the
  -- tick sends is exactly the list of these, each once, as failed and without a payload, in the order of
  -- the first deleted containers that ran them.
  pub health_tick_lem :
      let ((cs', j'), ended) = health_tick inspect io io' now cs j in
      (cs' ≡ kept judged cs)
      × (j'.pending ≡ j.pending)
      × ((id : Text)
          → lookup id j'.active ≡ (if lost judged id cs then none else lookup id j.active))
      × ((added : List Job) × (j'.completed ≡ j.completed ++ added)
          × (added ≡ lost_jobs judged j.active [] cs)
          × All IsFailed added
          × ((id : Text) (job : Job)
              → lost judged id cs ≡ true
              → lookup id j.active ≡ some job
              → Among (failure job) added))
  health_tick_lem = rw health_tick_ends (
    refl,
    losses-pending judged io now cs j,
    (λ id. losses-active judged io now id cs j),
    (
      sent judged io now cs j,
      losses-completed judged io now cs j,
      sent-lost_jobs judged io now j.active [] cs j (λ id. none_passed judged id j),
      sent-IsFailed judged io now cs j,
      λ id job l e. sent-Among judged io now id job cs j l e,
    ),
  )
