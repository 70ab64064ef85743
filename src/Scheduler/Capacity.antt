-- ===== src/Scheduler/Capacity.antt =====
-- Which cluster LeastUtilizedCluster and LeastUtilizedPeer name.
use mathlib.Core.Path.{subst}
use not_ahivemind.Base.{
  ◌≡◌, ◌⊎◌, inl, inr, refl, Bool, true, false, ◌&&◌, List, [], ◌∷◌, arith, if◌then◌else◌, ap, ◌∙◌,
  All, Text,
}
use not_ahivemind.Base.Int.{ℤ, pos, negsuc, ◌≤ℤ◌, ltb_ℤ}
use not_ahivemind.Scheduler.State.{ClusterState, State}
use not_ahivemind.Scheduler.Externs.{
  cpu_diff, least_used, has_more, seen_clusters, least_utilized_cluster,
}

module _ (suits : ℤ → ℤ → ClusterState → Bool) (cpu mem : ℤ) where
  -- Whether one of the clusters is the one named, suits, and has that many free processors.
  abbrev pub Holds : Text × ℤ → List (Text × ClusterState) → Type 0
  Holds best [] = ⊥
  Holds best ((id, c) ∷ cs) =
      ((best.0 ≡ id) × (best.1 ≡ cpu_diff c) × (suits cpu mem c ≡ true)) ⊎ Holds best cs

  abbrev pub IsAtMost : ℤ → Text × ClusterState → Type 0
  IsAtMost m (id, c) = (suits cpu mem c ≡ false) ⊎ (cpu_diff c ≤ℤ m)

  abbrev chosen : Text → ClusterState → Text × ℤ → Text × ℤ
  chosen id c best = if suits cpu mem c && ltb_ℤ best.1 (cpu_diff c) then (id, cpu_diff c) else best

  least_used-cons :
      (id : Text) (c : ClusterState) (cs : List (Text × ClusterState)) (best : Text × ℤ)
      → least_used suits cpu mem ((id, c) ∷ cs) best
        ≡ least_used suits cpu mem cs (chosen id c best)
  unfolding least_used
  least_used-cons id c cs best = refl

  chosen-grows : (id : Text) (c : ClusterState) (best : Text × ℤ) → best.1 ≤ℤ (chosen id c best).1
  chosen-grows id c best = ground arith

  chosen-IsAtMost :
      (id : Text) (c : ClusterState) (best : Text × ℤ) → IsAtMost (chosen id c best).1 (id, c)
  chosen-IsAtMost id c best = ground arith

  chosen_cases :
      (id : Text) (c : ClusterState) (best : Text × ℤ)
      → (chosen id c best ≡ best)
        ⊎ ((chosen id c best ≡ (id, cpu_diff c)) × (suits cpu mem c ≡ true))
  chosen_cases id c best = ground arith

  least_used-grows :
      (cs : List (Text × ClusterState)) (best : Text × ℤ)
      → best.1 ≤ℤ (least_used suits cpu mem cs best).1
  least_used-grows [] best = unfold least_used in omega arith
  least_used-grows ((id, c) ∷ cs) best =
      rw (least_used-cons id c cs best)
        (omega (arith, chosen-grows id c best, least_used-grows cs (chosen id c best)))

  IsAtMost-mono : (m n : ℤ) (e : Text × ClusterState) → m ≤ℤ n → IsAtMost m e → IsAtMost n e
  IsAtMost-mono m n (id, c) le (inl small) = inl small
  IsAtMost-mono m n (id, c) le (inr h) = inr (omega (arith, le, h))

  -- The result is as good as any cluster that suits, and it is one of them or what was given.
  least_used_lem :
      (cs : List (Text × ClusterState)) (best : Text × ℤ)
      → All (IsAtMost (least_used suits cpu mem cs best).1) cs
        × ((least_used suits cpu mem cs best ≡ best) ⊎ Holds (least_used suits cpu mem cs best) cs)
  unfolding least_used
  least_used_lem [] best = (tt, inl (unfold least_used in refl))
  least_used_lem ((id, c) ∷ cs) best =
      let (all, from) = least_used_lem cs (chosen id c best) in
      rw (least_used-cons id c cs best) (
        (
          IsAtMost-mono _ _ (id, c) (least_used-grows cs (chosen id c best))
              (chosen-IsAtMost id c best),
          all,
        ),
        elim from [
          | inr later ↦ inr (inr later)
          | inl same ↦ elim (chosen_cases id c best) [
            | inl kept ↦ inl (same ∙ kept)
            | inr (taken, suit) ↦ inr (
                inl (
                  ap (λ (x : Text × ℤ). x.0) (same ∙ taken),
                  ap (λ (x : Text × ℤ). x.1) (same ∙ taken),
                  suit,
                ))
          ]
        ],
      )

module _ (cpu mem : ℤ) (s : State) (asks : pos 0 ≤ℤ cpu) where
  best_cluster : Text × ℤ
  best_cluster = least_used has_more cpu mem (seen_clusters s) ([], negsuc 0)

  none_more :
      (cs : List (Text × ClusterState))
      → All (IsAtMost has_more cpu mem (negsuc 0)) cs
      → All (λ e. has_more cpu mem e.1 ≡ false) cs
  unfolding has_more
  none_more [] h = tt
  none_more ((id, c) ∷ cs) (p, h) = (ground arith, none_more cs h)

  -- For a job that asks for no negative number of processors, LeastUtilizedCluster names a local
  -- cluster with more processors and memory free than asked, and no other such cluster has more
  -- processors free; or it names none, and no cluster has more free than asked of both.
  least_utilized_cluster_lem :
      ((m : ℤ) × Holds has_more cpu mem (least_utilized_cluster cpu mem s, m) (seen_clusters s)
        × All (IsAtMost has_more cpu mem m) (seen_clusters s))
      ⊎ ((least_utilized_cluster cpu mem s ≡ [])
          × All (λ e. has_more cpu mem e.1 ≡ false) (seen_clusters s))
  unfolding least_utilized_cluster best_cluster
  least_utilized_cluster_lem =
      let (all, from) = least_used_lem has_more cpu mem (seen_clusters s) ([], negsuc 0) in
      elim from [
        | inl same ↦ inr (
          ap (λ (x : Text × ℤ). x.0) same,
          none_more (seen_clusters s) (
              subst (λ (x : Text × ℤ). All (IsAtMost has_more cpu mem x.1) (seen_clusters s)) same
                all),
        )
        | inr held ↦ inl (best_cluster.1, held, all)
      ]
