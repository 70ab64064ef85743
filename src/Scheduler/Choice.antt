-- ===== src/Scheduler/Choice.antt =====
-- Which cluster a turn of processPendingJobs takes, and what it books there.
use native.Mathlib.Nat.{mod-add-mod, mod-eq_of_lt, mod-lt, add-mod_right}
use mathlib.Core.Path.{subst}
use native.Mathlib.Decide.{dec_le}
use not_ahivemind.Base.{
  ℕ, zero, suc, ◌+◌, ◌-◌, ◌%◌, ◌^◌, ◌<◌, ◌≡◌, ◌⊎◌, inl, inr, refl, sym, ap, ◌∙◌, true, false, none,
  some, List, arith, length, Bool-cases, Option-cases, lookup,
}
use not_ahivemind.Base.Int.{◌+ℤ◌}
use not_ahivemind.Scheduler.State.{JobRef, State}
use not_ahivemind.Scheduler.Externs.{use_cluster, soft_update_cluster}
use not_ahivemind.Scheduler.Packer.{get_elem?, has_room, choose_cluster, reserve_cluster}

-- Every place is met on the way round.
rotation : (i n len : ℕ) → n < len → (m : ℕ) × (m < len) × ((i + m) % len ≡ n)
rotation i n len h = elim (dec_le (i % len) n) [
  | yes p ↦ (
    n - i % len,
    omega arith,
    sym (mod-add-mod i len (n - i % len)) ∙ ap (λ (t : ℕ). t % len) (omega arith) ∙ mod-eq_of_lt h,
  )
  | no p ↦
      let small : i % len < len = mod-lt i (omega arith) in
      (
        n + len - i % len,
        omega (arith, p),
        sym (mod-add-mod i len (n + len - i % len))
            ∙ ap (λ (t : ℕ). t % len) (omega (arith, small))
            ∙ add-mod_right n len
            ∙ mod-eq_of_lt h,
      )
]

module _ (job : JobRef) (clusters : List ℕ) (s : State) where
  -- The cluster at a place of the rotation, if any, has no room.
  abbrev NoRoomAt : ℕ → Type 0
  NoRoomAt idx =
      (c : ℕ)
      → get_elem? clusters (idx % length clusters) ≡ some c
      → has_room job (s.cluster_cells c) ≡ false

  pub record IsFirst (tries idx c : ℕ) : Type 0 where
    pub turn : ℕ
    pub within : turn < tries
    pub here : get_elem? clusters ((idx + turn) % length clusters) ≡ some c
    pub room : has_room job (s.cluster_cells c) ≡ true
    pub earlier : (m : ℕ) → m < turn → NoRoomAt (idx + m)

  choose_hit :
      (tries idx c : ℕ)
      → get_elem? clusters (idx % length clusters) ≡ some c
      → has_room job (s.cluster_cells c) ≡ true
      → choose_cluster (suc tries) idx job clusters s ≡ some c
  unfolding choose_cluster
  choose_hit tries idx c e r = rw (choose_cluster, e, r) refl

  choose_miss :
      (tries idx : ℕ)
      → NoRoomAt idx
      → choose_cluster (suc tries) idx job clusters s
        ≡ choose_cluster tries (idx + 1) job clusters s
  unfolding choose_cluster
  choose_miss tries idx no_room = elim (Option-cases (get_elem? clusters (idx % length clusters))) [
    | inl e ↦ rw (choose_cluster, e) refl
    | inr (c, e) ↦ rw (choose_cluster, e, no_room c e) refl
  ]

  plus_zero : (n : ℕ) → n + 0 ≡ n
  plus_zero n = omega arith

  shifted : (n m : ℕ) → n + suc m ≡ n + 1 + m
  shifted n m = omega arith

  place_cases :
      (idx : ℕ)
      → ((c : ℕ) × (get_elem? clusters (idx % length clusters) ≡ some c)
          × (has_room job (s.cluster_cells c) ≡ true))
        ⊎ NoRoomAt idx
  place_cases idx = elim (Option-cases (get_elem? clusters (idx % length clusters))) [
    | inl e ↦ inr (λ c e'. absurd (ground (arith, e, e')))
    | inr (c, e) ↦ elim (Bool-cases (has_room job (s.cluster_cells c))) [
      | inl r ↦ inl (c, e, r)
      | inr r ↦ inr (λ d e'. ground (arith, e, e', r))
    ]
  ]

  NoRoomAt-shift :
      (idx turn : ℕ)
      → NoRoomAt idx
      → ((m : ℕ) → m < turn → NoRoomAt (idx + 1 + m))
      → (m : ℕ) → m < suc turn
      → NoRoomAt (idx + m)
  NoRoomAt-shift idx turn no_room rest zero h = subst NoRoomAt (omega arith) no_room
  NoRoomAt-shift idx turn no_room rest (suc m) h =
      subst NoRoomAt (omega arith) (rest m (omega arith))

  choose_cluster_cases :
      (tries idx : ℕ)
      → ((c : ℕ) × (choose_cluster tries idx job clusters s ≡ some c) × IsFirst tries idx c)
        ⊎ ((choose_cluster tries idx job clusters s ≡ none)
            × ((m : ℕ) → m < tries → NoRoomAt (idx + m)))
  choose_cluster_cases zero idx = inr (unfold choose_cluster in refl, λ m h. absurd (omega arith))
  choose_cluster_cases (suc tries) idx = elim (place_cases idx) [
    | inl (c, e, r) ↦ inl (
      c,
      choose_hit tries idx c e r,
      record {
        turn = 0;
        within = omega arith;
        here = rw (ap (λ (t : ℕ). get_elem? clusters (t % length clusters)) (plus_zero idx)) e;
        room = r;
        earlier = λ m h. absurd (omega arith);
      },
    )
    | inr no_room ↦ elim (choose_cluster_cases tries (idx + 1)) [
      | inl (c, found, first) ↦ inl (
        c,
        choose_miss tries idx no_room ∙ found,
        record {
          turn = suc first.turn;
          within = omega (arith, first.within);
          here =
              ap (λ (t : ℕ). get_elem? clusters (t % length clusters)) (shifted idx first.turn)
              ∙ first.here;
          room = first.room;
          earlier = NoRoomAt-shift idx first.turn no_room first.earlier;
        },
      )
      | inr (nothing, rest) ↦
          inr (choose_miss tries idx no_room ∙ nothing, NoRoomAt-shift idx tries no_room rest)
    ]
  ]

  -- The cluster chosen for a job is the first one with room, going round from the turn's place; none
  -- is chosen only if no cluster has room.
  pub choose_cluster_lem :
      (i : ℕ)
      → ((c : ℕ) × (choose_cluster (length clusters) i job clusters s ≡ some c)
          × IsFirst (length clusters) i c)
        ⊎ ((choose_cluster (length clusters) i job clusters s ≡ none)
            × ((n c : ℕ)
                → n < length clusters
                → get_elem? clusters n ≡ some c
                → has_room job (s.cluster_cells c) ≡ false))
  choose_cluster_lem i = elim (choose_cluster_cases (length clusters) i) [
    | inl found ↦ inl found
    | inr (nothing, all) ↦ inr (
      nothing,
      λ n c h e.
          let (m, within, eq) = rotation i n (length clusters) h in
          all m within c (ap (get_elem? clusters) eq ∙ e),
    )
  ]

-- Where the table has the cluster's pointer under its ID, a job that is placed there is booked twice, in
-- processors and in memory, and counted as one optimistic update.
reserve_cluster_twice :
    (job : JobRef) (c : ℕ) (s : State)
    → lookup (s.cluster_cells c).id s.clusters ≡ some c
    → let cell = s.cluster_cells c in
      (reserve_cluster job c s).cluster_cells c ≡ record cell {
        used_cpu = cell.used_cpu +ℤ job.cpu_requirement +ℤ job.cpu_requirement;
        used_mem = cell.used_mem +ℤ job.memory_requirement +ℤ job.memory_requirement;
        optimistic_updates = (cell.optimistic_updates + 1) % 2 ^ 16;
      }
unfolding reserve_cluster soft_update_cluster use_cluster
reserve_cluster_twice job c s known = rw (soft_update_cluster, known) (ground arith)
