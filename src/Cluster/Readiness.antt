-- ===== src/Cluster/Readiness.antt =====
-- WaitUntilReady comes to an end, since its polls are 200 ms apart.
use not_ahivemind.Base.{
  ℕ, ◌+◌, ◌*◌, ◌<◌, ◌≤◌, ◌≡◌, ◌⊎◌, inl, inr, refl, Bool-cases, Option, none, some, List, [], ◌∷◌,
  ltb, arith, length, ◌&&◌,
}
use not_ahivemind.Cluster.Container.{
  Ended, fine, failed, Inspection, is_healthy, poll_ready, wait_until_ready,
}

abbrev pub Poll : Type 0
Poll = ℕ × Option Inspection

-- 200 ms.
abbrev pub pause : ℕ
pause = 200000000

-- No poll is earlier than the first time, and each is a pause or more after the one before.
pub data IsSpaced : ℕ → List Poll → Type 0 where
  no_poll : {earliest : ℕ} → IsSpaced earliest []
  next_poll :
      {earliest now : ℕ} {i : Option Inspection} {ps : List Poll}
      → earliest ≤ now
      → IsSpaced (now + pause) ps
      → IsSpaced earliest ((now, i) ∷ ps)

abbrev IsOver : Option Ended → Type 0
IsOver r = (r ≡ some fine) ⊎ (r ≡ some failed)

poll_ready_cases :
    (deadline now : ℕ) (i : Option Inspection)
    → (poll_ready deadline (now, i) ≡ some fine)
      ⊎ ((poll_ready deadline (now, i) ≡ some failed)
          ⊎ ((poll_ready deadline (now, i) ≡ none) × (now ≤ deadline)))
unfolding poll_ready
poll_ready_cases deadline now none = inr (inl refl)
poll_ready_cases deadline now (some i) = elim (Bool-cases (i.is_running && is_healthy i.health)) [
  | inl h ↦ inl (rw h refl)
  | inr h ↦ elim (Bool-cases (ltb deadline now)) [
    | inl l ↦ inr (inl (rw h (rw l refl)))
    | inr l ↦ inr (inr (rw h (rw l refl), ground (arith, l)))
  ]
]

module _ (deadline : ℕ) where
  wait_first :
      (p : Poll) (ps : List Poll) (r : Ended)
      → poll_ready deadline p ≡ some r
      → wait_until_ready deadline (p ∷ ps) ≡ some r
  unfolding wait_until_ready
  wait_first p ps r h = rw (wait_until_ready, h) refl

  wait_next :
      (p : Poll) (ps : List Poll)
      → poll_ready deadline p ≡ none
      → wait_until_ready deadline (p ∷ ps) ≡ wait_until_ready deadline ps
  unfolding wait_until_ready
  wait_next p ps h = rw (wait_until_ready, h) refl

  -- Polls each 200 ms or more after the one before, so many that the pauses between them reach past the
  -- deadline, are enough: WaitUntilReady returns, with no error or with one.
  pub wait_until_ready_ends :
      (p : Poll) (ps : List Poll) {earliest : ℕ}
      → IsSpaced earliest (p ∷ ps)
      → deadline < earliest + pause * length ps
      → (wait_until_ready deadline (p ∷ ps) ≡ some fine)
        ⊎ (wait_until_ready deadline (p ∷ ps) ≡ some failed)
  wait_until_ready_ends (now, i) [] (next_poll le rest) enough =
      elim (poll_ready_cases deadline now i) [
        | inl h ↦ inl (wait_first (now, i) [] fine h)
        | inr (inl h) ↦ inr (wait_first (now, i) [] failed h)
        | inr (inr (h, before)) ↦ absurd (omega arith)
      ]
  wait_until_ready_ends (now, i) (p ∷ ps) (next_poll le rest) enough =
      elim (poll_ready_cases deadline now i) [
        | inl h ↦ inl (wait_first (now, i) (p ∷ ps) fine h)
        | inr (inl h) ↦ inr (wait_first (now, i) (p ∷ ps) failed h)
        | inr (inr (h, before)) ↦
            rw (wait_next (now, i) (p ∷ ps) h) (wait_until_ready_ends p ps rest (omega arith))
      ]
