-- ===== src/Cluster/Collecting.antt =====
-- What the watch over the result files sends.
use not_ahivemind.Base.{
  ℕ, zero, suc, ◌+◌, ◌*◌, ◌≤◌, ◌≡◌, ◌⊎◌, refl, ap, inl, inr, Bool, true, false, Option, none, some,
  List, [], ◌∷◌, ◌++◌, arith, Text, Bool-cases, Option-cases,
}
use not_ahivemind.Cluster.Watching.{
  Attempt, open_fails, opens, retry, read_with_retry, FileIo, process_and_delete_file, DirEntry,
  is_result, Watched, watch_entries,
}

-- A round gives the file's bytes: it opens, is read and closes.
abbrev pub gives : Attempt → Option (List ℕ)
gives open_fails = none
gives (opens read false) = none
gives (opens read true) = read

-- Up to `n` rounds from the `i`-th on: the bytes of the first that gives any.
unfoldable pub first_read : ℕ → ℕ → (ℕ → Attempt) → Option (List ℕ)
first_read zero i world = none
first_read (suc n) i world =
    let rest = first_read n (i + 1) world in
    elim (gives (world i)) [ none ↦ rest | some bytes ↦ some bytes ]

retry_round :
    (n i : ℕ) (world : ℕ → Attempt) (a : Attempt)
    → world i ≡ a
    → (retry n (i + 1) world).bytes ≡ first_read n (i + 1) world
    → (retry (suc n) i world).bytes ≡ first_read (suc n) i world
unfolding retry first_read
retry_round n i world open_fails e h = ground arith
retry_round n i world (opens none true) e h = ground arith
retry_round n i world (opens (some b) true) e h = ground arith
retry_round n i world (opens read false) e h = ground arith

retry-first_read : (n i : ℕ) (world : ℕ → Attempt) → (retry n i world).bytes ≡ first_read n i world
unfolding retry first_read
retry-first_read zero i world = refl
retry-first_read (suc n) i world =
    retry_round n i world (world i) refl (retry-first_read n (i + 1) world)

-- The longest that `n` rounds from the `i`-th on sleep.
abbrev pub longest_sleep : ℕ → ℕ → ℕ
longest_sleep zero i = 0
longest_sleep (suc n) i = 100 * (i + 1) + longest_sleep n (i + 1)

retry-slept : (n i : ℕ) (world : ℕ → Attempt) → (retry n i world).slept ≤ longest_sleep n i
unfolding retry
retry-slept zero i world = omega arith
retry-slept (suc n) i world = ground (arith, retry-slept n (i + 1) world)

-- readWithRetry gives the bytes of the first of its five rounds that opens, reads and closes the file,
-- and sleeps a second and a half at most.
read_with_retry_lem :
    (world : ℕ → Attempt)
    → ((read_with_retry world).bytes ≡ first_read 5 0 world)
      × ((read_with_retry world).slept ≤ 1500)
unfolding read_with_retry
read_with_retry_lem world = (retry-first_read 5 0 world, retry-slept 5 0 world)

module _ (valid : List ℕ → Bool) (io : Text → FileIo) where
  -- The file is a result that can be read, is valid and is removed; its bytes.
  abbrev pub IsCollected : DirEntry → List ℕ → Type 0
  IsCollected e bytes =
      (first_read 5 0 (io e.name).reads ≡ some bytes)
      × (valid bytes ≡ true)
      × ((io e.name).removes ≡ true)

  -- No round gives the file's bytes, or they are not valid, or the file is not removed.
  abbrev pub IsRefused : DirEntry → Type 0
  IsRefused e =
      (first_read 5 0 (io e.name).reads ≡ none)
      ⊎ ((bytes : List ℕ) × (first_read 5 0 (io e.name).reads ≡ some bytes)
          × ((valid bytes ≡ false) ⊎ ((io e.name).removes ≡ false)))

  process_and_delete_file-none :
      (e : DirEntry) → process_and_delete_file valid (io e.name) ≡ none → IsRefused e
  unfolding process_and_delete_file
  process_and_delete_file-none e h = elim (Option-cases (first_read 5 0 (io e.name).reads)) [
    | inl p ↦ inl p
    | inr (bytes, p) ↦ inr (bytes, p, ground (arith, p, read_with_retry_lem (io e.name).reads))
  ]

  process_and_delete_file_cases :
      (e : DirEntry) {bytes : List ℕ}
      → process_and_delete_file valid (io e.name) ≡ some bytes
      → IsCollected e bytes
  unfolding process_and_delete_file
  process_and_delete_file_cases e h = ground (arith, read_with_retry_lem (io e.name).reads)

  -- The messages of some entries, oldest first: the others are no results.
  pub data Collects : List DirEntry → List (List ℕ) → Type 0 where
    no_entry : Collects [] []
    skips :
        {es : List DirEntry} {ms : List (List ℕ)} (e : DirEntry)
        → is_result e ≡ false
        → Collects es ms
        → Collects (e ∷ es) ms
    collects :
        {es : List DirEntry} {ms : List (List ℕ)} (e : DirEntry) (bytes : List ℕ)
        → is_result e ≡ true
        → IsCollected e bytes
        → Collects es ms
        → Collects (e ∷ es) (bytes ∷ ms)

  -- How the loop ended: with every entry collected, or at a result that was not.
  pub data Ends : List DirEntry → Watched → Type 0 where
    all_collected :
        {es : List DirEntry} {ms : List (List ℕ)}
        → Collects es ms
        → Ends es (record { sent = ms; ended = false })
    stopped :
        {before : List DirEntry} {ms : List (List ℕ)} (e : DirEntry) (after es : List DirEntry)
        → Collects before ms
        → is_result e ≡ true
        → IsRefused e
        → es ≡ before ++ e ∷ after
        → Ends es (record { sent = ms; ended = true })

  Ends-skips :
      (e : DirEntry) {es : List DirEntry} {w : Watched}
      → is_result e ≡ false
      → Ends es w
      → Ends (e ∷ es) w
  Ends-skips e p (all_collected c) = all_collected (skips e p c)
  Ends-skips e p (stopped {before} bad after es c r f split) =
      stopped {before = e ∷ before} bad after (e ∷ es) (skips e p c) r f (ap (◌∷◌ e) split)

  Ends-collects :
      (e : DirEntry) (bytes : List ℕ) {es : List DirEntry} {w : Watched}
      → is_result e ≡ true
      → IsCollected e bytes
      → Ends es w
      → Ends (e ∷ es) (record w { sent = bytes ∷ w.sent })
  Ends-collects e bytes p q (all_collected c) = all_collected (collects e bytes p q c)
  Ends-collects e bytes p q (stopped {before} bad after es c r f split) =
      stopped {before = e ∷ before} bad after (e ∷ es) (collects e bytes p q c) r f
        (ap (◌∷◌ e) split)

  watch_entry-Ends :
      (e : DirEntry) (es : List DirEntry) (o : Option (List ℕ))
      → is_result e ≡ true
      → process_and_delete_file valid (io e.name) ≡ o
      → Ends es (watch_entries valid io es)
      → Ends (e ∷ es) (watch_entries valid io (e ∷ es))
  unfolding watch_entries
  watch_entry-Ends e es none p q h =
      rw (p, q)
        (stopped {before = []} e es (e ∷ es) no_entry p (process_and_delete_file-none e q) refl)
  watch_entry-Ends e es (some bytes) p q h =
      rw (p, q) (Ends-collects e bytes p (process_and_delete_file_cases e q) h)

  watched_none : Ends [] (watch_entries valid io [])
  unfolding watch_entries
  watched_none = all_collected no_entry

  watched_past :
      (e : DirEntry) (es : List DirEntry)
      → is_result e ≡ false
      → Ends es (watch_entries valid io es)
      → Ends (e ∷ es) (watch_entries valid io (e ∷ es))
  unfolding watch_entries
  watched_past e es p h = rw p (Ends-skips e p h)

  -- A tick that reads the directory sends, in the order of the entries, the bytes of every result file
  -- that one of five rounds of reading gives, that are valid and whose file is removed. The first result
  -- that no round gives, that is not valid or whose file is not removed ends the watch, and the entries
  -- behind it are left; where there is none the watch goes on.
  pub watch_entries-Ends : (es : List DirEntry) → Ends es (watch_entries valid io es)
  watch_entries-Ends [] = watched_none
  watch_entries-Ends (e ∷ es) = elim (Bool-cases (is_result e)) [
    | inl p ↦ watch_entry-Ends e es _ p refl (watch_entries-Ends es)
    | inr p ↦ watched_past e es p (watch_entries-Ends es)
  ]
