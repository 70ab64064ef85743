-- ===== src/Arbiter/Queue.antt =====
-- internal/arbiter/packer.go. The queue's items are of any type; its accessor functions are a record.
-- Two tables hold them: `items` by their ID, and `order`, from which an item is dropped late.
use not_ahivemind.Base.{
  ℕ, ◌%◌, ◌^◌, ◌-◌, Bool, true, false, not, ◌&&◌, Option, none, some, List, [], ◌∷◌, ◌++◌, map, ltb,
  if◌then◌else◌, length, Text, Map, has, insert, remove, values,
}
use not_ahivemind.Base.Int.{ℤ, pos, negsuc, leb_ℤ, ltb_ℤ, eq_ℤ}

pub record Accessors {ℓ} (T : Type ℓ) : Type ℓ where
  pub id_fn : T → Text
  pub prio_fn : T → ℤ
  pub cpu_fn : T → ℤ
  pub mem_fn : T → ℤ

pub record Queue {ℓ} (T : Type ℓ) : Type ℓ where
  pub items : Map T
  pub order : List T
  pub dirty : Bool

-- `int32(n)`.
unfoldable pub to_int32 : ℕ → ℤ
to_int32 n = let r = n % 2 ^ 32 in if ltb r (2 ^ 31) then pos r else negsuc (2 ^ 32 - 1 - r)

module _ {ℓ} {T : Type ℓ} where
  -- NewQueue.
  abbrev pub new_queue : Queue T
  new_queue = record { items = []; order = []; dirty = false }

  -- Clear.
  unfoldable pub clear : Queue T → Queue T
  clear q = new_queue

  unfoldable pub ids : Queue T → List Text
  ids q = map (λ e. e.0) q.items

  unfoldable pub size : Queue T → ℤ
  unfolding to_int32
  size q = to_int32 (length q.items)

  unfoldable pub queue_items : Queue T → List T
  queue_items q = values q.items

  unfoldable pub filter : (T → Bool) → List T → List T
  filter p [] = []
  filter p (x ∷ xs) = let rest = filter p xs in if p x then x ∷ rest else rest

  -- PeekForHeuristic.
  unfoldable pub peek_for_heuristic : (T → Bool) → Queue T → List T
  unfolding filter
  peek_for_heuristic heuristic q = filter heuristic (values q.items)

  -- RemoveByID.
  unfoldable pub remove_by_id : Text → Queue T → Queue T
  remove_by_id id q =
      if has id q.items then record q { items = remove id q.items; dirty = true } else q

module _ {ℓ} {T : Type ℓ} (f : Accessors T) where
  unfoldable pub push : T → Queue T → Queue T
  push item q =
      let q' =
        if has (f.id_fn item) q.items
        then q
        else record q { order = q.order ++ (item ∷ []); dirty = true } in
      record q' { items = insert (f.id_fn item) item q'.items }

  unfoldable pub push_batch : List T → Queue T → Queue T
  push_batch [] q = q
  push_batch (item ∷ items) q = push_batch items (push item q)

  -- The comparison of sortAndCompact: the higher priority, then the larger memory.
  unfoldable pub less : T → T → Bool
  less x y =
      if not (eq_ℤ (f.prio_fn x) (f.prio_fn y))
      then ltb_ℤ (f.prio_fn y) (f.prio_fn x)
      else ltb_ℤ (f.mem_fn y) (f.mem_fn x)

  -- `sort.SliceStable`, which leaves equal items in their order.
  unfoldable pub place_item : T → List T → List T
  place_item x [] = x ∷ []
  place_item x (y ∷ ys) = let rest = place_item x ys in if less y x then y ∷ rest else x ∷ y ∷ ys

  unfoldable pub slice_stable : List T → List T
  slice_stable [] = []
  slice_stable (x ∷ xs) = place_item x (slice_stable xs)

  unfoldable pub sort_and_compact : Queue T → Queue T
  sort_and_compact q = record q {
    order = slice_stable (filter (λ item. has (f.id_fn item) q.items) q.order);
    dirty = false;
  }

  -- The first item that passes, and the items without it.
  unfoldable pub take_first : (T → Bool) → List T → Option (T × List T)
  take_first p [] = none
  take_first p (x ∷ xs) =
      let rest = take_first p xs in
      if p x then some (x, xs) else (elim rest [ none ↦ none | some r ↦ some (r.0, x ∷ r.1) ])

  abbrev is_empty_map : Map T → Bool
  is_empty_map [] = true
  is_empty_map (e ∷ es) = false

  pop_taken : Option (T × List T) → Queue T → Option T × Queue T
  pop_taken none q = (none, q)
  pop_taken (some (item, rest)) q =
      (some item, record q { items = remove (f.id_fn item) q.items; order = rest })

  unfoldable pub compacted : Queue T → Queue T
  compacted q = if q.dirty then sort_and_compact q else q

  unfoldable pub fits : ℤ → ℤ → T → Bool
  fits avail_cpu avail_mem item = leb_ℤ (f.cpu_fn item) avail_cpu && leb_ℤ (f.mem_fn item) avail_mem

  -- PopBestFitHeuristic.
  unfoldable pub pop_best_fit_heuristic : ℤ → ℤ → (T → Bool) → Queue T → Option T × Queue T
  unfolding pop_taken
  pop_best_fit_heuristic avail_cpu avail_mem heuristic q =
      if is_empty_map q.items
      then (none, q)
      else let q' = compacted q in
        pop_taken (take_first (λ item. fits avail_cpu avail_mem item && heuristic item) q'.order) q'

  -- PopBestFit.
  unfoldable pub pop_best_fit : ℤ → ℤ → Queue T → Option T × Queue T
  unfolding pop_taken
  pop_best_fit avail_cpu avail_mem q =
      if is_empty_map q.items
      then (none, q)
      else (let q' = compacted q in pop_taken (take_first (fits avail_cpu avail_mem) q'.order) q')
