-- ===== src/Cluster/Pool.antt =====
-- internal/cluster/container/pool.go: the tracked containers. What Docker says of each is an argument.
use not_ahivemind.Base.{
  ℕ, Bool, true, false, not, ◌&&◌, ◌||◌, Option, none, some, List, [], ◌∷◌, ◌++◌, ◌==◌, map,
  if◌then◌else◌, Text, text_eq,
}
use not_ahivemind.Base.Int.{ℤ, ◌+ℤ◌}
use not_ahivemind.Cluster.Jobs.{Image}
use not_ahivemind.Cluster.Container.{
  Container, Ended, fine, failed, panicked, Creation, Removal, Inspection, new_container, init,
  delete, reserve, is_free_state, is_up, health, is_empty_id, localhost,
}

abbrev pub Pool : Type 0
Pool = List Container

unfoldable pub find : Text → Pool → Option Container
find id [] = none
find id (c ∷ cs) = if text_eq c.id id then some c else find id cs

-- The first container of the ID is written.
unfoldable pub replace : Text → Container → Pool → Pool
replace id d [] = []
replace id d (c ∷ cs) = let rest = replace id d cs in if text_eq c.id id then d ∷ cs else c ∷ rest

abbrev pub is_found : Option Container → Bool
is_found none = false
is_found (some c) = true

-- `true` is an error, here and below.
unfoldable pub add : Container → Pool → Pool × Bool
unfolding find
add c cs = if is_found (find c.id cs) then (cs, true) else (cs ++ (c ∷ []), false)

added : Container × Ended → Pool → Pool × Option Container
unfolding add
added (c, fine) cs = let r = add c cs in if r.1 then (r.0, none) else (r.0, some c)
added (c, failed) cs = (cs, none)
added (c, panicked) cs = (cs, none)

-- AddFromImage; the port is `none` where there is none. The container of the pool, or an error.
unfoldable pub add_from_image :
    Option Text → Text → Text → Creation → ℕ → Image → Pool → Pool × Option Container
unfolding added init new_container
add_from_image none id payload_dir creation now image cs = (cs, none)
add_from_image (some port) id payload_dir creation now image cs =
    added (init creation now (new_container id image payload_dir (localhost ++ port) now)) cs

without : Text → Pool → Pool
without id [] = []
without id (c ∷ cs) = let rest = without id cs in if text_eq c.id id then cs else c ∷ rest

removed : Removal → Text → Option Container → Pool → Pool × Ended
unfolding without delete
removed io id none cs = (cs, failed)
removed io id (some c) cs = (without id cs, (delete io c).1)

-- Remove.
unfoldable pub remove : Removal → Text → Pool → Pool × Ended
unfolding removed find
remove io id cs = removed io id (find id cs) cs

-- What FindFreeContainer gives.
pub data Found : Type 0 where
  found : Container → Found
  image_not_found all_occupied other_error : Found

unfoldable pub fits_image : (Container → Option Inspection) → Text → Container → Bool
fits_image inspect name c =
    is_up (inspect c) c && (is_free_state c.state && text_eq c.image.alias name)

-- The loop: the first free container of the image is reserved; else the flags.
unfoldable pub find_free_loop :
    (Container → Option Inspection) → Text → Pool → Bool → Bool → Pool × Found
unfolding fits_image
find_free_loop inspect name [] matching occupied =
    ([], if not matching then image_not_found else if occupied then all_occupied else other_error)
find_free_loop inspect name (c ∷ cs) matching occupied =
    let rest =
      find_free_loop inspect name cs
        (matching || (is_up (inspect c) c && text_eq c.image.alias name))
        (occupied && not (is_up (inspect c) c && is_free_state c.state)) in
    if fits_image inspect name c
    then ((reserve c).0 ∷ cs, found (reserve c).0)
    else (c ∷ rest.0, rest.1)

-- FindFreeContainer.
unfoldable pub find_free_container : (Container → Option Inspection) → Text → Pool → Pool × Found
unfolding find_free_loop
find_free_container inspect name cs = find_free_loop inspect name cs false true

unfoldable pub active_image_names : Pool → List Text
active_image_names cs = map (λ c. c.image.alias) cs

abbrev pub is_zero : Option ℕ → Bool
is_zero none = false
is_zero (some n) = n == 0

unfoldable pub available_image_names : (Container → Option Inspection) → Pool → List Text
available_image_names inspect [] = []
available_image_names inspect (c ∷ cs) =
    let rest = available_image_names inspect cs in
    if is_free_state c.state && is_zero (health (inspect c) c) then c.image.alias ∷ rest else rest

unfoldable pub used_space : Pool → ℤ × ℤ → ℤ × ℤ
used_space [] t = t
used_space (c ∷ cs) (cpu, mem) =
    used_space cs (cpu +ℤ c.image.nano_cpu_limit, mem +ℤ c.image.memory_bytes_limit)

-- DestroyAll: the pool is emptied first; whether there was an error, or a panic.
worse : Ended → Ended → Ended
worse panicked e = panicked
worse failed panicked = panicked
worse failed _ = failed
worse fine e = e

unfoldable pub delete_each : (Container → Removal) → Pool → Ended
unfolding worse delete
delete_each io [] = fine
delete_each io (c ∷ cs) =
    let rest = delete_each io cs in
    if is_empty_id c.id then rest else worse (delete (io c) c).1 rest

unfoldable pub destroy_all : (Container → Removal) → Pool → Pool × Ended
unfolding delete_each
destroy_all io cs = ([], delete_each io cs)
