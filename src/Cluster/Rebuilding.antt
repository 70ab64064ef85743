-- ===== src/Cluster/Rebuilding.antt =====
-- Rebuild closes the channel of results, and makes no other.
use not_ahivemind.Base.{ℕ, ◌≡◌, inl, inr, refl, Bool, true, false, Bool-cases, arith, Text}
use not_ahivemind.Cluster.Container.{
  Container, Ended, fine, failed, panicked, Creation, Removal, is_empty_id, normalize_http_port,
  init, init_new, delete, close_results, rebuild_deleted, rebuild,
}

close_results_fine :
    (b : Bool) (c d : Container) → close_results b c ≡ (d, fine) → d.results_closed ≡ true
unfolding close_results
close_results_fine b c d h = ground arith

init_closed :
    (creation : Creation) (now : ℕ) (c d : Container)
    → c.results_closed ≡ true
    → init creation now c ≡ (d, fine)
    → d.results_closed ≡ true
unfolding init init_new
init_closed creation now c d h e = ground arith

delete_fine : (io : Removal) (c d : Container) → delete io c ≡ (d, fine) → d.results_closed ≡ true
unfolding delete
delete_fine io c d h = elim (Bool-cases (is_empty_id c.docker_id)) [
  | inl e ↦ absurd (ground (arith, e))
  | inr e ↦ elim (Bool-cases io.removes_container) [
    | inl r ↦ close_results_fine io.removes_directory c d (ground (arith, e, r))
    | inr r ↦ absurd (ground (arith, e, r))
  ]
]

delete_closed :
    (io : Removal) (c : Container)
    → is_empty_id c.docker_id ≡ false
    → io.removes_container ≡ true
    → c.results_closed ≡ true
    → (delete io c).1 ≡ panicked
unfolding delete close_results
delete_closed io c e r h = rw e (rw r (rw h refl))

rebuild_deleted_closed :
    (creation : Creation) (now : ℕ) (r : Container × Ended) (d : Container)
    → ((c : Container) → r ≡ (c, fine) → c.results_closed ≡ true)
    → rebuild_deleted creation now r ≡ (d, fine)
    → d.results_closed ≡ true
unfolding rebuild_deleted
rebuild_deleted_closed creation now (c, fine) d h e = init_closed creation now c d (h c refl) e
rebuild_deleted_closed creation now (c, failed) d h e = absurd (ground arith)
rebuild_deleted_closed creation now (c, panicked) d h e = absurd (ground arith)

rebuild_closed :
    (io : Removal) (creation : Creation) (new_id new_port : Text) (now : ℕ) (c d : Container)
    → rebuild io creation new_id new_port now c ≡ (d, fine)
    → d.results_closed ≡ true
unfolding rebuild
rebuild_closed io creation new_id new_port now c d h = elim (Bool-cases (is_empty_id c.docker_id)) [
  | inl e ↦ absurd (ground (arith, e))
  | inr e ↦
      rebuild_deleted_closed creation now
        (delete io (record c { id = new_id; local_port = normalize_http_port new_port })) d
        (delete_fine io (record c { id = new_id; local_port = normalize_http_port new_port }))
        (ground (arith, e))
]

-- After a Rebuild that ends without an error, a Delete that Docker carries out panics: the channel of
-- the results is closed a second time.
rebuild_then_delete :
    (io io' : Removal) (creation : Creation) (new_id new_port : Text) (now : ℕ) (c d : Container)
    → rebuild io creation new_id new_port now c ≡ (d, fine)
    → is_empty_id d.docker_id ≡ false
    → io'.removes_container ≡ true
    → (delete io' d).1 ≡ panicked
rebuild_then_delete io io' creation new_id new_port now c d h present removes =
    delete_closed io' d present removes (rebuild_closed io creation new_id new_port now c d h)
