-- ===== src/Scheduler/Queues.antt =====
-- What a push and a removal do to the table and to the order of the packing queue.
use not_ahivemind.Base.{
  ◌≡◌, not, ◌&&◌, ◌||◌, none, [], ◌∷◌, arith, if◌then◌else◌, Text, text_eq, has, lookup, some,
  lookup-insert, lookup-remove, text_eq_iff,
}
use not_ahivemind.Arbiter.Queue.{Accessors, Queue, push, remove_by_id}
use not_ahivemind.Arbiter.Packing.{orders, orders-append}

module _ {T : Type 0} (f : Accessors T) (item : T) (q : Queue T) where
  pub lookup-push :
      (k : Text)
      → lookup k (push f item q).items
        ≡ (if text_eq (f.id_fn item) k then some item else lookup k q.items)
  unfolding push
  lookup-push k = ground (arith, lookup-insert (f.id_fn item) k item q.items)

  pub orders-push :
      (k : Text)
      → orders f k (push f item q).order
        ≡ (orders f k q.order || (not (has (f.id_fn item) q.items) && text_eq (f.id_fn item) k))
  unfolding push orders
  orders-push k = ground (arith, orders-append f k q.order (item ∷ []))

module _ {T : Type 0} (id : Text) (q : Queue T) where
  pub lookup-remove_by_id :
      (k : Text)
      → lookup k (remove_by_id id q).items ≡ (if text_eq id k then none else lookup k q.items)
  unfolding remove_by_id
  lookup-remove_by_id k = ground (arith, lookup-remove id k q.items, text_eq_iff id k)

  pub order-remove_by_id : (remove_by_id id q).order ≡ q.order
  unfolding remove_by_id
  order-remove_by_id = ground arith
