-- ===== src/Realtime/Limits.antt =====
-- The limits of backend/app/features/realtime/: the sockets of a user, and the frames that wait in
-- an outbox.
use lc_connect.Base.{
  length, ℕ, ◌+◌, ◌≤◌, ◌≡◌, Bool, true, false, List, [], ◌∷◌, ◌++◌, arith, ◌==◌, leb, if◌then◌else◌,
  Bool-cases, inl, inr, add, discard, get, set_at, index_add,
}
use lc_connect.Realtime.Manager.{
  Connection, Manager, Frame, shutdown_mark, mutate, canonical, enqueued, enqueue, register, admit,
  stopped, unregister, cached, subscribe, on_subscribe, without, unsubscribe, touch, write, written,
  start, user_socket_count,
}
use lc_connect.Realtime.Indices.{set_at-put, set_at-index_remove}
use lc_connect.Realtime.Reach.{Step, Reach}

length-add : (a : ℕ) (xs : List ℕ) → length (add a xs) ≤ length xs + 1
unfolding add
length-add a xs = ground arith

length-discard : (a : ℕ) (xs : List ℕ) → length (discard a xs) ≤ length xs
unfolding discard
length-discard a [] = omega arith
length-discard a (x ∷ xs) = ground (arith, length-discard a xs)

length-snoc : {A : Type 0} (xs : List A) (x : A) → length (xs ++ x ∷ []) ≡ length xs + 1
length-snoc [] x = omega arith
length-snoc (y ∷ xs) x = omega (arith, length-snoc xs x)

-- Nobody has more sockets than are allowed, and no outbox more frames than it has room for.
pub record Bounded (most : ℕ) (m : Manager) : Type 0 where
  pub room : 1 ≤ m.outbox_max
  pub sockets : (u : ℕ) → user_socket_count u m ≤ most
  pub outboxes : (c : ℕ) → length (m.object c).outbox ≤ m.outbox_max

module _ (most : ℕ) where
  mutate-Bounded :
      (c : ℕ) (k : Connection) (m : Manager)
      → length k.outbox ≤ m.outbox_max
      → Bounded most m
      → Bounded most (mutate c k m)
  unfolding user_socket_count
  mutate-Bounded c k m h b = record {
    room = b.room;
    sockets = λ u. b.sockets u;
    outboxes = λ i. elim (Bool-cases (c == i)) [ inl e ↦ rw e h | inr e ↦ rw e (b.outboxes i) ];
  }

  -- A change of the user index by which nobody's sockets become more.
  reindexed :
      (idx : List (ℕ × List ℕ)) (conv : List (ℕ × List ℕ)) (m : Manager)
      → ((u : ℕ) → length (set_at u idx) ≤ most)
      → Bounded most m
      → Bounded most (record m { by_user = idx; by_conversation = conv })
  unfolding user_socket_count
  reindexed idx conv m h b = record { room = b.room; sockets = h; outboxes = b.outboxes }

  enqueue-Bounded :
      (c : ℕ) (f : Frame) (m : Manager) → Bounded most m → Bounded most (enqueue c f m).1
  unfolding enqueue
  enqueue-Bounded c f m b =
      mutate-Bounded c (enqueued m.outbox_max (m.object c) f) m
        (fits m.outbox_max (m.object c) b.room (b.outboxes c)) b
    where
      fits :
          (size : ℕ) (k : Connection)
          → 1 ≤ size
          → length k.outbox ≤ size
          → length (enqueued size k f).outbox ≤ size
      fits size k pos h = ground (arith, length-snoc k.outbox f)

  register-Bounded :
      (user now : ℕ) (m : Manager)
      → leb most (user_socket_count user m) ≡ false
      → Bounded most m
      → Bounded most (register user now m).1
  unfolding register user_socket_count index_add
  register-Bounded user now m free b = record {
    room = b.room;
    sockets = λ u. ground (
      arith,
      set_at-put user u (add m.next (set_at user m.by_user)) m.by_user,
      length-add m.next (set_at user m.by_user),
      b.sockets u,
    );
    outboxes = λ i. elim (Bool-cases (m.next == i)) [
      | inl e ↦ rw e (omega arith)
      | inr e ↦ rw e (b.outboxes i)
    ];
  }

  stopped_fits :
      (size code : ℕ) (k : Connection)
      → 1 ≤ size
      → length k.outbox ≤ size
      → length (stopped size code k).outbox ≤ size
  stopped_fits size code k pos h = ground (arith, length-snoc k.outbox shutdown_mark)

  unregister-Bounded :
      (code c : ℕ) (m : Manager) → Bounded most m → Bounded most (unregister code c m)
  unfolding unregister user_socket_count
  unregister-Bounded code c m b =
      reindexed _ _ (mutate c (stopped m.outbox_max code (m.object c)) m)
        (λ u. ground (
          arith,
          set_at-index_remove (m.object c).user_id c u m.by_user,
          length-discard c (set_at u m.by_user),
          b.sockets u,
        ))
        (mutate-Bounded c (stopped m.outbox_max code (m.object c)) m
          (stopped_fits m.outbox_max code (m.object c) b.room (b.outboxes c)) b)

  written_fits :
      (size : ℕ) (works : Bool) (q : List Frame) (k : Connection)
      → length q ≤ size
      → length k.outbox ≤ size
      → length (written works q k).outbox ≤ size
  written_fits size works [] k h h' = h'
  written_fits size works (shutdown_mark ∷ q) k h h' = omega arith
  written_fits size works (_ ∷ q) k h h' = omega arith

  write-Bounded :
      (works : Bool) (c : ℕ) (m : Manager) → Bounded most m → Bounded most (write works c m)
  unfolding write
  write-Bounded works c m b = mutate-Bounded c _ m (turn (m.object c) (b.outboxes c)) b
    where
      turn :
          (k : Connection)
          → length k.outbox ≤ m.outbox_max
          → length (if k.writing then written works k.outbox k else k).outbox ≤ m.outbox_max
      turn k h =
          elim k.writing
            as (λ b. length (if b then written works k.outbox k else k).outbox ≤ m.outbox_max) [
              | true ↦ written_fits m.outbox_max works k.outbox k h h
              | false ↦ h
            ]

module _ (is_conversation : ℕ → Bool) (most : ℕ) where
  Step-Bounded : {m n : Manager} → Step is_conversation most m n → Bounded most m → Bounded most n
  unfolding admit on_subscribe subscribe unsubscribe touch user_socket_count
  Step-Bounded (Step.admits user now {m}) b =
      elim (Bool-cases (leb most (user_socket_count user m))) [
        | inl e ↦ rw e b
        | inr e ↦ rw e (register-Bounded most user now m e b)
      ]
  Step-Bounded (Step.unregisters code c {m}) b = unregister-Bounded most code c m b
  Step-Bounded (Step.subscribes c v ref others now address {m} lt p q) b =
      reindexed most m.by_user _
        (mutate c _ (mutate c (cached v others now address (m.object c)) m)) b.sockets
        (mutate-Bounded most c _ (mutate c (cached v others now address (m.object c)) m)
          (again.outboxes c) again)
    where
      again : Bounded most (mutate c (cached v others now address (m.object c)) m)
      again = mutate-Bounded most c (cached v others now address (m.object c)) m (b.outboxes c) b
  Step-Bounded (Step.unsubscribes c ref {m}) b =
      reindexed most m.by_user _ (mutate c (without (canonical (m.object c) ref) (m.object c)) m)
        b.sockets
        (mutate-Bounded most c (without (canonical (m.object c) ref) (m.object c)) m (b.outboxes c)
          b)
  Step-Bounded (Step.enqueues c f {m}) b = enqueue-Bounded most c f m b
  Step-Bounded (Step.touches now c {m}) b =
      mutate-Bounded most c (record (m.object c) { last_seen = now }) m (b.outboxes c) b
  Step-Bounded (Step.writes works c {m}) b = write-Bounded most works c m b

  Reach-Bounded : {m n : Manager} → Reach is_conversation most m n → Bounded most m → Bounded most n
  Reach-Bounded Reach.here b = b
  Reach-Bounded (Reach.next r s) b = Step-Bounded s (Reach-Bounded r b)

  -- However the manager is used from its start with outboxes of a positive size: nobody has more
  -- sockets than the gateway's limit, and no outbox holds more frames than its size.
  pub start-Bounded :
      (size : ℕ) {m : Manager}
      → 1 ≤ size
      → Reach is_conversation most (start size) m
      → Bounded most m
  unfolding user_socket_count get
  start-Bounded size pos used =
      Reach-Bounded used
        (record { room = pos; sockets = λ u. omega arith; outboxes = λ c. omega arith })
