-- ===== src/Realtime/Reach.antt =====
-- The indivisible steps of the manager in backend/app/features/realtime/manager.py, and its methods
-- as sequences of them. A conversation is opened by the id of its row or by that of its match:
-- `resolve_conversation` tries the former first, so that no row's id leads to another conversation.
use lc_connect.Base.{
  ℕ, ◌<◌, ◌≡◌, Bool, true, Option, List, [], ◌∷◌, ◌==◌, Bool-cases, inl, inr, set_at,
}
use lc_connect.Realtime.Manager.{
  Manager, Frame, enqueue, admit, unregister, unsubscribe, on_subscribe, touch, write,
}
use lc_connect.Realtime.Synced.{
  Synced, enqueue-Synced, admit-Synced, unregister-Synced, on_subscribe-Synced, unsubscribe-Synced,
  touch-Synced, write-Synced,
}
use lc_connect.Realtime.Delivery.{
  sockets, deliver_all, deliver_to_user, broadcast, is_excluded, fan_out, unregister_all,
  deliver_to_conversation, revoke_all, revoke_conversation, revoke_user, revoke_member, revoke_pair,
  close_all, close_user, idle_since, reap_idle, shutdown,
}

module _ (is_conversation : ℕ → Bool) (most : ℕ) where
  pub data Step : Manager → Manager → Type 0 where
    admits : (user now : ℕ) {m : Manager} → Step m (admit most user now m).1
    unregisters : (code c : ℕ) {m : Manager} → Step m (unregister code c m)
    subscribes :
        (c v ref : ℕ) (others : List ℕ) (now address : ℕ) {m : Manager}
        → c < m.next
        → is_conversation v ≡ true
        → (is_conversation ref ≡ true → ref ≡ v)
        → Step m (on_subscribe c v ref others now address m)
    unsubscribes : (c ref : ℕ) {m : Manager} → Step m (unsubscribe c ref m)
    enqueues : (c : ℕ) (f : Frame) {m : Manager} → Step m (enqueue c f m).1
    touches : (now c : ℕ) {m : Manager} → Step m (touch now c m)
    writes : (works : Bool) (c : ℕ) {m : Manager} → Step m (write works c m)

  pub data Reach (m : Manager) : Manager → Type 0 where
    here : Reach m m
    next : {n o : Manager} → Reach m n → Step n o → Reach m o

  pub join : {m n o : Manager} → Reach m n → Reach n o → Reach m o
  join q here = q
  join q (next r s) = next (join q r) s

  pub first : {m n o : Manager} → Step m n → Reach n o → Reach m o
  first s r = join (next here s) r

  deliver_all-Reach : (f : Frame) (cs : List ℕ) (m : Manager) → Reach m (deliver_all f cs m).1
  unfolding deliver_all
  deliver_all-Reach f [] m = here
  deliver_all-Reach f (c ∷ cs) m = first (enqueues c f) (deliver_all-Reach f cs (enqueue c f m).1)

  pub deliver_to_user-Reach :
      (user : ℕ) (f : Frame) (m : Manager) → Reach m (deliver_to_user user f m).1
  unfolding deliver_to_user
  deliver_to_user-Reach user f m = deliver_all-Reach f (set_at user m.by_user) m

  pub broadcast-Reach : (f : Frame) (m : Manager) → Reach m (broadcast f m).1
  unfolding broadcast
  broadcast-Reach f m = deliver_all-Reach f (sockets m.by_user) m

  fan_out-Reach :
      (exclude : Option ℕ) (f : Frame) (cs : List ℕ) (m : Manager)
      → Reach m (fan_out exclude f cs m).2
  unfolding fan_out
  fan_out-Reach exclude f [] m = here
  fan_out-Reach exclude f (c ∷ cs) m =
      elim (Bool-cases (is_excluded exclude (m.object c).user_id)) [
        | inl e ↦ rw e (fan_out-Reach exclude f cs m)
        | inr e ↦ elim (Bool-cases (enqueue c f m).0) [
          | inl h ↦ rw (e, h) (first (enqueues c f) (fan_out-Reach exclude f cs (enqueue c f m).1))
          | inr h ↦ rw (e, h) (first (enqueues c f) (fan_out-Reach exclude f cs (enqueue c f m).1))
        ]
      ]

  unregister_all-Reach : (code : ℕ) (cs : List ℕ) (m : Manager) → Reach m (unregister_all code cs m)
  unfolding unregister_all
  unregister_all-Reach code [] m = here
  unregister_all-Reach code (c ∷ cs) m =
      first (unregisters code c) (unregister_all-Reach code cs (unregister code c m))

  pub deliver_to_conversation-Reach :
      (v : ℕ) (f : Frame) (exclude : Option ℕ) (m : Manager)
      → Reach m (deliver_to_conversation v f exclude m).1
  unfolding deliver_to_conversation
  deliver_to_conversation-Reach v f exclude m =
      join (fan_out-Reach exclude f (set_at v m.by_conversation) m) (
        unregister_all-Reach 1_000 (fan_out exclude f (set_at v m.by_conversation) m).1
          (fan_out exclude f (set_at v m.by_conversation) m).2)

  revoke_all-Reach : (v : ℕ) (f : Frame) (cs : List ℕ) (m : Manager) → Reach m (revoke_all v f cs m)
  unfolding revoke_all
  revoke_all-Reach v f [] m = here
  revoke_all-Reach v f (c ∷ cs) m =
      first (enqueues c f)
        (first (unsubscribes c v) (revoke_all-Reach v f cs (unsubscribe c v (enqueue c f m).1)))

  pub revoke_conversation-Reach :
      (v : ℕ) (f : Frame) (m : Manager) → Reach m (revoke_conversation v f m)
  unfolding revoke_conversation
  revoke_conversation-Reach v f m = revoke_all-Reach v f (set_at v m.by_conversation) m

  revoke_user-Reach :
      (v user : ℕ) (f : Frame) (cs : List ℕ) (m : Manager) → Reach m (revoke_user v user f cs m)
  unfolding revoke_user
  revoke_user-Reach v user f [] m = here
  revoke_user-Reach v user f (c ∷ cs) m = elim (Bool-cases ((m.object c).user_id == user)) [
    | inl e ↦ rw e (
        first (enqueues c f) (
          first (unsubscribes c v)
            (revoke_user-Reach v user f cs (unsubscribe c v (enqueue c f m).1))))
    | inr e ↦ rw e (revoke_user-Reach v user f cs m)
  ]

  pub revoke_member-Reach :
      (v user : ℕ) (f : Frame) (m : Manager) → Reach m (revoke_member v user f m)
  unfolding revoke_member
  revoke_member-Reach v user f m = revoke_user-Reach v user f (set_at v m.by_conversation) m

  pub revoke_pair-Reach : (vs : List ℕ) (f : Frame) (m : Manager) → Reach m (revoke_pair vs f m)
  unfolding revoke_pair
  revoke_pair-Reach [] f m = here
  revoke_pair-Reach (v ∷ vs) f m =
      join (revoke_conversation-Reach v f m) (revoke_pair-Reach vs f (revoke_conversation v f m))

  close_all-Reach :
      (f : Frame) (code : ℕ) (cs : List ℕ) (m : Manager) → Reach m (close_all f code cs m)
  unfolding close_all
  close_all-Reach f code [] m = here
  close_all-Reach f code (c ∷ cs) m =
      first (enqueues c f) (
        first (unregisters code c)
          (close_all-Reach f code cs (unregister code c (enqueue c f m).1)))

  pub close_user-Reach :
      (user : ℕ) (f : Frame) (code : ℕ) (m : Manager) → Reach m (close_user user f code m)
  unfolding close_user
  close_user-Reach user f code m = close_all-Reach f code (set_at user m.by_user) m

  pub reap_idle-Reach : (now idle code : ℕ) (m : Manager) → Reach m (reap_idle now idle code m)
  unfolding reap_idle
  reap_idle-Reach now idle code m =
      unregister_all-Reach code (idle_since now idle (sockets m.by_user) m) m

  pub shutdown-Reach : (code : ℕ) (m : Manager) → Reach m (shutdown code m)
  unfolding shutdown
  shutdown-Reach code m = unregister_all-Reach code (sockets m.by_user) m

  Step-Synced : {m n : Manager} → Step m n → Synced m → Synced n
  Step-Synced (admits user now {m}) s = admit-Synced most user now m s
  Step-Synced (unregisters code c {m}) s = unregister-Synced code c m s
  Step-Synced (subscribes c v ref others now address {m} lt p q) s =
      on_subscribe-Synced c v ref others now address m lt s
  Step-Synced (unsubscribes c ref {m}) s = unsubscribe-Synced c ref m s
  Step-Synced (enqueues c f {m}) s = enqueue-Synced c f m s
  Step-Synced (touches now c {m}) s = touch-Synced now c m s
  Step-Synced (writes works c {m}) s = write-Synced works c m s

  pub Reach-Synced : {m n : Manager} → Reach m n → Synced m → Synced n
  Reach-Synced here s = s
  Reach-Synced (next r q) s = Step-Synced q (Reach-Synced r s)
