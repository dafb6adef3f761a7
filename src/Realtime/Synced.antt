-- ===== src/Realtime/Synced.antt =====
-- The indices of backend/app/features/realtime/manager.py agree with the objects they index.
use lc_connect.Base.{
  ℕ-equal, subst, ℕ, ◌≤◌, ◌<◌, ◌≡◌, refl, sym, ◌∙◌, ap, get, Bool, true, false, Option, some, List,
  [], ◌∷◌, arith, ◌==◌, if◌then◌else◌, Bool-cases, inl, inr, has, has-add, has-discard, in_index,
  leb,
}
use lc_connect.Realtime.Manager.{
  start, Connection, Manager, Frame, shutdown_mark, mutate, canonical, enqueued, enqueue, register,
  admit, unregister, cached, subscribe, on_subscribe, unsubscribe, touch, write, written,
  user_socket_count,
}
use lc_connect.Realtime.Indices.{in_index-index_add, in_index-index_remove, in_index-detach_all}

pub record Synced (m : Manager) : Type 0 where
  -- The conversation index is the sockets' own subscriptions.
  pub indexed : (v c : ℕ) → in_index v c m.by_conversation ≡ has v (m.object c).subscriptions
  pub unborn : (v c : ℕ) → m.next ≤ c → has v (m.object c).subscriptions ≡ false
  -- A socket is indexed under its own user only, and is there while it is alive.
  pub own : (u c : ℕ) → in_index u c m.by_user ≡ true → (m.object c).user_id ≡ u
  pub born : (u c : ℕ) → in_index u c m.by_user ≡ true → c < m.next
  pub reachable :
      (c : ℕ)
      → c < m.next
      → (m.object c).alive ≡ true
      → in_index (m.object c).user_id c m.by_user ≡ true

-- What a mutation leaves alone.
pub at-mutate :
    {A : Type 0} (f : Connection → A) (c i : ℕ) (k : Connection) (m : Manager)
    → f k ≡ f (m.object c)
    → f ((mutate c k m).object i) ≡ f (m.object i)
at-mutate f c i k m e = elim (Bool-cases (c == i)) [
  | inl h ↦ rw h (e ∙ ap (λ j. f (m.object j)) (ℕ-equal c i h))
  | inr h ↦ rw h refl
]

-- A mutation that concerns neither index.
pub mutate-Synced :
    (c : ℕ) (k : Connection) (m : Manager)
    → k.user_id ≡ (m.object c).user_id
    → k.subscriptions ≡ (m.object c).subscriptions
    → (k.alive ≡ true → (m.object c).alive ≡ true)
    → Synced m
    → Synced (mutate c k m)
mutate-Synced c k m users subs alive s = record {
  indexed = λ v i. s.indexed v i ∙ sym (ap (has v) (subs_at i));
  unborn = λ v i le. ap (has v) (subs_at i) ∙ s.unborn v i le;
  own = λ u i h. user_at i ∙ s.own u i h;
  born = λ u i h. s.born u i h;
  reachable = λ i lt live. rw (user_at i) (s.reachable i lt (alive_at i live));
}
  where
    subs_at : (i : ℕ) → ((mutate c k m).object i).subscriptions ≡ (m.object i).subscriptions
    subs_at i = at-mutate (λ j. j.subscriptions) c i k m subs

    user_at : (i : ℕ) → ((mutate c k m).object i).user_id ≡ (m.object i).user_id
    user_at i = at-mutate (λ j. j.user_id) c i k m users

    alive_at : (i : ℕ) → ((mutate c k m).object i).alive ≡ true → (m.object i).alive ≡ true
    alive_at i live = elim (Bool-cases (c == i)) [
      | inl h ↦ subst (λ j. (m.object j).alive ≡ true) (ℕ-equal c i h) (alive (rw h at live))
      | inr h ↦ rw h at live
    ]

pub enqueue-Synced : (c : ℕ) (f : Frame) (m : Manager) → Synced m → Synced (enqueue c f m).1
unfolding enqueue
enqueue-Synced c f m =
    mutate-Synced c (enqueued m.outbox_max (m.object c) f) m (ground arith) (ground arith)
      (λ h. ground arith)

pub touch-Synced : (now c : ℕ) (m : Manager) → Synced m → Synced (touch now c m)
unfolding touch
touch-Synced now c m =
    mutate-Synced c (record (m.object c) { last_seen = now }) m refl refl (λ h. h)

-- A turn of the writer moves neither owner nor subscriptions, and revives nobody.
record Kept (k k' : Connection) : Type 0 where
  user : k'.user_id ≡ k.user_id
  subs : k'.subscriptions ≡ k.subscriptions
  live : k'.alive ≡ true → k.alive ≡ true

written-Kept : (works : Bool) (q : List Frame) (k : Connection) → Kept k (written works q k)
written-Kept works [] k = record { user = refl; subs = refl; live = λ h. h }
written-Kept works (shutdown_mark ∷ q) k = record { user = refl; subs = refl; live = λ h. h }
written-Kept works (_ ∷ q) k = record { user = refl; subs = refl; live = λ h. ground arith }

pub write-Synced : (works : Bool) (c : ℕ) (m : Manager) → Synced m → Synced (write works c m)
unfolding write
write-Synced works c m s = mutate-Synced c _ m kept.user kept.subs kept.live s
  where
    turn : (k : Connection) → Kept k (if k.writing then written works k.outbox k else k)
    turn k = elim k.writing as (λ b. Kept k (if b then written works k.outbox k else k)) [
      | true ↦ written-Kept works k.outbox k
      | false ↦ record { user = refl; subs = refl; live = λ h. h }
    ]

    kept : Kept (m.object c) (
        if (m.object c).writing then written works (m.object c).outbox (m.object c) else m.object c)
    kept = turn (m.object c)

pub register-Synced : (user now : ℕ) (m : Manager) → Synced m → Synced (register user now m).1
unfolding register
register-Synced user now m s = record {
  indexed = λ v i. ground (arith, s.indexed v i, s.unborn v i);
  unborn = λ v i le. ground (arith, s.unborn v i (omega arith));
  own =
      λ u i h. ground (arith, s.own u i, s.born u i, in_index-index_add user m.next u i m.by_user);
  born = λ u i h. ground (arith, s.born u i, in_index-index_add user m.next u i m.by_user);
  reachable = λ i lt live. ground (
    arith,
    s.reachable i,
    in_index-index_add user m.next (m.object i).user_id i m.by_user,
    in_index-index_add user m.next user i m.by_user,
  );
}

pub admit-Synced : (most user now : ℕ) (m : Manager) → Synced m → Synced (admit most user now m).1
unfolding admit
admit-Synced most user now m s = elim (Bool-cases (leb most (user_socket_count user m))) [
  | inl e ↦ rw e s
  | inr e ↦ rw e (register-Synced user now m s)
]

pub unregister-Synced : (code c : ℕ) (m : Manager) → Synced m → Synced (unregister code c m)
unfolding unregister
unregister-Synced code c m s = record {
  indexed = λ v i. ground (
    arith,
    s.indexed v i,
    in_index-detach_all c (m.object c).subscriptions v i m.by_conversation,
  );
  unborn = λ v i le. ground (arith, s.unborn v i le);
  own = λ u i h.
      ground (arith, s.own u i, in_index-index_remove (m.object c).user_id c u i m.by_user);
  born = λ u i h.
      ground (arith, s.born u i, in_index-index_remove (m.object c).user_id c u i m.by_user);
  reachable = λ i lt live. ground (
    arith,
    s.reachable i lt,
    in_index-index_remove (m.object c).user_id c (m.object i).user_id i m.by_user,
  );
}

pub subscribe-Synced :
    (c v : ℕ) (ref : Option ℕ) (m : Manager) → c < m.next → Synced m → Synced (subscribe c v ref m)
unfolding subscribe
subscribe-Synced c v ref m lt s = record {
  indexed = λ w i. ground (
    arith,
    s.indexed w i,
    s.indexed w c,
    in_index-index_add v c w i m.by_conversation,
    has-add v w (m.object c).subscriptions,
  );
  unborn = λ w i le. ground (arith, s.unborn w i le);
  own = λ u i h. ground (arith, s.own u i h);
  born = λ u i h. s.born u i h;
  reachable = λ i lt live. ground (arith, s.reachable i lt);
}

pub unsubscribe-Synced : (c ref : ℕ) (m : Manager) → Synced m → Synced (unsubscribe c ref m)
unfolding unsubscribe
unsubscribe-Synced c ref m s = record {
  indexed = λ w i. ground (
    arith,
    s.indexed w i,
    s.indexed w c,
    in_index-index_remove (canonical (m.object c) ref) c w i m.by_conversation,
    has-discard (canonical (m.object c) ref) w (m.object c).subscriptions,
  );
  unborn = λ w i le. ground (
    arith,
    s.unborn w i le,
    has-discard (canonical (m.object c) ref) w (m.object c).subscriptions,
  );
  own = λ u i h. ground (arith, s.own u i h);
  born = λ u i h. s.born u i h;
  reachable = λ i lt live. ground (arith, s.reachable i lt);
}

pub on_subscribe-Synced :
    (c v ref : ℕ) (others : List ℕ) (now address : ℕ) (m : Manager)
    → c < m.next
    → Synced m
    → Synced (on_subscribe c v ref others now address m)
unfolding on_subscribe
on_subscribe-Synced c v ref others now address m lt s =
    subscribe-Synced c v (some ref) (mutate c (cached v others now address (m.object c)) m) lt
      (mutate-Synced c (cached v others now address (m.object c)) m refl refl (λ h. h) s)

pub start-Synced : (size : ℕ) → Synced (start size)
unfolding in_index get
start-Synced size = record {
  indexed = λ v i. refl;
  unborn = λ v i le. refl;
  own = λ u i h. ground arith;
  born = λ u i h. ground arith;
  reachable = λ i lt live. ground arith;
}
