-- ===== src/Realtime/Refs.antt =====
-- The ids that a socket's `refs` translate: a conversation's own id stands for itself, so that a
-- revocation, which names the row's id, reaches what a client subscribed under another id.
use lc_connect.Base.{
  subst, leb, add, sym, ℕ, ◌≡◌, refl, ap, ◌∙◌, Bool, true, false, some, List, [], ◌∷◌, arith, ◌==◌,
  if◌then◌else◌, Bool-cases, Option-cases, inl, inr, get, put, ℕ-equal,
}
use lc_connect.Realtime.Manager.{
  Connection, Manager, Frame, shutdown_mark, mutate, canonical, enqueued, enqueue, register, admit,
  stopped, unregister, cached, subscribe, on_subscribe, other_refs, without, unsubscribe, touch,
  write, written, user_socket_count,
}
use lc_connect.Realtime.Reach.{Step, Reach}

module _ (is_conversation : ℕ → Bool) where
  abbrev pub Honest : List (ℕ × ℕ) → Type 0
  Honest [] = Unit
  Honest ((r, v) ∷ refs) = (is_conversation r ≡ true → r ≡ v) × Honest refs

  Honest-put :
      (r v : ℕ) (refs : List (ℕ × ℕ))
      → (is_conversation r ≡ true → r ≡ v)
      → Honest refs
      → Honest (put r v refs)
  unfolding put
  Honest-put r v [] h t = (h, tt)
  Honest-put r v ((j, w) ∷ refs) h t = elim (Bool-cases (j == r)) [
    | inl e ↦ rw e (h, t.1)
    | inr e ↦ rw e (t.0, Honest-put r v refs h t.1)
  ]

  Honest-other_refs : (v : ℕ) (refs : List (ℕ × ℕ)) → Honest refs → Honest (other_refs v refs)
  unfolding other_refs
  Honest-other_refs v [] t = tt
  Honest-other_refs v ((r, w) ∷ refs) t = elim (Bool-cases (w == v)) [
    | inl e ↦ rw e (Honest-other_refs v refs t.1)
    | inr e ↦ rw e (t.0, Honest-other_refs v refs t.1)
  ]

  get-Honest :
      (v : ℕ) (refs : List (ℕ × ℕ)) {w : ℕ}
      → is_conversation v ≡ true
      → Honest refs
      → get v refs ≡ some w
      → v ≡ w
  unfolding get
  get-Honest v [] c t e = cc
  get-Honest v ((r, x) ∷ refs) {w} c t e = elim (Bool-cases (r == v)) [
    | inl f ↦ ground (arith, ℕ-equal r v f, t.0 (ap is_conversation (ℕ-equal r v f) ∙ c), f)
    | inr f ↦ get-Honest v refs c t.1 (rw f at e)
  ]

  pub canonical-Honest :
      (v : ℕ) (k : Connection) → is_conversation v ≡ true → Honest k.refs → canonical k v ≡ v
  unfolding canonical
  canonical-Honest v k c t = elim (Option-cases (get v k.refs)) [
    | inl e ↦ rw (canonical, e) refl
    | inr (w, e) ↦ rw (canonical, e) (sym (get-Honest v k.refs c t e))
  ]

  abbrev pub AllHonest : Manager → Type 0
  AllHonest m = (c : ℕ) → Honest (m.object c).refs

  mutate-AllHonest :
      (c : ℕ) (k : Connection) (m : Manager)
      → Honest k.refs
      → AllHonest m
      → AllHonest (mutate c k m)
  mutate-AllHonest c k m h all i = elim (Bool-cases (c == i)) [
    | inl e ↦ rw e h
    | inr e ↦ rw e (all i)
  ]

  pub enqueue-AllHonest :
      (c : ℕ) (f : Frame) (m : Manager) → AllHonest m → AllHonest (enqueue c f m).1
  unfolding enqueue
  enqueue-AllHonest c f m all =
      mutate-AllHonest c (enqueued m.outbox_max (m.object c) f) m
        (subst Honest (same (m.object c)) (all c)) all
    where
      same : (k : Connection) → k.refs ≡ (enqueued m.outbox_max k f).refs
      same k = ground arith

  register-AllHonest :
      (user now : ℕ) (m : Manager) → AllHonest m → AllHonest (register user now m).1
  unfolding register
  register-AllHonest user now m all i = elim (Bool-cases (m.next == i)) [
    | inl e ↦ rw e tt
    | inr e ↦ rw e (all i)
  ]

  subscribe-AllHonest :
      (c v ref : ℕ) (m : Manager)
      → (is_conversation ref ≡ true → ref ≡ v)
      → AllHonest m
      → AllHonest (subscribe c v (some ref) m)
  unfolding subscribe
  subscribe-AllHonest c v ref m h all =
      mutate-AllHonest c
        (record (m.object c) {
          subscriptions = add v (m.object c).subscriptions;
          refs = put ref v (m.object c).refs;
        })
        m (Honest-put ref v (m.object c).refs h (all c)) all

  pub unsubscribe-AllHonest :
      (c ref : ℕ) (m : Manager) → AllHonest m → AllHonest (unsubscribe c ref m)
  unfolding unsubscribe
  unsubscribe-AllHonest c ref m all =
      mutate-AllHonest c (without (canonical (m.object c) ref) (m.object c)) m
        (Honest-other_refs (canonical (m.object c) ref) (m.object c).refs (all c)) all

  write-AllHonest : (works : Bool) (c : ℕ) (m : Manager) → AllHonest m → AllHonest (write works c m)
  unfolding write
  write-AllHonest works c m all =
      mutate-AllHonest c _ m (subst Honest (turn (m.object c)) (all c)) all
    where
      same : (q : List Frame) (k : Connection) → k.refs ≡ (written works q k).refs
      same [] k = refl
      same (shutdown_mark ∷ q) k = refl
      same (_ ∷ q) k = refl

      turn : (k : Connection) → k.refs ≡ (if k.writing then written works k.outbox k else k).refs
      turn k = elim k.writing as (λ b. k.refs ≡ (if b then written works k.outbox k else k).refs) [
        | true ↦ same k.outbox k
        | false ↦ refl
      ]

  Step-AllHonest :
      (most : ℕ) {m n : Manager} → Step is_conversation most m n → AllHonest m → AllHonest n
  unfolding admit unregister on_subscribe touch
  Step-AllHonest most (Step.admits user now {m}) all =
      elim (Bool-cases (leb most (user_socket_count user m))) [
        | inl e ↦ rw e all
        | inr e ↦ rw e (register-AllHonest user now m all)
      ]
  Step-AllHonest most (Step.unregisters code c {m}) all =
      mutate-AllHonest c (stopped m.outbox_max code (m.object c)) m tt all
  Step-AllHonest most (Step.subscribes c v ref others now address {m} lt p q) all =
      subscribe-AllHonest c v ref (mutate c (cached v others now address (m.object c)) m) q
        (mutate-AllHonest c (cached v others now address (m.object c)) m (all c) all)
  Step-AllHonest most (Step.unsubscribes c ref {m}) all = unsubscribe-AllHonest c ref m all
  Step-AllHonest most (Step.enqueues c f {m}) all = enqueue-AllHonest c f m all
  Step-AllHonest most (Step.touches now c {m}) all =
      mutate-AllHonest c (record (m.object c) { last_seen = now }) m (all c) all
  Step-AllHonest most (Step.writes works c {m}) all = write-AllHonest works c m all

  pub Reach-AllHonest :
      (most : ℕ) {m n : Manager} → Reach is_conversation most m n → AllHonest m → AllHonest n
  Reach-AllHonest most Reach.here all = all
  Reach-AllHonest most (Reach.next r s) all = Step-AllHonest most s (Reach-AllHonest most r all)
