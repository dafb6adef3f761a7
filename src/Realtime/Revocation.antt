-- ===== src/Realtime/Revocation.antt =====
-- What the revocations of backend/app/features/realtime/manager.py leave in the conversation index,
-- and what a later event of the conversation then reaches.
use lc_connect.Base.{
  ℕ_discrete, ℕ, ◌≡◌, refl, ap, ◌∙◌, sym, Bool, true, false, not, ◌&&◌, Option, List, [], ◌∷◌,
  arith, ◌==◌, Bool-cases, inl, inr, ℕ-equal, has, set_at, in_index,
}
use lc_connect.Realtime.Manager.{
  Manager, Frame, canonical, enqueued, enqueue, unregister, without, unsubscribe, start,
}
use lc_connect.Realtime.Indices.{in_index-index_remove}
use lc_connect.Realtime.Synced.{Synced, at-mutate, start-Synced}
use lc_connect.Realtime.Delivery.{
  revoke_user, revoke_member, revoke_all, fan_out, unregister_all, deliver_to_conversation,
}
use lc_connect.Realtime.Refs.{
  AllHonest, canonical-Honest, enqueue-AllHonest, unsubscribe-AllHonest, Reach-AllHonest,
}
use lc_connect.Realtime.Reach.{Reach, Reach-Synced, revoke_member-Reach}

-- The owner of a socket does not change.
pub user-enqueue :
    (c i : ℕ) (f : Frame) (m : Manager)
    → ((enqueue c f m).1.object i).user_id ≡ (m.object i).user_id
unfolding enqueue
user-enqueue c i f m =
    at-mutate (λ k. k.user_id) c i (enqueued m.outbox_max (m.object c) f) m (ground arith)

user-unsubscribe :
    (c i v : ℕ) (m : Manager) → ((unsubscribe c v m).object i).user_id ≡ (m.object i).user_id
unfolding unsubscribe
user-unsubscribe c i v m =
    at-mutate (λ k. k.user_id) c i (without (canonical (m.object c) v) (m.object c)) m refl

in_index-unsubscribe :
    (c v w i : ℕ) (m : Manager)
    → canonical (m.object c) v ≡ v
    → in_index w i (unsubscribe c v m).by_conversation
      ≡ (in_index w i m.by_conversation && not (v == w && c == i))
unfolding unsubscribe
in_index-unsubscribe c v w i m e = rw e (in_index-index_remove v c w i m.by_conversation)

in_index-enqueue :
    (c w i : ℕ) (f : Frame) (m : Manager)
    → in_index w i (enqueue c f m).1.by_conversation ≡ in_index w i m.by_conversation
unfolding enqueue
in_index-enqueue c w i f m = refl

module _ (is_conversation : ℕ → Bool) where
  in_index-revoke_user :
      (v user w i : ℕ) (f : Frame) (cs : List ℕ) (m : Manager)
      → is_conversation v ≡ true
      → AllHonest is_conversation m
      → in_index w i (revoke_user v user f cs m).by_conversation ≡ (
          in_index w i m.by_conversation
          && not (v == w && (has i cs && (m.object i).user_id == user)))
  unfolding revoke_user
  in_index-revoke_user v user w i f [] m con all = ground arith
  in_index-revoke_user v user w i f (c ∷ cs) m con all =
      elim (Bool-cases ((m.object c).user_id == user)) [
        | inl e ↦
            let told = (enqueue c f m).1 in
            let honest = enqueue-AllHonest is_conversation c f m all in
            let rest =
              in_index-revoke_user v user w i f cs (unsubscribe c v told) con
                (unsubscribe-AllHonest is_conversation c v told honest) in
            rw e (
              ground (
                arith,
                e,
                rest,
                in_index-unsubscribe c v w i told
                    (canonical-Honest is_conversation v (told.object c) con (honest c)),
                in_index-enqueue c w i f m,
                user-unsubscribe c i v told,
                user-enqueue c i f m,
                ℕ-equal c i,
              ))
        | inr e ↦
            let rest = in_index-revoke_user v user w i f cs m con all in
            rw e (ground (arith, e, rest, ℕ-equal c i))
      ]

  pub in_index-revoke_all :
      (v w i : ℕ) (f : Frame) (cs : List ℕ) (m : Manager)
      → is_conversation v ≡ true
      → AllHonest is_conversation m
      → in_index w i (revoke_all v f cs m).by_conversation
        ≡ (in_index w i m.by_conversation && not (v == w && has i cs))
  unfolding revoke_all
  in_index-revoke_all v w i f [] m con all = ground arith
  in_index-revoke_all v w i f (c ∷ cs) m con all =
      let told = (enqueue c f m).1 in
      let honest = enqueue-AllHonest is_conversation c f m all in
      let rest =
        in_index-revoke_all v w i f cs (unsubscribe c v told) con
          (unsubscribe-AllHonest is_conversation c v told honest) in
      ground (
        arith,
        rest,
        in_index-unsubscribe c v w i told
            (canonical-Honest is_conversation v (told.object c) con (honest c)),
        in_index-enqueue c w i f m,
      )

-- The outbox of a socket that is not gone over stays as it is.
outbox-enqueue :
    (c i : ℕ) (f : Frame) (m : Manager)
    → (c == i) ≡ false
    → ((enqueue c f m).1.object i).outbox ≡ (m.object i).outbox
unfolding enqueue
outbox-enqueue c i f m ne = rw ne refl

outbox-fan_out :
    (exclude : Option ℕ) (f : Frame) (cs : List ℕ) (m : Manager) (i : ℕ)
    → has i cs ≡ false
    → ((fan_out exclude f cs m).2.object i).outbox ≡ (m.object i).outbox
unfolding fan_out
outbox-fan_out exclude f [] m i out = refl
outbox-fan_out exclude f (c ∷ cs) m i out = ground (
  arith,
  outbox-fan_out exclude f cs m i,
  outbox-fan_out exclude f cs (enqueue c f m).1 i,
  outbox-enqueue c i f m,
)

outbox-unregister :
    (code c i : ℕ) (m : Manager)
    → (c == i) ≡ false
    → ((unregister code c m).object i).outbox ≡ (m.object i).outbox
unfolding unregister
outbox-unregister code c i m ne = rw ne refl

outbox-unregister_all :
    (code : ℕ) (cs : List ℕ) (i : ℕ) (m : Manager)
    → has i cs ≡ false
    → ((unregister_all code cs m).object i).outbox ≡ (m.object i).outbox
unfolding unregister_all
outbox-unregister_all code [] i m out = refl
outbox-unregister_all code (c ∷ cs) i m out =
    outbox-unregister_all code cs i (unregister code c m) (ground arith)
    ∙ outbox-unregister code c i m (ground arith)

-- The dead are among the sockets that are gone over.
has-fan_out :
    (exclude : Option ℕ) (f : Frame) (cs : List ℕ) (m : Manager) (i : ℕ)
    → has i cs ≡ false
    → has i (fan_out exclude f cs m).1 ≡ false
unfolding fan_out
has-fan_out exclude f [] m i out = refl
has-fan_out exclude f (c ∷ cs) m i out =
    ground (arith, has-fan_out exclude f cs m i, has-fan_out exclude f cs (enqueue c f m).1 i)

outbox-deliver_to_conversation :
    (v : ℕ) (f : Frame) (exclude : Option ℕ) (i : ℕ) (m : Manager)
    → in_index v i m.by_conversation ≡ false
    → ((deliver_to_conversation v f exclude m).1.object i).outbox ≡ (m.object i).outbox
unfolding deliver_to_conversation in_index
outbox-deliver_to_conversation v f exclude i m out =
    let sent = fan_out exclude f (set_at v m.by_conversation) m in
    outbox-unregister_all 1_000 sent.1 i sent.2
      (has-fan_out exclude f (set_at v m.by_conversation) m i out)
    ∙ outbox-fan_out exclude f (set_at v m.by_conversation) m i out

module _ (is_conversation : ℕ → Bool) where
  -- Exactly the user's sockets leave the conversation.
  in_index-revoke_member :
      (v user w i : ℕ) (f : Frame) (m : Manager)
      → is_conversation v ≡ true
      → AllHonest is_conversation m
      → in_index w i (revoke_member v user f m).by_conversation
        ≡ (in_index w i m.by_conversation && not (v == w && (m.object i).user_id == user))
  unfolding revoke_member in_index
  in_index-revoke_member v user w i f m con all =
      in_index-revoke_user is_conversation v user w i f (set_at v m.by_conversation) m con all
      ∙ elim (ℕ_discrete v w) [ yes e ↦ rw e (ground arith) | no ne ↦ ground arith ]

  module _ (most size : ℕ) {m : Manager} (used : Reach is_conversation most (start size) m) where
    honest_start : AllHonest is_conversation m
    honest_start = Reach-AllHonest is_conversation most used (λ c. tt)

    -- Whatever the manager went through before: a revocation takes exactly the sockets of the person
    -- out of exactly that conversation, in the index and in their own subscriptions; and an event of
    -- the conversation that is delivered next enters the outbox of none of them.
    pub revoke_member-silences :
        (v user : ℕ) (told news : Frame) (exclude : Option ℕ)
        → is_conversation v ≡ true
        → ((w c : ℕ)
            → in_index w c (revoke_member v user told m).by_conversation
              ≡ (in_index w c m.by_conversation && not (v == w && (m.object c).user_id == user)))
          × ((w c : ℕ)
              → has w ((revoke_member v user told m).object c).subscriptions ≡ (
                  has w (m.object c).subscriptions && not (v == w && (m.object c).user_id == user)))
          × ((c : ℕ)
              → (m.object c).user_id ≡ user
              → ((deliver_to_conversation v news exclude (revoke_member v user told m)).1.object
                  c).outbox
                ≡ ((revoke_member v user told m).object c).outbox)
    revoke_member-silences v user told news exclude con = (
      left,
      λ w c.
          sym (after.indexed w c)
          ∙ left w c
          ∙ ap (λ b. b && not (v == w && (m.object c).user_id == user)) (before.indexed w c),
      λ c e.
          outbox-deliver_to_conversation v news exclude c (revoke_member v user told m)
            (left v c ∙ ground arith),
    )
      where
        left :
            (w c : ℕ)
            → in_index w c (revoke_member v user told m).by_conversation
              ≡ (in_index w c m.by_conversation && not (v == w && (m.object c).user_id == user))
        left w c = in_index-revoke_member v user w c told m con honest_start

        before : Synced m
        before = Reach-Synced is_conversation most used (start-Synced size)

        after : Synced (revoke_member v user told m)
        after =
            Reach-Synced is_conversation most
              (revoke_member-Reach is_conversation most v user told m) before
