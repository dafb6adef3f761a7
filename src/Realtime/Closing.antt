-- ===== src/Realtime/Closing.antt =====
-- What blocking two people and suspending an account leave of the sockets in
-- backend/app/features/realtime/manager.py.
use lc_connect.Base.{
  ℕ_discrete, ℕ, ◌≡◌, ◌<◌, refl, ap, ◌∙◌, sym, Bool, true, false, not, ◌&&◌, List, [], ◌∷◌, arith,
  ◌==◌, Bool-cases, inl, inr, has, set_at, in_index, All,
}
use lc_connect.Realtime.Manager.{Manager, Frame, enqueue, stopped, unregister, start}
use lc_connect.Realtime.Indices.{in_index-index_remove}
use lc_connect.Realtime.Synced.{Synced, at-mutate, start-Synced}
use lc_connect.Realtime.Delivery.{revoke_conversation, revoke_pair, close_all, close_user}
use lc_connect.Realtime.Refs.{AllHonest, Reach-AllHonest}
use lc_connect.Realtime.Revocation.{in_index-revoke_all, user-enqueue}
use lc_connect.Realtime.Reach.{
  Reach, Reach-Synced, close_user-Reach, revoke_conversation-Reach, revoke_pair-Reach,
}

user-enqueue-unregister :
    (code c i : ℕ) (f : Frame) (m : Manager)
    → ((unregister code c (enqueue c f m).1).object i).user_id ≡ (m.object i).user_id
unfolding unregister enqueue
user-enqueue-unregister code c i f m =
    at-mutate (λ k. k.user_id) c i (stopped m.outbox_max code ((enqueue c f m).1.object c))
      (enqueue c f m).1 refl
    ∙ user-enqueue c i f m

in_index-enqueue-unregister :
    (code c u i : ℕ) (f : Frame) (m : Manager)
    → in_index u i (unregister code c (enqueue c f m).1).by_user
      ≡ (in_index u i m.by_user && not ((m.object c).user_id == u && c == i))
unfolding unregister
in_index-enqueue-unregister code c u i f m = rw (← user-enqueue c c f m) (
    in_index-index_remove ((enqueue c f m).1.object c).user_id c u i (enqueue c f m).1.by_user
    ∙ ap (λ b. b && not (((enqueue c f m).1.object c).user_id == u && c == i)) (unmoved c u i f m))
  where
    unmoved :
        (c u i : ℕ) (f : Frame) (m : Manager)
        → in_index u i (enqueue c f m).1.by_user ≡ in_index u i m.by_user
    unmoved c u i f m = unfold enqueue in refl

in_index-close_all :
    (code u i : ℕ) (f : Frame) (cs : List ℕ) (m : Manager)
    → in_index u i (close_all f code cs m).by_user
      ≡ (in_index u i m.by_user && not (has i cs && (m.object i).user_id == u))
unfolding close_all
in_index-close_all code u i f [] m = ground arith
in_index-close_all code u i f (c ∷ cs) m =
    let left = unregister code c (enqueue c f m).1 in
    in_index-close_all code u i f cs left ∙ elim (ℕ_discrete c i) [
      | yes e ↦ ground (
        arith,
        in_index-enqueue-unregister code c u i f m,
        user-enqueue-unregister code c i f m,
        ap (λ j. (m.object j).user_id) e,
      )
      | no ne ↦
          ground (
            arith,
            in_index-enqueue-unregister code c u i f m,
            user-enqueue-unregister code c i f m,
          )
    ]

next-close_all :
    (code : ℕ) (f : Frame) (cs : List ℕ) (m : Manager) → (close_all f code cs m).next ≡ m.next
unfolding close_all enqueue unregister
next-close_all code f [] m = refl
next-close_all code f (c ∷ cs) m = next-close_all code f cs (unregister code c (enqueue c f m).1)

module _ (is_conversation : ℕ → Bool) (most : ℕ) where
  in_index-revoke_conversation :
      (v w c : ℕ) (f : Frame) (m : Manager)
      → is_conversation v ≡ true
      → AllHonest is_conversation m
      → in_index w c (revoke_conversation v f m).by_conversation
        ≡ (in_index w c m.by_conversation && not (v == w))
  unfolding revoke_conversation in_index
  in_index-revoke_conversation v w c f m con all =
      in_index-revoke_all is_conversation v w c f (set_at v m.by_conversation) m con all
      ∙ elim (ℕ_discrete v w) [ yes e ↦ rw e (ground arith) | no ne ↦ ground arith ]

  in_index-revoke_pair :
      (vs : List ℕ) (f : Frame) (w c : ℕ) (m : Manager)
      → All (λ v. is_conversation v ≡ true) vs
      → AllHonest is_conversation m
      → in_index w c (revoke_pair vs f m).by_conversation
        ≡ (in_index w c m.by_conversation && not (has w vs))
  unfolding revoke_pair
  in_index-revoke_pair [] f w c m con all = ground arith
  in_index-revoke_pair (v ∷ vs) f w c m con all = ground (
    arith,
    in_index-revoke_pair vs f w c (revoke_conversation v f m) con.1 (
        Reach-AllHonest is_conversation most (revoke_conversation-Reach is_conversation most v f m)
          all),
    in_index-revoke_conversation v w c f m con.0 all,
  )

  module _ (size : ℕ) {m : Manager} (used : Reach is_conversation most (start size) m) where
    before : Synced m
    before = Reach-Synced is_conversation most used (start-Synced size)

    -- Whatever the manager went through before: revoking a list of conversations, as a block does,
    -- ends the subscriptions to each of them, of every socket, and no other.
    pub revoke_pair-subscriptions :
        (vs : List ℕ) (f : Frame) (w c : ℕ)
        → All (λ v. is_conversation v ≡ true) vs
        → has w ((revoke_pair vs f m).object c).subscriptions
          ≡ (has w (m.object c).subscriptions && not (has w vs))
    revoke_pair-subscriptions vs f w c con =
        sym (after.indexed w c)
        ∙ in_index-revoke_pair vs f w c m con (Reach-AllHonest is_conversation most used (λ c. tt))
        ∙ ap (λ b. b && not (has w vs)) (before.indexed w c)
      where
        after : Synced (revoke_pair vs f m)
        after =
            Reach-Synced is_conversation most (revoke_pair-Reach is_conversation most vs f m) before

    -- Whatever the manager went through before: closing a user's sockets, as a suspension does, takes
    -- all of them out of the index and leaves no socket of that user alive; other users' sockets
    -- stay in the index.
    pub close_user-empties :
        (user code : ℕ) (f : Frame)
        → ((u c : ℕ)
            → in_index u c (close_user user f code m).by_user
              ≡ (in_index u c m.by_user && not (user == u)))
          × ((c : ℕ)
              → c < m.next
              → (m.object c).user_id ≡ user
              → ((close_user user f code m).object c).alive ≡ false)
    unfolding close_user in_index
    close_user-empties user code f = (left, dead)
      where
        left :
            (u c : ℕ)
            → in_index u c (close_user user f code m).by_user
              ≡ (in_index u c m.by_user && not (user == u))
        left u c = ground (
          arith,
          in_index-close_all code u c f (set_at user m.by_user) m,
          before.own u c,
          before.own user c,
        )

        after : Synced (close_user user f code m)
        after =
            Reach-Synced is_conversation most (close_user-Reach is_conversation most user f code m)
              before

        dead :
            (c : ℕ)
            → c < m.next
            → (m.object c).user_id ≡ user
            → ((close_user user f code m).object c).alive ≡ false
        dead c lt e = elim (Bool-cases ((close_user user f code m).object c).alive) [
          | inl live ↦
              let u = ((close_user user f code m).object c).user_id in
              let there =
                after.reachable c (rw (next-close_all code f (set_at user m.by_user) m) lt) live in
              ground (arith, there, left u c, before.own u c)
          | inr gone ↦ gone
        ]
