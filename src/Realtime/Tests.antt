-- ===== src/Realtime/Tests.antt =====
-- Two people with a socket each in conversation 10, which the first one addresses by a match's id.
use lc_connect.Base.{
  ℕ, ◌≡◌, ◌<◌, refl, Bool, true, false, not, ◌&&◌, none, [], ◌∷◌, arith, ◌==◌, has, in_index, get,
  put, index_add,
}
use lc_connect.Realtime.Manager.{
  Manager, error, access_revoked, event, start, admit, register, user_socket_count, on_subscribe,
  subscribe,
}
use lc_connect.Realtime.Reach.{Step, Reach}
use lc_connect.Realtime.Delivery.{revoke_member, revoke_pair, close_user, deliver_to_conversation}
use lc_connect.Realtime.Revocation.{revoke_member-silences}
use lc_connect.Realtime.Closing.{revoke_pair-subscriptions, close_user-empties}
use lc_connect.Realtime.Limits.{Bounded, start-Bounded}

abbrev is_conversation : ℕ → Bool
is_conversation v = v == 10

abbrev online : Manager
online = (admit 3 6 1 (admit 3 5 0 (start 4)).1).1

abbrev chatting : Manager
chatting = on_subscribe 1 10 10 (5 ∷ []) 3 10 (on_subscribe 0 10 77 (6 ∷ []) 2 77 online)

chatting-Reach : Reach is_conversation 3 (start 4) chatting
unfolding admit register user_socket_count get put index_add on_subscribe subscribe
chatting-Reach =
    Reach.next
      (Reach.next (Reach.next (Reach.next Reach.here (Step.admits 5 0)) (Step.admits 6 1))
        (Step.subscribes 0 10 77 (6 ∷ []) 2 77 (omega arith) refl (λ h. cc)))
      (Step.subscribes 1 10 10 (5 ∷ []) 3 10 (omega arith) refl (λ h. refl))

revoke_member-silences_example :
    ((w c : ℕ)
      → in_index w c (revoke_member 10 5 (error access_revoked) chatting).by_conversation ≡ (
          in_index w c chatting.by_conversation
          && not (10 == w && (chatting.object c).user_id == 5)))
    × ((w c : ℕ)
        → has w ((revoke_member 10 5 (error access_revoked) chatting).object c).subscriptions ≡ (
            has w (chatting.object c).subscriptions
            && not (10 == w && (chatting.object c).user_id == 5)))
    × ((c : ℕ)
        → (chatting.object c).user_id ≡ 5
        → ((deliver_to_conversation 10
              (event 1)
              none
              (revoke_member 10 5 (error access_revoked) chatting)).1.object
            c).outbox
          ≡ ((revoke_member 10 5 (error access_revoked) chatting).object c).outbox)
revoke_member-silences_example =
    revoke_member-silences is_conversation 3 4 chatting-Reach 10 5 (error access_revoked) (event 1)
      none refl

revoke_pair-subscriptions_example :
    has 10 ((revoke_pair (10 ∷ []) (error access_revoked) chatting).object 0).subscriptions
    ≡ (has 10 (chatting.object 0).subscriptions && not true)
revoke_pair-subscriptions_example =
    revoke_pair-subscriptions is_conversation 3 4 chatting-Reach (10 ∷ []) (error access_revoked) 10
      0 (refl, tt)

close_user-empties_example :
    ((u c : ℕ)
      → in_index u c (close_user 5 (error access_revoked) 4_403 chatting).by_user
        ≡ (in_index u c chatting.by_user && not (5 == u)))
    × ((c : ℕ)
        → c < chatting.next
        → (chatting.object c).user_id ≡ 5
        → ((close_user 5 (error access_revoked) 4_403 chatting).object c).alive ≡ false)
close_user-empties_example =
    close_user-empties is_conversation 3 4 chatting-Reach 5 4_403 (error access_revoked)

start-Bounded_example : Bounded 3 chatting
start-Bounded_example = start-Bounded is_conversation 3 4 (omega arith) chatting-Reach
