-- ===== src/Connections/Pairs.antt =====
-- One row for each pair of people: the rows of matches.
pub mod Run
use lc_connect.Base.{
  ℕ, ◌≤◌, ◌≡◌, refl, sym, subst, Bool, ◌&&◌, Option, none, some, List, [], ◌∷◌, arith, ◌==◌,
  is_some, Result, ok, err, OnOk, raise_if, or_raise, ◌>>=◌, find?, update_first, filter_rows,
  count_if, count_if-none, ℕ_discrete, All, scalar_one_or_none, Bool-cases, Option-cases,
  Result-cases, inl, inr,
}
use lc_connect.Social.{
  Match, is_pending, users_are_blocked, users_are_connected, connects, ConnectionRequest,
}
use lc_connect.Connections.Requests.{
  Db, Draws, ordered_pair, is_pair, is_live, existing_match, active_match, if_live, new_match,
  match_for, connect, ConnectionRequestCreate, ask, ask_or_connect, send_connection_request,
  withdraw_request, disconnect_from_user, accept_request, decline_request, tell, is_from_to,
  receiver_of, pending_of, sent_by, sent_to, has_id, multiple_rows, not_allowed, already_matched,
  connection_not_found,
}

-- The rows of a pair are stored with the smaller id first, and there is one for a pair at most.
abbrev pub Paired : List Match → Type 0
Paired ms = All (λ m. m.user_a_id ≤ m.user_b_id) ms × ((a b : ℕ) → count_if (is_pair a b) ms ≤ 1)

connects-is_pair :
    (a b : ℕ) (m : Match)
    → m.user_a_id ≤ m.user_b_id
    → connects a b m ≡ (is_pair (ordered_pair a b).0 (ordered_pair a b).1 m && is_live m)
connects-is_pair a b m h = ground arith

no_pair :
    (a b : ℕ) (ms : List Match)
    → All (λ m. m.user_a_id ≤ m.user_b_id) ms
    → count_if (is_pair (ordered_pair a b).0 (ordered_pair a b).1) ms ≡ 0
    → filter_rows (connects a b) ms ≡ []
unfolding count_if filter_rows
no_pair a b [] h z = refl
no_pair a b (m ∷ ms) h z = ground (arith, connects-is_pair a b m h.0, no_pair a b ms h.1)

pub connected-active :
    {E : Type 0} (multiple : E) (a b : ℕ) (ms : List Match)
    → All (λ m. m.user_a_id ≤ m.user_b_id) ms
    → count_if (is_pair (ordered_pair a b).0 (ordered_pair a b).1) ms ≤ 1
    → scalar_one_or_none multiple (filter_rows (connects a b) ms)
      ≡ ok (if_live (find? (is_pair (ordered_pair a b).0 (ordered_pair a b).1) ms))
unfolding count_if filter_rows find?
connected-active multiple a b [] h one = refl
connected-active multiple a b (m ∷ ms) h one =
    elim (Bool-cases (is_pair (ordered_pair a b).0 (ordered_pair a b).1 m)) [
      | inl e ↦ ground (arith, e, connects-is_pair a b m h.0, no_pair a b ms h.1)
      | inr e ↦ ground (arith, e, connects-is_pair a b m h.0, connected-active multiple a b ms h.1)
    ]

abbrev set_end : Option ℕ → Match → Match
set_end d m = record m { disconnected_at = d }

set_end-sorted :
    (p : Match → Bool) (d : Option ℕ) (ms : List Match)
    → All (λ m. m.user_a_id ≤ m.user_b_id) ms
    → All (λ m. m.user_a_id ≤ m.user_b_id) (update_first p (set_end d) ms)
unfolding update_first
set_end-sorted p d [] h = tt
set_end-sorted p d (m ∷ ms) h = elim (Bool-cases (p m)) [
  | inl e ↦ rw e h
  | inr e ↦ rw e (h.0, set_end-sorted p d ms h.1)
]

set_end-count :
    (p : Match → Bool) (a b : ℕ) (d : Option ℕ) (ms : List Match)
    → count_if (is_pair a b) (update_first p (set_end d) ms) ≡ count_if (is_pair a b) ms
unfolding update_first count_if
set_end-count p a b d [] = refl
set_end-count p a b d (m ∷ ms) = elim (Bool-cases (p m)) [
  | inl e ↦ rw e refl
  | inr e ↦ rw (e, set_end-count p a b d ms) refl
]

pub set_end-Paired :
    (p : Match → Bool) (d : Option ℕ) (ms : List Match)
    → Paired ms
    → Paired (update_first p (set_end d) ms)
set_end-Paired p d ms h = (
  set_end-sorted p d ms h.0,
  λ a b. subst (λ n. n ≤ 1) (sym (set_end-count p a b d ms)) (h.1 a b),
)

ordered_pair-sorted : (a b : ℕ) → (ordered_pair a b).0 ≤ (ordered_pair a b).1
ordered_pair-sorted a b = ground arith

new_match-count :
    (left right a b : ℕ) (m : Match) (ms : List Match)
    → m.user_a_id ≡ left
    → m.user_b_id ≡ right
    → find? (is_pair left right) ms ≡ none
    → count_if (is_pair a b) ms ≤ 1
    → count_if (is_pair a b) (m ∷ ms) ≤ 1
unfolding count_if
new_match-count left right a b m ms hl hr fresh one = elim (ℕ_discrete left a) [
  | no ne ↦ ground (arith, hl, hr)
  | yes e ↦ elim (ℕ_discrete right b) [
    | no ne ↦ ground (arith, hl, hr)
    | yes e' ↦ ground (
      arith,
      hl,
      hr,
      subst (λ k. count_if (is_pair k b) ms ≡ 0) e
          (subst (λ k. count_if (is_pair left k) ms ≡ 0) e'
            (count_if-none (is_pair left right) ms fresh)),
    )
  ]
]

pub match_for-Paired :
    (id now a b : ℕ) (ms : List Match) → Paired ms → Paired (match_for id now a b ms).1
unfolding match_for existing_match
match_for-Paired id now a b ms h =
    elim (Option-cases (find? (is_pair (ordered_pair a b).0 (ordered_pair a b).1) ms)) [
      | inr (m, e) ↦
          rw e (set_end-Paired (is_pair (ordered_pair a b).0 (ordered_pair a b).1) none ms h)
      | inl e ↦ rw e (
        (ordered_pair-sorted a b, h.0),
        λ x y.
            new_match-count (ordered_pair a b).0 (ordered_pair a b).1 x y
              (new_match id (ordered_pair a b).0 (ordered_pair a b).1 now) ms refl refl e (h.1 x y),
      )
    ]
