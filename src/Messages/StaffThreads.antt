-- ===== src/Messages/StaffThreads.antt =====
-- The two forms of one rule in backend/app/shared/policies.py: `open_staff_thread_ids` asks a join,
-- `can_message_as_staff` asks for one account.
use lc_connect.Base.{
  ℕ, ◌≡◌, ◌≤◌, refl, Bool, false, ◌&&◌, ◌==◌, List, [], ◌∷◌, find?, any_row, count_if, inl, inr,
  Bool-cases, arith, ◌∙◌, ap,
}
use lc_connect.People.{User, Position, get_primary_position}
use lc_connect.Messages.Defs.{Member, Db}
use lc_connect.Messages.Access.{
  Settings, is_official_row, is_official_primary, can_message_as_staff, is_messaging_role,
  is_staff_side, staff_thread_is_open,
}

-- The partial unique index: one primary position that is active for each person.
abbrev pub is_primary_of : ℕ → Position → Bool
is_primary_of user p = p.user_id == user && p.is_primary && p.is_active

abbrev pub OnePrimary : List Position → Type 0
OnePrimary ps = (user : ℕ) → count_if (is_primary_of user) ps ≤ 1

any_row-none :
    (user : ℕ) (ps : List Position)
    → count_if (is_primary_of user) ps ≡ 0
    → any_row (is_official_primary user) ps ≡ false
unfolding count_if
any_row-none user [] h = refl
any_row-none user (p ∷ ps) h = ground (arith, any_row-none user ps)

official_primary :
    (user : ℕ) (ps : List Position)
    → count_if (is_primary_of user) ps ≤ 1
    → any_row (is_official_primary user) ps ≡ is_official_row (find? (is_primary_of user) ps)
unfolding count_if find?
official_primary user [] h = refl
official_primary user (p ∷ ps) h = elim (Bool-cases (is_primary_of user p)) [
  | inl e ↦ ground (arith, e, any_row-none user ps)
  | inr e ↦ ground (arith, e, official_primary user ps)
]

any_row-ext :
    {A : Type 0} (p q : A → Bool) (xs : List A)
    → ((x : A) → p x ≡ q x)
    → any_row p xs ≡ any_row q xs
any_row-ext p q [] h = refl
any_row-ext p q (x ∷ xs) h = rw (h x, any_row-ext p q xs h) refl

-- A person's own part of a join, taken out of it.
any_row-and :
    (k : ℕ) (w : Bool) (off : ℕ → Bool) (us : List User)
    → (w && off k && any_row (λ u. u.id == k && is_messaging_role u.role) us)
      ≡ any_row (λ u. u.id == k && w && is_messaging_role u.role && off u.id) us
any_row-and k w off [] = ground arith
any_row-and k w off (u ∷ us) = elim (Bool-cases (u.id == k)) [
  | inl e ↦
      let same : u.id ≡ k = ground (arith, e) in
      ground (arith, e, ap off same, any_row-and k w off us)
  | inr e ↦ ground (arith, e, any_row-and k w off us)
]

-- A member of the conversation who may message as staff, by the rule for one account.
abbrev pub is_staff_party : Settings → ℕ → Db → Member → Bool
is_staff_party s v db k =
    k.conversation_id == v
    && k.is_active
    && any_row (λ u. u.id == k.user_id && can_message_as_staff s db.campus u) db.users

party-agree :
    (s : Settings) (v : ℕ) (db : Db) (k : Member)
    → OnePrimary db.campus.positions
    → (s.staff_messaging_enabled && is_staff_side v db k) ≡ is_staff_party s v db k
unfolding can_message_as_staff get_primary_position
party-agree s v db k one = ground (
  arith,
  official_primary k.user_id db.campus.positions (one k.user_id),
  any_row-and k.user_id s.staff_messaging_enabled
      (λ i. is_official_row (find? (is_primary_of i) db.campus.positions)) db.users,
)

any_row-guard :
    {A : Type 0} (w : Bool) (p : A → Bool) (xs : List A)
    → (w && any_row p xs) ≡ any_row (λ x. w && p x) xs
any_row-guard w p [] = ground arith
any_row-guard w p (x ∷ xs) = ground (arith, any_row-guard w p xs)

-- A staff thread is open exactly while an active member of it may message as staff, by the rule
-- that is asked of one account, where each person has one primary position at most.
pub staff_thread_is_open-can_message :
    (s : Settings) (v : ℕ) (db : Db)
    → OnePrimary db.campus.positions
    → staff_thread_is_open s v db ≡ any_row (is_staff_party s v db) db.members
unfolding staff_thread_is_open
staff_thread_is_open-can_message s v db one =
    any_row-guard s.staff_messaging_enabled (is_staff_side v db) db.members
    ∙ any_row-ext (λ k. s.staff_messaging_enabled && is_staff_side v db k) (is_staff_party s v db)
        db.members (λ k. party-agree s v db k one)
