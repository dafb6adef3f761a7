-- ===== src/Groups/Standing.antt =====
-- What the requests of others do to the row of an active member: backend/app/features/groups.
use lc_connect.Base.{
  ℕ, ◌≡◌, ◌≢◌, refl, subst, ◌∙◌, Bool, true, false, Option, none, some, List, [], ◌∷◌, arith, OnOk,
  find?, find?-update_first_other, if◌then◌else◌,
}
use lc_connect.Groups.Defs.{
  Role, member, Status, active, requested, invited, removed, banned, Member, Group, Db, JoinStatus,
  joined, waiting, membership, edit_member, add_member, set_status, set_role, is_active, is_user,
  emit, join_request,
}
use lc_connect.Groups.Service
use lc_connect.Groups.Service.{has_status}
use lc_connect.Groups.Router.{tell_each, announce, admins}

is_user_apart : (u v : ℕ) → u ≢ v → (m : Member) → is_user u m ≡ true → is_user v m ≡ false
is_user_apart u v ne m h = ground arith

-- A row of a person.
abbrev pub Stands : ℕ → Member → Db → Type 0
Stands u m db = membership db u ≡ some m

pub edit_apart-Stands :
    (u v : ℕ) (m : Member) (f : Member → Member) (db : Db)
    → v ≢ u
    → ((x : Member) → (f x).user_id ≡ x.user_id)
    → Stands u m db
    → Stands u m (edit_member v f db)
unfolding membership edit_member
edit_apart-Stands u v m f db ne same h =
    find?-update_first_other (is_user v) (is_user u) f db.members (is_user_apart v u ne)
      (λ x hx. rw (same x) (is_user_apart v u ne x hx))
    ∙ h

add_apart-Stands :
    (u : ℕ) (m x : Member) (db : Db) → x.user_id ≢ u → Stands u m db → Stands u m (add_member x db)
unfolding membership add_member find?
add_apart-Stands u m x db ne h = ground (arith, h)

tell_each-Stands :
    (u : ℕ) (m : Member) (ms : List Member) (actor : ℕ) (db : Db)
    → Stands u m db
    → Stands u m (tell_each ms actor db)
unfolding tell_each membership
tell_each-Stands u m [] actor db h = h
tell_each-Stands u m (x ∷ ms) actor db h =
    tell_each-Stands u m ms actor (emit (join_request x.user_id actor) db) h

pub announce-Stands :
    (u : ℕ) (m : Member) (s : JoinStatus) (actor : ℕ) (db : Db)
    → Stands u m db
    → Stands u m (announce s actor db)
unfolding announce
announce-Stands u m joined actor db h = h
announce-Stands u m waiting actor db h = tell_each-Stands u m (admins db) actor db h

module _ (limit u v : ℕ) (m : Member) (db : Db) (h : Stands u m db) where
  -- Who is not active is another person.
  inactive_apart :
      is_active m.status ≡ true → has_status is_active (membership db v) ≡ false → v ≢ u
  inactive_apart live out p =
      let same = subst (λ w. has_status is_active (membership db w) ≡ false) p out in
      ground (arith, h, same, live)

  module _ (ne : v ≢ u) where
    status-Stands : (s : Status) → Stands u m (edit_member v (set_status s) db)
    status-Stands s = edit_apart-Stands u v m (set_status s) db ne (λ x. refl) h

    set_member-Stands : (o : Option Member) (s : Status) → Stands u m (Service.set_member o v s db)
    unfolding Service.set_member
    set_member-Stands none s = add_apart-Stands u m (Service.new_member v member s none) db ne h
    set_member-Stands (some x) s = status-Stands s

    pub join_group-Stands :
        (g : Group) → OnOk (λ r. Stands u m r.1) (Service.join_group limit g v db)
    unfolding Service.join_group
    join_group-Stands g = ground (
      arith,
      set_member-Stands (membership db v) active,
      set_member-Stands (membership db v) requested,
    )

    pub accept_invite-Stands : OnOk (λ r. Stands u m r.1) (Service.accept_invite limit v db)
    unfolding Service.accept_invite
    accept_invite-Stands = ground (arith, status-Stands active)

    pub decline_invite-Stands : OnOk (Stands u m) (Service.decline_invite v db)
    unfolding Service.decline_invite
    decline_invite-Stands = ground (arith, status-Stands removed)

    write_invite-Stands : (o : Option Member) (by : ℕ) → Stands u m (Service.write_invite o v by db)
    unfolding Service.write_invite
    write_invite-Stands none by =
        add_apart-Stands u m (Service.new_member v member invited (some by)) db ne h
    write_invite-Stands (some x) by =
        edit_apart-Stands u v m (Service.invite_again by) db ne (λ x. refl) h

    pub change_role-Stands :
        (actor : Option Role) (r : Role) → OnOk (Stands u m) (Service.change_role actor v r db)
    unfolding Service.change_role
    change_role-Stands actor r =
        ground (arith, edit_apart-Stands u v m (set_role r) db ne (λ x. refl) h)

    pub remove_member-Stands :
        (actor : Option Role) (ban : Bool)
        → OnOk (Stands u m) (Service.remove_member actor v ban db)
    unfolding Service.remove_member
    remove_member-Stands actor ban = ground (arith, status-Stands (if ban then banned else removed))

  module _ (live : is_active m.status ≡ true) where
    pub approve_request-Stands : OnOk (Stands u m) (Service.approve_request limit v db)
    unfolding Service.approve_request
    approve_request-Stands =
        ground (arith, inactive_apart live, λ (ne : v ≢ u). status-Stands ne active)

    pub reject_request-Stands : OnOk (Stands u m) (Service.reject_request v db)
    unfolding Service.reject_request
    reject_request-Stands =
        ground (arith, inactive_apart live, λ (ne : v ≢ u). status-Stands ne removed)

    pub invite_user-Stands : (by : ℕ) → OnOk (Stands u m) (Service.invite_user v by db)
    unfolding Service.invite_user
    invite_user-Stands by =
        ground
          (arith, inactive_apart live, λ (ne : v ≢ u). write_invite-Stands ne (membership db v) by)
