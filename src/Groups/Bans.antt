-- ===== src/Groups/Bans.antt =====
-- What the requests to a group's routes, one after another, leave of a ban.
pub mod Requests
pub mod Run
use lc_connect.Base.{
  ℕ, ◌≡◌, ◌≢◌, Bool, true, false, Option, none, some, List, [], ◌∷◌, arith, find?, update_first,
  find?-update_first_other, ◌==◌, subst,
}
use lc_connect.Groups.Defs.{Member, Group, Db, membership, edit_member, add_member, is_user}
use lc_connect.Groups.Service.{has_status, is_banned}

abbrev pub BarredFrom : ℕ → Option Group → List Member → Type 0
BarredFrom u none ms = Unit
BarredFrom u (some g) ms = has_status is_banned (find? (is_user u) ms) ≡ true

-- The group, if it is not deleted, has banned the person.
abbrev pub Barred : ℕ → Db → Type 0
Barred u db = BarredFrom u db.group db.members

is_user_apart : (u v : ℕ) → u ≢ v → (m : Member) → is_user u m ≡ true → is_user v m ≡ false
is_user_apart u v ne m h = ground arith

-- Rows of others.
edit_other :
    (u v : ℕ) (o : Option Group) (f : Member → Member) (ms : List Member)
    → v ≢ u
    → ((m : Member) → (f m).user_id ≡ m.user_id)
    → BarredFrom u o ms
    → BarredFrom u o (update_first (is_user v) f ms)
edit_other u v none f ms ne same h = tt
edit_other u v (some g) f ms ne same h =
    rw
      (find?-update_first_other (is_user v) (is_user u) f ms (is_user_apart v u ne)
        (λ x hx. rw (same x) (is_user_apart v u ne x hx)))
      h

pub edit_apart-Barred :
    (u v : ℕ) (f : Member → Member) (db : Db)
    → v ≢ u
    → ((m : Member) → (f m).user_id ≡ m.user_id)
    → Barred u db
    → Barred u (edit_member v f db)
unfolding edit_member
edit_apart-Barred u v f db ne same h = edit_other u v db.group f db.members ne same h

-- Who is not banned is another person.
pub not-Barred :
    (u v : ℕ) (db : Db) {g : Group}
    → db.group ≡ some g
    → has_status is_banned (membership db v) ≡ false
    → Barred u db
    → v ≢ u
unfolding membership
not-Barred u v db {g} e free h p =
    let barred : has_status is_banned (find? (is_user u) db.members) ≡ true =
      subst (λ o. BarredFrom u o db.members) e h in
    let same = subst (λ w. has_status is_banned (find? (is_user w) db.members) ≡ false) p free in
    ground (arith, barred, same)

-- An edit of the row of somebody who is not banned.
pub edit-Barred :
    (u v : ℕ) (f : Member → Member) (db : Db) {g : Group}
    → db.group ≡ some g
    → has_status is_banned (membership db v) ≡ false
    → ((m : Member) → (f m).user_id ≡ m.user_id)
    → Barred u db
    → Barred u (edit_member v f db)
edit-Barred u v f db e free same h = edit_apart-Barred u v f db (not-Barred u v db e free h) same h

pub add-Barred :
    (u : ℕ) (m : Member) (db : Db) {g : Group}
    → db.group ≡ some g
    → has_status is_banned (membership db m.user_id) ≡ false
    → Barred u db
    → Barred u (add_member m db)
unfolding add_member find?
add-Barred u m db {g} e free h =
    let barred = subst (λ o. BarredFrom u o db.members) e h in
    rw e (ground (arith, barred, not-Barred u m.user_id db e free h))
