-- ===== src/CampusHub/Publishing.antt =====
-- backend/app/features/campus_hub/publishing.py: drafting, editing, publishing and archiving a post, by
-- admins and by staff. A raised error leaves the database alone: each function commits once, at its end.
-- A function here is a call with no other between its reads and its commit, which the program does not
-- ensure: it takes no lock, and waits for the link preview in between.
-- `unfurl` is the link preview of an address, which is fetched from the network.
pub mod Lifecycle
use lc_connect.CampusHub.Payloads.{
  Snapshot, Action, Audit, Db, Error, CampusPostCreate, CampusPostUpdate, in_categories, is_blank,
  or_empty, nonempty, not_after, category_fits, validate_create, validate_update, created, updated,
  made_public, put_away, post_not_found, publishing_disabled, staff_account_required,
  position_required, urgent_admins_only, not_your_post, archived_not_editable, bad_category,
  summary_required, body_required, only_drafts, not_null_violation, expires_too_early,
}
use lc_connect.Base.{
  ℕ, Bool, true, false, not, ◌&&◌, ◌||◌, Option, none, some, List, [], ◌∷◌, ◌==◌, leb,
  if◌then◌else◌, is_some, Result, ok, err, ◌>>=◌, ◌>>◌, raise_if, or_raise, Text, strip, find?,
  update_first, Change, unset, null, set, change_nullable,
}
use lc_connect.People.{
  UserRole, student, staff, admin, User, Position, Campus, get_primary_position, is_admin, is_staff,
}
use lc_connect.CampusHub.Defs.{
  Kind, announcement, opportunity, Audience, Priority, PostStatus, draft, published, archived,
  Category, general, academic, campus, events, safety, internship, job, volunteer, leadership,
  CampusPost, is_archived, is_draft, is_opportunity, is_urgent,
}

unfoldable pub snapshot : CampusPost → Snapshot
snapshot post = record {
  status = post.status;
  kind = post.kind;
  title = post.title;
  priority = post.priority;
  audience = post.audience;
}

abbrev pub has_id : ℕ → CampusPost → Bool
has_id i post = post.id == i

unfoldable pub get_post_or_404 : Db → ℕ → Result Error CampusPost
get_post_or_404 db i = or_raise (find? (has_id i) db.posts) post_not_found

abbrev pub is_official : Option Position → Bool
is_official none = false
is_official (some p) = p.is_official

-- `enabled` is `settings.staff_publishing_enabled`.
unfoldable pub staff_can_publish : Bool → Campus → User → Bool
staff_can_publish enabled c user =
    if not enabled
    then false
    else if is_admin user.role
    then true
    else if not (is_staff user.role)
    then false
    else is_official (get_primary_position c user.id)

unfoldable pub require_staff_publisher : Bool → Campus → User → Result Error (Unit {0})
unfolding staff_can_publish
require_staff_publisher enabled c user =
    if is_admin user.role
    then ok tt
    else (raise_if (not enabled) publishing_disabled
        >> raise_if (not (is_staff user.role)) staff_account_required
        >> raise_if (not (staff_can_publish enabled c user)) position_required)

abbrev pub assert_staff_priority : Priority → Result Error (Unit {0})
assert_staff_priority priority = raise_if (is_urgent priority) urgent_admins_only

unfoldable pub require_post_owner_or_admin : User → CampusPost → Result Error (Unit {0})
require_post_owner_or_admin actor post =
    raise_if (not (is_admin actor.role) && not (post.author_id == actor.id)) not_your_post

-- The checks of the staff routes on an existing post.
abbrev pub staff_gate : Bool → Bool → Campus → User → CampusPost → Result Error (Unit {0})
staff_gate false enabled c actor post = ok tt
staff_gate true enabled c actor post =
    require_staff_publisher enabled c actor >> require_post_owner_or_admin actor post

abbrev pub staff_priority : Bool → Priority → Result Error (Unit {0})
staff_priority false priority = ok tt
staff_priority true priority = assert_staff_priority priority

abbrev pub changed_priority : Bool → Change Priority → Result Error (Unit {0})
changed_priority as_staff (set priority) = staff_priority as_staff priority
changed_priority as_staff _ = ok tt

unfoldable pub log : ℕ → Action → Option Snapshot → CampusPost → Db → Db
log actor action before post db = record db {
  audit =
      record {
        actor_id = actor;
        action = action;
        target_id = post.id;
        before_data = before;
        after_data = snapshot post;
      }
      ∷ db.audit;
}

-- Assigning to the fields of one post.
unfoldable pub save : CampusPost → Db → Db
save post db = record db { posts = update_first (has_id post.id) (λ _. post) db.posts }

abbrev pub change : {A : Type 0} → Change A → A → A
change unset old = old
change null old = old
change (set a) old = a

-- What a required column holds after the assignments, `None` included.
abbrev pub assigned : {A : Type 0} → Change A → A → Option A
assigned unset old = some old
assigned null old = none
assigned (set a) old = some a

abbrev pub is_null : {A : Type 0} → Change A → Bool
is_null null = true
is_null _ = false

abbrev pub is_unset : {A : Type 0} → Change A → Bool
is_unset unset = true
is_unset _ = false

abbrev pub new_category_fits : Option Kind → Change Category → Bool
new_category_fits kind (set cat) = in_categories kind cat
new_category_fits kind _ = true

-- The summary and the body that the row ends with.
unfoldable pub settle : Option Kind → Option Text → Option Text → Result Error (Option Text × Text)
settle (some opportunity) summary body =
    let text = strip (or_empty summary) in
    if is_blank text
    then err summary_required
    else ok (some text, if is_blank (strip (or_empty body)) then text else or_empty body)
settle _ summary body =
    if is_blank (strip (or_empty body)) then err body_required else ok (summary, or_empty body)

abbrev pub or_now : Option ℕ → ℕ → ℕ
or_now none now = now
or_now (some t) now = t

-- The live ping waits where the post is scheduled.
unfoldable pub ping : CampusPost → ℕ → ℕ → Db → Db
ping post at now db =
    if leb at now then record db { pings = (post.kind, post.audience) ∷ db.pings } else db

module _ (enabled : Bool) (c : Campus) (unfurl : Option Text → Option Text) where
  abbrev pub author_gate : Bool → User → Priority → Result Error (Unit {0})
  author_gate false actor priority = ok tt
  author_gate true actor priority =
      require_staff_publisher enabled c actor >> assert_staff_priority priority

  -- The new row's id is drawn by `uuid4`.
  unfoldable pub create_post :
      ℕ → User → CampusPostCreate → Bool → Db → Result Error (CampusPost × Db)
  create_post new_id actor payload as_staff db = do
    author_gate as_staff actor payload.priority
    let post : CampusPost = record {
      id = new_id;
      author_id = actor.id;
      kind = payload.kind;
      title = payload.title;
      summary = payload.summary;
      body = payload.body;
      audience = payload.audience;
      category = payload.category;
      priority = payload.priority;
      status = draft;
      publish_at = payload.publish_at;
      expires_at = payload.expires_at;
      external_url = payload.external_url;
      link_preview = unfurl payload.external_url;
      eligible_program_slug = none;
    }
    ok (post, log actor.id created none post (record db { posts = post ∷ db.posts }))

  -- The part of `update_post` that computes the new row.
  unfoldable pub apply_update : CampusPost → CampusPostUpdate → Result Error CampusPost
  apply_update post p = do
    let kind = assigned p.kind post.kind
    raise_if (not (new_category_fits kind p.category)) bad_category
    (summary, body) ←
        settle kind (change_nullable p.summary post.summary) (assigned p.body post.body)
    let url = change_nullable p.external_url post.external_url
    raise_if (is_null p.kind || is_null p.title || is_null p.audience || is_null p.priority)
        not_null_violation
    ok (record post {
      kind = change p.kind post.kind;
      title = change p.title post.title;
      summary = summary;
      body = body;
      audience = change p.audience post.audience;
      category = change_nullable p.category post.category;
      priority = change p.priority post.priority;
      publish_at = change_nullable p.publish_at post.publish_at;
      expires_at = change_nullable p.expires_at post.expires_at;
      external_url = url;
      link_preview = if is_unset p.external_url then post.link_preview else unfurl url;
    })

  unfoldable pub update_post :
      User → ℕ → CampusPostUpdate → Bool → Db → Result Error (CampusPost × Db)
  update_post actor post_id p as_staff db = do
    post ← get_post_or_404 db post_id
    staff_gate as_staff enabled c actor post
    changed_priority as_staff p.priority
    raise_if (is_archived post.status) archived_not_editable
    after ← apply_update post p
    ok (after, log actor.id updated (some (snapshot post)) after (save after db))

  unfoldable pub publish_post : User → ℕ → Bool → ℕ → Db → Result Error (CampusPost × Db)
  publish_post actor post_id as_staff now db = do
    post ← get_post_or_404 db post_id
    staff_gate as_staff enabled c actor post
    staff_priority as_staff post.priority
    raise_if (not (is_draft post.status)) only_drafts
    let at = or_now post.publish_at now
    let after : CampusPost = record post { status = published; publish_at = some at }
    ok (
      after,
      ping after at now (log actor.id made_public (some (snapshot post)) after (save after db)),
    )

  unfoldable pub archive_post : User → ℕ → Bool → Db → Result Error (CampusPost × Db)
  archive_post actor post_id as_staff db = do
    post ← get_post_or_404 db post_id
    staff_gate as_staff enabled c actor post
    let after : CampusPost = record post { status = archived }
    if is_archived post.status
        then ok (post, db)
        else ok (after, log actor.id put_away (some (snapshot post)) after (save after db))

-- The calls that change posts, with who makes them. `as_staff` tells the staff routes from the admin's.
pub data Op : Type 0 where
  create : ℕ → User → CampusPostCreate → Bool → Op
  update : User → ℕ → CampusPostUpdate → Bool → Op
  publish : User → ℕ → Bool → ℕ → Op
  archive : User → ℕ → Bool → Op

module _ (enabled : Bool) (c : Campus) (unfurl : Option Text → Option Text) where
  -- A request body is validated before the call.
  unfoldable pub perform : Op → Db → Result Error (CampusPost × Db)
  perform (create new_id actor payload as_staff) db = do
    valid ← validate_create payload
    create_post enabled c unfurl new_id actor valid as_staff db
  perform (update actor i p as_staff) db = do
    valid ← validate_update p
    update_post enabled c unfurl actor i valid as_staff db
  perform (publish actor i as_staff now) db = publish_post enabled c unfurl actor i as_staff now db
  perform (archive actor i as_staff) db = archive_post enabled c unfurl actor i as_staff db

  unfoldable pub step : Op → Db → Db
  step op db = elim (perform op db) [ ok (post, db') ↦ db' | err e ↦ db ]

  unfoldable pub run : List Op → Db → Db
  run [] db = db
  run (op ∷ ops) db = run ops (step op db)
