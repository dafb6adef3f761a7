-- ===== src/CampusHub/Publishing/Lifecycle.antt =====
-- What calls that are handled one after another leave of an archived post, and what staff may publish.
use lc_connect.Base.{
  ℕ, ◌≡◌, ◌≢◌, sym, ◌∙◌, subst, Bool, true, false, Option, none, some, List, [], ◌∷◌, arith, ok,
  OnOk, find?, find?-passes, find?-update_first_other, Option-cases, Result-cases, inl, inr, Text,
  is_some, ℕ_discrete,
}
use lc_connect.People.{User, Campus, get_primary_position, is_admin, is_staff}
use lc_connect.CampusHub.Defs.{
  CampusPost, is_archived, is_draft, is_urgent, is_published, published, archived,
}
use lc_connect.CampusHub.Payloads.{
  validate_update, Db, CampusPostCreate, CampusPostUpdate, validate_create,
}
use lc_connect.CampusHub.Publishing.{
  apply_update, or_now, Op, create, update, publish, archive, has_id, save, log, ping,
  get_post_or_404, is_official, require_staff_publisher, require_post_owner_or_admin, create_post,
  update_post, publish_post, archive_post, perform, step, run,
}

abbrev pub Stays : ℕ → CampusPost → Db → Type 0
Stays i p db = find? (has_id i) db.posts ≡ some p

has_id_apart :
    (i j : ℕ) → i ≢ j → (post : CampusPost) → has_id i post ≡ true → has_id j post ≡ false
has_id_apart i j ne post h = ground arith

-- Saving another post.
save-Stays :
    (i : ℕ) (p post : CampusPost) (db : Db) → post.id ≢ i → Stays i p db → Stays i p (save post db)
unfolding save
save-Stays i p post db ne h =
    find?-update_first_other (has_id post.id) (has_id i) (λ _. post) db.posts
      (has_id_apart post.id i ne) (λ x hx. has_id_apart post.id i ne post (ground arith))
    ∙ h

-- The row of an operation on another post has that post's id.
found_id : (j : ℕ) (db : Db) {q : CampusPost} → find? (has_id j) db.posts ≡ some q → q.id ≡ j
found_id j db {q} e = ground (arith, find?-passes (has_id j) db.posts {x = q} e)

none-ne-some : {A : Type 0} {a : A} → ◌≡◌ {A = Option A} none (some a) → ⊥
none-ne-some e = cc

module _ (enabled : Bool) (c : Campus) (unfurl : Option Text → Option Text) where
  apply_update-id :
      (post : CampusPost) (u : CampusPostUpdate)
      → OnOk (λ after. after.id ≡ post.id) (apply_update enabled c unfurl post u)
  unfolding apply_update
  apply_update-id post u = ground arith

  module _ (i : ℕ) (p : CampusPost) (db : Db) (stays : Stays i p db) where
    -- An edit of another post.
    update_other :
        (actor : User) (j : ℕ) (u : CampusPostUpdate) (as_staff : Bool)
        → j ≢ i
        → OnOk (λ r. Stays i p r.1) (update_post enabled c unfurl actor j u as_staff db)
    unfolding update_post get_post_or_404 log
    update_other actor j u as_staff ne = elim (Option-cases (find? (has_id j) db.posts)) [
      | inl e ↦ ground (arith, e)
      | inr (q, e) ↦ elim (Result-cases (apply_update enabled c unfurl q u)) [
        | inl (after, e') ↦ ground (
          arith,
          e,
          e',
          subst (OnOk (λ a. a.id ≡ q.id)) e' (apply_update-id q u),
          found_id j db {q = q} e,
          save-Stays i p after db,
        )
        | inr (x, e') ↦ ground (arith, e, e')
      ]
    ]

    publish_other :
        (actor : User) (j : ℕ) (as_staff : Bool) (now : ℕ)
        → j ≢ i
        → OnOk (λ r. Stays i p r.1) (publish_post enabled c unfurl actor j as_staff now db)
    unfolding publish_post get_post_or_404 log ping
    publish_other actor j as_staff now ne = elim (Option-cases (find? (has_id j) db.posts)) [
      | inl e ↦ ground (arith, e)
      | inr (q, e) ↦ ground (
        arith,
        e,
        found_id j db {q = q} e,
        save-Stays i p
            (record q { status = published; publish_at = some (or_now q.publish_at now) }) db,
      )
    ]

    archive_other :
        (actor : User) (j : ℕ) (as_staff : Bool)
        → j ≢ i
        → OnOk (λ r. Stays i p r.1) (archive_post enabled c unfurl actor j as_staff db)
    unfolding archive_post get_post_or_404 log
    archive_other actor j as_staff ne = elim (Option-cases (find? (has_id j) db.posts)) [
      | inl e ↦ ground (arith, e)
      | inr (q, e) ↦
          ground
            (arith, e, found_id j db {q = q} e, save-Stays i p (record q { status = archived }) db)
    ]

    -- The operations on the archived post itself.
    module _ (final : is_archived p.status ≡ true) where
      update_self :
          (actor : User) (u : CampusPostUpdate) (as_staff : Bool)
          → OnOk (λ r. Stays i p r.1) (update_post enabled c unfurl actor i u as_staff db)
      unfolding update_post get_post_or_404
      update_self actor u as_staff = ground arith

      publish_self :
          (actor : User) (as_staff : Bool) (now : ℕ)
          → OnOk (λ r. Stays i p r.1) (publish_post enabled c unfurl actor i as_staff now db)
      unfolding publish_post get_post_or_404
      publish_self actor as_staff now = ground arith

      archive_self :
          (actor : User) (as_staff : Bool)
          → OnOk (λ r. Stays i p r.1) (archive_post enabled c unfurl actor i as_staff db)
      unfolding archive_post get_post_or_404
      archive_self actor as_staff = ground arith

  -- `uuid4` draws an id that no post has.
  abbrev pub Fresh : Op → Db → Type 0
  Fresh (create new_id actor payload as_staff) db = find? (has_id new_id) db.posts ≡ none
  Fresh _ db = Unit

  abbrev pub FreshRun : List Op → Db → Type 0
  FreshRun [] db = Unit
  FreshRun (op ∷ ops) db = Fresh op db × FreshRun ops (step enabled c unfurl op db)

  create-Stays :
      (i : ℕ) (p : CampusPost) (new_id : ℕ) (actor : User) (payload : CampusPostCreate)
      (as_staff : Bool) (db : Db)
      → find? (has_id new_id) db.posts ≡ none
      → Stays i p db
      → OnOk (λ r. Stays i p r.1) (create_post enabled c unfurl new_id actor payload as_staff db)
  unfolding create_post log find?
  create-Stays i p new_id actor payload as_staff db fresh stays = elim (ℕ_discrete new_id i) [
    | yes e ↦
        absurd
          (none-ne-some (sym fresh ∙ subst (λ k. find? (has_id k) db.posts ≡ some p) (sym e) stays))
    | no ne ↦ ground arith
  ]

  perform-Stays :
      (i : ℕ) (p : CampusPost) (op : Op) (db : Db)
      → is_archived p.status ≡ true
      → Fresh op db
      → Stays i p db
      → OnOk (λ r. Stays i p r.1) (perform enabled c unfurl op db)
  unfolding perform
  perform-Stays i p (create new_id actor payload as_staff) db final fresh stays =
      elim (Result-cases (validate_create payload)) [
        | inl (valid, e) ↦ rw e (create-Stays i p new_id actor valid as_staff db fresh stays)
        | inr (x, e) ↦ rw e tt
      ]
  perform-Stays i p (update actor j u as_staff) db final fresh stays =
      elim (Result-cases (validate_update u)) [
        | inr (x, v) ↦ rw v tt
        | inl (w, v) ↦ elim (ℕ_discrete j i) [
          | yes e ↦ rw (v, e) (update_self i p db stays final actor w as_staff)
          | no ne ↦ rw v (update_other i p db stays actor j w as_staff ne)
        ]
      ]
  perform-Stays i p (publish actor j as_staff now) db final fresh stays = elim (ℕ_discrete j i) [
    | yes e ↦ rw e (publish_self i p db stays final actor as_staff now)
    | no ne ↦ publish_other i p db stays actor j as_staff now ne
  ]
  perform-Stays i p (archive actor j as_staff) db final fresh stays = elim (ℕ_discrete j i) [
    | yes e ↦ rw e (archive_self i p db stays final actor as_staff)
    | no ne ↦ archive_other i p db stays actor j as_staff ne
  ]

  step-Stays :
      (i : ℕ) (p : CampusPost) (op : Op) (db : Db)
      → is_archived p.status ≡ true
      → Fresh op db
      → Stays i p db
      → Stays i p (step enabled c unfurl op db)
  unfolding step
  step-Stays i p op db final fresh stays = elim (Result-cases (perform enabled c unfurl op db)) [
    | inl ((q, db'), e) ↦
        rw (e, step)
          (subst (OnOk (λ r. Stays i p r.1)) e (perform-Stays i p op db final fresh stays))
    | inr (x, e) ↦ rw (e, step) stays
  ]

  -- An archived post keeps every column through any calls by admins and staff, handled one after
  -- another, if the ids that are drawn for new posts are not in use.
  pub archived_final :
      (i : ℕ) (p : CampusPost) (ops : List Op) (db : Db)
      → is_archived p.status ≡ true
      → FreshRun ops db
      → find? (has_id i) db.posts ≡ some p
      → find? (has_id i) (run enabled c unfurl ops db).posts ≡ some p
  unfolding run
  archived_final i p [] db final fresh stays = stays
  archived_final i p (op ∷ ops) db final fresh stays =
      archived_final i p ops (step enabled c unfurl op db) final fresh.1
        (step-Stays i p op db final fresh.0 stays)

  -- Where somebody who is no admin publishes over the staff routes, staff publishing is enabled,
  -- the account is a staff one whose primary position is verified, the post was a draft of
  -- that person's own, is not urgent, and is now published with a time.
  pub staff_publishes :
      (actor : User) (i now : ℕ) (db : Db) {q p : CampusPost} {db' : Db}
      → is_admin actor.role ≡ false
      → find? (has_id i) db.posts ≡ some p
      → publish_post enabled c unfurl actor i true now db ≡ ok (q, db')
      → ((enabled ≡ true)
          × (is_staff actor.role ≡ true)
          × (is_official (get_primary_position c actor.id) ≡ true))
        × ((is_draft p.status ≡ true) × (p.author_id ≡ actor.id) × (is_urgent p.priority ≡ false))
        × (is_published q.status ≡ true)
        × (is_some q.publish_at ≡ true)
  unfolding publish_post get_post_or_404 require_staff_publisher require_post_owner_or_admin
  staff_publishes actor i now db plain found done = ground arith
