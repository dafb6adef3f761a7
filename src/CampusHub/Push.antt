-- ===== src/CampusHub/Push.antt =====
-- Who is sent a push for a published post: `should_push_on_publish` and `recipient_tokens_for_post` of
-- backend/app/features/campus_hub/publishing.py, against who may read the post.
use lc_connect.Base.{
  ℕ, ◌≡◌, ◌≢◌, Bool, true, false, not, ◌&&◌, ◌||◌, Option, none, some, List, [], ◌∷◌, arith,
  any_row, if◌then◌else◌, Text,
}
use lc_connect.People.{UserRole, student, staff, admin, User, Campus, holds_slug, is_staff}
use lc_connect.CampusHub.Defs.{
  CampusPost, Audience, everyone, students, staff_only, Priority, normal, is_published,
}
use lc_connect.CampusHub.Visibility.{
  null_or_reached, in_feed, audience_filter, has_verified_position, still_open, is_staff_only,
}

-- A row of `device_tokens` joined with the account that it belongs to.
pub record Device : Type 0 where
  pub token : Text
  pub user : User

abbrev pub is_pressing : Priority → Bool
is_pressing normal = false
is_pressing _ = true

unfoldable pub should_push_on_publish : CampusPost → ℕ → Bool
should_push_on_publish post now =
    if not (is_pressing post.priority) then false else null_or_reached post.publish_at now

-- `role_filter`
unfoldable pub in_role_filter : Audience → UserRole → Bool
in_role_filter students student = true
in_role_filter students staff = false
in_role_filter students admin = true
in_role_filter staff_only student = false
in_role_filter staff_only staff = true
in_role_filter staff_only admin = true
in_role_filter everyone role = true

-- `if post.eligible_program_slug`: the empty text counts as none.
abbrev pub restricted_to : Campus → ℕ → Option Text → Bool
restricted_to c user none = true
restricted_to c user (some []) = true
restricted_to c user (some (a ∷ s)) = any_row (holds_slug c user (a ∷ s)) c.memberships

unfoldable pub is_recipient : Campus → CampusPost → User → Bool
is_recipient c post user =
    user.is_active
    && user.is_open
    && user.is_verified
    && not user.is_deleted
    && in_role_filter post.audience user.role
    && restricted_to c user.id post.eligible_program_slug

unfoldable pub recipient_tokens_for_post : Campus → List Device → CampusPost → List Text
recipient_tokens_for_post c [] post = []
recipient_tokens_for_post c (d ∷ ds) post =
    let rest = recipient_tokens_for_post c ds post in
    if is_recipient c post d.user then d.token ∷ rest else rest

-- `push_published_post`, up to the call of the push service with the tokens.
unfoldable pub push_published_post : Campus → List Device → Option CampusPost → ℕ → List Text
push_published_post c devices none now = []
push_published_post c devices (some post) now =
    if not (is_published post.status) || not (should_push_on_publish post now)
    then []
    else recipient_tokens_for_post c devices post

-- A post that is pushed and not past its end can be read by each recipient who is no staff member
-- or is one with a verified position, if its program slug is not the empty text.
pub is_recipient-in_feed :
    (c : Campus) (post : CampusPost) (user : User) (now : ℕ)
    → is_published post.status ≡ true
    → should_push_on_publish post now ≡ true
    → still_open now post ≡ true
    → post.eligible_program_slug ≢ some []
    → (is_staff user.role && not (has_verified_position c user.id)) ≡ false
    → is_recipient c post user ≡ true
    → in_feed c user now post ≡ true
unfolding should_push_on_publish is_recipient in_role_filter in_feed audience_filter
is_recipient-in_feed c post user now out push fresh slug bar h = ground arith

-- A push for a staff post without a program goes to each confirmed staff account, also to one
-- without a verified position, which may not read the post.
pub push-unverified_staff :
    (c : Campus) (post : CampusPost) (user : User) (now : ℕ)
    → is_staff_only post.audience ≡ true
    → post.eligible_program_slug ≡ none
    → is_staff user.role ≡ true
    → (user.is_active && user.is_open && user.is_verified && not user.is_deleted) ≡ true
    → has_verified_position c user.id ≡ false
    → (is_recipient c post user ≡ true) × (in_feed c user now post ≡ false)
unfolding is_recipient in_role_filter in_feed audience_filter
push-unverified_staff c post user now aud slug role live bar = ground arith
