-- ===== src/CampusHub/Visibility.antt =====
-- backend/app/features/campus_hub/content_visibility.py: the feed's query and its row-at-a-time twin.
-- A time counts microseconds from `datetime.min`. A comparison with NULL selects no row.
use lc_connect.Base.{
  ℕ, ◌+◌, ◌-◌, Bool, true, false, not, ◌&&◌, ◌||◌, Option, none, some, List, ltb, leb,
  if◌then◌else◌, Result, ok, filter_rows, any_row, is_some, Text, ◌==◌,
}
use lc_connect.People.{
  UserRole, student, staff, admin, User, Campus, holds_slug, is_active_program_member,
}
use lc_connect.CampusHub.Defs.{
  Kind, Audience, everyone, students, staff_only, CampusPost, is_published, is_opportunity,
}

-- 60 days.
abbrev pub undated_opportunity_lifetime : ℕ
undated_opportunity_lifetime = 5_184_000_000_000

abbrev pub null_or_after : Option ℕ → ℕ → Bool
null_or_after none t = false
null_or_after (some a) t = ltb t a

-- `_still_open`, as the database evaluates it.
unfoldable pub still_open : ℕ → CampusPost → Bool
still_open now post =
    null_or_after post.expires_at now
    || (not (is_some post.expires_at)
        && (not (is_opportunity post.kind)
            || null_or_after post.publish_at (now - undated_opportunity_lifetime)))

abbrev pub undated_end : Kind → Option ℕ → Option ℕ
undated_end kind none = none
undated_end kind (some t) =
    if is_opportunity kind then some (t + undated_opportunity_lifetime) else none

abbrev pub closing : Option ℕ → Kind → Option ℕ → Option ℕ
closing (some e) kind publish_at = some e
closing none kind publish_at = undated_end kind publish_at

unfoldable pub closes_at : CampusPost → Option ℕ
closes_at post = closing post.expires_at post.kind post.publish_at

unfoldable pub has_verified_position : Campus → ℕ → Bool
has_verified_position c user =
    any_row (λ p. p.user_id == user && p.is_primary && p.is_active && p.is_official) c.positions

abbrev pub is_public : Audience → Bool
is_public everyone = true
is_public _ = false

abbrev pub is_staff_only : Audience → Bool
is_staff_only staff_only = true
is_staff_only _ = false

-- `_audience_filter`
unfoldable pub audience_filter : Campus → UserRole → ℕ → Audience → Bool
audience_filter c admin user audience = true
audience_filter c staff user audience =
    is_public audience || (is_staff_only audience && has_verified_position c user)
audience_filter c student user staff_only = false
audience_filter c student user _ = true

-- `_eligible_for_program`, joined to the condition that the post names no program.
abbrev pub eligible : Campus → ℕ → Option Text → Bool
eligible c user none = true
eligible c user (some slug) = any_row (holds_slug c user slug) c.memberships

abbrev pub null_or_reached : Option ℕ → ℕ → Bool
null_or_reached none now = false
null_or_reached (some t) now = leb t now

-- The conditions of `published_posts_stmt`.
unfoldable pub in_feed : Campus → User → ℕ → CampusPost → Bool
in_feed c user now post =
    is_published post.status
    && is_some post.publish_at
    && null_or_reached post.publish_at now
    && still_open now post
    && audience_filter c user.role user.id post.audience
    && eligible c user.id post.eligible_program_slug

unfoldable pub published_posts : Campus → User → ℕ → List CampusPost → List CampusPost
published_posts c user now posts = filter_rows (in_feed c user now) posts

-- `_can_read_audience`
unfoldable pub can_read_audience : Campus → UserRole → ℕ → Audience → Bool
can_read_audience c admin user audience = true
can_read_audience c staff user everyone = true
can_read_audience c staff user students = false
can_read_audience c staff user staff_only = has_verified_position c user
can_read_audience c student user everyone = true
can_read_audience c student user students = true
can_read_audience c student user staff_only = false

abbrev pub is_future : Option ℕ → ℕ → Bool
is_future none now = true
is_future (some t) now = ltb now t

abbrev pub has_ended : Option ℕ → ℕ → Bool
has_ended none now = false
has_ended (some end) now = leb end now

abbrev pub check_program : {E : Type 0} → E → Campus → ℕ → Option Text → Result E Bool
check_program multiple c user none = ok true
check_program multiple c user (some slug) = is_active_program_member multiple c user slug

unfoldable pub is_post_visible : {E : Type 0} → E → Campus → CampusPost → User → ℕ → Result E Bool
is_post_visible multiple c post user now =
    if not (is_published post.status) || is_future post.publish_at now
    then ok false
    else if has_ended (closes_at post) now
    then ok false
    else if not (can_read_audience c user.role user.id post.audience)
    then ok false
    else check_program multiple c user.id post.eligible_program_slug
