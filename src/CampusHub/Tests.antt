-- ===== src/CampusHub/Tests.antt =====
-- A dean with a verified position, an assistant without, a student, and a post of the dean's.
use lc_connect.Base.{
  ℕ, ◌≡◌, ◌≤◌, refl, true, false, Option, none, some, List, [], ◌∷◌, arith, ok, find?, update_first,
  is_some,
}
use lc_connect.People.{User, student, staff, Campus, is_staff, get_primary_position}
use lc_connect.CampusHub.Defs.{
  CampusPost, announcement, students, staff_only, general, important, draft, published, archived,
  is_published, is_draft, is_urgent,
}
use lc_connect.CampusHub.Visibility.{
  undated_opportunity_lifetime, in_feed, is_post_visible, still_open, closes_at, audience_filter,
  can_read_audience, has_verified_position,
}
use lc_connect.CampusHub.Feed.{is_post_visible-in_feed}
use lc_connect.CampusHub.Push.{
  should_push_on_publish, in_role_filter, is_recipient, is_recipient-in_feed, push-unverified_staff,
}
use lc_connect.CampusHub.Publishing
use lc_connect.CampusHub.Payloads.{Db}
use lc_connect.CampusHub.Publishing.{Op, publish, archive}
use lc_connect.CampusHub.Publishing.Lifecycle.{archived_final, staff_publishes}

abbrev dean : User
dean = record {
  id = 1;
  role = staff;
  is_active = true;
  is_open = true;
  is_verified = true;
  is_deleted = false;
}

abbrev assistant : User
assistant = record dean { id = 2 }

abbrev freshman : User
freshman = record dean { id = 3; role = student }

abbrev campus : Campus
campus = record {
  positions = record { user_id = 1; is_primary = true; is_active = true; is_official = true } ∷ [];
  programs = [];
  memberships = [];
}

abbrev notice : CampusPost
notice = record {
  id = 7;
  author_id = 1;
  kind = announcement;
  title = 84 ∷ [];
  summary = none;
  body = 66 ∷ [];
  audience = students;
  category = some general;
  priority = important;
  status = draft;
  publish_at = none;
  expires_at = none;
  external_url = none;
  link_preview = none;
  eligible_program_slug = none;
}

abbrev out : CampusPost
out = record notice { status = published; publish_at = some 6_000_000_000_000 }

abbrev staff_post : CampusPost
staff_post = record out { audience = staff_only }

abbrev now : ℕ
now = 7_000_000_000_000

abbrev drafted : Db
drafted = record { posts = notice ∷ []; audit = []; pings = [] }

abbrev put_away : Db
put_away = record drafted { posts = record notice { status = archived } ∷ [] }

unfurled : Option (List ℕ) → Option (List ℕ)
unfurled url = none

in_time : undated_opportunity_lifetime ≤ now
in_time = omega arith

is_post_visible-in_feed_example : is_post_visible {E = ℕ} 500 campus out freshman now ≡ ok true
unfolding is_post_visible in_feed still_open closes_at audience_filter can_read_audience
is_post_visible-in_feed_example = is_post_visible-in_feed 500 campus out freshman now in_time tt

is_recipient-in_feed_example : in_feed campus freshman now out ≡ true
unfolding is_recipient in_role_filter in_feed still_open audience_filter should_push_on_publish
is_recipient-in_feed_example =
    is_recipient-in_feed campus out freshman now refl refl refl (λ e. cc) refl refl

push-unverified_staff_example :
    (is_recipient campus staff_post assistant ≡ true)
    × (in_feed campus assistant now staff_post ≡ false)
unfolding has_verified_position
push-unverified_staff_example =
    push-unverified_staff campus staff_post assistant now refl refl refl refl refl

archived_final_example :
    find?
      (Publishing.has_id 7)
      (Publishing.run true campus unfurled
        (publish dean 7 true now ∷ archive dean 7 true ∷ [])
        put_away).posts
    ≡ some (record notice { status = archived })
unfolding find?
archived_final_example =
    archived_final true campus unfurled 7 (record notice { status = archived })
      (publish dean 7 true now ∷ archive dean 7 true ∷ []) put_away refl (tt, (tt, tt)) refl

abbrev published_notice : CampusPost
published_notice = record notice { status = published; publish_at = some now }

staff_publishes_example :
    ((true ≡ true)
      × (is_staff dean.role ≡ true)
      × (Publishing.is_official (get_primary_position campus dean.id) ≡ true))
    × ((is_draft notice.status ≡ true)
        × (notice.author_id ≡ dean.id)
        × (is_urgent notice.priority ≡ false))
    × (is_published published_notice.status ≡ true)
    × (is_some published_notice.publish_at ≡ true)
unfolding find? update_first get_primary_position Publishing.publish_post Publishing.get_post_or_404
    Publishing.require_staff_publisher Publishing.staff_can_publish
    Publishing.require_post_owner_or_admin Publishing.save Publishing.log Publishing.ping
    Publishing.snapshot
staff_publishes_example =
    staff_publishes true campus unfurled dean 7 now drafted {q = published_notice} {p = notice} refl
      refl refl
