-- ===== src/CampusHub/Feed.antt =====
-- A post opened by its id against the same post in the feed.
use lc_connect.Base.{
  ℕ, ◌+◌, ◌≤◌, ◌≡◌, refl, Bool, true, not, Option, none, some, List, [], ◌∷◌, arith, ok, ◌>>=◌,
  filter_rows, filter_rows-zero, any_row, count_if, scalar_one_or_none, is_some, Text, Bool-cases,
  inl, inr,
}
use lc_connect.People.{
  UserRole, User, Campus, ProgramMembership, holds_slug, is_active_program_member,
}
use lc_connect.CampusHub.Defs.{CampusPost, Audience}
use lc_connect.CampusHub.Visibility.{
  undated_opportunity_lifetime, still_open, closes_at, has_ended, audience_filter,
  can_read_audience, eligible, check_program, in_feed, is_post_visible,
}

-- The unique constraints on programs and memberships: one membership for a person and a slug.
abbrev pub OneMembership : Campus → ℕ → Option Text → Type 0
OneMembership c user none = Unit
OneMembership c user (some slug) = count_if (holds_slug c user slug) c.memberships ≤ 1

no_more : {n : ℕ} → 1 + n ≤ 1 → n ≡ 0
no_more h = omega arith

drop_zero : {n : ℕ} → 0 + n ≤ 1 → n ≤ 1
drop_zero h = omega arith

one_row :
    {E : Type 0} (multiple : E) (p : ProgramMembership → Bool) (xs : List ProgramMembership)
    → count_if p xs ≤ 1
    → (scalar_one_or_none multiple (filter_rows p xs) >>= λ row. ok (is_some row))
      ≡ ok (any_row p xs)
unfolding filter_rows count_if
one_row multiple p [] h = refl
one_row multiple p (x ∷ xs) h = elim (Bool-cases (p x)) [
  | inl e ↦ rw (e, filter_rows-zero p xs (no_more (rw e at h)))
  | inr e ↦ rw e (one_row multiple p xs (drop_zero (rw e at h)))
]

check_program-eligible :
    {E : Type 0} (multiple : E) (c : Campus) (user : ℕ) (slug : Option Text)
    → OneMembership c user slug
    → check_program multiple c user slug ≡ ok (eligible c user slug)
unfolding is_active_program_member
check_program-eligible multiple c user none h = refl
check_program-eligible multiple c user (some slug) h =
    one_row multiple (holds_slug c user slug) c.memberships h

can_read-filter :
    (c : Campus) (role : UserRole) (user : ℕ) (a : Audience)
    → can_read_audience c role user a ≡ audience_filter c role user a
unfolding can_read_audience audience_filter
can_read-filter c role user a = ground arith

-- `closes_at` says of a post that is out when `_still_open` turns false.
still_open-closes_at :
    (now : ℕ) (post : CampusPost)
    → undated_opportunity_lifetime ≤ now
    → is_some post.publish_at ≡ true
    → still_open now post ≡ not (has_ended (closes_at post) now)
unfolding still_open closes_at
still_open-closes_at now post h out = ground arith

-- With at most one membership for a person and a program's slug, at any time at least 60 days after
-- the first representable one, opening a post by its id is allowed exactly when the feed's query
-- would select it, for every reader; and the check raises nothing.
pub is_post_visible-in_feed :
    {E : Type 0} (multiple : E) (c : Campus) (post : CampusPost) (user : User) (now : ℕ)
    → undated_opportunity_lifetime ≤ now
    → OneMembership c user.id post.eligible_program_slug
    → is_post_visible multiple c post user now ≡ ok (in_feed c user now post)
unfolding is_post_visible in_feed
is_post_visible-in_feed multiple c post user now h one = ground (
  arith,
  still_open-closes_at now post h,
  can_read-filter c user.role user.id post.audience,
  check_program-eligible multiple c user.id post.eligible_program_slug one,
)
