-- ===== src/CampusHub/Payloads.antt =====
-- What a post is written from: the payloads of backend/app/features/campus_hub/schema.py with their
-- validation, and the rows that publishing.py writes beside the post.
use lc_connect.Base.{
  set, err, ℕ, Bool, true, false, not, Option, none, some, List, [], ◌∷◌, leb, if◌then◌else◌,
  Result, ok, ◌>>◌, raise_if, Text, strip, Change,
}
use lc_connect.CampusHub.Defs.{
  announcement, Kind, opportunity, Audience, Priority, PostStatus, Category, general, academic,
  campus, events, safety, internship, job, volunteer, leadership, CampusPost, is_opportunity,
}

-- `_post_snapshot`
pub record Snapshot : Type 0 where
  pub status : PostStatus
  pub kind : Kind
  pub title : Text
  pub priority : Priority
  pub audience : Audience

pub data Action : Type 0 where
  created updated made_public put_away : Action

-- A row of the audit log that `record_audit` writes.
pub record Audit : Type 0 where
  pub actor_id : ℕ
  pub action : Action
  pub target_id : ℕ
  pub before_data : Option Snapshot
  pub after_data : Snapshot

-- `pings`: what was broadcast to open sockets.
pub record Db : Type 0 where
  pub posts : List CampusPost
  pub audit : List Audit
  pub pings : List (Kind × Audience)

pub data Error : Type 0 where
  post_not_found publishing_disabled staff_account_required position_required : Error
  urgent_admins_only not_your_post archived_not_editable bad_category : Error
  summary_required body_required only_drafts not_null_violation expires_too_early : Error

pub record CampusPostCreate : Type 0 where
  pub kind : Kind
  pub title : Text
  pub summary : Option Text
  pub body : Text
  pub audience : Audience
  pub category : Option Category
  pub priority : Priority
  pub publish_at : Option ℕ
  pub expires_at : Option ℕ
  pub external_url : Option Text

pub record CampusPostUpdate : Type 0 where
  pub kind : Change Kind
  pub title : Change Text
  pub summary : Change Text
  pub body : Change Text
  pub audience : Change Audience
  pub category : Change Category
  pub priority : Change Priority
  pub publish_at : Change ℕ
  pub expires_at : Change ℕ
  pub external_url : Change Text

-- `categories_for_kind(kind)`, as a test of membership. `none` is the kind `None`.
unfoldable pub in_categories : Option Kind → Category → Bool
in_categories (some opportunity) internship = true
in_categories (some opportunity) job = true
in_categories (some opportunity) volunteer = true
in_categories (some opportunity) leadership = true
in_categories (some opportunity) _ = false
in_categories _ general = true
in_categories _ academic = true
in_categories _ campus = true
in_categories _ events = true
in_categories _ safety = true
in_categories _ _ = false

abbrev pub is_blank : Text → Bool
is_blank [] = true
is_blank (c ∷ s) = false

-- `x or ''`
abbrev pub or_empty : Option Text → Text
or_empty none = []
or_empty (some s) = s

abbrev pub nonempty : Text → Option Text
nonempty [] = none
nonempty (c ∷ s) = some (c ∷ s)

abbrev pub not_after : Option ℕ → Option ℕ → Bool
not_after (some e) (some p) = leb e p
not_after _ _ = false

abbrev pub category_fits : Option Kind → Option Category → Bool
category_fits kind none = true
category_fits kind (some c) = in_categories kind c

-- `CampusPostCreate._validate_schedule_and_content`
unfoldable pub validate_create : CampusPostCreate → Result Error CampusPostCreate
validate_create p = do
  raise_if (not_after p.expires_at p.publish_at) expires_too_early
  raise_if (not (category_fits (some p.kind) p.category)) bad_category
  let summary = strip (or_empty p.summary)
  let body = strip p.body
  if is_opportunity p.kind
      then (raise_if (is_blank summary) summary_required
          >> ok
              (record p { summary = some summary; body = if is_blank body then summary else body }))
      else (raise_if (is_blank body) body_required
          >> ok (record p { summary = nonempty summary; body = body }))

-- The value of a field that is given and not `null`.
abbrev pub given : {A : Type 0} → Change A → Option A
given (set a) = some a
given _ = none

abbrev pub kind_fits : Option Kind → Option Category → Bool
kind_fits (some kind) (some c) = in_categories (some kind) c
kind_fits _ _ = true

abbrev pub is_given_blank : Option Text → Bool
is_given_blank none = false
is_given_blank (some s) = is_blank (strip s)

-- `CampusPostUpdate._validate_schedule`
unfoldable pub validate_update : CampusPostUpdate → Result Error CampusPostUpdate
validate_update p = do
  raise_if (not (kind_fits (given p.kind) (given p.category))) bad_category
  raise_if (not_after (given p.expires_at) (given p.publish_at)) expires_too_early
  checked_text (given p.kind)
  where
    checked_text : Option Kind → Result Error CampusPostUpdate
    checked_text none = ok p
    checked_text (some opportunity) =
        if is_given_blank (given p.summary) then err summary_required else ok p
    checked_text (some announcement) =
        if is_given_blank (given p.body) then err body_required else ok p
