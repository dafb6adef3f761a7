-- ===== src/CampusHub/Defs.antt =====
-- The row of a campus post (CampusPost of backend/app/models/campus.py).
use lc_connect.Base.{ℕ, Bool, true, false, Option, Text}

pub data Kind : Type 0 where
  announcement opportunity : Kind

pub data Audience : Type 0 where
  everyone students staff_only : Audience

pub data Priority : Type 0 where
  normal important urgent : Priority

pub data PostStatus : Type 0 where
  draft published archived : PostStatus

-- The vocabularies of campus_hub/schema.py; `uncategorised` is any other text.
pub data Category : Type 0 where
  general academic campus events safety : Category
  internship job volunteer leadership : Category
  uncategorised : Category

-- `link_preview` stands for the columns that the unfurl of `external_url` fills.
pub record CampusPost : Type 0 where
  pub id : ℕ
  pub author_id : ℕ
  pub kind : Kind
  pub title : Text
  pub summary : Option Text
  pub body : Text
  pub audience : Audience
  pub category : Option Category
  pub priority : Priority
  pub status : PostStatus
  pub publish_at : Option ℕ
  pub expires_at : Option ℕ
  pub external_url : Option Text
  pub link_preview : Option Text
  pub eligible_program_slug : Option Text

abbrev pub is_published : PostStatus → Bool
is_published published = true
is_published _ = false

abbrev pub is_archived : PostStatus → Bool
is_archived archived = true
is_archived _ = false

abbrev pub is_draft : PostStatus → Bool
is_draft draft = true
is_draft _ = false

abbrev pub is_opportunity : Kind → Bool
is_opportunity opportunity = true
is_opportunity announcement = false

abbrev pub is_urgent : Priority → Bool
is_urgent urgent = true
is_urgent _ = false
