-- ===== src/Admin/Emails.antt =====
-- backend/app/shared/email_roles.py. `str.lower` and the settings are a parameter.
use lc_connect.Base.{
  Bool, ◌&&◌, Option, none, some, List, [], ◌∷◌, ◌==◌, if◌then◌else◌, any_row, Text, strip, text_eq,
}
use lc_connect.People.{UserRole, student, staff}

-- `dev_role` is what `DEV_TEST_EMAILS` gives an address, or its default: none for a text that is no
-- role.
pub record EmailSettings : Type 0 where
  pub lower : Text → Text
  pub allowed_domains : List Text
  pub dev_emails : List Text
  pub dev_permitted : Bool
  pub dev_role : Text → Option UserRole

-- `rsplit('@', 1)[-1]`, none without an '@'.
unfoldable pub after_at : Text → Option Text
after_at [] = none
after_at (c ∷ s) = elim (after_at s) [ none ↦ if c == b'@' then some s else none | some t ↦ some t ]

abbrev pub is_listed : Text → List Text → Bool
is_listed t ts = any_row (text_eq t) ts

-- `students.livingstone.edu` and `livingstone.edu`
abbrev pub staff_domain : Text
staff_domain =
    b'l' ∷ b'i' ∷ b'v' ∷ b'i' ∷ b'n' ∷ b'g' ∷ b's' ∷ b't' ∷ b'o' ∷ b'n' ∷ b'e' ∷ b'.' ∷ b'e' ∷ b'd'
    ∷ b'u' ∷ []

abbrev pub student_domain : Text
student_domain = b's' ∷ b't' ∷ b'u' ∷ b'd' ∷ b'e' ∷ b'n' ∷ b't' ∷ b's' ∷ b'.' ∷ staff_domain

-- None for the `ValueError`.
abbrev pub accept : EmailSettings → Text → Option Text → Option Text
accept e normalized none = none
accept e normalized (some domain) =
    if is_listed domain e.allowed_domains
    then some normalized
    else if is_listed normalized e.dev_emails && e.dev_permitted
    then some normalized
    else none

unfoldable pub normalize_campus_email : EmailSettings → Text → Option Text
normalize_campus_email e email =
    let normalized = strip (e.lower email) in accept e normalized (after_at normalized)

abbrev pub role_of_domain : Option Text → Option UserRole
role_of_domain none = none
role_of_domain (some domain) =
    if text_eq domain student_domain
    then some student
    else if text_eq domain staff_domain
    then some staff
    else none

-- A test address may not be given another role.
abbrev pub campus_role : Option UserRole → Option UserRole
campus_role (some student) = some student
campus_role (some staff) = some staff
campus_role _ = none

abbrev pub inferred : EmailSettings → Option Text → Option UserRole
inferred e none = none
inferred e (some normalized) =
    if is_listed normalized e.dev_emails
    then campus_role (e.dev_role normalized)
    else role_of_domain (after_at normalized)

unfoldable pub infer_role_from_email : EmailSettings → Text → Option UserRole
infer_role_from_email e email = inferred e (normalize_campus_email e email)
