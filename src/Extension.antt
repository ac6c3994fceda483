-- ===== src/Extension.antt =====
-- apps/extension/src: the browser extension that fills application forms from a local profile.
pub mod Sensitive
pub mod Rules
pub mod LocalFill
pub mod Fill
mod Tests
use apply_agent.Prelude.{String, Bool, Option, List}

-- ats-detect.ts
pub data FieldType : Type 0 where
  text email tel url textarea select checkbox radio file date other : FieldType

-- The value of a `FieldType`
unfoldable pub type_text : FieldType → String
type_text text = "text"
type_text email = "email"
type_text tel = "tel"
type_text url = "url"
type_text textarea = "textarea"
type_text select = "select"
type_text checkbox = "checkbox"
type_text radio = "radio"
type_text file = "file"
type_text date = "date"
type_text other = "other"

pub record DetectedField : Type 0 where
  pub id : String
  pub label : String
  pub field_type : FieldType
  pub required : Bool
  pub placeholder : Option String
  pub options : List String
  pub selector : String

-- profile.ts
pub record UserProfile : Type 0 where
  pub first_name : String
  pub last_name : String
  pub full_name : String
  pub email : String
  pub phone : String
  pub city : String
  pub state : String
  pub country : String
  pub linkedin : String
  pub github : String
  pub website : String
  pub portfolio : String
  pub work_authorization : String
  pub needs_sponsorship : String

pub data ProfileKey : Type 0 where
  first_name last_name full_name email phone city state country : ProfileKey
  linkedin github website portfolio work_authorization needs_sponsorship : ProfileKey

-- `profile[key]`
unfoldable pub slot : ProfileKey → UserProfile → String
slot ProfileKey.first_name p = p.first_name
slot ProfileKey.last_name p = p.last_name
slot ProfileKey.full_name p = p.full_name
slot ProfileKey.email p = p.email
slot ProfileKey.phone p = p.phone
slot ProfileKey.city p = p.city
slot ProfileKey.state p = p.state
slot ProfileKey.country p = p.country
slot ProfileKey.linkedin p = p.linkedin
slot ProfileKey.github p = p.github
slot ProfileKey.website p = p.website
slot ProfileKey.portfolio p = p.portfolio
slot ProfileKey.work_authorization p = p.work_authorization
slot ProfileKey.needs_sponsorship p = p.needs_sponsorship
