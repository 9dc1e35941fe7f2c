-- ===== src/Schema.antt =====
-- The data model of prisma/schema.prisma. Ids, push tokens and instants (milliseconds) are
-- numbers; text is the list of its code units; a nullable column is an `Option`.
use aalam_security_back.Common.{ℕ, Bool, true, false, Option, List, [], ◌∷◌, ◌==◌, if◌then◌else◌}

abbrev pub Text : Type 0
Text = List ℕ

pub data Role : Type 0 where
  user operator admin : Role

pub data EmergencyStatus : Type 0 where
  new assigned in_progress closed : EmergencyStatus

pub data EmergencyType : Type 0 where
  personal venue : EmergencyType

pub data OrgMemberRole : Type 0 where
  owner manager staff member : OrgMemberRole

pub record User : Type 0 where
  pub id : ℕ
  pub email : Text
  pub password : Text
  pub role : Role
  pub push_token : Option ℕ
  pub display_name : Option Text
  pub phone : Option Text
  pub phone_verified_at : Option ℕ
  pub telegram_id : Option Text
  pub telegram_username : Option Text
  pub individual_subscription_active : Bool
  pub subscription_expires_at : Option ℕ
  pub plan_id : Option Text
  pub on_shift : Bool
  pub shift_started_at : Option ℕ
  pub deleted_at : Option ℕ
  pub created_at : ℕ

pub record EmergencySession : Type 0 where
  pub id : ℕ
  pub user_id : ℕ
  pub organization_id : Option ℕ
  pub venue_id : Option ℕ
  pub status : EmergencyStatus
  pub emergency_type : EmergencyType
  pub assigned_operator_id : Option ℕ
  pub created_at : ℕ
  pub closed_at : Option ℕ
  pub resolution : Option Text

-- A coordinate is kept as the number that the client sent, and never computed with.
pub record EmergencyLocation : Type 0 where
  pub id : ℕ
  pub session_id : ℕ
  pub latitude : ℕ
  pub longitude : ℕ
  pub accuracy : ℕ
  pub created_at : ℕ

pub record OrganizationMember : Type 0 where
  pub id : ℕ
  pub user_id : ℕ
  pub organization_id : ℕ
  pub role : OrgMemberRole
  pub venue_id : Option ℕ
  pub created_at : ℕ

pub record Organization : Type 0 where
  pub id : ℕ
  pub name : Text
  pub slug : Text
  pub invite_code : Option Text

pub record Venue : Type 0 where
  pub id : ℕ
  pub organization_id : ℕ
  pub name : Text
  pub address : Option Text
  pub apartment : Option Text
  pub floor : Option Text
  pub entrance : Option Text
  pub door_code : Option Text
  pub address_notes : Option Text
  pub latitude : Option ℕ
  pub longitude : Option ℕ
  pub invite_code : Text
  pub created_at : ℕ

pub record RefreshToken : Type 0 where
  pub user_id : ℕ
  pub token_hash : ℕ
  pub expires_at : ℕ

pub record PasswordResetToken : Type 0 where
  pub id : ℕ
  pub user_id : ℕ
  pub token : Text
  pub expires_at : ℕ

pub data RequestStatus : Type 0 where
  pending approved rejected : RequestStatus

pub record SubscriptionRequest : Type 0 where
  pub id : ℕ
  pub user_id : ℕ
  pub comment : Option Text
  pub status : RequestStatus
  pub rejection_reason : Option Text
  pub approved_by : Option ℕ
  pub approved_at : Option ℕ
  pub expires_at : Option ℕ
  pub created_at : ℕ

pub record EmergencyContact : Type 0 where
  pub id : ℕ
  pub user_id : ℕ
  pub name : Text
  pub phone : Option Text
  pub email : Option Text
  pub is_trusted : Bool
  pub created_at : ℕ

-- A field of a value in a `Json` column, as far as the program looks at it.
pub data JsonValue : Type 0 where
  json_text : Text → JsonValue
  json_number : ℕ → JsonValue
  other_value : JsonValue

pub record JsonBranch : Type 0 where
  pub name : JsonValue
  pub address : JsonValue
  pub latitude : JsonValue
  pub longitude : JsonValue

pub data JsonBranches : Type 0 where
  json_array : List JsonBranch → JsonBranches
  not_array : JsonBranches

-- A file's name, its MIME type and its size.
pub record Attachment : Type 0 where
  pub file_name : Text
  pub mime_type : Text
  pub size_bytes : Option ℕ

pub record OrganizationApplication : Type 0 where
  pub id : ℕ
  pub user_id : ℕ
  pub organization_name : Text
  pub organization_type : Text
  pub branches : JsonBranches
  pub contact_email : Text
  pub contact_phone : Text
  pub description : Option Text
  pub attachments : List Attachment
  pub status : RequestStatus
  pub rejection_reason : Option Text
  pub approved_organization_id : Option ℕ
  pub created_at : ℕ

abbrev pub is_pending : RequestStatus → Bool
is_pending pending = true
is_pending _ = false

abbrev pub is_new : EmergencyStatus → Bool
is_new new = true
is_new _ = false

abbrev pub is_assigned : EmergencyStatus → Bool
is_assigned assigned = true
is_assigned _ = false

abbrev pub is_closed : EmergencyStatus → Bool
is_closed closed = true
is_closed _ = false

abbrev pub is_operator : Role → Bool
is_operator operator = true
is_operator _ = false

abbrev pub is_user : Role → Bool
is_user user = true
is_user _ = false

abbrev pub is_owner : OrgMemberRole → Bool
is_owner owner = true
is_owner _ = false

unfoldable pub text_eq : Text → Text → Bool
text_eq [] [] = true
text_eq (a ∷ as') (b ∷ bs) = let rest = text_eq as' bs in if a == b then rest else false
text_eq _ _ = false
