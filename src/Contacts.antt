-- ===== src/Contacts.antt =====
-- modules/emergency-contact/emergency-contact.service.ts: the contacts of a person.
use aalam_security_back.Common.{ℕ, Bool, false, Option, some, List, ◌∷◌, ◌==◌, ◌&&◌, leb, or_else}
use aalam_security_back.Schema.{Text, EmergencyContact}
use aalam_security_back.Errors.{status_404, http_exception}
use aalam_security_back.Services.{Services}
use aalam_security_back.World.{M, ◌>>=◌, ◌>>◌, pure, read, modify, require, draw_uuid}

pub record CreateEmergencyContactDto : Type 0 where
  pub name : Text
  pub phone : Text
  pub email : Option Text
  pub is_trusted : Option Bool

abbrev pub new_contact : ℕ → ℕ → CreateEmergencyContactDto → ℕ → EmergencyContact
new_contact id user_id dto now = record {
  id = id;
  user_id = user_id;
  name = dto.name;
  phone = some dto.phone;
  email = dto.email;
  is_trusted = or_else dto.is_trusted false;
  created_at = now;
}

abbrev pub is_contact_of : ℕ → EmergencyContact → Bool
is_contact_of user_id c = c.user_id == user_id

-- `{ id: contactId, userId }`
abbrev pub is_own_contact : ℕ → ℕ → EmergencyContact → Bool
is_own_contact user_id contact_id c = c.id == contact_id && c.user_id == user_id

abbrev pub older_contact : EmergencyContact → EmergencyContact → Bool
older_contact a b = leb a.created_at b.created_at

module _ (s : Services) where
  unfoldable pub create_contact : ℕ → CreateEmergencyContactDto → M EmergencyContact
  create_contact user_id dto = do
    now ← read (λ w. w.now)
    id ← draw_uuid s
    modify (λ w. record w { contacts = new_contact id user_id dto now ∷ w.contacts })
    pure (new_contact id user_id dto now)

  unfoldable pub list_by_user : ℕ → M (List EmergencyContact)
  list_by_user user_id = read (λ w. s.find_sorted (is_contact_of user_id) older_contact w.contacts)

  -- The contact is deleted by its primary key.
  unfoldable pub delete_contact : ℕ → ℕ → M (Unit {0})
  delete_contact user_id contact_id = do
    found ← read (λ w. s.find_first (is_own_contact user_id contact_id) w.contacts)
    c ← require found (http_exception status_404)
    modify (λ w. record w {
      contacts = s.delete_many (λ (c : EmergencyContact). c.id == contact_id) w.contacts;
    })
