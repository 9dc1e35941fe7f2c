-- ===== src/System/Calls.antt =====
-- The requests, the scheduled jobs, the connections, the clock and the outages of Redis, one after
-- another.
use aalam_security_back.Common.{ℕ, ◌+◌, Bool, Option, List, [], ◌∷◌}
use aalam_security_back.Schema.{Text}
use aalam_security_back.Services.{Services}
use aalam_security_back.World.{World, M, ◌>>◌, skip, modify, after}
use aalam_security_back.Gateway.Connect.{handle_connection}
use aalam_security_back.Dispatch.{
  accept_session, start_progress, resolve_session, heartbeat, start_shift, end_shift,
}
use aalam_security_back.Emergency.{CreateLocationDto, start_session, add_location, close_session}
use aalam_security_back.Cron.{check_stale_assignments, cleanup_refresh_tokens, expire_subscriptions}
use aalam_security_back.Admin.Sessions.{
  assign_session, reassign_session, unassign_session, close_session_admin,
}
use aalam_security_back.Admin.Operators.{
  UpdateOperatorDto, update_operator, set_operator_password, delete_operator, set_operator_shift,
  create_operator,
}
use aalam_security_back.Auth.{
  AuthServices, RegisterDto, TelegramDto, register, login, refresh, logout, forgot_password,
  reset_password, start_telegram_verification, confirm_telegram_verification,
}
use aalam_security_back.Users.{
  UpdateUserMeDto, update_me, activate_demo, register_push_token, delete_account,
}
use aalam_security_back.Subscriptions.{
  create_request, approve_subscription_request, reject_subscription_request,
}
use aalam_security_back.Venues.{Letters, bind_by_invite_code}
use aalam_security_back.Venues.Creation.{CreateVenueDto, create_venue}
use aalam_security_back.Organizations.{create_owned}
use aalam_security_back.Admin.Organizations.{create_organization, update_organization}
use aalam_security_back.Admin.Members.{
  AddOrganizationMemberDto, UpdateOrganizationMemberDto, add_organization_member,
  update_organization_member, remove_organization_member,
}
use aalam_security_back.Admin.Venues.{UpdateVenueDto, create_venue_as_admin, update_venue}
use aalam_security_back.Applications.{
  CreateOrganizationApplicationDto, create_application, approve_organization_application,
  reject_organization_application,
}
use aalam_security_back.Contacts.{CreateEmergencyContactDto, create_contact, delete_contact}

pub data Call : Type 0 where
  accept progress : ℕ → ℕ → Call
  resolve : ℕ → ℕ → Text → Call
  beat begin_shift finish_shift : ℕ → Call
  raise_sos : ℕ → Option ℕ → Call
  locate : ℕ → ℕ → CreateLocationDto → Call
  close_own : ℕ → ℕ → Call
  admin_assign admin_reassign : ℕ → ℕ → Call
  admin_unassign : ℕ → Call
  admin_close : ℕ → Option Text → Call
  edit_operator : ℕ → UpdateOperatorDto → Call
  set_password : ℕ → Text → Call
  remove_operator : ℕ → Call
  force_shift : ℕ → Bool → Call
  hire : Text → Text → Call
  stale_job token_job subscription_job : Call
  connect_client : Option ℕ → Call
  wait : ℕ → Call
  set_redis : Bool → Call
  sign_up : RegisterDto → Call
  sign_in : Text → Text → Call
  rotate : ℕ → Call
  sign_out : ℕ → ℕ → Call
  forget : Text → Call
  reset : Text → Text → Call
  begin_verification : ℕ → Call
  confirm_verification : TelegramDto → Call
  edit_me : ℕ → UpdateUserMeDto → Call
  demo : Bool → ℕ → Call
  register_device : ℕ → ℕ → Call
  delete_own : ℕ → Call
  request_subscription : ℕ → Option Text → Call
  approve_request : ℕ → ℕ → Option ℕ → Call
  reject_request : ℕ → Option Text → Call
  use_code : Letters → ℕ → Text → Call
  open_venue : (ℕ → List ℕ) → ℕ → ℕ → CreateVenueDto → Bool → Call
  found_organization : Letters → (ℕ → List ℕ) → ℕ → Text → Call
  admin_organization : Letters → (ℕ → List ℕ) → Text → Call
  edit_organization : (ℕ → List ℕ) → ℕ → Option Text → Call
  add_member : ℕ → AddOrganizationMemberDto → Call
  edit_member : ℕ → UpdateOrganizationMemberDto → Call
  drop_member : ℕ → Call
  admin_venue : (ℕ → List ℕ) → ℕ → CreateVenueDto → Call
  edit_venue : ℕ → UpdateVenueDto → Call
  apply : ℕ → CreateOrganizationApplicationDto → Call
  approve_application : Letters → (ℕ → List ℕ) → ℕ → Option Text → Call
  reject_application : ℕ → Option Text → Call
  add_contact : ℕ → CreateEmergencyContactDto → Call
  drop_contact : ℕ → ℕ → Call

abbrev pub void : {A : Type 0} → M A → M (Unit {0})
void m = m >> skip

unfoldable pub serve : Services → AuthServices → Call → M (Unit {0})
serve s a (accept session_id operator_id) = void (accept_session s session_id operator_id)
serve s a (progress session_id operator_id) = void (start_progress s session_id operator_id)
serve s a (resolve session_id operator_id text) =
    void (resolve_session s session_id operator_id text)
serve s a (beat operator_id) = heartbeat s operator_id
serve s a (begin_shift operator_id) = void (start_shift s operator_id)
serve s a (finish_shift operator_id) = void (end_shift s operator_id)
serve s a (raise_sos user_id venue_id) = void (start_session s user_id venue_id)
serve s a (locate session_id user_id dto) = void (add_location s session_id user_id dto)
serve s a (close_own session_id user_id) = void (close_session s session_id user_id)
serve s a (admin_assign session_id operator_id) = void (assign_session s session_id operator_id)
serve s a (admin_reassign session_id operator_id) = void (reassign_session s session_id operator_id)
serve s a (admin_unassign session_id) = void (unassign_session s session_id)
serve s a (admin_close session_id text) = void (close_session_admin s session_id text)
serve s a (edit_operator operator_id dto) = void (update_operator s operator_id dto)
serve s a (set_password operator_id text) = set_operator_password s operator_id text
serve s a (remove_operator operator_id) = delete_operator s operator_id
serve s a (force_shift operator_id on) = void (set_operator_shift s operator_id on)
serve s a (hire email password) = void (create_operator s email password)
serve s a stale_job = check_stale_assignments s
serve s a token_job = cleanup_refresh_tokens s
serve s a subscription_job = expire_subscriptions s
serve s a (connect_client token) = handle_connection s token
serve s a (wait ms) = modify (λ w. record w { now = w.now + ms })
serve s a (set_redis up) = modify (λ w. record w { redis_up = up })
serve s a (sign_up dto) = void (register s a dto)
serve s a (sign_in email password) = void (login s a email password)
serve s a (rotate token) = void (refresh s a token)
serve s a (sign_out user_id token) = logout s a user_id token
serve s a (forget email) = forgot_password s a email
serve s a (reset token password) = reset_password s a token password
serve s a (begin_verification user_id) = void (start_telegram_verification s a user_id)
serve s a (confirm_verification dto) = confirm_telegram_verification s a dto
serve s a (edit_me user_id dto) = void (update_me s user_id dto)
serve s a (demo production user_id) = void (activate_demo s production user_id)
serve s a (register_device user_id token) = void (register_push_token s user_id token)
serve s a (delete_own user_id) = delete_account s user_id
serve s a (request_subscription user_id comment) = void (create_request s user_id comment)
serve s a (approve_request id admin_id until) =
    void (approve_subscription_request s id admin_id until)
serve s a (reject_request id reason) = void (reject_subscription_request s id reason)
serve s a (use_code l user_id invite_code) = void (bind_by_invite_code s l user_id invite_code)
serve s a (open_venue random_bytes user_id organization_id dto is_admin) =
    void (create_venue s random_bytes user_id organization_id dto is_admin)
serve s a (found_organization l r u n) = void (create_owned s l r u n)
serve s a (admin_organization l r n) = void (create_organization s l r n)
serve s a (edit_organization r i n) = void (update_organization s r i n)
serve s a (add_member i dto) = void (add_organization_member s i dto)
serve s a (edit_member i dto) = void (update_organization_member s i dto)
serve s a (drop_member i) = remove_organization_member s i
serve s a (admin_venue r i dto) = void (create_venue_as_admin s r i dto)
serve s a (edit_venue i dto) = void (update_venue s i dto)
serve s a (apply u dto) = void (create_application s u dto)
serve s a (approve_application l r i n) = void (approve_organization_application s l r i n)
serve s a (reject_application i reason) = void (reject_organization_application s i reason)
serve s a (add_contact u dto) = void (create_contact s u dto)
serve s a (drop_contact u i) = delete_contact s u i

-- What each call leaves, whatever it returns or throws, from the first call to the last.
unfoldable pub history : Services → AuthServices → List Call → World → World
history s a [] w = w
history s a (c ∷ cs) w = history s a cs (after (serve s a c w))
