-- ===== src/System/Histories.antt =====
-- The moves that a run of the program makes.
use aalam_security_back.Common.{List, [], ◌∷◌}
use aalam_security_back.Services.{Services, Documented, computing, services-eq}
use aalam_security_back.World.{World}
use aalam_security_back.World.Keeps.{Keeps, seq, modifies, skips}
use aalam_security_back.System.{Desk, desk, Reach, here, Reached}
use aalam_security_back.System.Handlers
use aalam_security_back.System.Emergencies
use aalam_security_back.System.Scheduled
use aalam_security_back.System.Administration
use aalam_security_back.System.Connections
use aalam_security_back.System.Accounts
use aalam_security_back.System.Memberships
use aalam_security_back.System.Premises
use aalam_security_back.Auth.{AuthServices}
use aalam_security_back.System.Calls.{
  Call, serve, history, accept, progress, resolve, beat, begin_shift, finish_shift, raise_sos,
  locate, close_own, admin_assign, admin_reassign, admin_unassign, admin_close, edit_operator,
  set_password, remove_operator, force_shift, hire, stale_job, token_job, subscription_job,
  connect_client, wait, set_redis, sign_up, sign_in, rotate, sign_out, forget, reset,
  begin_verification, confirm_verification, edit_me, demo, register_device, delete_own,
  request_subscription, approve_request, reject_request, use_code, open_venue, found_organization,
  admin_organization, edit_organization, add_member, edit_member, drop_member, admin_venue,
  edit_venue, apply, approve_application, reject_application, add_contact, drop_contact,
}

module _ (s : Services) (a : AuthServices) (start : Desk) where
  serves_computing : (c : Call) → Keeps (Reached s.uuid start) (serve (computing s) a c)
  unfolding serve
  serves_computing (accept i o) = seq (Handlers.accepts s start i o) skips
  serves_computing (progress i o) = seq (Handlers.progresses s start i o) skips
  serves_computing (resolve i o t) = seq (Handlers.resolves s start i o t) skips
  serves_computing (beat o) = Handlers.beats_heart s start o
  serves_computing (begin_shift o) = seq (Handlers.starts_shift s start o) skips
  serves_computing (finish_shift o) = seq (Handlers.ends_shift s start o) skips
  serves_computing (raise_sos u v) = seq (Emergencies.starts s start u v) skips
  serves_computing (locate i u dto) = seq (Emergencies.locates s start i u dto) skips
  serves_computing (close_own i u) = seq (Emergencies.closes s start i u) skips
  serves_computing (admin_assign i o) = seq (Administration.assigns s start i o) skips
  serves_computing (admin_reassign i o) = seq (Administration.reassigns s start i o) skips
  serves_computing (admin_unassign i) = seq (Administration.unassigns s start i) skips
  serves_computing (admin_close i t) = seq (Administration.closes s start i t) skips
  serves_computing (edit_operator o dto) = seq (Administration.renames s start o dto) skips
  serves_computing (set_password o t) = Administration.sets_password s start o t
  serves_computing (remove_operator o) = Administration.deletes s start o
  serves_computing (force_shift o on) = seq (Administration.sets_shift s start o on) skips
  serves_computing (hire e p) = seq (Administration.hires s start e p) skips
  serves_computing stale_job = Scheduled.checks_stale s start
  serves_computing token_job = Scheduled.cleans s start
  serves_computing subscription_job = Scheduled.expires s start
  serves_computing (connect_client t) = Connections.connects s start t
  serves_computing (wait ms) = modifies _ (λ w r. r)
  serves_computing (set_redis up) = modifies _ (λ w r. r)
  serves_computing (sign_up dto) = seq (Accounts.registers s a start dto) skips
  serves_computing (sign_in e p) = seq (Accounts.logs_in s a start e p) skips
  serves_computing (rotate t) = seq (Accounts.refreshes s a start t) skips
  serves_computing (sign_out u t) = Accounts.logs_out s a start u t
  serves_computing (forget e) = Accounts.forgets s a start e
  serves_computing (reset t p) = Accounts.resets s a start t p
  serves_computing (begin_verification u) = seq (Accounts.starts_verification s a start u) skips
  serves_computing (confirm_verification dto) = Accounts.confirms s a start dto
  serves_computing (edit_me u dto) = seq (Accounts.updates_me s a start u dto) skips
  serves_computing (demo production u) = seq (Accounts.activates s a start production u) skips
  serves_computing (register_device u t) = seq (Accounts.registers_token s a start u t) skips
  serves_computing (delete_own u) = Accounts.deletes_account s a start u
  serves_computing (request_subscription u c) = seq (Accounts.requests s a start u c) skips
  serves_computing (approve_request i admin e) = seq (Accounts.approves s a start i admin e) skips
  serves_computing (reject_request i r) = seq (Accounts.rejects s a start i r) skips
  serves_computing (use_code l u c) = seq (Memberships.binds s start l u c) skips
  serves_computing (open_venue r u o n ad) =
      seq (Memberships.creates_venue s start r u o n ad) skips
  serves_computing (found_organization l r u n) = seq (Premises.founds_owned s start l r u n) skips
  serves_computing (admin_organization l r n) = seq (Premises.founds s start l r n) skips
  serves_computing (edit_organization r i n) = seq (Premises.edits_organization s start r i n) skips
  serves_computing (add_member i dto) = seq (Premises.adds_member s start i dto) skips
  serves_computing (edit_member i dto) = seq (Premises.edits_member s start i dto) skips
  serves_computing (drop_member i) = Premises.removes_member s start i
  serves_computing (admin_venue r i dto) = seq (Premises.opens_venue s start r i dto) skips
  serves_computing (edit_venue i dto) = seq (Premises.edits_venue s start i dto) skips
  serves_computing (apply u dto) = seq (Premises.applies s start u dto) skips
  serves_computing (approve_application l r i n) = seq (Premises.approves s start l r i n) skips
  serves_computing (reject_application i reason) = seq (Premises.rejects s start i reason) skips
  serves_computing (add_contact u dto) = seq (Premises.adds_contact s start u dto) skips
  serves_computing (drop_contact u i) = Premises.drops_contact s start u i

  pub serves : Documented s → (c : Call) → Keeps (Reached s.uuid start) (serve s a c)
  serves d c = rw (services-eq d) (serves_computing c)

  history_from :
      Documented s
      → (cs : List Call) (w : World) → Reached s.uuid start w
      → Reached s.uuid start (history s a cs w)
  unfolding history
  history_from d [] w r = r
  history_from d (c ∷ cs) w r = history_from d cs _ ((serves d c).run w r)

-- Whatever calls come in, the desk only makes the transition system's moves: no call takes
-- the sessions and the users elsewhere than a sequence of moves does, whether it returns or throws.
pub history-Reached :
    (s : Services)
    → Documented s
    → (a : AuthServices) (cs : List Call) (w : World)
    → Reach s.uuid (desk w) (desk (history s a cs w))
history-Reached s d a cs w = history_from s a (desk w) d cs w here
