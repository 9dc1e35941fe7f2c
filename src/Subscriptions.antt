-- ===== src/Subscriptions.antt =====
-- Requests for a subscription: modules/subscription-request/subscription-request.service.ts and the
-- decisions of modules/admin/admin.service.ts.
pub mod Decisions
use aalam_security_back.Common.{
  ℕ, ◌+◌, ◌-◌, ◌*◌, Bool, true, false, Option, none, some, List, [], ◌∷◌, if◌then◌else◌, ◌==◌,
  is_some, ◌&&◌, not, leb, or_else,
}
use aalam_security_back.Schema.{
  Text, User, SubscriptionRequest, RequestStatus, pending, approved, rejected, is_pending,
}
use aalam_security_back.Errors.{status_400, status_404, status_409, Exception, http_exception}
use aalam_security_back.Services.{Services}
use aalam_security_back.World.{
  World, M, ◌>>=◌, ◌>>◌, pure, throw, read, modify, when, require, catch_not_found, transaction,
  update_user, draw_uuid,
}
use aalam_security_back.Gateway.{emit_subscription_approved, emit_subscription_rejected}
use aalam_security_back.Push.{send_subscription_decision}
use aalam_security_back.Queries.{user_by_id}

abbrev pub request_by_id : ℕ → SubscriptionRequest → Bool
request_by_id id r = r.id == id

abbrev pub is_undecided : ℕ → SubscriptionRequest → Bool
is_undecided id r = r.id == id && is_pending r.status

abbrev pub is_pending_of : ℕ → SubscriptionRequest → Bool
is_pending_of user_id r = r.user_id == user_id && is_pending r.status

abbrev pub later_request : SubscriptionRequest → SubscriptionRequest → Bool
later_request a b = leb b.created_at a.created_at

abbrev pub new_request : ℕ → ℕ → Option Text → ℕ → SubscriptionRequest
new_request id user_id comment now = record {
  id = id;
  user_id = user_id;
  comment = comment;
  status = pending;
  rejection_reason = none;
  approved_by = none;
  approved_at = none;
  expires_at = none;
  created_at = now;
}

abbrev pub approve_until : ℕ → ℕ → ℕ → SubscriptionRequest → SubscriptionRequest
approve_until admin_id now expires_at r = record r {
  status = approved;
  approved_by = some admin_id;
  approved_at = some now;
  expires_at = some expires_at;
  rejection_reason = none;
}

-- `dto?.rejectionReason?.trim() || null`, of the trimmed text.
abbrev pub reason_or_null : Option Text → Option Text
reason_or_null none = none
reason_or_null (some []) = none
reason_or_null (some (c ∷ cs)) = some (c ∷ cs)

abbrev pub reject_for : Option Text → SubscriptionRequest → SubscriptionRequest
reject_for reason r = record r { status = rejected; rejection_reason = reason_or_null reason }

abbrev pub subscribe_until : ℕ → User → User
subscribe_until expires_at u = record u {
  individual_subscription_active = true;
  subscription_expires_at = some expires_at;
}

abbrev pub head_request : List SubscriptionRequest → Option SubscriptionRequest
head_request [] = none
head_request (r ∷ rs) = some r

abbrev pub has_request_status : Option RequestStatus → SubscriptionRequest → Bool
has_request_status none r = true
has_request_status (some pending) r = is_pending r.status
has_request_status (some approved) r = elim r.status [ approved ↦ true | _ ↦ false ]
has_request_status (some rejected) r = elim r.status [ rejected ↦ true | _ ↦ false ]

-- A request with the administrator who approved it.
pub record RequestView : Type 0 where
  pub request : SubscriptionRequest
  pub approved_by_user : Option User

pub record RequestPage : Type 0 where
  pub rows : List SubscriptionRequest
  pub total : ℕ
  pub page : ℕ
  pub limit : ℕ

abbrev pub default_subscription_ms : ℕ
default_subscription_ms = 2592000000

module _ (s : Services) where
  -- `create` meets the partial unique index on the pending requests of a user, whose P2002 becomes a
  -- 409.
  unfoldable pub create_request : ℕ → Option Text → M SubscriptionRequest
  create_request user_id comment = do
    existing ← read (λ w. s.find_first (is_pending_of user_id) w.requests)
    when (is_some existing) (throw (http_exception status_409))
    now ← read (λ w. w.now)
    id ← draw_uuid s
    modify (λ w. record w { requests = new_request id user_id comment now ∷ w.requests })
    pure (new_request id user_id comment now)

  newest_of : (SubscriptionRequest → Bool) → World → Option SubscriptionRequest
  newest_of accepts w = head_request (s.find_page accepts later_request 0 1 w.requests)

  unfoldable pub get_current_for_user : ℕ → M (Option SubscriptionRequest)
  unfolding newest_of
  get_current_for_user user_id = do
    waiting ← read (newest_of (is_pending_of user_id))
    any ← read (newest_of (λ r. r.user_id == user_id))
    pure (elim waiting [ none ↦ any | some r ↦ some r ])

  unfoldable pub get_subscription_requests : Option RequestStatus → ℕ → ℕ → M RequestPage
  get_subscription_requests status page limit = do
    rows ← read (λ w.
        s.find_page (has_request_status status) later_request ((page - 1) * limit) limit w.requests)
    total ← read (λ w. s.count_rows (has_request_status status) w.requests)
    pure (record { rows = rows; total = total; page = page; limit = limit })

  unfoldable pub approver : Option ℕ → World → Option User
  approver none w = none
  approver (some id) w = s.find_first (user_by_id id) w.users

  unfoldable pub get_subscription_request_by_id : ℕ → M RequestView
  unfolding approver
  get_subscription_request_by_id id = do
    found ← read (λ w. s.find_first (request_by_id id) w.requests)
    r ← require found (http_exception status_404)
    u ← read (approver r.approved_by)
    pure (record { request = r; approved_by_user = u })

  -- `subscriptionRequest.update`
  unfoldable pub decide_request :
      ℕ → (SubscriptionRequest → SubscriptionRequest) → M SubscriptionRequest
  decide_request id decide w = elim (s.update (is_undecided id) decide w.requests) [
    | none ↦ throw Exception.row_not_found w
    | some (row, t) ↦ pure row (record w { requests = t })
  ]

  unfoldable pub refuse_decided : ℕ → M SubscriptionRequest
  refuse_decided id = do
    found ← read (λ w. s.find_first (request_by_id id) w.requests)
    r ← require found (http_exception status_404)
    throw (http_exception status_409)

  -- The transaction of `approveSubscriptionRequest`.
  unfoldable pub grant : ℕ → ℕ → ℕ → M SubscriptionRequest
  unfolding decide_request
  grant id admin_id expires_at = do
    now ← read (λ w. w.now)
    req ← decide_request id (approve_until admin_id now expires_at)
    update_user s (user_by_id req.user_id) (subscribe_until expires_at)
    pure req

  -- `approved`, or the exception.
  unfoldable pub decide_grant : ℕ → ℕ → ℕ → M SubscriptionRequest
  unfolding grant refuse_decided
  decide_grant id admin_id expires_at =
      catch_not_found (transaction (grant id admin_id expires_at)) (refuse_decided id)

  -- The end of `approveSubscriptionRequest`, outside the transaction.
  unfoldable pub announce_approval : SubscriptionRequest → M RequestView
  announce_approval r = do
    emit_subscription_approved r.user_id r.id r.expires_at
    send_subscription_decision s r.user_id r.id
    get_subscription_request_by_id r.id

  unfoldable pub approve_subscription_request : ℕ → ℕ → Option ℕ → M RequestView
  unfolding decide_grant
  approve_subscription_request id admin_id wanted = do
    now ← read (λ w. w.now)
    let expires_at = or_else wanted (now + default_subscription_ms)
    when (leb expires_at now) (throw (http_exception status_400))
    r ← decide_grant id admin_id expires_at
    announce_approval r

  unfoldable pub reject_subscription_request : ℕ → Option Text → M RequestView
  unfolding decide_request refuse_decided
  reject_subscription_request id reason = do
    r ← catch_not_found (decide_request id (reject_for reason)) (refuse_decided id)
    emit_subscription_rejected r.user_id r.id r.rejection_reason
    send_subscription_decision s r.user_id r.id
    get_subscription_request_by_id r.id
