-- ===== src/Subscriptions/Decisions.antt =====
-- A request for a subscription is decided once, and its approval opens the SOS.
use aalam_security_back.Common.{
  ℕ, ◌≤◌, ◌<◌, ◌≡◌, refl, sym, ◌∙◌, ap, Bool, true, false, Option, none, some, List, [], ◌∷◌, arith,
  leb, Bool-cases, Option-cases, inl, inr, ◌≢◌,
}
use aalam_security_back.Schema.{Text, User, SubscriptionRequest, is_pending}
use aalam_security_back.Errors.{status_409, Exception, http_exception}
use aalam_security_back.Services.{Services, Documented, computing, services-eq}
use aalam_security_back.Rows.{find, count, set_first, set_all}
use aalam_security_back.Rows.Counts.{
  find-set_first_key, any-eq-false-of_find_key, any-eq-is_some-find, count-set_first_same,
}
use aalam_security_back.World.{World, Outcome, ok, thrown, after, raised, M, running}
use aalam_security_back.Queries.{user_by_id}
use aalam_security_back.Push.{without_push_token}
use aalam_security_back.Push.Frame.{tells_decision}
use aalam_security_back.World.Keeps.{Keeps, bind, seq, gives, rules}
use aalam_security_back.Emergency.Placement.{place, has_active_subscription}
use aalam_security_back.Emergency.Access.{place-raised, place_refusal}
use aalam_security_back.Subscriptions.{
  request_by_id, is_undecided, approve_until, subscribe_until, decide_request, refuse_decided,
  grant, decide_grant, approve_subscription_request, reject_subscription_request, announce_approval,
  get_subscription_request_by_id,
}

-- A request that has been decided is refused a second decision.
decided_reject :
    (s : Services) (id : ℕ) (reason : Option Text) (r : SubscriptionRequest) (w : World)
    → count (request_by_id id) w.requests ≤ 1
    → find (request_by_id id) w.requests ≡ some r
    → is_pending r.status ≡ false
    → raised (reject_subscription_request (computing s) id reason w)
      ≡ some (http_exception status_409)
unfolding reject_subscription_request decide_request refuse_decided running
decided_reject s id reason r w unique e done = ground (
  arith,
  any-eq-is_some-find (is_undecided id) w.requests,
  any-eq-false-of_find_key (request_by_id id) (is_undecided id) (λ x hit. ground arith) w.requests r
      unique e (ground arith),
)

-- What an approval leaves for good, whatever is sent afterwards.
record GrantedIn (id : ℕ) (requests : List SubscriptionRequest) (users : List User) (now : ℕ)
    : Type 0 where
  request : SubscriptionRequest
  decided : find (request_by_id id) requests ≡ some request
  closed : is_pending request.status ≡ false
  unique : count (request_by_id id) requests ≤ 1
  active : has_active_subscription now (find (user_by_id request.user_id) users) ≡ true

abbrev Granted : ℕ → World → Type 0
Granted id w = GrantedIn id w.requests w.users w.now

find-set_all_push :
    (p : User → Bool) (i now : ℕ) (t : List User)
    → has_active_subscription now (find (user_by_id i) (set_all p without_push_token t))
      ≡ has_active_subscription now (find (user_by_id i) t)
find-set_all_push p i now [] = refl
find-set_all_push p i now (u ∷ us) = ground (arith, find-set_all_push p i now us)

Granted-push :
    (id : ℕ) (p : User → Bool) (w : World)
    → Granted id w
    → Granted id (record w { users = set_all p without_push_token w.users })
Granted-push id p w g = record {
  request = g.request;
  decided = g.decided;
  closed = g.closed;
  unique = g.unique;
  active = find-set_all_push p g.request.user_id w.now w.users ∙ g.active;
}

announces :
    (s : Services) (id : ℕ) (r : SubscriptionRequest)
    → Keeps (Granted id) (announce_approval (computing s) r)
unfolding announce_approval get_subscription_request_by_id
announces s id r = seq (search rules) (
    seq (tells_decision s (Granted id) (Granted-push id) (λ b w g. g) r.user_id r.id) (
      bind (search rules) (λ found. bind (search rules) (λ q. bind (search rules) (λ u. gives _)))))

find-set_first_user :
    (i e now : ℕ) (u : User) (t : List User)
    → find (user_by_id i) t ≡ some u
    → now < e
    → has_active_subscription now
        (find (user_by_id i) (set_first (user_by_id i) (subscribe_until e) t))
      ≡ true
find-set_first_user i e now u [] h later = absurd (ground arith)
find-set_first_user i e now u (x ∷ xs) h later = ground (arith, find-set_first_user i e now u xs)

granted :
    (id admin_id e : ℕ) (w : World) (r : SubscriptionRequest) (u : User)
    → count (request_by_id id) w.requests ≤ 1
    → find (is_undecided id) w.requests ≡ some r
    → find (user_by_id r.user_id) w.users ≡ some u
    → w.now < e
    → Granted id (record w {
      requests = set_first (is_undecided id) (approve_until admin_id w.now e) w.requests;
      users = set_first (user_by_id r.user_id) (subscribe_until e) w.users;
    })
granted id admin_id e w r u unique found there later = record {
  request = approve_until admin_id w.now e r;
  decided =
      find-set_first_key (request_by_id id) (is_undecided id) (λ x hit. ground arith)
        (approve_until admin_id w.now e) (λ x. refl) w.requests r unique found;
  closed = refl;
  unique =
      rw
        (count-set_first_same (request_by_id id) (is_undecided id) (approve_until admin_id w.now e)
          (λ x. refl) w.requests)
        unique;
  active = find-set_first_user r.user_id e w.now u w.users there later;
}

grant_result :
    (s : Services) (id admin_id e : ℕ) (w : World) (r : SubscriptionRequest) (u : User)
    → find (is_undecided id) w.requests ≡ some r
    → find (user_by_id r.user_id) w.users ≡ some u
    → decide_grant (computing s) id admin_id e w
      ≡ ok (approve_until admin_id w.now e r) (record w {
        requests = set_first (is_undecided id) (approve_until admin_id w.now e) w.requests;
        users = set_first (user_by_id r.user_id) (subscribe_until e) w.users;
      })
unfolding decide_grant grant decide_request running
grant_result s id admin_id e w r u f there = ground arith

none-ne-some : {x : Exception} → none ≢ some x
none-ne-some e = absurd (ground arith)

first_ok :
    {A B : Type 0} (o : Outcome A) (k : A → M B)
    → raised {A = B} (elim o [ ok a w ↦ k a w | thrown e w ↦ thrown e w ]) ≡ none
    → raised o ≡ none
first_ok (ok a w) k h = refl
first_ok (thrown e w) k h = h

then_ok {κ} :
    {A B : Type 0} (P : World → Type κ) {o : Outcome A} (k : A → M B) {a : A} {w : World}
    → o ≡ ok a w
    → P (after (k a w))
    → P (after {A = B} (elim o [ ok a w ↦ k a w | thrown e w ↦ thrown e w ]))
then_ok P k e h = rw e h

grant_found :
    (s : Services) (id admin_id e : ℕ) (w : World)
    → raised (decide_grant (computing s) id admin_id e w) ≡ none
    → (r : SubscriptionRequest) × (u : User) × (find (is_undecided id) w.requests ≡ some r)
      × (find (user_by_id r.user_id) w.users ≡ some u)
unfolding decide_grant grant decide_request refuse_decided running
grant_found s id admin_id e w h = elim (Option-cases (find (is_undecided id) w.requests)) [
  | inl missing ↦ absurd (ground arith)
  | inr (r, f) ↦ elim (Option-cases (find (user_by_id r.user_id) w.users)) [
    | inl nobody ↦ absurd (ground arith)
    | inr (u, there) ↦ (r, u, f, there)
  ]
]

abbrev Approves : Services → ℕ → ℕ → ℕ → World → Type 0
Approves s id admin_id e w =
    raised (approve_subscription_request s id admin_id (some e) w) ≡ none
    → Granted id (after (approve_subscription_request s id admin_id (some e) w))

approves :
    (s : Services) (id admin_id e : ℕ) (w : World)
    → count (request_by_id id) w.requests ≤ 1
    → Approves (computing s) id admin_id e w
unfolding approve_subscription_request running
approves s id admin_id e w unique done = elim (Bool-cases (leb e w.now)) [
  | inl past ↦ absurd (none-ne-some (sym (rw past at done)))
  | inr later ↦
      let passed =
        first_ok (decide_grant (computing s) id admin_id e w) (announce_approval (computing s))
          (rw later at done) in
      let (r, u, found, there) = grant_found s id admin_id e w passed in
      rw later (
        then_ok (Granted id) (announce_approval (computing s))
          (grant_result s id admin_id e w r u found there)
          ((announces s id (approve_until admin_id w.now e r)).run _
            (granted id admin_id e w r u unique found there (ground arith))))
]

approved_for_good :
    (s : Services) (d : Documented s) (id admin_id e : ℕ) (w : World)
    → count (request_by_id id) w.requests ≤ 1
    → Approves s id admin_id e w
approved_for_good s d = rw (services-eq d) (approves s)

refused_reject :
    (s : Services) (d : Documented s) (id : ℕ) (reason : Option Text) (r : SubscriptionRequest)
    (w : World)
    → count (request_by_id id) w.requests ≤ 1
    → find (request_by_id id) w.requests ≡ some r
    → is_pending r.status ≡ false
    → raised (reject_subscription_request s id reason w) ≡ some (http_exception status_409)
refused_reject s d = rw (services-eq d) (decided_reject s)

-- An approved request is decided for good: a rejection that follows an approval is refused with 409.
-- The table's primary key names one request.
pub approve-reject :
    (s : Services) (d : Documented s) (id admin_id e : ℕ) (reason : Option Text) (w : World)
    → count (request_by_id id) w.requests ≤ 1
    → raised (approve_subscription_request s id admin_id (some e) w) ≡ none
    → raised (
        reject_subscription_request s id reason
          (after (approve_subscription_request s id admin_id (some e) w)))
      ≡ some (http_exception status_409)
approve-reject s d id admin_id e reason w unique done =
    let g = approved_for_good s d id admin_id e w unique done in
    refused_reject s d id reason g.request _ g.unique g.decided g.closed

entitled :
    (user_id : ℕ) (w : World)
    → has_active_subscription w.now (find (user_by_id user_id) w.users) ≡ true
    → place_refusal user_id none w ≡ none
entitled user_id w h = rw h refl

some_injective : {a b : SubscriptionRequest} → some a ≡ some b → a ≡ b
some_injective e = cc

-- An approval opens the SOS: as soon as a request is approved, its user may raise one without a venue.
pub approve-place :
    (s : Services) (d : Documented s) (id admin_id e : ℕ) (q : SubscriptionRequest) (w : World)
    → count (request_by_id id) w.requests ≤ 1
    → raised (approve_subscription_request s id admin_id (some e) w) ≡ none
    → find
        (request_by_id id)
        (after (approve_subscription_request s id admin_id (some e) w)).requests
      ≡ some q
    → raised
        (place s q.user_id none (after (approve_subscription_request s id admin_id (some e) w)))
      ≡ none
approve-place s d id admin_id e q w unique done found =
    let g = approved_for_good s d id admin_id e w unique done in
    let next = after (approve_subscription_request s id admin_id (some e) w) in
    let same : g.request ≡ q = some_injective (sym g.decided ∙ found) in
    place-raised s d q.user_id none next
    ∙ entitled q.user_id next (
        ap
          (λ (r : SubscriptionRequest).
            has_active_subscription next.now (find (user_by_id r.user_id) next.users))
          (sym same)
        ∙ g.active)
