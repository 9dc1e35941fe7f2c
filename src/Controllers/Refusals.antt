-- ===== src/Controllers/Refusals.antt =====
-- Who gets past the guards of the controllers, and what the others are answered.
use aalam_security_back.Common.{
  ℕ, ◌≡◌, refl, Bool, true, Option, none, some, List, [], ◌∷◌, is_some, arith, if◌then◌else◌,
  Option-cases, Bool-cases, inl, inr, ap, ◌∙◌,
}
use aalam_security_back.Schema.{Role, User}
use aalam_security_back.Errors.{status_401, status_403, http_exception}
use aalam_security_back.Services.{Services, Documented, JwtPayload}
use aalam_security_back.Rows.{find}
use aalam_security_back.World.{World, Outcome, ok, thrown, ◌>>=◌, ◌>>◌, require, running}
use aalam_security_back.Auth.{unauthorized}
use aalam_security_back.Queries.{user_by_id}
use aalam_security_back.Guards.{
  Principal, principal_of, includes, validate, jwt_auth_guard, can_activate,
}
use aalam_security_back.Controllers.Environment.{Environment}
use aalam_security_back.Controllers.Requests.{Route, Answer, roles_of, controller, handle_request}

abbrev pub live_principal : Option User → Option Principal
live_principal none = none
live_principal (some u) = if is_some u.deleted_at then none else some (principal_of u)

abbrev pub holder : Option JwtPayload → World → Option Principal
holder none w = none
holder (some payload) w = live_principal (find (user_by_id payload.sub) w.users)

-- Whom a token stands for: the user of a valid token, while the account is not deleted.
abbrev pub bearer : Services → Option ℕ → World → Option Principal
bearer s none w = none
bearer s (some token) w = holder (s.verify_access w.now token) w

abbrev pub admits : Option (List Role) → Role → Bool
admits none role = true
admits (some []) role = true
admits (some (r ∷ rs)) role = includes (r ∷ rs) role

abbrev pub judged : (e : Environment) → Option Principal → (r : Route) → World → Outcome (Answer r)
judged e none r w = thrown (http_exception status_401) w
judged e (some user) r w =
    if admits (roles_of r) user.role
    then controller e user r w
    else thrown (http_exception status_403) w

abbrev identified : Option Principal → World → Outcome Principal
identified none w = thrown (http_exception status_401) w
identified (some user) w = ok user w

module _ (s : Services) (d : Documented s) where
  looks_up :
      (payload : JwtPayload) (w : World)
      → validate s payload w ≡ identified (live_principal (find (user_by_id payload.sub) w.users)) w
  unfolding validate running
  looks_up payload w =
      rw (d.find_first_lem (user_by_id payload.sub) w.users)
        (elim (Option-cases (find (user_by_id payload.sub) w.users)) [
          | inl e ↦ rw (e) refl
          | inr (u, e) ↦ rw (e) (ground arith)
        ])

  verified :
      (payload : Option JwtPayload) (w : World)
      → (require payload unauthorized >>= validate s) w ≡ identified (holder payload w) w
  unfolding running
  verified none w = refl
  verified (some payload) w = looks_up payload w

  pub jwt_auth_guard-bearer :
      (token : Option ℕ) (w : World) → jwt_auth_guard s token w ≡ identified (bearer s token w) w
  unfolding jwt_auth_guard running
  jwt_auth_guard-bearer none w = refl
  jwt_auth_guard-bearer (some token) w = verified (s.verify_access w.now token) w

activates :
    (e : Environment) (user : Principal) (roles : Option (List Role)) (r : Route) (w : World)
    → (can_activate roles user >> controller e user r) w ≡ (
        if admits roles user.role
        then controller e user r w
        else thrown (http_exception status_403) w)
unfolding can_activate running
activates e user none r w = refl
activates e user (some []) r w = refl
activates e user (some (role ∷ roles)) r w = elim (Bool-cases (includes (role ∷ roles) user.role)) [
  | inl h ↦ rw (h) refl
  | inr h ↦ rw (h) refl
]

abbrev entered : (e : Environment) (r : Route) → Outcome Principal → Outcome (Answer r)
entered e r (ok user w) = (can_activate (roles_of r) user >> controller e user r) w
entered e r (thrown x w) = thrown x w

enters :
    (e : Environment) (caller : Option Principal) (r : Route) (w : World)
    → entered e r (identified caller w) ≡ judged e caller r w
enters e none r w = refl
enters e (some user) r w = activates e user (roles_of r) r w

handle_request-entered :
    (e : Environment) (token : Option ℕ) (r : Route) (w : World)
    → handle_request e token r w ≡ entered e r (jwt_auth_guard e.services token w)
unfolding handle_request ◌>>=◌
handle_request-entered e token r w = at (jwt_auth_guard e.services token w)
  where
    at :
        (o : Outcome Principal)
        → (elim o [
          | ok user w' ↦ (can_activate (roles_of r) user >> controller e user r) w'
          | thrown x w' ↦ thrown x w'
        ])
          ≡ entered e r o
    at (ok user w') = refl
    at (thrown x w') = refl

-- A request reaches its controller exactly when its token stands for an account that is not deleted,
-- whose role the route admits. Every other request is answered 401 or 403 and changes nothing.
pub handle_request-judged :
    (e : Environment) (d : Documented e.services) (token : Option ℕ) (r : Route) (w : World)
    → handle_request e token r w ≡ judged e (bearer e.services token w) r w
handle_request-judged e d token r w =
    handle_request-entered e token r w
    ∙ ap (entered e r) (jwt_auth_guard-bearer e.services d token w)
    ∙ enters e (bearer e.services token w) r w
