-- ===== src/Controllers/Farewells.antt =====
-- The tokens of a deleted account, at the guards of the controllers.
use aalam_security_back.Common.{
  ℕ, ◌≡◌, refl, sym, ap, subst, ◌∙◌, Bool, true, false, Option, none, some, List, [], ◌∷◌, is_some,
  not, arith, Option-cases, inl, inr, ==_iff,
}
use aalam_security_back.Rows.Counts.{find_accepts}
use aalam_security_back.Schema.{Text, User}
use aalam_security_back.Errors.{status_401, http_exception}
use aalam_security_back.Services.{Services, Documented, JwtPayload, computing, services-eq}
use aalam_security_back.Rows.{find, set_first}
use aalam_security_back.World.{World, M, Outcome, ok, thrown, after, result, update_user, running}
use aalam_security_back.World.Keeps.{Keeps, rules}
use aalam_security_back.World.Triples.{
  Nothing, Triple, Post, flow, next, having, given, atomically, weaken, keeping, knowing, of_result,
  sometimes,
}
use aalam_security_back.Queries.{user_by_id}
use aalam_security_back.Tokens.{remove_all_for_user}
use aalam_security_back.Gateway.{set_operator_shift_room, disconnect_user}
use aalam_security_back.Users.{wipe, erase_and_revoke, erase_user, erase_account, delete_account}
use aalam_security_back.Admin.Operators.{anonymize, erase_operator, delete_operator}
use aalam_security_back.Controllers.Environment.{Environment}
use aalam_security_back.Controllers.Requests.{Route, handle_request}
use aalam_security_back.Controllers.Refusals.{
  live_principal, holder, bearer, judged, handle_request-judged,
}
use aalam_security_back.Guards.{Principal}

-- The deletion of an account by its owner, and of an operator by an administrator.
pub data Farewell : Type 0 where
  own staff : Farewell

abbrev pub delete : Services → Farewell → ℕ → M (Unit {0})
delete s own id = delete_account s id
delete s staff id = delete_operator s id

abbrev is_gone : ℕ → List User → Bool
is_gone id users = not (is_some (live_principal (find (user_by_id id) users)))

module _ (id : ℕ) (f : User → User) (same : (u : User) → (f u).id ≡ u.id)
    (leaves : (u : User) → is_some (f u).deleted_at ≡ true) where
  gone-set_first : (t : List User) → is_gone id (set_first (user_by_id id) f t) ≡ true
  gone-set_first [] = refl
  gone-set_first (u ∷ us) = ground (arith, same u, leaves u, gone-set_first us)

module _ (s : Services) (id : ℕ) where
  abbrev Gone : World → Type 0
  Gone w = is_gone id w.users ≡ true

  writes_off :
      (f : User → User)
      → ((u : User) → (f u).id ≡ u.id)
      → ((u : User) → is_some (f u).deleted_at ≡ true)
      → Triple Nothing (update_user (computing s) (user_by_id id) f) (λ a. Gone) Nothing
  unfolding running
  writes_off f same leaves = record {
    run = λ w p. elim (Option-cases (find (user_by_id id) w.users)) [
      | inl e ↦ rw (e, Post) tt
      | inr (u, e) ↦ rw (e, Post) (gone-set_first id f same leaves w.users)
    ];
  }

  stays : {A : Type 0} {m : M A} → Keeps Gone m → Triple Gone m (λ a. Gone) Nothing
  stays = keeping (λ w p. tt)

  blank : {A : Type 0} (m : M A) → Triple Nothing m (λ a. Nothing) Nothing
  blank m = record { run = λ w p. nothing (m w) }
    where
      nothing : {A : Type 0} (o : Outcome A) → Post (λ a. Nothing) Nothing o
      nothing (ok a w) = tt
      nothing (thrown e w) = tt

  revokes : Keeps Gone (remove_all_for_user (computing s) id)
  unfolding remove_all_for_user
  revokes = search rules

  erases :
      (password : Text)
      → Triple Nothing (erase_operator (computing s) id password) (λ a. Gone) Nothing
  unfolding erase_operator
  erases password = next Nothing (blank _) (
      flow (λ a. Nothing) (blank _)
        (λ count. next Nothing (blank _) (
          flow (λ a. Nothing) (blank _)
            (λ before. next Nothing (blank _) (
              flow (λ a. Nothing) (blank _)
                (λ now.
                  next Gone (writes_off (anonymize now password) (λ u. refl) (λ u. refl))
                    (stays (search rules))))))))

  moves_room : Keeps Gone (set_operator_shift_room (computing s) id false)
  unfolding set_operator_shift_room
  moves_room = search rules

  disconnects : Keeps Gone (disconnect_user (computing s) id)
  unfolding disconnect_user
  disconnects = search rules

  deletes_operator : Triple Nothing (delete_operator (computing s) id) (λ a. Gone) Nothing
  unfolding delete_operator
  deletes_operator = next Nothing (blank _) (
      flow (λ a. Nothing) (blank _)
        (λ hex.
          flow (λ a. Nothing) (blank _)
            (λ password.
              flow (λ a. Gone) (atomically (λ w p. tt) (erases password))
                (λ on. stays (search (rules, revokes, moves_room, disconnects))))))

  wipes :
      (password : Text) (now : ℕ)
      → Triple Nothing (wipe (computing s) id password now) (λ a. Gone) Nothing
  unfolding wipe
  wipes password now =
      next Nothing (blank _) (writes_off (erase_account now password) (λ u. refl) (λ u. refl))

  erases_user :
      (u : User) → u.id ≡ id → Triple Nothing (erase_user (computing s) u) (λ a. Gone) Nothing
  unfolding erase_user erase_and_revoke
  erases_user u same = next Nothing (blank _) (
      flow (λ a. Nothing) (blank _)
        (λ active. next Nothing (blank _) (
          flow (λ a. Nothing) (blank _)
            (λ password.
              flow (λ a. Nothing) (blank _)
                (λ now.
                  rw same
                    (next Gone (atomically (λ w p. tt) (wipes password now)) (stays revokes)))))))

  remains_away :
      (found : Option User) (u : User) (w : World)
      → find (user_by_id id) w.users ≡ found
      → found ≡ some u
      → not (is_some u.deleted_at) ≡ false
      → Gone w
  remains_away found u w e e' gone = rw (e ∙ e') (ground arith)

  deletes_account : Triple Nothing (delete_account (computing s) id) (λ a. Gone) Nothing
  unfolding delete_account
  deletes_account = having (λ found.
      given (λ w p. tt) _ _
        (λ u.
          knowing {Z = u.id ≡ id}
            (λ w p. (==_iff u.id id).0 (find_accepts (user_by_id id) w.users u (p.0.1 ∙ p.1)))
            (λ same.
              sometimes (not (is_some u.deleted_at))
                (λ live. weaken (λ w p. tt) (erases_user u same))
                (λ gone w p. remains_away found u w p.0.1 p.1 gone))))

  deletes : (how : Farewell) → Triple Nothing (delete (computing s) how id) (λ a. Gone) Nothing
  deletes own = deletes_account
  deletes staff = deletes_operator

  leaves_nobody :
      (how : Farewell) (w : World)
      → result (delete (computing s) how id w) ≡ some tt
      → Gone (after (delete (computing s) how id w))
  leaves_nobody how w e =
      of_result Nothing (λ a. Gone) (delete (computing s) how id w) tt ((deletes how).run w tt) e

no_bearer :
    (s : Services) (token : ℕ) (payload : JwtPayload) (w : World)
    → s.verify_access w.now token ≡ some payload
    → is_gone payload.sub w.users ≡ true
    → bearer s (some token) w ≡ none
no_bearer s token payload w valid gone =
    ap (λ v. holder v w) valid
    ∙ nobody (live_principal (find (user_by_id payload.sub) w.users)) gone
  where
    nobody : (p : Option Principal) → not (is_some p) ≡ true → p ≡ none
    nobody none h = refl
    nobody (some p) h = absurd (ground arith)

-- After an account was deleted, by its owner or by an administrator, its access tokens are refused with
-- 401 on every route behind the guard of access tokens, although they have not expired, and nothing
-- changes.
pub delete-handle_request :
    (e : Environment) (d : Documented e.services) (how : Farewell) (id token : ℕ)
    (payload : JwtPayload) (r : Route) (w : World)
    → result (delete e.services how id w) ≡ some tt
    → payload.sub ≡ id
    → e.services.verify_access (after (delete e.services how id w)).now token ≡ some payload
    → handle_request e (some token) r (after (delete e.services how id w))
      ≡ thrown (http_exception status_401) (after (delete e.services how id w))
delete-handle_request e d how id token payload r w done same valid =
    handle_request-judged e d (some token) r _
    ∙ ap (λ b. judged e b r (after (delete e.services how id w)))
        (no_bearer e.services token payload _ valid (
          subst (λ i. is_gone i (after (delete e.services how id w)).users ≡ true) (sym same)
            (gone e.services d done)))
  where
    gone :
        (s : Services)
        → Documented s
        → result (delete s how id w) ≡ some tt
        → is_gone id (after (delete s how id w)).users ≡ true
    gone s d = rw (services-eq d) (leaves_nobody s id how w)
