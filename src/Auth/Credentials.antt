-- ===== src/Auth/Credentials.antt =====
-- Who is let in, and what a reset of the password ends, in modules/auth/auth.service.ts.
use aalam_security_back.Common.{
  ◌≤◌, ◌≡◌, refl, Bool, false, not, ◌&&◌, Option, none, some, List, [], ◌∷◌, arith, ◌==◌, is_some,
  if◌then◌else◌, Option-cases, inl, inr,
}
use aalam_security_back.Schema.{Text, User, PasswordResetToken, text_eq}
use aalam_security_back.Services.{Services, Documented, computing, services-eq}
use aalam_security_back.Rows.{find, count, drop_all}
use aalam_security_back.World.{World, after, raised, running}
use aalam_security_back.Tokens.{store, remove_all_for_user}
use aalam_security_back.Auth.{
  AuthServices, user_by_email, invalid_credentials, unauthorized, generate_tokens, login,
  reset_password, hash_password,
}

-- The account whose password fits and which is not deleted.
abbrev pub is_let_in : AuthServices → Text → Option User → Bool
is_let_in a password none = false
is_let_in a password (some u) = a.bcrypt_compare password u.password && not (is_some u.deleted_at)

login-computing :
    (s : Services) (a : AuthServices) (email password : Text) (w : World)
    → raised (login (computing s) a email password w) ≡ (
        if is_let_in a password (find (user_by_email email) w.users)
        then none
        else some invalid_credentials)
unfolding login generate_tokens store running
login-computing s a email password w = ground arith

-- A login succeeds exactly for the password of an account that is not deleted, and every other
-- attempt gets one and the same answer: an unknown address, a deleted account and a wrong password
-- are not told apart.
pub login-raised :
    (s : Services) (d : Documented s) (a : AuthServices) (email password : Text) (w : World)
    → raised (login s a email password w) ≡ (
        if is_let_in a password (find (user_by_email email) w.users)
        then none
        else some invalid_credentials)
login-raised s d = rw (services-eq d) (login-computing s)

abbrev pub has_token : Text → PasswordResetToken → Bool
has_token token r = text_eq r.token token

gone_for_good :
    (token : Text) (row : PasswordResetToken) (t : List PasswordResetToken)
    → count (has_token token) t ≡ 0
    → find (has_token token) (drop_all (λ (r : PasswordResetToken). r.id == row.id) t) ≡ none
gone_for_good token row [] h = refl
gone_for_good token row (r ∷ rs) h = ground (arith, gone_for_good token row rs)

-- A row that was found by its unique token is found no more after its deletion by id.
find-drop_all :
    (token : Text) (row : PasswordResetToken) (t : List PasswordResetToken)
    → count (has_token token) t ≤ 1
    → find (has_token token) t ≡ some row
    → find (has_token token) (drop_all (λ (r : PasswordResetToken). r.id == row.id) t) ≡ none
find-drop_all token row [] h e = refl
find-drop_all token row (r ∷ rs) h e =
    ground (arith, find-drop_all token row rs, gone_for_good token row rs)

reset_computing :
    (s : Services) (a : AuthServices) (token password again : Text) (w : World)
    → count (has_token token) w.reset_tokens ≤ 1
    → raised (reset_password (computing s) a token password w) ≡ none
    → raised (
        reset_password
          (computing s)
          a
          token
          again
          (after (reset_password (computing s) a token password w)))
      ≡ some unauthorized
unfolding reset_password hash_password remove_all_for_user running
reset_computing s a token password again w unique done =
    elim (Option-cases (find (has_token token) w.reset_tokens)) [
      | inl missing ↦ absurd (ground arith)
      | inr (r, e) ↦ ground (arith, find-drop_all token r w.reset_tokens)
    ]

-- A link to reset a password works once: after a reset with its token, the token is refused as
-- unauthorized, whatever password comes with it. The token column is unique.
pub reset_password-once :
    (s : Services) (d : Documented s) (a : AuthServices) (token password again : Text) (w : World)
    → count (has_token token) w.reset_tokens ≤ 1
    → raised (reset_password s a token password w) ≡ none
    → raised (reset_password s a token again (after (reset_password s a token password w)))
      ≡ some unauthorized
reset_password-once s d = rw (services-eq d) (reset_computing s)
