-- ===== src/Auth/Rotation.antt =====
-- The rotation of refresh tokens in modules/auth/auth.service.ts.
use aalam_security_back.Common.{
  ℕ, ◌+◌, ◌*◌, ◌<◌, ◌≡◌, ◌≢◌, sym, ◌∙◌, ap, true, false, none, some, ◌∷◌, arith, ltb, is_some,
  Option-cases, inl, inr,
}
use aalam_security_back.Schema.{User, Role, RefreshToken}
use aalam_security_back.Services.{Services, Documented, JwtPayload, computing, services-eq}
use aalam_security_back.Rows.{find, drop_all}
use aalam_security_back.Rows.Counts.{find_accepts}
use aalam_security_back.World.{World, after, result, raised, running}
use aalam_security_back.Queries.{user_by_id}
use aalam_security_back.Tokens.{store, is_valid, accepts, remove}
use aalam_security_back.Tokens.Laws.{by_hash, find-drop_all_same}
use aalam_security_back.Cache.Locks.{elapse}
use aalam_security_back.Auth.{
  AuthServices, JtiDocumented, LifetimeDocumented, is_unexpired, TokenPair, unauthorized,
  generate_tokens, refresh,
}

-- What a successful refresh did.
record Rotated (s : Services) (a : AuthServices) (token : ℕ) (w next : World) (pair : TokenPair)
    : Type 0 where
  user : User
  known : find (user_by_id user.id) w.users ≡ some user
  live : is_some user.deleted_at ≡ false
  signed : pair.refresh_token ≡ a.sign_refresh user.id user.role (s.uuid w.drawn) w.now
  tokens :
      next.refresh_tokens
      ≡ record {
        user_id = user.id;
        token_hash = s.sha256 pair.refresh_token;
        expires_at = w.now + a.refresh_ttl_seconds * 1000;
      }
        ∷ drop_all (by_hash (s.sha256 token)) w.refresh_tokens
  users : next.users ≡ w.users
  time : next.now ≡ w.now

refresh-Rotated :
    (s : Services) (a : AuthServices) (token : ℕ) (w : World) (pair : TokenPair)
    → result (refresh (computing s) a token w) ≡ some pair
    → Rotated (computing s) a token w (after (refresh (computing s) a token w)) pair
unfolding refresh generate_tokens is_valid accepts store remove running
refresh-Rotated s a token w pair e = elim (Option-cases (a.verify_refresh w.now token)) [
  | inl bad ↦ absurd (ground arith)
  | inr (p, v) ↦ elim (Option-cases (find (user_by_id p.sub) w.users)) [
    | inl missing ↦ absurd (ground arith)
    | inr (u, f) ↦
        let same : u.id ≡ p.sub = ground (arith, find_accepts (user_by_id p.sub) w.users u) in
        record {
          user = u;
          known = ap (λ i. find (user_by_id i) w.users) same ∙ f;
          live = ground arith;
          signed = ground arith;
          tokens = ground arith;
          users = ground arith;
          time = ground arith;
        }
  ]
]

rotated :
    (s : Services) (d : Documented s) (a : AuthServices) (token : ℕ) (w : World) (pair : TokenPair)
    → result (refresh s a token w) ≡ some pair
    → Rotated s a token w (after (refresh s a token w)) pair
rotated s d = rw (services-eq d) (refresh-Rotated s)

-- A token whose hash is not in the table is refused, whatever else holds.
unknown_refused :
    (s : Services) (a : AuthServices) (token : ℕ) (w : World)
    → find (by_hash (s.sha256 token)) w.refresh_tokens ≡ none
    → raised (refresh (computing s) a token w) ≡ some unauthorized
unfolding refresh is_valid accepts running
unknown_refused s a token w h = ground arith

refused :
    (s : Services) (d : Documented s) (a : AuthServices) (token : ℕ) (w : World)
    → find (by_hash (s.sha256 token)) w.refresh_tokens ≡ none
    → raised (refresh s a token w) ≡ some unauthorized
refused s d = rw (services-eq d) (unknown_refused s)

-- The row of a token in the table, its user and its payload let it through.
known_accepted :
    (s : Services) (a : AuthServices) (token : ℕ) (w : World) (p : JwtPayload) (row : RefreshToken)
    (u : User)
    → a.verify_refresh w.now token ≡ some p
    → find (by_hash (s.sha256 token)) w.refresh_tokens ≡ some row
    → row.user_id ≡ p.sub
    → ltb w.now row.expires_at ≡ true
    → find (user_by_id p.sub) w.users ≡ some u
    → is_some u.deleted_at ≡ false
    → raised (refresh (computing s) a token w) ≡ none
unfolding refresh generate_tokens store remove is_valid accepts running
known_accepted s a token w p row u v f own live known there = ground arith

accepted :
    (s : Services) (d : Documented s) (a : AuthServices) (token : ℕ) (w : World) (p : JwtPayload)
    (row : RefreshToken) (u : User)
    → a.verify_refresh w.now token ≡ some p
    → find (by_hash (s.sha256 token)) w.refresh_tokens ≡ some row
    → row.user_id ≡ p.sub
    → ltb w.now row.expires_at ≡ true
    → find (user_by_id p.sub) w.users ≡ some u
    → is_some u.deleted_at ≡ false
    → raised (refresh s a token w) ≡ none
accepted s d = rw (services-eq d) (known_accepted s)

-- The row of a token outlives the token.
stored_longer :
    (at ms ttl_seconds : ℕ)
    → is_unexpired at ttl_seconds (at + ms) ≡ true
    → ltb (at + ms) (at + ttl_seconds * 1000) ≡ true
stored_longer at ms ttl_seconds h = ground arith

module _ (s : Services) (d : Documented s) (a : AuthServices) (jd : JtiDocumented a) (token : ℕ)
    (w : World) (pair : TokenPair) where
  spent_unknown :
      (next : World)
      → Rotated s a token w next pair
      → pair.refresh_token ≢ token
      → find (by_hash (s.sha256 token)) next.refresh_tokens ≡ none
  spent_unknown next rotated new = rw rotated.tokens (
      ground (
        arith,
        new,
        d.sha256_injective pair.refresh_token token,
        find-drop_all_same (s.sha256 token) w.refresh_tokens,
      ))

  new_token :
      (next : World) (u : ℕ) (r : Role) (k at : ℕ)
      → Rotated s a token w next pair
      → token ≡ a.sign_refresh u r (s.uuid k) at
      → k < w.drawn
      → pair.refresh_token ≢ token
  new_token next u r k at rotated issued before same = absurd (
      omega (
        arith,
        before,
        d.uuid_injective w.drawn k (
            jd.jti_apart rotated.user.id u rotated.user.role r (s.uuid w.drawn) (s.uuid k) w.now at
              (sym rotated.signed ∙ (same ∙ issued))),
      ))

  -- A refresh token is used once: after a refresh with a token that was issued before, presenting
  -- the token again is refused as unauthorized.
  pub refresh-replay :
      (u : ℕ) (r : Role) (k at : ℕ)
      → token ≡ a.sign_refresh u r (s.uuid k) at
      → k < w.drawn
      → result (refresh s a token w) ≡ some pair
      → raised (refresh s a token (after (refresh s a token w))) ≡ some unauthorized
  refresh-replay u r k at issued before done =
      let next = rotated s d a token w pair done in
      refused s d a token _ (spent_unknown _ next (new_token _ u r k at next issued before))

module _ (s : Services) (d : Documented s) (a : AuthServices) (ld : LifetimeDocumented a)
    (token : ℕ) (w : World) (pair : TokenPair) where
  goes_on :
      (ms : ℕ) (next : World)
      → is_unexpired w.now a.refresh_ttl_seconds (w.now + ms) ≡ true
      → Rotated s a token w next pair
      → raised (refresh s a pair.refresh_token (elapse ms next)) ≡ none
  goes_on ms next soon x =
      let (p, verified, own) = ld.verifies x.user.id x.user.role (s.uuid w.drawn) w.now ms soon in
      accepted s d a pair.refresh_token (elapse ms next) p
        (record {
          user_id = x.user.id;
          token_hash = s.sha256 pair.refresh_token;
          expires_at = w.now + a.refresh_ttl_seconds * 1000;
        })
        x.user
        (ap (λ t. a.verify_refresh (next.now + ms) t) x.signed
          ∙ (ap
                (λ n.
                  a.verify_refresh (n + ms)
                    (a.sign_refresh x.user.id x.user.role (s.uuid w.drawn) w.now))
                x.time
              ∙ verified))
        (rw x.tokens (ground arith)) (sym own)
        (ground (arith, x.time, stored_longer w.now ms a.refresh_ttl_seconds soon))
        (ap (λ us. find (user_by_id p.sub) us) x.users
          ∙ (ap (λ i. find (user_by_id i) w.users) own ∙ x.known))
        x.live

  -- The session goes on: the refresh token that a refresh returns is accepted in its turn until the
  -- second at which the token expires, its lifetime after the second of its signing.
  pub refresh-refresh :
      (ms : ℕ)
      → is_unexpired w.now a.refresh_ttl_seconds (w.now + ms) ≡ true
      → result (refresh s a token w) ≡ some pair
      → raised (refresh s a pair.refresh_token (elapse ms (after (refresh s a token w)))) ≡ none
  refresh-refresh ms soon done = goes_on ms _ soon (rotated s d a token w pair done)
