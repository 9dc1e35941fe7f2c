-- ===== src/Tokens/Laws.antt =====
-- The life of a refresh token of modules/refresh-token/refresh-token.service.ts.
use aalam_security_back.Common.{
  ℕ, ◌*◌, ◌≡◌, ◌≢◌, refl, Bool, false, none, some, List, [], ◌∷◌, arith, ◌==◌, ltb, ◌&&◌,
  Bool-cases, inl, inr, if◌then◌else◌,
}
use aalam_security_back.Schema.{RefreshToken}
use aalam_security_back.Services.{Services, Documented, computing, services-eq}
use aalam_security_back.Rows.{find, drop_all}
use aalam_security_back.World.{World, after, result, ◌>>◌, running}
use aalam_security_back.Tokens.{store, accepts, is_valid, remove}
use aalam_security_back.Cache.Locks.{elapse}

abbrev pub by_hash : ℕ → RefreshToken → Bool
by_hash h r = r.token_hash == h

stored_computing :
    (s : Services) (user_id other_id token ttl_seconds ms : ℕ) (w : World)
    → result (
        is_valid
          (computing s)
          other_id
          token
          (elapse ms (after (store (computing s) user_id token ttl_seconds w))))
      ≡ some ((user_id == other_id) && ltb ms (ttl_seconds * 1000))
unfolding store is_valid accepts running
stored_computing s user_id other_id token ttl_seconds ms w = ground arith

-- A stored refresh token is accepted from its own user, and from nobody else, for as long as its
-- time to live says and not a millisecond longer.
pub store-is_valid :
    (s : Services) (d : Documented s) (user_id other_id token ttl_seconds ms : ℕ) (w : World)
    → result (is_valid s other_id token (elapse ms (after (store s user_id token ttl_seconds w))))
      ≡ some ((user_id == other_id) && ltb ms (ttl_seconds * 1000))
store-is_valid s d = rw (services-eq d) (stored_computing s)

pub find-drop_all_same :
    (h : ℕ) (t : List RefreshToken) → find (by_hash h) (drop_all (by_hash h) t) ≡ none
find-drop_all_same h [] = refl
find-drop_all_same h (r ∷ rs) = ground (arith, find-drop_all_same h rs)

find-drop_all_other :
    (h k : ℕ) (t : List RefreshToken)
    → h ≢ k
    → find (by_hash k) (drop_all (by_hash h) t) ≡ find (by_hash k) t
find-drop_all_other h k [] ne = refl
find-drop_all_other h k (r ∷ rs) ne = ground (arith, find-drop_all_other h k rs ne)

removed_computing :
    (s : Services) (d : (a b : ℕ) → s.sha256 a ≡ s.sha256 b → a ≡ b) (user_id gone token : ℕ)
    (w : World)
    → result ((remove (computing s) gone >> is_valid (computing s) user_id token) w)
      ≡ (if gone == token then some false else result (is_valid (computing s) user_id token w))
unfolding remove is_valid accepts running
removed_computing s d user_id gone token w = elim (Bool-cases (gone == token)) [
  | inl same ↦
      let e : gone ≡ token = ground arith in
      rw e (ground (arith, find-drop_all_same (s.sha256 token) w.refresh_tokens))
  | inr other ↦
      rw
        (
          other,
          find-drop_all_other (s.sha256 gone) (s.sha256 token) w.refresh_tokens
              (λ e. ground (arith, d gone token e)),
        )
        refl
]

-- Revoking one refresh token revokes that token and no other: it is refused from then on, and every
-- other token is judged as before.
pub remove-is_valid :
    (s : Services) (d : Documented s) (user_id gone token : ℕ) (w : World)
    → result ((remove s gone >> is_valid s user_id token) w)
      ≡ (if gone == token then some false else result (is_valid s user_id token w))
remove-is_valid s d = rw (services-eq d) (removed_computing s d.sha256_injective)
