-- ===== src/Tokens.antt =====
-- modules/refresh-token/refresh-token.service.ts: refresh tokens by their hashes.
pub mod Laws
use aalam_security_back.Common.{
  ℕ, ◌+◌, ◌*◌, Bool, true, false, Option, none, some, ◌==◌, ◌&&◌, ltb, ◌∷◌,
}
use aalam_security_back.Schema.{RefreshToken}
use aalam_security_back.Services.{Services}
use aalam_security_back.World.{World, M, ◌>>=◌, ◌>>◌, pure, read, modify}

module _ (s : Services) where
  unfoldable pub store : ℕ → ℕ → ℕ → M (Unit {0})
  store user_id token ttl_seconds = modify (λ w. record w {
    refresh_tokens =
        record {
          user_id = user_id;
          token_hash = s.sha256 token;
          expires_at = w.now + ttl_seconds * 1000;
        }
        ∷ w.refresh_tokens;
  })

  unfoldable pub accepts : ℕ → ℕ → Option RefreshToken → Bool
  accepts now user_id none = false
  accepts now user_id (some row) = row.user_id == user_id && ltb now row.expires_at

  unfoldable pub is_valid : ℕ → ℕ → M Bool
  unfolding accepts
  is_valid user_id token = do
    row ←
        read (λ w.
          s.find_first (λ (r : RefreshToken). r.token_hash == s.sha256 token) w.refresh_tokens)
    read (λ w. accepts w.now user_id row)

  unfoldable pub remove : ℕ → M (Unit {0})
  remove token = modify (λ w. record w {
    refresh_tokens =
        s.delete_many (λ (r : RefreshToken). r.token_hash == s.sha256 token) w.refresh_tokens;
  })

  unfoldable pub remove_all_for_user : ℕ → M (Unit {0})
  remove_all_for_user user_id = modify (λ w. record w {
    refresh_tokens = s.delete_many (λ (r : RefreshToken). r.user_id == user_id) w.refresh_tokens;
  })

  unfoldable pub remove_expired : M ℕ
  remove_expired = do
    count ← read (λ w. s.count_rows (λ (r : RefreshToken). ltb r.expires_at w.now) w.refresh_tokens)
    modify (λ w. record w {
      refresh_tokens =
          s.delete_many (λ (r : RefreshToken). ltb r.expires_at w.now) w.refresh_tokens;
    })
    pure count
