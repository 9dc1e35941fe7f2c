-- ===== src/Roster/Departures.antt =====
-- The roster's invariant under the deletion of an account and of an operator.
use aalam_security_back.Common.{ℕ, Bool, arith}
use aalam_security_back.Schema.{Text, User}
use aalam_security_back.Services.{Services, computing}
use aalam_security_back.World.{World, update_user, running}
use aalam_security_back.World.Keeps.{Keeps, bind, seq, atomic, guarded, modifies, rules}
use aalam_security_back.Venues.{is_membership_of}
use aalam_security_back.Tokens.{remove_all_for_user}
use aalam_security_back.Gateway.{set_operator_shift_room, disconnect_user}
use aalam_security_back.Users.{
  unusable_password, wipe, erase_and_revoke, erase_user, delete_account,
}
use aalam_security_back.Admin.Operators.{bcrypt_hash, random_hex, erase_operator, delete_operator}
use aalam_security_back.Roster.{Roster}
use aalam_security_back.Roster.Rows.{drawn_again, some_removed}

module _ (s : Services) where
  abbrev R : World → Type 0
  R = Roster s.uuid

  changes_user : (p : User → Bool) (f : User → User) → Keeps R (update_user (computing s) p f)
  unfolding running
  changes_user p f = record { run = λ w r. ground arith }

  revokes : (user_id : ℕ) → Keeps R (remove_all_for_user (computing s) user_id)
  unfolding remove_all_for_user
  revokes user_id = search rules

  draws_password : Keeps R (unusable_password (computing s))
  unfolding unusable_password
  draws_password = record { run = λ w r. drawn_again (drawn_again r) }

  wipes :
      (user_id : ℕ) (password : Text) (now : ℕ) → Keeps R (wipe (computing s) user_id password now)
  unfolding wipe
  wipes user_id password now =
      seq (modifies _ (λ w r. some_removed r (is_membership_of user_id))) (changes_user _ _)

  pub deletes_account : (user_id : ℕ) → Keeps R (delete_account (computing s) user_id)
  unfolding delete_account erase_user erase_and_revoke
  deletes_account user_id = bind (search rules) (λ found. bind (search rules) (λ u. guarded _ (
      seq (search rules) (
        bind (search rules) (λ active. seq (search rules) (
          bind draws_password (λ password.
            bind (search rules)
              (λ now. seq (atomic (wipes u.id password now)) (revokes u.id)))))))))

  hashes : (password : Text) → Keeps R (bcrypt_hash (computing s) password)
  unfolding bcrypt_hash
  hashes password = record { run = λ w r. drawn_again r }

  draws_hex : Keeps R (random_hex (computing s))
  unfolding random_hex
  draws_hex = record { run = λ w r. drawn_again r }

  erases :
      (operator_id : ℕ) (password : Text)
      → Keeps R (erase_operator (computing s) operator_id password)
  unfolding erase_operator
  erases operator_id password = seq (search rules) (
      bind (search rules) (λ count. seq (search rules) (
        bind (search rules) (λ before.
          seq (modifies _ (λ w r. some_removed r (is_membership_of operator_id)))
            (bind (search rules) (λ now. seq (changes_user _ _) (search rules)))))))

  moves_room : (id : ℕ) (on : Bool) → Keeps R (set_operator_shift_room (computing s) id on)
  unfolding set_operator_shift_room
  moves_room id on = search rules

  disconnects : (id : ℕ) → Keeps R (disconnect_user (computing s) id)
  unfolding disconnect_user
  disconnects id = search rules

  pub deletes_operator : (operator_id : ℕ) → Keeps R (delete_operator (computing s) operator_id)
  unfolding delete_operator
  deletes_operator operator_id = seq (search rules) (
      bind draws_hex (λ hex. bind (hashes hex) (λ p.
        bind (atomic (erases operator_id p))
          (λ on. search (rules, revokes, moves_room, disconnects)))))
