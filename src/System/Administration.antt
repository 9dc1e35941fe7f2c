-- ===== src/System/Administration.antt =====
-- The desk's moves under the handlers of the administrator.
use aalam_security_back.Common.{ℕ, ◌≡◌, refl, Bool, true, false, Option, arith}
use aalam_security_back.Schema.{Text, User}
use aalam_security_back.Services.{Services, computing}
use aalam_security_back.Rows.{count, set_first}
use aalam_security_back.Rows.Counts.{any-set_first}
use aalam_security_back.World.{World, running}
use aalam_security_back.World.Keeps.{
  Keeps, caught_not_found, bind, seq, atomic, modifies, gives, rules,
}
use aalam_security_back.Queries.{is_open_of, user_by_id}
use aalam_security_back.System.{Desk, desk, is_on_duty, back, close, draw, Reach, next, Reached}
use aalam_security_back.System.Effects.{
  then_assign, then_staff, updates, updates_user, draws, effects,
}
use aalam_security_back.System.Handlers.{on_duty_of_find}
use aalam_security_back.Tokens.{remove_all_for_user}
use aalam_security_back.Admin.Sessions.{
  is_free_unclosed, is_held_by_another, take_free, take_over, assign_session, reassign_session,
  unassign_session, close_session_admin,
}
use aalam_security_back.Admin.Operators.{
  bcrypt_hash, random_hex, UpdateOperatorDto, update_operator, set_operator_password, anonymize,
  erase_operator, delete_operator, set_shift, change_shift, set_operator_shift, create_operator,
}

module _ (s : Services) (start : Desk) where
  takes_free :
      (session_id operator_id : ℕ)
      → Keeps (Reached s.uuid start) (take_free (computing s) session_id operator_id)
  unfolding take_free running
  takes_free session_id operator_id = record {
    run = λ w r. ground (
      arith,
      on_duty_of_find operator_id w.users,
      then_assign r operator_id (is_free_unclosed session_id) (λ r hit. ground arith),
    );
  }

  takes_over :
      (session_id operator_id : ℕ)
      → Keeps (Reached s.uuid start) (take_over (computing s) session_id operator_id)
  unfolding take_over running
  takes_over session_id operator_id = record {
    run = λ w r. ground (
      arith,
      on_duty_of_find operator_id w.users,
      then_assign r operator_id (is_held_by_another session_id operator_id) (λ r hit. ground arith),
    );
  }

  pub assigns :
      (session_id operator_id : ℕ)
      → Keeps (Reached s.uuid start) (assign_session (computing s) session_id operator_id)
  unfolding assign_session
  assigns session_id operator_id =
      caught_not_found (bind (atomic (takes_free session_id operator_id)) (λ r. search effects))
        (search rules)

  pub reassigns :
      (session_id operator_id : ℕ)
      → Keeps (Reached s.uuid start) (reassign_session (computing s) session_id operator_id)
  unfolding reassign_session
  reassigns session_id operator_id = bind (search rules) (λ before.
      caught_not_found (bind (atomic (takes_over session_id operator_id)) (λ r. search effects))
        (search rules depth 8))

  pub unassigns :
      (session_id : ℕ) → Keeps (Reached s.uuid start) (unassign_session (computing s) session_id)
  unfolding unassign_session
  unassigns session_id = bind (search rules) (λ before.
      caught_not_found
        (bind (updates s start _ _ (λ r hit. back (ground arith))) (λ r. search effects))
        (search rules))

  pub closes :
      (session_id : ℕ) (resolution : Option Text)
      → Keeps (Reached s.uuid start) (close_session_admin (computing s) session_id resolution)
  unfolding close_session_admin
  closes session_id resolution = bind (search rules) (λ before.
      caught_not_found
        (bind (search rules) (λ now.
          bind (updates s start _ _ (λ r hit. close _ (ground arith) refl refl refl refl))
            (λ r. search effects)))
        (search rules))

  hashes : (password : Text) → Keeps (Reached s.uuid start) (bcrypt_hash (computing s) password)
  unfolding bcrypt_hash
  hashes password = record { run = λ w r. next r draw }

  draws_hex : Keeps (Reached s.uuid start) (random_hex (computing s))
  unfolding random_hex
  draws_hex = record { run = λ w r. next r draw }

  revokes : (user_id : ℕ) → Keeps (Reached s.uuid start) (remove_all_for_user (computing s) user_id)
  unfolding remove_all_for_user
  revokes user_id = search rules

  pub renames :
      (operator_id : ℕ) (dto : UpdateOperatorDto)
      → Keeps (Reached s.uuid start) (update_operator (computing s) operator_id dto)
  unfolding update_operator
  renames operator_id dto = seq (search rules) (
      bind (search rules)
        (λ taken. seq (search rules) (updates_user s start _ _ (λ o u on hit. on))))

  pub sets_password :
      (operator_id : ℕ) (password : Text)
      → Keeps (Reached s.uuid start) (set_operator_password (computing s) operator_id password)
  unfolding set_operator_password
  sets_password operator_id password = seq (search rules) (
      bind (hashes password)
        (λ h. seq (updates_user s start _ _ (λ o u on hit. on)) (revokes operator_id)))

  -- An operator with no open call may leave.
  erased :
      (operator_id : ℕ) (f : User → User) (w : World)
      → Reached s.uuid start w
      → count (is_open_of operator_id) w.sessions ≡ 0
      → Reach s.uuid start
          (record (desk w) { users = set_first (user_by_id operator_id) f w.users })
  erased operator_id f w r free = then_staff r _ (λ o busy.
      any-set_first (user_by_id operator_id) (is_on_duty o) f
        (λ u on hit.
          let same : o ≡ operator_id = ground arith in
          absurd (omega (arith, free, rw same at busy)))
        w.users)

  erases :
      (operator_id : ℕ) (password : Text)
      → Keeps (Reached s.uuid start) (erase_operator (computing s) operator_id password)
  unfolding erase_operator running
  erases operator_id password = record {
    run = λ w r. ground (arith, erased operator_id (anonymize w.now password) w r);
  }

  pub deletes :
      (operator_id : ℕ) → Keeps (Reached s.uuid start) (delete_operator (computing s) operator_id)
  unfolding delete_operator
  deletes operator_id = seq (search rules) (
      bind draws_hex (λ hex.
        bind (hashes hex)
          (λ p. bind (atomic (erases operator_id p)) (λ on. search (effects, revokes)))))

  changes :
      (operator_id : ℕ) (on : Bool)
      → Keeps (Reached s.uuid start) (change_shift (computing s) operator_id on)
  unfolding change_shift running
  changes operator_id true = record {
    run = λ w r. ground (
      arith,
      then_staff r (set_first (user_by_id operator_id) (set_shift w.now true) w.users) (λ o busy.
          any-set_first (user_by_id operator_id) (is_on_duty o) (set_shift w.now true)
            (λ u on hit. ground arith) w.users),
    );
  }
  changes operator_id false = record {
    run = λ w r. ground (arith, erased operator_id (set_shift w.now false) w r);
  }

  pub sets_shift :
      (operator_id : ℕ) (on : Bool)
      → Keeps (Reached s.uuid start) (set_operator_shift (computing s) operator_id on)
  unfolding set_operator_shift
  sets_shift operator_id on = bind (search rules) (λ found. bind (search rules) (λ operator.
      seq (search rules) (bind (atomic (changes operator_id on)) (λ u. search effects))))

  pub hires :
      (email password : Text)
      → Keeps (Reached s.uuid start) (create_operator (computing s) email password)
  unfolding create_operator
  hires email password = bind (search rules) (λ existing. seq (search rules) (
      bind (hashes password) (λ h. bind (search rules) (λ now.
        bind (draws s start)
          (λ id. seq (modifies _ (λ w r. then_staff r _ (λ o busy on. ground arith))) (gives _))))))
