-- ===== src/System/Connections.antt =====
-- The desk under a client that connects.
use aalam_security_back.Common.{ℕ, Option, none, some, arith}
use aalam_security_back.Schema.{User, Role}
use aalam_security_back.Services.{Services, computing, JwtPayload}
use aalam_security_back.World.{running}
use aalam_security_back.World.Keeps.{Keeps, bind, skips, rules}
use aalam_security_back.System.{Desk, Reached}
use aalam_security_back.Gateway.Connect.{
  send_admin_bootstrap, send_operator_bootstrap, join_rooms, connect, schedule_token_expiry,
  handle_connection,
}

module _ (s : Services) (start : Desk) where
  joins : (sub : ℕ) (role : Role) → Keeps (Reached s.uuid start) (join_rooms (computing s) sub role)
  unfolding join_rooms
  joins sub Role.admin = unfold send_admin_bootstrap in search rules
  joins sub Role.operator = unfold send_operator_bootstrap in search rules depth 9
  joins sub Role.user = search rules

  accepts :
      (sub : ℕ) (role : Role) (timers : Option (Option ℕ × Option ℕ))
      → Keeps (Reached s.uuid start) (connect (computing s) sub role timers)
  unfolding connect
  accepts sub role none = skips
  accepts sub role (some (warn_at, kill_at)) = bind (joins sub role) (λ rooms. search rules)

  pub connects :
      (token : Option ℕ) → Keeps (Reached s.uuid start) (handle_connection (computing s) token)
  unfolding handle_connection running
  connects none = record { run = λ w r. r }
  connects (some token) = record {
    run = λ w r. ground (
      arith,
      λ (p : JwtPayload) (u : User).
          (accepts p.sub u.role (schedule_token_expiry w.now p.exp)).run w r,
    );
  }
