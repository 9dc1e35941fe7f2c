-- ===== src/Tests/Parts.antt =====
-- The theorems of the parts at small inputs.
use aalam_security_back.Common.{◌≡◌, ◌≢◌, refl, true, some, List, [], ◌∷◌, arith}
use aalam_security_back.Schema.{EmergencySession, EmergencyStatus}
use aalam_security_back.World.{
  World, Event, Payload, LockKey, PushMessage, PushKind, after, result, running,
}
use aalam_security_back.Cache.{acquire_lock, set_lock, set_operator_heartbeat}
use aalam_security_back.Cache.Locks.{
  take_lock, give_back, pause, lock_calls, elapse, acquire_lock-excludes,
}
use aalam_security_back.Cache.Heartbeats.{is_present, set_operator_heartbeat-is_present}
use aalam_security_back.Gateway.Deliveries.{received, tell, assigned, tell-is_recipient}
use aalam_security_back.Push.{post_to_expo}
use aalam_security_back.Push.Batches.{Sent, post_to_expo-Sent}
use aalam_security_back.Tokens.{store, is_valid}
use aalam_security_back.Tokens.Laws.{store-is_valid}
use aalam_security_back.Tests.Fixtures.{services, documented, night, sos, busy, client}

got_it : result (acquire_lock services LockKey.stale_assignments 45 night) ≡ some (some 10)
unfolding acquire_lock set_lock running
got_it = refl

acquire_lock-excludes_example :
    result (
      acquire_lock services LockKey.stale_assignments 45 (
        lock_calls services
          (pause 40000
            ∷ take_lock LockKey.stale_assignments 45
            ∷ give_back LockKey.stale_assignments 11
            ∷ [])
          (after (acquire_lock services LockKey.stale_assignments 45 night))))
    ≢ some (some 12)
acquire_lock-excludes_example =
    acquire_lock-excludes services documented LockKey.stale_assignments 45 45 10 night
      (pause 40000
        ∷ take_lock LockKey.stale_assignments 45
        ∷ give_back LockKey.stale_assignments 11
        ∷ [])
      got_it (tt, (tt, ((λ e. absurd (omega (arith, e))), tt))) (omega arith) 12

abbrev held : World
held = record night {
  locks = record { key = LockKey.stale_assignments; value = 9; expires = 20000 } ∷ [];
}

set_operator_heartbeat-is_present_example :
    result (
      is_present services 1 180000
        (elapse 179999 (after (set_operator_heartbeat services 1 night))))
    ≡ some true
set_operator_heartbeat-is_present_example =
    set_operator_heartbeat-is_present services documented 1 180000 179999 night refl (omega arith)

abbrev led : EmergencySession
led = record sos { status = EmergencyStatus.assigned; assigned_operator_id = some 1 }

tell-is_recipient_example :
    received client (after (tell services (assigned 3 led) busy)).emitted
    ≡ (Event.emergency_assigned, Payload.session_card led) ∷ []
tell-is_recipient_example = tell-is_recipient services documented (assigned 3 led) client busy

abbrev alert : List PushMessage
alert = record { to = 100; kind = PushKind.push_emergency_new 7 } ∷ []

post_to_expo-Sent_example : Sent alert night (after (post_to_expo services alert (100 ∷ []) night))
post_to_expo-Sent_example = post_to_expo-Sent services alert (100 ∷ []) night

store-is_valid_example :
    result (is_valid services 3 42 (elapse 59999 (after (store services 3 42 60 night))))
    ≡ some true
store-is_valid_example = store-is_valid services documented 3 3 42 60 59999 night
