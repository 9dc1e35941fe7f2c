-- ===== src/System/Safety.antt =====
-- What holds throughout every history of the program.
use mathlib.Core.List.{Memᴰ}
use aalam_security_back.Common.{List}
use aalam_security_back.Schema.{EmergencySession}
use aalam_security_back.Services.{Services, Documented}
use aalam_security_back.Auth.{AuthServices}
use aalam_security_back.World.{World}
use aalam_security_back.System.{desk}
use aalam_security_back.System.Invariant.{Inv, Reach-Inv}
use aalam_security_back.System.Evolution.{Later, Reach-Later}
use aalam_security_back.System.Calls.{Call, history}
use aalam_security_back.System.Histories.{history-Reached}

-- The invariant of the desk holds after every history that starts where it holds: an operator
-- leads one open call at most and is on shift while leading it, every session's columns agree with
-- its status, and identifiers are drawn once.
pub history-Inv :
    (s : Services) (d : Documented s) (a : AuthServices) (calls : List Call) (w : World)
    → Inv s.uuid (desk w)
    → Inv s.uuid (desk (history s a calls w))
history-Inv s d a calls w inv =
    Reach-Inv s.uuid d.uuid_injective (history-Reached s d a calls w) inv

-- No history loses a session: it stays in the table with its identifier and its user, and once it
-- is closed its row is never changed again.
pub history-Later :
    (s : Services) (d : Documented s) (a : AuthServices) (calls : List Call) (w : World)
    (r : EmergencySession)
    → Memᴰ r w.sessions
    → Later r (history s a calls w).sessions
history-Later s d a calls w r at = Reach-Later (history-Reached s d a calls w) r at
