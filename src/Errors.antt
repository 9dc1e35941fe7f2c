-- ===== src/Errors.antt =====
-- common/errors: the machine codes, the statuses and the exceptions that carry them; and
-- common/utils/prisma-errors.ts. Messages are left out; `details` is kept.
use aalam_security_back.Common.{ℕ, Bool, true, false}
use aalam_security_back.Schema.{EmergencyStatus}

pub data ErrorCode : Type 0 where
  session_not_found session_already_closed session_already_claimed session_wrong_status : ErrorCode
  not_your_session not_assigned_to_session sos_in_progress : ErrorCode
  not_on_shift operator_busy shift_has_open_sessions not_an_operator operator_not_found : ErrorCode
  subscription_required subscription_expired venue_bind_required venue_not_found : ErrorCode
  demo_disabled password_reset_unavailable email_already_registered invalid_credentials : ErrorCode
  staff_cannot_self_delete active_sos_blocks_delete : ErrorCode
  telegram_already_linked phone_mismatch : ErrorCode

pub data HttpStatus : Type 0 where
  status_400 status_401 status_403 status_404 status_409 status_503 : HttpStatus

pub data Details : Type 0 where
  no_details : Details
  open_sessions : ℕ → Details
  session_status : EmergencyStatus → Details

pub data Exception : Type 0 where
  -- Prisma's P2025
  row_not_found : Exception
  -- Prisma's P2003
  foreign_key_missing : Exception
  -- Prisma's P2002
  unique_constraint_failed : Exception
  -- `timingSafeEqual` on buffers of unequal sizes
  range_error : Exception
  -- the Redis connection is down
  redis_unavailable : Exception
  app_exception : ErrorCode → HttpStatus → Details → Exception
  -- an exception of the framework, with no machine code
  http_exception : HttpStatus → Exception

abbrev pub bad_request : ErrorCode → Details → Exception
bad_request code details = app_exception code status_400 details

abbrev pub forbidden : ErrorCode → Details → Exception
forbidden code details = app_exception code status_403 details

abbrev pub not_found : ErrorCode → Details → Exception
not_found code details = app_exception code status_404 details

abbrev pub conflict : ErrorCode → Details → Exception
conflict code details = app_exception code status_409 details

abbrev pub is_prisma_row_not_found : Exception → Bool
is_prisma_row_not_found row_not_found = true
is_prisma_row_not_found _ = false
