-- ===== src/Errors.antt =====
-- The sentinel errors of backend/internal/domain/errors.go, and the other errors of the program.
use Prim.Native.Nat.{ℕ, compare, Ordering}
use mathlib.Core.Bool.{Bool, true, false}
use Prim.Native.String.{String}

pub data Error : Type 0 where
  trip_not_found invalid_status notification_not_found saved_place_not_found : Error
  driver_not_found driver_already_exists vehicle_already_exists driver_offline : Error
  no_drivers_available trip_assignment_not_found assignment_conflict : Error
  wallet_invalid_amount wallet_insufficient_funds : Error
  -- an `errors.New` at the place of use
  message : String → Error
  -- an error that a library or the database returned, by a number that the program never reads
  external : ℕ → Error
  -- an error reply that a handler has written: the HTTP status and the text, which is that of an error
  response : ℕ → Error → Error

-- `gorm.ErrRecordNotFound`
abbrev pub record_not_found : Error
record_not_found = external 0

-- `gorm.ErrDuplicatedKey`
abbrev pub duplicated_key : Error
duplicated_key = external 1

-- `errors.Is(err, gorm.ErrRecordNotFound)`
abbrev pub is_record_not_found : Error → Bool
is_record_not_found (external n) = elim (compare n 0) [ Ordering.eq ↦ true | _ ↦ false ]
is_record_not_found _ = false

-- `errors.Is(err, gorm.ErrDuplicatedKey)`
abbrev pub is_duplicated_key : Error → Bool
is_duplicated_key (external n) = elim (compare n 1) [ Ordering.eq ↦ true | _ ↦ false ]
is_duplicated_key _ = false
