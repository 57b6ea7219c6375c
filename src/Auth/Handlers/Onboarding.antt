-- ===== src/Auth/Handlers/Onboarding.antt =====
-- `RegisterDriver` of backend/internal/http/handlers/auth.go: an account and a profile of a driver.
use uitgo_monorepo.Base.{ℕ, String, Option, none, some}
use uitgo_monorepo.Base.Int.{pos}
use uitgo_monorepo.Errors.{Error, message, response, driver_already_exists, vehicle_already_exists}
use uitgo_monorepo.Base.Action.{Result, Action, ◌>>=◌, ◌>>◌}
use uitgo_monorepo.Http.{refuse, or_refuse, bound}
use uitgo_monorepo.Driver.{Driver, Vehicle}
use uitgo_monorepo.Auth.{User}
use uitgo_monorepo.Auth.Handlers.Data.{
  DriverProvisioner, AuthHandler, AuthResponse, RegisterRequest, trimmed_request,
}
use uitgo_monorepo.Auth.Handlers.Session.{reply_with_session}
use uitgo_monorepo.Auth.Handlers.Entry.{check_email, create_account}

pub record DriverVehicleParams : Type 0 where
  pub make : String
  pub model : String
  pub color : String
  pub plate_number : String

pub record RegisterDriverRequest : Type 0 where
  pub account : RegisterRequest
  pub license_number : String
  pub vehicle : Option DriverVehicleParams

abbrev pub given_vehicle : Option DriverVehicleParams → Option Vehicle
given_vehicle none = none
given_vehicle (some v) = some (record {
  id = "";
  driver_id = "";
  make = v.make;
  model = v.model;
  color = v.color;
  year = pos 0;
  plate_number = v.plate_number;
  created_at = 0;
  updated_at = 0;
})

-- `handleDriverRegistrationError`
unfoldable pub driver_registration_error : Error → Error
driver_registration_error driver_already_exists = response 409 (message "driver already exists")
driver_registration_error vehicle_already_exists = response 409 (message "vehicle already exists")
driver_registration_error e = response 500 e

module _ {W : Type 0} (h : AuthHandler W) where
  unfoldable pub create_driver_profile :
      DriverProvisioner W → User → RegisterDriverRequest → Action W Driver
  create_driver_profile drivers user req = or_refuse driver_registration_error (
      drivers.register user.id (record {
        full_name = req.account.name;
        phone = req.account.phone;
        license_number = req.license_number;
        avatar_url = none;
        vehicle = given_vehicle req.vehicle;
      }))

  onboard :
      Option (DriverProvisioner W) → Result RegisterDriverRequest → Action W (ℕ × AuthResponse)
  onboard none body = refuse 503 (message "driver registration unavailable")
  onboard (some drivers) body = do
    req ← bound body
    let trimmed = record req { account = trimmed_request req.account }
    check_email h trimmed.account.email
    user ← create_account h "driver" trimmed.account
    profile ← create_driver_profile drivers user trimmed
    reply_with_session h 201 user

  unfoldable pub register_driver : Result RegisterDriverRequest → Action W (ℕ × AuthResponse)
  unfolding onboard
  register_driver body = onboard h.driver_service body
