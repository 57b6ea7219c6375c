-- ===== src/Http/Drivers/Tests.antt =====
-- The handlers of drivers at requests over a database in memory.
use uitgo_monorepo.Base.{String, ◌≡◌, refl, ◌⊎◌, none, [], ◌∷◌}
use uitgo_monorepo.Base.Text.{is_empty}
use uitgo_monorepo.Errors.{message}
use uitgo_monorepo.Base.Action.{ok}
use uitgo_monorepo.Base.Action.Ensures.{Ensures, returned, Ensures-raise_if}
use uitgo_monorepo.Driver.Service.{me, enrich_driver}
use uitgo_monorepo.Driver.Service.Dispatch.Wiring.{wired}
use uitgo_monorepo.Driver.Memory.{Memory, runtime, trip_store, assignment_store, drivers}
use uitgo_monorepo.Http.Drivers.{update_status}
use uitgo_monorepo.Http.Drivers.Data.{DriverHandler}
use uitgo_monorepo.Http.Drivers.Own.{IsOwn, update_status-IsOwn}

abbrev handler : DriverHandler Memory
handler = record {
  service = wired runtime trip_store assignment_store drivers none none;
  rfc3339 = λ n. "1970-01-01T00:00:00Z";
  parse_float = λ s. none;
  error_text = λ e. "";
}

abbrev quiet : Memory
quiet = record { trips = []; assignments = []; onlines = "d" ∷ []; clock = 7 }

me-Kept :
    (user_id : String) (w : Memory)
    → w.onlines ≡ quiet.onlines
    → Ensures
        (λ _ w'. w'.onlines ≡ quiet.onlines)
        (λ _ w'. w'.onlines ≡ quiet.onlines)
        (me handler.service user_id w)
unfolding me enrich_driver drivers
me-Kept user_id w p =
    Ensures-raise_if (is_empty user_id) (message "user id required") _ w (λ _. p) (λ _. returned p)

update_status-IsOwn_example :
    Ensures
      (λ a w'. IsOwn handler (record { user_id = "d"; role = "driver" }) "d" quiet)
      (λ e w'.
        (w'.onlines ≡ quiet.onlines)
        ⊎ IsOwn handler (record { user_id = "d"; role = "driver" }) "d" quiet)
      (update_status handler (record { user_id = "d"; role = "driver" }) "d" (ok " Offline") quiet)
update_status-IsOwn_example =
    update_status-IsOwn handler (λ w. w.onlines ≡ quiet.onlines) me-Kept
      (record { user_id = "d"; role = "driver" }) "d" (ok " Offline") quiet refl
