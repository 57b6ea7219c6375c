-- ===== src/Live/Tests.antt =====
-- Runs of a hub: a client that is served until a write fails, and one whose snapshot comes too late.
use uitgo_monorepo.Base.{ℕ, zero, suc, ◌≡◌, refl, true, false, none, some, List, [], ◌∷◌, ◌++◌}
use uitgo_monorepo.Live.{
  Hub, Event, writing, stopped, new_client, registers, broadcasts, leaves, writes, fails_write,
  snapshots, modify, each, fail_write_client, broadcast_client, leave_client, unregister_client,
  write_client, snapshot_client, step, run,
}
use uitgo_monorepo.Live.Panics.{Ended, run-Ended}
use uitgo_monorepo.Live.Delivery.{Delivered, run-Delivered}

abbrev ride_events : List Event
ride_events =
    broadcasts "arriving"
    ∷ writes 0
    ∷ registers
    ∷ broadcasts "in_ride"
    ∷ leaves 0
    ∷ fails_write 0
    ∷ []

abbrev watched : Hub
watched = new_client ∷ []

abbrev after_ride : Hub
after_ride =
    record {
      in_hub = false;
      buffer = [];
      closed = true;
      written = "arriving" ∷ [];
      pump = stopped (some "in_ride");
      left = true;
    }
    ∷ record {
      in_hub = true;
      buffer = "in_ride" ∷ [];
      closed = false;
      written = [];
      pump = writing;
      left = false;
    }
    ∷ []

run-Ended_example : Ended [] (registers ∷ ride_events) (run (registers ∷ ride_events) [])
run-Ended_example = run-Ended (registers ∷ ride_events) [] tt

ride_run : run ride_events watched ≡ some after_ride
unfolding run step modify each broadcast_client leave_client unregister_client write_client
    fail_write_client
ride_run = refl

run-Delivered_example : Delivered new_client ("arriving" ∷ "in_ride" ∷ []) after_ride 0
run-Delivered_example =
    run-Delivered ride_events watched 0
      (λ h. h, (λ h. h, (λ h. h, (λ h. h, (λ h. h, (λ h. h, tt)))))) ride_run refl

broadcast_times : ℕ → List Event
broadcast_times zero = []
broadcast_times (suc n) = broadcasts "status" ∷ broadcast_times n

-- A client whose channel was filled before the handler sends its snapshot: the program panics.
late_snapshot : run (registers ∷ broadcast_times 17 ++ snapshots 0 "snapshot" ∷ []) [] ≡ none
unfolding run step modify each broadcast_client snapshot_client broadcast_times
late_snapshot = refl
