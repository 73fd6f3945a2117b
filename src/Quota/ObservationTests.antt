-- ===== src/Quota/ObservationTests.antt =====
-- The observing ledger at one run.
use scientific_research_rada.Prelude.{[], Bool, none, ◌≡◌, refl}
use scientific_research_rada.Runs.Model.{DigestRunTrigger}
use scientific_research_rada.Quota.Observation.{ObservedRun, reserve, reserve_twice}

abbrev run : ObservedRun
run = record {
  id = 7;
  owner_id = 3;
  trigger = DigestRunTrigger.manual;
  maximum_papers = 5;
  frequency = none;
  send_email = Bool.false;
}

reserve_twice_example :
    reserve none 2 20 1 run (reserve none 1 10 1 run []) ≡ reserve none 1 10 1 run []
reserve_twice_example = reserve_twice none none 1 2 10 20 1 1 run run [] refl
