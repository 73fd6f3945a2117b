-- ===== src/Pipeline/EndsTests.antt =====
-- A claimed run whose provider answers the discovery and then fails.
use scientific_research_rada.Prelude.{[], ◌∷◌, false}
use scientific_research_rada.Runs.State.{claim_update}
use scientific_research_rada.Runs.Lease.{World, Session}
use scientific_research_rada.Pipeline.Execute.{Worker}
use scientific_research_rada.Pipeline.Tests.{run}

abbrev worker : Worker
worker = record {
  worker_id = "a";
  first_lease = 100;
  second_lease = 110;
  now = 70;
  verify = λ (s : Session). record { committed = s.committed; pending = s.committed };
  cut = λ m. m;
  stage_message = λ _ _. "Failed.";
  client_message = λ _. "Failed.";
}

abbrev world : World
world = record { db = record { runs = run ∷ []; is_closing = λ _. false }; usage = [] }

-- Another worker claims the run after its lease has ended.
abbrev take_over : World → World
take_over w = record w { db = (claim_update 7 "b" 200 150 w.db).0 }
