-- ===== src/Storage/Apply/Crons.antt =====
-- state.rs, `apply_event`: crons.
use oddjobs.Prelude.{ℕ, String, Option, none, some}
use oddjobs.Prelude.Map
use oddjobs.Prelude.Map.{Map}
use oddjobs.Core.Names.{scoped_name}
use oddjobs.Storage.State.{CronRecord, MaterializedState}
use oddjobs.Storage.Apply.Workers.{note_root}

unfoldable pub last_fired : Option CronRecord → Option ℕ
last_fired none = none
last_fired (some r) = r.last_fired_at_ms

unfoldable pub cron_started :
    ℕ → String → String → String → String → String → String → MaterializedState → MaterializedState
cron_started now cron_name project_root runbook_hash interval run_target namespace s =
    let key = scoped_name namespace cron_name in
    record s {
      project_roots = note_root namespace project_root s.project_roots;
      crons =
          Map.insert key
            (record {
              name = cron_name;
              namespace = namespace;
              project_root = project_root;
              runbook_hash = runbook_hash;
              status = "running";
              interval = interval;
              run_target = run_target;
              started_at_ms = now;
              last_fired_at_ms = last_fired (Map.get key s.crons);
            })
            s.crons;
    }

unfoldable pub cron_stopped : String → String → MaterializedState → MaterializedState
cron_stopped cron_name namespace s = record s {
  crons =
      Map.modify (scoped_name namespace cron_name) (λ c. record c { status = "stopped" }) s.crons;
}

unfoldable pub cron_fired : ℕ → String → String → MaterializedState → MaterializedState
cron_fired now cron_name namespace s = record s {
  crons =
      Map.modify (scoped_name namespace cron_name) (λ c. record c { last_fired_at_ms = some now })
        s.crons;
}

unfoldable pub cron_deleted : String → String → MaterializedState → MaterializedState
cron_deleted cron_name namespace s = record s {
  crons = Map.remove (scoped_name namespace cron_name) s.crons;
}
