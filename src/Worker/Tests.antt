-- ===== src/Worker/Tests.antt =====
-- Runs and instances for src/primihub/node/worker/worker.cc.
use primihub.Prelude.{
  ◌==◌, ◌≡◌, refl, true, false, none, some, List, [], ◌∷◌, Bytes, codes, Retcode,
}
use primihub.Worker.{
  StatusCode, TaskStatus, Worker, update_all, create, set_party_count, wait_until_task_finish,
}
use primihub.Worker.Verdict.{judge, Explains, reported, update_all_lem}
use primihub.Prelude.Dict.{assign}

abbrev report : Bytes → StatusCode → TaskStatus
report party status = record {
  request_id = codes "r";
  party = party;
  status = status;
  message = [];
}

abbrev both_done : List TaskStatus
both_done =
    report (codes "A") StatusCode.running
    ∷ report (codes "A") StatusCode.success
    ∷ report (codes "B") StatusCode.success
    ∷ []

both_decide : judge 2 [] both_done none ≡ some Retcode.success
unfolding judge assign ◌==◌
both_decide = refl

update_all_lem_example :
    (v : Worker) × (update_all both_done (set_party_count 2 (create (codes "r"))) ≡ some v)
    × (wait_until_task_finish v ≡ judge 2 [] both_done none)
    × Explains 2 [] both_done (wait_until_task_finish v)
    × (v.final_status ≡ reported both_done [])
    × (v.task_status.items ≡ both_done)
update_all_lem_example = update_all_lem 2 (codes "r") both_done

abbrev decided : Worker
decided = record {
  worker_id = codes "r";
  task_status = record { items = []; stop = false };
  final_status = [];
  task_finish = some Retcode.fail;
  party_count = 2;
  scheduler_finished = true;
}

abbrev with_report : Worker
with_report = record decided {
  task_status = record { items = report (codes "A") StatusCode.success ∷ []; stop = false };
}
