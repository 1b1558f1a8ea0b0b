-- ===== src/Tests/Queue.antt =====
-- Schedules of the worker's event queue (src/worker/worker.cpp, `enqueueAsyncTask`,
-- `dispatchAsyncEvents`).
use multi_coder.Prelude.{
  ℕ, ◌+◌, ◌≤◌, true, false, List, [], ◌∷◌, ◌++◌, ◌≡◌, refl, arith, codes, length, replicate, ◌==◌,
  if◌then◌else◌, count_by, is_some,
}
use multi_coder.Prelude.Int.{pos}
use multi_coder.Dispatch.{
  Task, icecast_metadata, scte_sidecar, Dispatch, PostResult, start, leaves, dispatch_async_events,
  handle_task, enqueue_async_task,
}
use multi_coder.Dispatch.Invariant.{IsCounted, metadata_tasks, sidecar_tasks}
use multi_coder.Dispatch.Schedule.{
  Op, offer, round, run, admitted, total_dropped, run_fifo, run_accounts, run_bounded,
  drain_on_stop,
}
use multi_coder.Dispatch.Delivery.{handle_task_posts, first_success, attempts_made, is_post, is_sys}

abbrev update : Task
update = record {
  kind = icecast_metadata;
  stream_tag = codes "main";
  url = codes "icecast://host:8000/live";
  user = codes "source";
  pass = codes "pw";
  payload = codes "Title";
  idempotency_key = [];
  action = [];
  retries = 0;
}

abbrev sidecar : Task
sidecar = record {
  kind = scte_sidecar;
  stream_tag = [];
  url = codes "http://host/scte";
  user = [];
  pass = [];
  payload = codes "{}";
  idempotency_key = codes "k1";
  action = codes "START_BREAK";
  retries = 2;
}

-- The third attempt succeeds.
abbrev third_time : ℕ → PostResult
third_time n =
    if n == 2
    then record { ok = true; status = 200; err = [] }
    else record { ok = false; status = 500; err = codes "down" }

abbrev post : Task → ℕ → PostResult
post t n = third_time n

-- Two updates where one has room, a sidecar event, and two rounds.
abbrev schedule : List Op
schedule =
    offer update (pos 1) ∷ offer update (pos 1) ∷ offer sidecar (pos 0) ∷ round ∷ round ∷ round ∷ []

start-IsCounted : IsCounted start
start-IsCounted = record { metadata_counted = refl; sidecar_counted = refl }

schedule_takes : (run post schedule start).0 ≡ update ∷ sidecar ∷ []
unfolding run dispatch_async_events enqueue_async_task
schedule_takes = refl

schedule_drops : total_dropped (run post schedule start).1 ≡ 1
unfolding run dispatch_async_events enqueue_async_task
schedule_drops = refl

run_fifo_example :
    (run post schedule start).0 ++ (run post schedule start).1.queue ≡ admitted post schedule start
run_fifo_example = run_fifo post schedule start start-IsCounted

run_accounts_example :
    length (admitted post schedule start) + total_dropped (run post schedule start).1 ≡ 3
run_accounts_example = run_accounts post schedule start start-IsCounted

run_bounded_example :
    (metadata_tasks (run post schedule start).1.queue ≤ 1)
    × (sidecar_tasks (run post schedule start).1.queue ≤ 1)
run_bounded_example =
    run_bounded 1 post schedule start (omega arith, (omega arith, (omega arith, tt)))
      start-IsCounted (omega arith) (omega arith)

abbrev stopping : Dispatch
stopping = record start {
  queue = update ∷ sidecar ∷ [];
  stop = true;
  metadata_depth = 1;
  sidecar_depth = 1;
}

drain_on_stop_example :
    let (ts, last) = run post (replicate 2 round) stopping in
    (ts ≡ update ∷ sidecar ∷ []) × ((dispatch_async_events post last).0 ≡ leaves)
drain_on_stop_example = drain_on_stop post stopping refl

handle_task_posts_example :
    let es = handle_task third_time sidecar scte_sidecar in
    let first = first_success third_time 3 0 in
    (count_by is_post es ≡ attempts_made first 3)
    × (count_by is_post es ≤ 3)
    × (count_by is_sys es ≡ (if is_some first then 0 else 1))
handle_task_posts_example = handle_task_posts third_time sidecar

posts_three_times : count_by is_post (handle_task third_time sidecar scte_sidecar) ≡ 3
unfolding handle_task
posts_three_times = refl
