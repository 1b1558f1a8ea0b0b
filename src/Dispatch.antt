-- ===== src/Dispatch.antt =====
-- The worker's asynchronous event queue (src/worker/worker.cpp, `enqueueAsyncTask`,
-- `dispatchAsyncEvents`, `updateDispatchRuntimeMetrics`). What the code does to the outside (log
-- lines, the metrics file, the condition variable, HTTP calls, sleeps) is a list of effects in
-- their order. A method runs under `m_dispatchMutex`, so it is one step.
pub mod Invariant
pub mod Delivery
pub mod Schedule
use multi_coder.Prelude.{
  ℕ, zero, suc, ◌+◌, ◌-◌, ◌*◌, ◌%◌, Bool, true, false, ◌&&◌, ◌||◌, List, [], ◌∷◌, ◌++◌, Bytes,
  codes, to_string, ltb, leb, ◌==◌, if◌then◌else◌,
}
use multi_coder.Prelude.Int.{ℤ, pos, ltb_ℤ, pos_part}

-- `AsyncDispatchKind`
pub data Kind : Type 0 where
  icecast_metadata scte_sidecar : Kind

-- `AsyncDispatchTask`; `retries` is clamped to 0 .. 20 where a task is built.
pub record Task : Type 0 where
  pub kind : Kind
  pub stream_tag : Bytes
  pub url : Bytes
  pub user : Bytes
  pub pass : Bytes
  pub payload : Bytes
  pub idempotency_key : Bytes
  pub action : Bytes
  pub retries : ℕ

-- The five fields that `updateDispatchRuntimeMetrics` writes.
pub record Metrics : Type 0 where
  pub dispatch_queue_depth : ℕ
  pub metadata_dispatch_queue_depth : ℕ
  pub sidecar_dispatch_queue_depth : ℕ
  pub metadata_dispatch_dropped : ℕ
  pub sidecar_dispatch_dropped : ℕ

pub data Effect : Type 0 where
  log_line : Bytes → Effect
  sys_line : Bytes → Effect
  write_metrics : Metrics → Effect
  notify_one : Effect
  icecast_update : Bytes → Bytes → Bytes → Bytes → Effect
  sidecar_post : Bytes → Bytes → Bytes → Effect
  sleep_ms : ℕ → Effect

-- The `m_dispatch…` members of `Worker`; the counters are `int`.
pub record Dispatch : Type 0 where
  pub queue : List Task
  pub stop : Bool
  pub metadata_depth : ℕ
  pub sidecar_depth : ℕ
  pub metadata_dropped : ℕ
  pub sidecar_dropped : ℕ
  pub effects : List Effect

abbrev pub is_metadata : Kind → Bool
is_metadata icecast_metadata = true
is_metadata scte_sidecar = false

abbrev pub emit : Dispatch → List Effect → Dispatch
emit d es = record d { effects = d.effects ++ es }

unfoldable pub update_dispatch_runtime_metrics : Dispatch → Dispatch
update_dispatch_runtime_metrics d = emit d (
    write_metrics (record {
      dispatch_queue_depth = d.metadata_depth + d.sidecar_depth;
      metadata_dispatch_queue_depth = d.metadata_depth;
      sidecar_dispatch_queue_depth = d.sidecar_depth;
      metadata_dispatch_dropped = d.metadata_dropped;
      sidecar_dispatch_dropped = d.sidecar_dropped;
    })
    ∷ [])

-- `if (queueCapacity < 1) queueCapacity = 1;`
abbrev pub effective_capacity : ℤ → ℕ
effective_capacity c = if ltb_ℤ c (pos 1) then 1 else pos_part c

abbrev queue_depth : Kind → Dispatch → ℕ
queue_depth icecast_metadata d = d.metadata_depth
queue_depth scte_sidecar d = d.sidecar_depth

abbrev dropped : Kind → Dispatch → ℕ
dropped icecast_metadata d = d.metadata_dropped
dropped scte_sidecar d = d.sidecar_dropped

-- `++dropped`, by the reference that the kind selects
abbrev count_drop : Kind → Dispatch → Dispatch
count_drop icecast_metadata d = record d { metadata_dropped = d.metadata_dropped + 1 }
count_drop scte_sidecar d = record d { sidecar_dropped = d.sidecar_dropped + 1 }

-- `m_dispatchQueue.push_back(task); ++queueDepth;`
abbrev push_back : Kind → Task → Dispatch → Dispatch
push_back icecast_metadata t d = record d {
  queue = d.queue ++ t ∷ [];
  metadata_depth = d.metadata_depth + 1;
}
push_back scte_sidecar t d = record d {
  queue = d.queue ++ t ∷ [];
  sidecar_depth = d.sidecar_depth + 1;
}

abbrev full_message : Kind → Bytes
full_message icecast_metadata =
    codes "Metadata dispatch queue full; dropping outbound metadata update count="
full_message scte_sidecar = codes "SCTE sidecar queue full; dropping outbound sidecar event count="

-- The first refusal is logged, and every 25th.
drop_lines : Kind → ℕ → List Effect
drop_lines k n =
    let line = full_message k ++ to_string n in
    if n == 1 || n % 25 == 0 then log_line line ∷ sys_line line ∷ [] else []

unfoldable pub enqueue_async_task : Dispatch → Task → ℤ → Dispatch
unfolding drop_lines update_dispatch_runtime_metrics
enqueue_async_task d t capacity =
    if leb (effective_capacity capacity) (queue_depth t.kind d)
    then (let d' = count_drop t.kind d in
        emit (update_dispatch_runtime_metrics d') (drop_lines t.kind (dropped t.kind d')))
    else emit (update_dispatch_runtime_metrics (push_back t.kind t d)) (notify_one ∷ [])

unfoldable pub enqueue_icecast_metadata_update :
    Dispatch → Bytes → Bytes → Bytes → Bytes → Bytes → ℤ → Dispatch
unfolding enqueue_async_task
enqueue_icecast_metadata_update d tag url user pass payload capacity =
    let t : Task = record {
      kind = icecast_metadata;
      stream_tag = tag;
      url = url;
      user = user;
      pass = pass;
      payload = payload;
      idempotency_key = [];
      action = [];
      retries = 0;
    } in
    enqueue_async_task d t capacity

-- What one call of `postScteSidecarJson` reports; the network decides it.
pub record PostResult : Type 0 where
  pub ok : Bool
  pub status : ℕ
  pub err : Bytes

abbrev success_line : Task → ℕ → PostResult → Effect
success_line t attempt r = log_line (
    codes "SCTE sidecar POST success action="
    ++ (t.action
        ++ (codes " status="
            ++ (to_string r.status ++ (codes " attempt=" ++ to_string (attempt + 1))))))

abbrev failure_line : Task → ℕ → PostResult → Effect
failure_line t attempt r = log_line (
    codes "SCTE sidecar POST failed action="
    ++ (t.action ++ (codes " attempt=" ++ (to_string (attempt + 1) ++ (codes " err=" ++ r.err)))))

abbrev post_effect : Task → Effect
post_effect t = sidecar_post t.url t.payload t.idempotency_key

-- The loop `for (attempt = 0; attempt <= retries; ++attempt)`, on the rounds left.
unfoldable pub deliver_from : (ℕ → PostResult) → Task → ℕ → ℕ → Bool × List Effect
deliver_from post t zero attempt = (false, [])
deliver_from post t (suc left) attempt =
    let r = post attempt in
    let (delivered, es) = deliver_from post t left (attempt + 1) in
    let pause = if ltb attempt t.retries then sleep_ms (250 * (attempt + 1)) ∷ [] else [] in
    if r.ok
    then (true, post_effect t ∷ success_line t attempt r ∷ [])
    else (delivered, post_effect t ∷ failure_line t attempt r ∷ (pause ++ es))

pub give_up_text : Task → Bytes
give_up_text t =
    codes "SCTE sidecar POST giving up action="
    ++ (t.action ++ (codes " after " ++ (to_string (t.retries + 1) ++ codes " attempts")))

-- What the loop's round does with the task it took, after the lock is released.
unfoldable pub handle_task : (ℕ → PostResult) → Task → Kind → List Effect
unfolding deliver_from
handle_task post t icecast_metadata = icecast_update t.url t.user t.pass t.payload ∷ []
handle_task post t scte_sidecar =
    let (delivered, es) = deliver_from post t (t.retries + 1) 0 in
    if delivered then es else es ++ sys_line (give_up_text t) ∷ []

-- `if (depth > 0) --depth;`
abbrev decrement : ℕ → ℕ
decrement n = if ltb 0 n then n - 1 else n

abbrev pop_depth : Kind → Dispatch → Dispatch
pop_depth icecast_metadata d = record d { metadata_depth = decrement d.metadata_depth }
pop_depth scte_sidecar d = record d { sidecar_depth = decrement d.sidecar_depth }

-- One round of `dispatchAsyncEvents`: the thread waits, leaves the loop, or takes a task.
pub data Turn : Type 0 where
  waits leaves : Turn
  took : Task → Turn

pub dispatch_round : (Task → ℕ → PostResult) → List Task → Dispatch → Turn × Dispatch
unfolding update_dispatch_runtime_metrics handle_task
dispatch_round post [] d = (if d.stop then leaves else waits, d)
dispatch_round post (t ∷ rest) d =
    let d' = update_dispatch_runtime_metrics (pop_depth t.kind (record d { queue = rest })) in
    (took t, emit d' (handle_task (post t) t t.kind))

unfoldable pub dispatch_async_events : (Task → ℕ → PostResult) → Dispatch → Turn × Dispatch
unfolding dispatch_round
dispatch_async_events post d = dispatch_round post d.queue d

abbrev pub start : Dispatch
start = record {
  queue = [];
  stop = false;
  metadata_depth = 0;
  sidecar_depth = 0;
  metadata_dropped = 0;
  sidecar_dropped = 0;
  effects = [];
}
