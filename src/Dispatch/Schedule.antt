-- ===== src/Dispatch/Schedule.antt =====
-- The queue over a whole schedule of calls (src/worker/worker.cpp, `enqueueAsyncTask` from the
-- producers' threads, rounds of `dispatchAsyncEvents` from its own). Each step holds
-- `m_dispatchMutex`, so a run of the threads is a list of steps.
use multi_coder.Prelude.{
  ℕ, suc, ◌+◌, ◌≤◌, Bool, true, List, [], ◌∷◌, ◌++◌, ◌≡◌, refl, sym, ◌∙◌, arith, ap, replicate,
  length, ltb, append_assoc, append-nil, if◌then◌else◌,
}
use multi_coder.Prelude.Int.{ℤ}
use multi_coder.Dispatch.{
  Kind, icecast_metadata, scte_sidecar, Task, Dispatch, PostResult, Turn, waits, leaves, took,
  enqueue_async_task, dispatch_round, dispatch_async_events, effective_capacity,
}
use multi_coder.Dispatch.Invariant.{
  IsCounted, enqueue-IsCounted, dispatch-IsCounted, metadata_tasks, sidecar_tasks,
}

pub data Op : Type 0 where
  offer : Task → ℤ → Op
  round : Op

abbrev pub taken : Turn → List Task → List Task
taken (took t) ts = t ∷ ts
taken waits ts = ts
taken leaves ts = ts

-- The tasks that the dispatcher took, in order, and the final state.
unfoldable pub run : (Task → ℕ → PostResult) → List Op → Dispatch → List Task × Dispatch
run post [] d = ([], d)
run post (offer t c ∷ ops) d = run post ops (enqueue_async_task d t c)
run post (round ∷ ops) d =
    let (turn, d') = dispatch_async_events post d in
    let (ts, last) = run post ops d' in (taken turn ts, last)

abbrev pub tasks_like : Kind → List Task → ℕ
tasks_like icecast_metadata q = metadata_tasks q
tasks_like scte_sidecar q = sidecar_tasks q

-- There is room for a task: fewer tasks of its kind are queued than its call allows.
abbrev pub admits : Dispatch → Task → ℤ → Bool
admits d t c = ltb (tasks_like t.kind d.queue) (effective_capacity c)

-- The offers that find room.
unfoldable pub admitted : (Task → ℕ → PostResult) → List Op → Dispatch → List Task
admitted post [] d = []
admitted post (offer t c ∷ ops) d =
    let rest = admitted post ops (enqueue_async_task d t c) in
    if admits d t c then t ∷ rest else rest
admitted post (round ∷ ops) d = admitted post ops (dispatch_async_events post d).1

abbrev pub offers : List Op → ℕ
offers [] = 0
offers (offer _ _ ∷ ops) = suc (offers ops)
offers (round ∷ ops) = offers ops

abbrev pub total_dropped : Dispatch → ℕ
total_dropped d = d.metadata_dropped + d.sidecar_dropped

enqueue_by_kind :
    (k : Kind) (d : Dispatch) (t : Task) (c : ℤ)
    → t.kind ≡ k
    → IsCounted d
    → ((enqueue_async_task d t c).queue ≡ (if admits d t c then d.queue ++ t ∷ [] else d.queue))
      × (total_dropped (enqueue_async_task d t c)
          ≡ (if admits d t c then total_dropped d else suc (total_dropped d)))
unfolding enqueue_async_task
enqueue_by_kind icecast_metadata d t c e h = ground arith
enqueue_by_kind _ d t c e h = ground arith

-- An offer joins the end of the queue or is counted as dropped.
pub enqueue-queue :
    (d : Dispatch) (t : Task) (c : ℤ)
    → IsCounted d
    → ((enqueue_async_task d t c).queue ≡ (if admits d t c then d.queue ++ t ∷ [] else d.queue))
      × (total_dropped (enqueue_async_task d t c)
          ≡ (if admits d t c then total_dropped d else suc (total_dropped d)))
enqueue-queue d t c = enqueue_by_kind t.kind d t c refl

round_in :
    (post : Task → ℕ → PostResult) (q : List Task) (d : Dispatch)
    → d.queue ≡ q
    → (taken (dispatch_round post q d).0 (dispatch_round post q d).1.queue ≡ q)
      × (total_dropped (dispatch_round post q d).1 ≡ total_dropped d)
unfolding dispatch_round
round_in post [] d e = ground arith
round_in post (t ∷ rest) d e = ground arith

-- A round takes the front of the queue, if there is one.
pub dispatch-queue :
    (post : Task → ℕ → PostResult) (d : Dispatch)
    → (taken (dispatch_async_events post d).0 (dispatch_async_events post d).1.queue ≡ d.queue)
      × (total_dropped (dispatch_async_events post d).1 ≡ total_dropped d)
unfolding dispatch_async_events
dispatch-queue post d = round_in post d.queue d refl

taken-append : (turn : Turn) (xs ys : List Task) → taken turn xs ++ ys ≡ taken turn (xs ++ ys)
taken-append (took t) xs ys = refl
taken-append waits xs ys = refl
taken-append leaves xs ys = refl

-- In every schedule from a state whose counters are right, the tasks that the dispatcher took,
-- followed by those still queued, are the tasks queued at the start followed by those that were
-- admitted, in this order: nothing is lost, doubled or reordered.
pub run_fifo :
    (post : Task → ℕ → PostResult) (ops : List Op) (d : Dispatch)
    → IsCounted d
    → (run post ops d).0 ++ (run post ops d).1.queue ≡ d.queue ++ admitted post ops d
unfolding run admitted
run_fifo post [] d h = sym (append-nil d.queue)
run_fifo post (offer t c ∷ ops) d h =
    let ih = run_fifo post ops (enqueue_async_task d t c) (enqueue-IsCounted d t c h) in
    ground (
      arith,
      enqueue-queue d t c h,
      append_assoc d.queue (t ∷ []) (admitted post ops (enqueue_async_task d t c)),
    )
run_fifo post (round ∷ ops) d h =
    let (turn, d') = dispatch_async_events post d in
    let rest = admitted post ops d' in
    taken-append turn (run post ops d').0 (run post ops d').1.queue
    ∙ ap (taken turn) (run_fifo post ops d' (dispatch-IsCounted post d h))
    ∙ sym (taken-append turn d'.queue rest)
    ∙ ap (λ q. q ++ rest) (dispatch-queue post d).0

-- In every schedule from a state whose counters are right, each offer is admitted or counted as
-- dropped: the admitted tasks and the drop counters at the end are the offers and the drop
-- counters at the start.
pub run_accounts :
    (post : Task → ℕ → PostResult) (ops : List Op) (d : Dispatch)
    → IsCounted d
    → length (admitted post ops d) + total_dropped (run post ops d).1 ≡ offers ops + total_dropped d
unfolding run admitted
run_accounts post [] d h = omega arith
run_accounts post (offer t c ∷ ops) d h =
    let ih = run_accounts post ops (enqueue_async_task d t c) (enqueue-IsCounted d t c h) in
    ground (arith, enqueue-queue d t c h)
run_accounts post (round ∷ ops) d h =
    let ih = run_accounts post ops (dispatch_async_events post d).1 (dispatch-IsCounted post d h) in
    ground (arith, dispatch-queue post d)

run-IsCounted :
    (post : Task → ℕ → PostResult) (ops : List Op) (d : Dispatch)
    → IsCounted d
    → IsCounted (run post ops d).1
unfolding run
run-IsCounted post [] d h = h
run-IsCounted post (offer t c ∷ ops) d h =
    run-IsCounted post ops (enqueue_async_task d t c) (enqueue-IsCounted d t c h)
run-IsCounted post (round ∷ ops) d h =
    run-IsCounted post ops (dispatch_async_events post d).1 (dispatch-IsCounted post d h)

-- No call of the schedule allows more than `cap` tasks.
abbrev pub AllWithin : ℕ → List Op → Type 0
AllWithin cap [] = Unit
AllWithin cap (offer _ c ∷ ops) = (effective_capacity c ≤ cap) × AllWithin cap ops
AllWithin cap (round ∷ ops) = AllWithin cap ops

-- Both counters are at most `cap`.
pub record IsBounded (cap : ℕ) (d : Dispatch) : Type 0 where
  pub metadata_bounded : d.metadata_depth ≤ cap
  pub sidecar_bounded : d.sidecar_depth ≤ cap

enqueue-IsBounded :
    (cap : ℕ) (k : Kind) (d : Dispatch) (t : Task) (c : ℤ)
    → t.kind ≡ k
    → effective_capacity c ≤ cap
    → IsBounded cap d
    → IsBounded cap (enqueue_async_task d t c)
unfolding enqueue_async_task
enqueue-IsBounded cap icecast_metadata d t c e f h = ground arith
enqueue-IsBounded cap _ d t c e f h = ground arith

round-IsBounded :
    (cap : ℕ) (post : Task → ℕ → PostResult) (q : List Task) (d : Dispatch)
    → IsBounded cap d
    → IsBounded cap (dispatch_round post q d).1
unfolding dispatch_round
round-IsBounded cap post [] d h = h
round-IsBounded cap post (t ∷ rest) d h = ground arith

run-IsBounded :
    (cap : ℕ) (post : Task → ℕ → PostResult) (ops : List Op) (d : Dispatch)
    → AllWithin cap ops
    → IsBounded cap d
    → IsBounded cap (run post ops d).1
unfolding run dispatch_async_events
run-IsBounded cap post [] d w h = h
run-IsBounded cap post (offer t c ∷ ops) d w h =
    run-IsBounded cap post ops (enqueue_async_task d t c) w.1
      (enqueue-IsBounded cap t.kind d t c refl w.0 h)
run-IsBounded cap post (round ∷ ops) d w h =
    run-IsBounded cap post ops (dispatch_async_events post d).1 w
      (round-IsBounded cap post d.queue d h)

-- After every schedule whose calls allow at most `cap` tasks of a kind, the queue holds at most
-- `cap` tasks of either kind, if it does at the start and the counters are right there.
pub run_bounded :
    (cap : ℕ) (post : Task → ℕ → PostResult) (ops : List Op) (d : Dispatch)
    → AllWithin cap ops
    → IsCounted d
    → metadata_tasks d.queue ≤ cap
    → sidecar_tasks d.queue ≤ cap
    → (metadata_tasks (run post ops d).1.queue ≤ cap)
      × (sidecar_tasks (run post ops d).1.queue ≤ cap)
run_bounded cap post ops d w h m s =
    let c = run-IsCounted post ops d h in
    let b = run-IsBounded cap post ops d w (ground arith) in ground arith

round_takes :
    (post : Task → ℕ → PostResult) (t : Task) (q : List Task) (d : Dispatch)
    → d.queue ≡ t ∷ q
    → let (turn, d') = dispatch_async_events post d in
      (turn ≡ took t) × (d'.queue ≡ q) × (d'.stop ≡ d.stop)
unfolding dispatch_async_events
round_takes post t q d e = rw e (unfold dispatch_round in ground arith)

round_leaves :
    (post : Task → ℕ → PostResult) (d : Dispatch)
    → d.queue ≡ []
    → d.stop ≡ true
    → (dispatch_async_events post d).0 ≡ leaves
unfolding dispatch_async_events
round_leaves post d e s = rw e (unfold dispatch_round in rw s)

drain_in :
    (post : Task → ℕ → PostResult) (q : List Task) (d : Dispatch)
    → d.queue ≡ q
    → d.stop ≡ true
    → let (ts, last) = run post (replicate (length q) round) d in
      (ts ≡ q) × ((dispatch_async_events post last).0 ≡ leaves)
unfolding run
drain_in post [] d e s = (refl, round_leaves post d e s)
drain_in post (t ∷ q) d e s =
    let d' = (dispatch_async_events post d).1 in
    let (turn, rest, still) = round_takes post t q d e in
    let (all, left) = drain_in post q d' rest (still ∙ s) in
    (
      ap (λ x. taken x (run post (replicate (length q) round) d').0) turn ∙ ap (λ ts. t ∷ ts) all,
      left,
    )

-- Once `m_dispatchStop` is set, as many rounds as there are tasks queued take them all, in order,
-- and the round after them leaves the loop.
pub drain_on_stop :
    (post : Task → ℕ → PostResult) (d : Dispatch)
    → d.stop ≡ true
    → let (ts, last) = run post (replicate (length d.queue) round) d in
      (ts ≡ d.queue) × ((dispatch_async_events post last).0 ≡ leaves)
drain_on_stop post d s = drain_in post d.queue d refl s
