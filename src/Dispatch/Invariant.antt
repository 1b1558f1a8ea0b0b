-- ===== src/Dispatch/Invariant.antt =====
-- The depth counters of the queue (src/worker/worker.cpp, `enqueueAsyncTask`,
-- `dispatchAsyncEvents`).
use multi_coder.Prelude.{ℕ, Bool, not, List, [], ◌∷◌, ◌≡◌, refl, arith, count_by, count_by-append}
use multi_coder.Prelude.Int.{ℤ}
use multi_coder.Dispatch.{
  Kind, icecast_metadata, Task, Dispatch, PostResult, is_metadata, enqueue_async_task,
  dispatch_round, dispatch_async_events,
}

abbrev pub metadata_task : Task → Bool
metadata_task t = is_metadata t.kind

abbrev pub sidecar_task : Task → Bool
sidecar_task t = not (is_metadata t.kind)

abbrev pub metadata_tasks : List Task → ℕ
metadata_tasks = count_by metadata_task

abbrev pub sidecar_tasks : List Task → ℕ
sidecar_tasks = count_by sidecar_task

-- Each counter is the number of queued tasks of its kind.
pub record IsCounted (d : Dispatch) : Type 0 where
  pub metadata_counted : d.metadata_depth ≡ metadata_tasks d.queue
  pub sidecar_counted : d.sidecar_depth ≡ sidecar_tasks d.queue

kind-IsCounted :
    (k : Kind) (d : Dispatch) (t : Task) (c : ℤ)
    → t.kind ≡ k
    → IsCounted d
    → IsCounted (enqueue_async_task d t c)
unfolding enqueue_async_task
kind-IsCounted icecast_metadata d t c e h = ground (
  arith,
  count_by-append metadata_task d.queue (t ∷ []),
  count_by-append sidecar_task d.queue (t ∷ []),
)
kind-IsCounted _ d t c e h = ground (
  arith,
  count_by-append metadata_task d.queue (t ∷ []),
  count_by-append sidecar_task d.queue (t ∷ []),
)

pub enqueue-IsCounted :
    (d : Dispatch) (t : Task) (c : ℤ) → IsCounted d → IsCounted (enqueue_async_task d t c)
enqueue-IsCounted d t c = kind-IsCounted t.kind d t c refl

round-IsCounted :
    (post : Task → ℕ → PostResult) (q : List Task) (d : Dispatch)
    → d.queue ≡ q
    → IsCounted d
    → IsCounted (dispatch_round post q d).1
unfolding dispatch_round
round-IsCounted post [] d e h = h
round-IsCounted post (t ∷ rest) d e h = ground arith

pub dispatch-IsCounted :
    (post : Task → ℕ → PostResult) (d : Dispatch)
    → IsCounted d
    → IsCounted (dispatch_async_events post d).1
unfolding dispatch_async_events
dispatch-IsCounted post d = round-IsCounted post d.queue d refl
