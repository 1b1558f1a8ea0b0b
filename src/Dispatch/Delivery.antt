-- ===== src/Dispatch/Delivery.antt =====
-- The retries of one sidecar task (src/worker/worker.cpp, the loop of `dispatchAsyncEvents`).
use multi_coder.Prelude.{
  ℕ, zero, suc, ◌+◌, ◌≤◌, Bool, true, false, [], ◌∷◌, ◌≡◌, arith, count_by, count_by-append,
  if◌then◌else◌, Option, some, none, is_some,
}
use multi_coder.Dispatch.{
  Task, Effect, sys_line, sidecar_post, PostResult, scte_sidecar, deliver_from, handle_task,
  give_up_text,
}

abbrev pub is_post : Effect → Bool
is_post (sidecar_post _ _ _) = true
is_post _ = false

abbrev pub is_sys : Effect → Bool
is_sys (sys_line _) = true
is_sys _ = false

-- The first attempt from `attempt` on, among `left`, that succeeds.
abbrev pub first_success : (ℕ → PostResult) → ℕ → ℕ → Option ℕ
first_success post zero attempt = none
first_success post (suc left) attempt =
    let rest = first_success post left (attempt + 1) in
    if (post attempt).ok then some attempt else rest

abbrev pub attempts_made : Option ℕ → ℕ → ℕ
attempts_made none all = all
attempts_made (some k) all = k + 1

deliver_posts :
    (post : ℕ → PostResult) (t : Task) (left attempt : ℕ)
    → let (delivered, es) = deliver_from post t left attempt in
      let first = first_success post left attempt in
      (delivered ≡ is_some first)
      × (count_by is_post es + attempt ≡ attempts_made first (left + attempt))
      × (count_by is_sys es ≡ 0)
unfolding deliver_from
deliver_posts post t zero attempt = ground arith
deliver_posts post t (suc left) attempt = ground (arith, deliver_posts post t left (attempt + 1))

attempts-le :
    (post : ℕ → PostResult) (left attempt : ℕ)
    → attempts_made (first_success post left attempt) (left + attempt) ≤ left + attempt
attempts-le post zero attempt = omega arith
attempts-le post (suc left) attempt = ground (arith, attempts-le post left (attempt + 1))

-- A sidecar task is posted until the first success, and at most retries + 1 times, whatever the
-- posts report; the system log gets one line, that it was given up, exactly when no attempt
-- succeeds.
pub handle_task_posts :
    (post : ℕ → PostResult) (t : Task)
    → let es = handle_task post t scte_sidecar in
      let first = first_success post (t.retries + 1) 0 in
      (count_by is_post es ≡ attempts_made first (t.retries + 1))
      × (count_by is_post es ≤ t.retries + 1)
      × (count_by is_sys es ≡ (if is_some first then 0 else 1))
unfolding handle_task
handle_task_posts post t =
    let es = (deliver_from post t (t.retries + 1) 0).1 in
    ground (
      arith,
      deliver_posts post t (t.retries + 1) 0,
      attempts-le post (t.retries + 1) 0,
      count_by-append is_post es (sys_line (give_up_text t) ∷ []),
      count_by-append is_sys es (sys_line (give_up_text t) ∷ []),
    )
