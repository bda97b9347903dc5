-- ===== src/Manager/Later.antt =====
-- simulation_control.py: how a run may be paused, resumed and lost.
use daemon_supply_chain.Common.{◌≡◌, refl, subst, true, false, [], ◌∷◌}
use daemon_supply_chain.Manager.{Run, running, paused, resume, leave}
use daemon_supply_chain.Manager.Steps.{
  leaving, State, at, spawned, Step, resumed_by_call, moved, left, Reaches, here, more,
}

-- From a paused run whose worker is about to end, a state may be reached that reports RUNNING with
-- no request to pause, has no worker, and where resume starts none.
pub resume_while_leaving :
    (r : Run)
    → r.status ≡ paused
    → r.worker_active ≡ true
    → (s : State) × Reaches (at r (leaving ∷ [])) s
      × (s.run.status ≡ running)
      × (s.run.pause_requested ≡ false)
      × (s.workers ≡ [])
      × ((resume s.run).1 ≡ false)
unfolding resume leave
resume_while_leaving r is_paused active =
    let resumed : Run = record r { status = running; pause_requested = false } in
    let same : resume r ≡ (resumed, false) = rw (is_paused, active, resume) refl in
    let call : Step (at r (leaving ∷ [])) (at resumed (leaving ∷ [])) =
      subst (λ x. Step (at r (leaving ∷ [])) (at x.0 (spawned x.1 (leaving ∷ [])))) same
        (resumed_by_call r (leaving ∷ [])) in
    let ends : Step (at resumed (leaving ∷ [])) (at (leave resumed) []) =
      moved resumed (leave resumed) leaving [] [] [] (left resumed) in
    (at (leave resumed) [], more call (more ends (here _)), refl, refl, refl, refl)
