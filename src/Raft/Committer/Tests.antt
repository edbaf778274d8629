-- ===== src/Raft/Committer/Tests.antt =====
-- Two entries that a leader has committed are executed.
use nu_raft.Common.{ℕ, zero, suc, ◌≡◌, ◌≤◌, ◌<◌, arith, refl, true, false, none, [], ◌∷◌}
use nu_raft.Raft.Types.{leader}
use nu_raft.Raft.Server.{Server}
use nu_raft.Raft.Committer.{Machine, commit_in_bg_exec}
use nu_raft.Raft.Committer.Quiet.{executed}
use nu_raft.Raft.Committer.Order.{CanRun, given_by, app_logs, commit_in_bg_exec-Committed}
use nu_raft.InmemLogStore
use nu_raft.InmemLogStore.Interface.{HeldStore, inmem}
use nu_raft.Raft.Example.{server_as}

abbrev machine : Machine
machine = record {
  wants_snapshot = true;
  snapshot_allowed = true;
  first_distance = none;
  paused = false;
}

abbrev ready : Server HeldStore
ready = record (server_as leader) { quick_commit_index = 3 }

ready-CanRun : (idx : ℕ) → 1 < idx → idx ≤ 3 → CanRun inmem idx ready
unfolding InmemLogStore.entry_at InmemLogStore.find_or_dummy InmemLogStore.find
ready-CanRun zero low high = absurd (omega arith)
ready-CanRun (suc zero) low high = absurd (omega arith)
ready-CanRun (suc (suc zero)) low high = record {
  not_broken = λ e. ground (arith, e);
  before_commit = omega arith;
  readable = λ e. absurd (ground (arith, e));
}
ready-CanRun (suc (suc (suc zero))) low high = record {
  not_broken = λ e. ground (arith, e);
  before_commit = omega arith;
  readable = λ e. absurd (ground (arith, e));
}
ready-CanRun (suc (suc (suc (suc n)))) low high = absurd (omega arith)

commit_in_bg_exec-Committed_example :
    let t = commit_in_bg_exec inmem machine ready in
    (t.sm_commit_index ≡ 3) × (executed t.effects ≡ (3, []) ∷ (2, 8 ∷ 9 ∷ []) ∷ [])
unfolding executed app_logs given_by InmemLogStore.entry_at InmemLogStore.find_or_dummy
    InmemLogStore.find InmemLogStore.next_slot
commit_in_bg_exec-Committed_example =
    commit_in_bg_exec-Committed inmem machine ready refl (omega arith) ready-CanRun
