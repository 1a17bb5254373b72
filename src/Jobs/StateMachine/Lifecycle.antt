-- ===== src/Jobs/StateMachine/Lifecycle.antt =====
-- The lifecycle graph behind internal/jobs/state_machine.go, as a relation.
use yolo_ave_mujica.Base.{◌≡◌, refl, ◌↔◌, ◌⊎◌, inl, inr, true, false, none, arith}
use yolo_ave_mujica.Jobs.Model.{
  Status, queued, running, succeeded, succeeded_with_errors, failed, canceled, retry_waiting,
  status_beq_iff, is_final,
}
use yolo_ave_mujica.Jobs.StateMachine.{can_transition, transitions}

-- The legal changes to another status.
pub data Edge : Status → Status → Type 0 where
  start : Edge queued running
  drop : Edge queued canceled
  succeed : Edge running succeeded
  succeed_partly : Edge running succeeded_with_errors
  fail : Edge running failed
  cancel : Edge running canceled
  wait : Edge running retry_waiting
  retry : Edge retry_waiting queued

pub ruleset edges = (start, drop, succeed, succeed_partly, fail, cancel, wait, retry)

-- Any number of legal changes.
pub data Reach : Status → Status → Type 0 where
  here : {s : Status} → Reach s s
  along : {s t u : Status} → Edge s t → Reach t u → Reach s u

pub Reach-trans : {s t u : Status} → Reach s t → Reach t u → Reach s u
Reach-trans here q = q
Reach-trans (along e p) q = along e (Reach-trans p q)

transitions-Edge : (s t : Status) → transitions s t ≡ true → Edge s t
unfolding transitions
transitions-Edge s t h = grind (arith, edges)

Edge-transitions : {s t : Status} → Edge s t → transitions s t ≡ true
unfolding transitions
Edge-transitions start = refl
Edge-transitions drop = refl
Edge-transitions succeed = refl
Edge-transitions succeed_partly = refl
Edge-transitions fail = refl
Edge-transitions cancel = refl
Edge-transitions wait = refl
Edge-transitions retry = refl

-- A change of status is accepted exactly when it changes nothing or follows an edge of the graph.
pub can_transition_iff :
    (from to : Status) → (can_transition from to ≡ none) ↔ ((from ≡ to) ⊎ Edge from to)
unfolding can_transition
can_transition_iff from to = (accepted, λ h. elim h [ inl e ↦ same e | inr e ↦ follow e ])
  where
    accepted : can_transition from to ≡ none → (from ≡ to) ⊎ Edge from to
    accepted h = ground (arith, status_beq_iff from to, transitions-Edge from to)

    same : from ≡ to → can_transition from to ≡ none
    same e = ground (arith, status_beq_iff from to)

    follow : Edge from to → can_transition from to ≡ none
    follow e = ground (arith, Edge-transitions e)

pub Edge-from_final : {s t : Status} → Edge s t → is_final s ≡ false
Edge-from_final start = refl
Edge-from_final drop = refl
Edge-from_final succeed = refl
Edge-from_final succeed_partly = refl
Edge-from_final fail = refl
Edge-from_final cancel = refl
Edge-from_final wait = refl
Edge-from_final retry = refl

-- No edge leaves a final status.
pub Reach-from_final : {s t : Status} → Reach s t → is_final s ≡ true → t ≡ s
Reach-from_final here h = refl
Reach-from_final (along e p) h = cc (Edge-from_final e)
