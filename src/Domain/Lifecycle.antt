-- ===== src/Domain/Lifecycle.antt =====
-- The table of run transitions and the terminal statuses of domain/run.py.
use offboarding_orchestrator.Prelude.{true, false, ◌≡◌, refl, ◌↔◌}
use offboarding_orchestrator.Domain.RunStatus.{RunStatus}
use offboarding_orchestrator.Domain.Run.{may_move, is_terminal}

stuck : (s : RunStatus) → is_terminal s ≡ true → (t : RunStatus) → may_move s t ≡ false
unfolding is_terminal
stuck RunStatus.pending h t = absurd (cc)
stuck RunStatus.running h t = absurd (cc)
stuck RunStatus.paused h t = absurd (cc)
stuck RunStatus.completed h t = refl
stuck RunStatus.failed h t = refl
stuck RunStatus.cancelled h t = refl

movable : (s : RunStatus) → may_move s RunStatus.cancelled ≡ false → is_terminal s ≡ true
unfolding is_terminal
movable RunStatus.pending h = absurd (cc)
movable RunStatus.running h = absurd (cc)
movable RunStatus.paused h = absurd (cc)
movable RunStatus.completed h = refl
movable RunStatus.failed h = refl
movable RunStatus.cancelled h = refl

-- The terminal statuses are exactly the ones that the table of run transitions lets no transition
-- leave.
pub is_terminal_iff :
    (s : RunStatus) → (is_terminal s ≡ true) ↔ ((t : RunStatus) → may_move s t ≡ false)
is_terminal_iff s = (stuck s, λ h. movable s (h RunStatus.cancelled))

-- A run can be cancelled exactly while it is not terminal.
pub may_cancel_iff :
    (s : RunStatus) → (may_move s RunStatus.cancelled ≡ true) ↔ (is_terminal s ≡ false)
unfolding is_terminal
may_cancel_iff RunStatus.pending = (λ h. refl, λ h. refl)
may_cancel_iff RunStatus.running = (λ h. refl, λ h. refl)
may_cancel_iff RunStatus.paused = (λ h. refl, λ h. refl)
may_cancel_iff RunStatus.completed = (λ h. absurd (cc), λ h. absurd (cc))
may_cancel_iff RunStatus.failed = (λ h. absurd (cc), λ h. absurd (cc))
may_cancel_iff RunStatus.cancelled = (λ h. absurd (cc), λ h. absurd (cc))
