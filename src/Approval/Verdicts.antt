-- ===== src/Approval/Verdicts.antt =====
-- Which actions the gate holds back, and the modes.
use vmux.Base.{
  ◌≡◌, ◌≢◌, ◌⊎◌, inl, inr, false, ◌&&◌, ◌||◌, List, none, some, String, Bytes, String-eq, ◌==◌,
  if◌then◌else◌, lookup-insert, arith, test_of_ne, Every,
}
use vmux.Approval.Rules.{Rule, first_match, command_line, IsFirst, first_firing-cases, fires}
use vmux.Approval.Queue.{Action}
use vmux.Approval.Gate.{
  Gate, allow, deny, need_approval, mode, valid_mode, set_mode, mode_gate, mode_sandbox, evaluate,
}

first_match-cases :
    (rules : List Rule) (command : Bytes) (args : List Bytes)
    → (first_match rules command args ≡ none)
        × Every (λ q. fires q (command_line command args) ≡ false) rules
      ⊎ ((r : Rule) × (first_match rules command args ≡ some r)
          × IsFirst rules (command_line command args) r)
unfolding first_match
first_match-cases rules command args = first_firing-cases rules (command_line command args)

-- In gate mode a command is allowed and no rule fires on its command line, or it needs approval and
-- the verdict names the first rule that fires.
pub evaluate-gate_mode :
    (g : Gate) (a : Action)
    → mode g a.workspace ≡ mode_gate
    → a.tool ≡ "command_run"
    → ((evaluate g a).decision ≡ allow)
        × Every (λ q. fires q (command_line a.command a.args) ≡ false) g.rules
      ⊎ ((r : Rule) × ((evaluate g a).decision ≡ need_approval)
          × ((evaluate g a).rule ≡ some r)
          × IsFirst g.rules (command_line a.command a.args) r)
unfolding evaluate
evaluate-gate_mode g a m t = elim (first_match-cases g.rules a.command a.args) [
  | inl h ↦ inl (rw (m, t, h.0), h.1)
  | inr h ↦ inr (h.0, rw (m, t, h.1), rw (m, t, h.1), h.2)
]

-- Outside gate mode nothing waits for approval: in sandbox mode commands and file writes are denied
-- and all else is allowed; in any other mode everything is allowed.
pub evaluate-other_modes :
    (g : Gate) (a : Action)
    → mode g a.workspace ≢ mode_gate
    → (evaluate g a).decision ≡ (
        if mode g a.workspace == mode_sandbox && (a.tool == "command_run" || a.tool == "file_write")
        then deny
        else allow)
unfolding evaluate
evaluate-other_modes g a h = rw (test_of_ne (mode g a.workspace) mode_gate h) (ground arith)

-- A workspace has the mode that was last set validly; an invalid mode changes nothing.
pub mode-set_mode :
    (g : Gate) (workspace other m : String)
    → mode (set_mode g workspace m).0 other
      ≡ (if valid_mode m && workspace == other then m else mode g other)
unfolding mode set_mode
mode-set_mode g workspace other m = ground (arith, lookup-insert workspace other m g.modes)
