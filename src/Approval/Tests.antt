-- ===== src/Approval/Tests.antt =====
-- The command lines of gate_test.go, and the theorems about the gate at concrete inputs.
use mathlib.Core.List.{flat_map}
use vmux.Base.{
  ◌≡◌, ◌≢◌, ◌⊎◌, inl, inr, refl, true, false, List, [], ◌∷◌, Option, none, some, String, codes,
  String-eq, lookup, arith, Every, map, if◌then◌else◌, ◌&&◌, ◌==◌,
}
use mathlib.Core.Bool.{false≢true}
use text.Mathlib.TextEquality.{eq_iff}
use vmux.Approval.Rules.{Rule, default_rules, first_match, sudo, IsFirst, fires, command_line}
use vmux.Approval.Regex.{match_string}
use vmux.Approval.Queue.{Action, PendingItem}
use vmux.Approval.Gate.{
  new_gate, mode, set_mode, valid_mode, mode_gate, evaluate, allow, need_approval, waiting,
  returned, System, Event, checks, decides, receives, cancels, step, run,
}
use vmux.Approval.Verdicts.{evaluate-gate_mode, mode-set_mode}
use vmux.Approval.Keys.{IsKeyed, run-IsKeyed}
use vmux.Approval.Safety.{run-needs_approval, decide-then_receive}

rule_of : Option Rule → String
rule_of none = ""
rule_of (some r) = r.id

abbrev verdict : String → List String → String
verdict command args = rule_of (first_match default_rules (codes command) (map codes args))

-- TestRulesFlagDangerousCommands
flags_dangerous :
    (verdict "rm" ("-rf" ∷ "node_modules" ∷ []) ≡ "rm-rf")
    × (verdict "sudo" ("rm" ∷ "x" ∷ []) ≡ "sudo")
    × (verdict "git" ("push" ∷ "origin" ∷ "main" ∷ "--force" ∷ []) ≡ "force-push")
    × (verdict "dd" ("if=/dev/zero" ∷ "of=/dev/disk2" ∷ []) ≡ "dd")
    × (verdict "chmod" ("-R" ∷ "777" ∷ "/" ∷ []) ≡ "chmod-777")
unfolding rule_of first_match fires match_string command_line flat_map
flags_dangerous = (refl, refl, refl, refl, refl)

-- TestRulesAllowNormalWorkflows
allows_normal :
    (verdict "npm" ("run" ∷ "build" ∷ []) ≡ "")
    × (verdict "git" ("push" ∷ "origin" ∷ "main" ∷ []) ≡ "")
    × (verdict "rm" ("stale.txt" ∷ []) ≡ "")
    × (verdict "ls" ("-la" ∷ []) ≡ "")
unfolding rule_of first_match fires match_string command_line flat_map
allows_normal = (refl, refl, refl, refl)

-- A new gate whose workspace "w" has been put into gate mode, and a command that runs sudo.
abbrev gated : System
gated = record { gate = record new_gate { modes = ("w", mode_gate) ∷ [] }; calls = [] }

abbrev sudo_action : Action
sudo_action = record {
  tool = "command_run";
  command = codes "sudo";
  args = codes "ls" ∷ [];
  workspace = "w";
}

gated-mode : mode gated.gate "w" ≡ mode_gate
unfolding mode lookup
gated-mode = refl

gated-IsKeyed : IsKeyed gated.gate.queue
unfolding lookup
gated-IsKeyed k item e = cc

sudo-held : (evaluate gated.gate sudo_action).rule ≡ some sudo
unfolding evaluate mode first_match fires match_string command_line lookup flat_map
sudo-held = refl

j-ne-i : ◌≢◌ {A = String} "j" "i"
j-ne-i e = false≢true ((eq_iff "j" "i").1 e)

evaluates_mode :
    ((evaluate gated.gate sudo_action).decision ≡ allow)
      × Every (λ q. fires q (command_line (codes "sudo") (codes "ls" ∷ [])) ≡ false) default_rules
    ⊎ ((r : Rule) × ((evaluate gated.gate sudo_action).decision ≡ need_approval)
        × ((evaluate gated.gate sudo_action).rule ≡ some r)
        × IsFirst default_rules (command_line (codes "sudo") (codes "ls" ∷ [])) r)
evaluates_mode = evaluate-gate_mode gated.gate sudo_action gated-mode refl

-- The user denies the item, its context ends, and another item is approved.
abbrev history : List Event
history = receives "i" ∷ decides "i" false ∷ decides "j" true ∷ receives "i" ∷ cancels "i" ∷ []

run-needs_approval_example :
    lookup "i" (run (step gated (checks "i" sudo_action)) history).calls ≢ some (returned true "")
run-needs_approval_example =
    run-needs_approval gated "i" sudo_action sudo history "" gated-IsKeyed sudo-held
      (unfold lookup in λ e. cc) (tt, (inr refl, (inl j-ne-i, (tt, (tt, tt)))))

keys_of_run : IsKeyed (run gated history).gate.queue
keys_of_run = run-IsKeyed gated history gated-IsKeyed

abbrev item : PendingItem
item = record { id = "i"; action = sudo_action; rule = sudo }

abbrev held : System
held = record {
  gate = record (gated.gate) {
    queue = record { items = ("i", item) ∷ []; channels = []; notices = 1 };
  };
  calls = ("i", waiting sudo) ∷ [];
}

held-IsKeyed : IsKeyed held.gate.queue
unfolding lookup
held-IsKeyed k it e = ground (arith, eq_iff k "i")

answer_received :
    lookup "i" (run held (decides "i" false ∷ receives "i" ∷ [])).calls
    ≡ some (returned false "denied: privilege escalation")
answer_received =
    (decide-then_receive held "i" sudo item false held-IsKeyed (unfold lookup in refl)
      (unfold lookup in refl)).0

mode_after_setting :
    mode (set_mode gated.gate "v" "sandbox").0 "w"
    ≡ (if valid_mode "sandbox" && ◌==◌ {A = String} "v" "w" then "sandbox" else mode gated.gate "w")
mode_after_setting = mode-set_mode gated.gate "v" "w" "sandbox"
