-- ===== src/Service/Approvals.antt =====
-- activity_methods.go: the methods of the approval gate and of replay.
use vmux.Base.{
  ℕ, ℤ, Bool, true, false, List, [], ◌∷◌, Option, none, some, String, String-eq, Bytes, map,
}
use vmux.Activity.Event.{Event}
use vmux.Approval.Queue.{Queue, PendingView}
use vmux.Approval.Queue
use vmux.Approval.Gate.{Gate, set_mode, mode}
use vmux.Replay.Timeline.{Timeline, timeline, failed, empty, panicked, shown}
use vmux.Replay.Snapshot.{Snapshot, at}
use vmux.Service.Reply.{Reply, returned, invalid_params, failed as failed_reply}

-- redactPending, with Redact as an argument
unfoldable pub redact_pending : (Bytes → Bytes) → List PendingView → List PendingView
redact_pending redact [] = []
redact_pending redact (v ∷ views) =
    record v { command = redact v.command; args = map redact v.args } ∷ redact_pending redact views

-- approvalList
unfoldable pub approval_list : (Bytes → Bytes) → Gate → Reply (List PendingView)
unfolding redact_pending Queue.list
approval_list redact g = returned (redact_pending redact (Queue.list g.queue))

unfoldable pub decided : Gate → Queue × Bool → Gate × Reply Unit
decided g (queue, true) = (record g { queue = queue }, returned tt)
decided g (queue, false) = (record g { queue = queue }, invalid_params)

-- approvalDecide, on an id and whether the action is allowed
unfoldable pub approval_decide : Gate → Option (String × Bool) → Gate × Reply Unit
unfolding decided Queue.decide
approval_decide g none = (g, invalid_params)
approval_decide g (some (id, allow)) = decided g (Queue.decide g.queue id allow)

unfoldable pub mode_set : Gate × Bool → Gate × Reply Unit
mode_set (g, true) = (g, returned tt)
mode_set (g, false) = (g, invalid_params)

-- approvalSetMode, on a workspace and a mode
unfoldable pub approval_set_mode : Gate → Option (String × String) → Gate × Reply Unit
unfolding mode_set set_mode
approval_set_mode g none = (g, invalid_params)
approval_set_mode g (some (workspace_id, m)) = mode_set (set_mode g workspace_id m)

-- approvalMode
unfoldable pub approval_mode : Gate → Option String → Reply String
unfolding mode
approval_mode g none = invalid_params
approval_mode g (some workspace_id) = returned (mode g workspace_id)

-- A timeline that panics ends the program.
unfoldable pub timeline_reply : Timeline → Option (Reply Timeline)
timeline_reply failed = some failed_reply
timeline_reply empty = some (returned empty)
timeline_reply panicked = none
timeline_reply (shown start end moments) = some (returned (shown start end moments))

-- replayTimeline, on the events of each session; `none` is a panic, which nothing recovers.
unfoldable pub replay_timeline :
    (String → Option (List Event)) → Option (String × ℤ) → Option (Reply Timeline)
unfolding timeline_reply timeline
replay_timeline all none = some invalid_params
replay_timeline all (some (session_id, bucket_seconds)) =
    timeline_reply (timeline (all session_id) bucket_seconds)

unfoldable pub at_reply : Option (List Event) → ℕ → ℤ → Reply Snapshot
unfolding at
at_reply none t window_seconds = failed_reply
at_reply (some events) t window_seconds = returned (at events t window_seconds)

-- replayAt, on a session, a time and the seconds of the window
unfoldable pub replay_at :
    (String → Option (List Event)) → Option (String × (ℕ × ℤ)) → Reply Snapshot
unfolding at_reply
replay_at all none = invalid_params
replay_at all (some (session_id, (t, window_seconds))) = at_reply (all session_id) t window_seconds
