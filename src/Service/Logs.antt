-- ===== src/Service/Logs.antt =====
-- server.go: activityBridge, with activity.recent of activity_methods.go and the tool of
-- native_activity.go. `text` takes the bytes of a record to a Go string.
use vmux.Base.{
  ℤ, pos, negsuc, ℕ, zero, suc, false, List, [], ◌∷◌, Option, none, some, if◌then◌else◌, String,
  String-eq, ◌==◌, Bytes, Bytes-eq, codes,
}
use Prim.Native.String.{◌++◌}
use vmux.Activity.Event.{Event}
use vmux.Activity.Store.{Store, append, recent}
use vmux.Mcp.Tool.{ToolCallRecord, Called, succeeded, text_result, error_result}
use vmux.Service.Reply.{Reply, returned, invalid_params}

unfoldable pub session_or_default : String → String
session_or_default session = if session == "" then "default" else session

unfoldable pub summary_text : (Bytes → String) → ToolCallRecord → String
summary_text text rec =
    if rec.summary == [] then rec.tool else rec.tool ++ " — " ++ text rec.summary

-- The event that LogToolCall appends. Append numbers it.
unfoldable pub event_of : (Bytes → String) → ToolCallRecord → Event
unfolding session_or_default summary_text
event_of text rec = record {
  seq = 0;
  ts = rec.time;
  session_id = session_or_default rec.session_id;
  kind = "tool_call";
  actor = rec.upstream;
  summary = summary_text text rec;
  detail = text rec.args;
  refs = [];
  risk = if rec.is_error then "medium" else "low";
}

-- LogToolCall: the store, and the event that is notified
unfoldable pub log_tool_call :
    (String → String)
    → (Event → Option Bytes)
    → (Bytes → String)
    → Store
    → ToolCallRecord
    → Store × Event
unfolding append event_of
log_tool_call redact marshal text s rec =
    let (s', stored, ids) = append redact marshal s (event_of text rec) in (s', stored)

-- The parameters of activity.recent
pub record RecentParams : Type 0 where
  pub session_id : String
  pub limit : ℤ

unfoldable pub limit_of : ℤ → ℕ
limit_of (pos zero) = 200
limit_of (pos (suc n)) = suc n
limit_of (negsuc n) = 200

-- activityRecent
unfoldable pub activity_recent : Store → Option RecentParams → Reply (List Event)
unfolding limit_of
activity_recent s none = invalid_params
activity_recent s (some p) = returned (recent s p.session_id (limit_of p.limit))

-- The handler of activity_annotate: what it logs itself, and its result. `print` is jsonString of the
-- note, `now` the time, and `invalid` the text of the decoder's error.
unfoldable pub activity_annotate :
    (Bytes → Option Bytes) → (Bytes → Bytes) → ℕ → Bytes → Bytes → List ToolCallRecord × Called
unfolding text_result error_result
activity_annotate unmarshal print now invalid args = elim (unmarshal args) [
  | none ↦ ([], succeeded (error_result invalid))
  | some note ↦ (
    record {
      time = now;
      session_id = "";
      tool = "activity_annotate";
      upstream = "";
      args = print note;
      summary = note;
      duration = 0;
      is_error = false;
    }
        ∷ [],
    succeeded (text_result (codes "annotated")),
  )
]

-- Records that are logged one after another.
unfoldable pub log_all :
    (String → String)
    → (Event → Option Bytes)
    → (Bytes → String)
    → Store
    → List ToolCallRecord
    → Store
unfolding log_tool_call
log_all redact marshal text s [] = s
log_all redact marshal text s (rec ∷ recs) =
    log_all redact marshal text (log_tool_call redact marshal text s rec).0 recs
