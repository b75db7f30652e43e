-- ===== src/Service/Tests.antt =====
-- The methods at concrete inputs.
use vmux.Base.{
  negsuc, ◌≡◌, ◌≢◌, refl, true, false, Bool, List, [], ◌∷◌, Option, none, some, String, String-eq,
  ◌==◌, Bytes, Bytes-eq, codes, Map, lookup, insert, delete, if◌then◌else◌, keep_last, arith, ◌≤◌,
  Every,
}
use text.Mathlib.TextEquality.{eq_iff}
use mathlib.Core.Bool.{false≢true}
use vmux.Activity.Event.{Event}
use vmux.Activity.Store.{new_store, ring_size}
use vmux.Approval.Gate.{Event as GateEvent, checks, sets_mode, run, mode_gate, Gate}
use mathlib.Core.List.{flat_map}
use vmux.Approval.Regex.{match_string}
use vmux.Approval.Queue
use vmux.Approval.Queue.{Action}
use vmux.BrowserSession.Screenshots.{
  Picture, Env, ScreenshotStore, new_store as no_shots, Shot, shot_of, ring_of,
}
use vmux.ChromeImport.Bookmarks.{Json, BookmarkFile, fresh_file, merge_bookmarks}
use vmux.ChromeImport.Profiles.{Machine, profile_dir, chrome_root}
use vmux.Mcp.Paths.{FilePath, join_path}
use vmux.Approval.Gate as Gates
use vmux.Approval.Rules as Rules
use vmux.Mcp.Tool.{ToolCallRecord}
use vmux.Rpc.Server.{Handler, returned as handled}
use vmux.Service.Reply.{returned, invalid_params}
use vmux.Service.Methods.{method_names, register_methods, is_among, register_methods-lookup}
use vmux.Service.Logs.{log_all, activity_recent, limit_of}
use vmux.Service.Logged.{tool_events, activity_recent-log_all}
use vmux.Service.Approvals.{approval_decide}
use vmux.Service.Answered.{IsAnswered, start, approval_decide-IsAnswered}
use vmux.Service.Browser.{browser_latest_shot, on_screenshot}
use vmux.Service.Latest.{on_screenshot-browser_latest_shot}
use vmux.Service.Imports.{
  World, is_component, chrome_import_bookmarks, merged, IsImport, chrome_import_bookmarks-IsImport,
}

abbrev handler : String → Handler
handler name = λ params. handled (codes name)

registers_methods :
    (m : Map String Handler) × ((register_methods handler ≡ some m)
      × ((n : String) → lookup n m ≡ (if is_among n method_names then some (handler n) else none)))
registers_methods = register_methods-lookup handler

abbrev tool_record : String → String → Bool → ToolCallRecord
tool_record session_id tool is_error = record {
  time = 7;
  session_id = session_id;
  tool = tool;
  upstream = "u";
  args = [];
  summary = [];
  duration = 0;
  is_error = is_error;
}

abbrev as_text : Bytes → String
as_text b = ""

abbrev hide : String → String
hide s = s

abbrev marshal : Event → Option Bytes
marshal e = some []

abbrev records : List ToolCallRecord
records =
    tool_record "" "command_run" false
    ∷ tool_record "s" "file_write" true
    ∷ tool_record "" "file_read" false
    ∷ []

small_limit : limit_of (negsuc 0) ≤ ring_size
unfolding limit_of
small_limit = omega arith

activity_recent-log_all_example :
    activity_recent
      (log_all hide marshal as_text (new_store [] (λ key. true)) records)
      (some (record { session_id = "default"; limit = negsuc 0 }))
    ≡ returned
        (keep_last (limit_of (negsuc 0)) (tool_events hide marshal as_text "default" 0 records))
activity_recent-log_all_example =
    activity_recent-log_all hide marshal as_text [] (λ key. true) records "default" (negsuc 0)
      small_limit

abbrev sudo_action : Action
sudo_action = record {
  tool = "command_run";
  command = codes "sudo";
  args = codes "ls" ∷ [];
  workspace = "w";
}

abbrev held : List GateEvent
held = sets_mode "w" mode_gate ∷ checks "i" sudo_action ∷ []

approval_decide-IsAnswered_example :
    IsAnswered
      (λ b. b)
      (run start held).gate
      "i"
      true
      (approval_decide (run start held).gate (some ("i", true)))
approval_decide-IsAnswered_example = approval_decide-IsAnswered (λ b. b) held "i" true

-- The held action is listed, and can be decided once.
decides_once :
    ((approval_decide (run start held).gate (some ("i", true))).1 ≡ returned tt)
    × ((approval_decide
          (approval_decide (run start held).gate (some ("i", true))).0
          (some ("i", true))).1
        ≡ invalid_params)
unfolding approval_decide run lookup insert delete Gates.check_start Gates.evaluate Gates.mode
    Gates.set_mode Rules.first_match Rules.fires Rules.command_line match_string flat_map Queue.add
decides_once = (refl, refl)

abbrev picture_of : Bytes → Option Picture
picture_of [] = none
picture_of (c ∷ s) = some (record { width = 4; height = 2; png = c ∷ s; thumbnail = [] })

abbrev camera : String → Env
camera id = record { id = id; now = 5; can_make = true; can_write = true; can_write_thumb = true }

abbrev one_shot : ScreenshotStore
one_shot =
    (on_screenshot hide marshal picture_of (camera "1") no_shots (new_store [] (λ key. true)) "u"
      (codes "x")).shots

ids_differ : ◌≢◌ {A = String} "1" "2"
ids_differ e = false≢true ((eq_iff "1" "2").1 e)

fresh_id : Every (λ (x : Shot). x.id ≢ "2") (ring_of one_shot "u")
unfolding on_screenshot ring_of lookup insert
fresh_id = (ids_differ, tt)

was_notified :
    (on_screenshot hide marshal picture_of
      (camera "2")
      one_shot
      (new_store [] (λ key. true))
      "u"
      (codes "y")).notified
    ≡ some (
        shot_of
          (camera "2")
          "u"
          (record { width = 4; height = 2; png = codes "y"; thumbnail = [] }))
unfolding on_screenshot
was_notified = refl

on_screenshot-browser_latest_shot_example :
    browser_latest_shot
      (on_screenshot hide marshal picture_of
        (camera "2")
        one_shot
        (new_store [] (λ key. true))
        "u"
        (codes "y")).shots
      (some "u")
    ≡ returned (record { shot_id = "2"; width = 4; height = 2; png = codes "y" })
on_screenshot-browser_latest_shot_example =
    on_screenshot-browser_latest_shot hide marshal picture_of (camera "2") one_shot
      (new_store [] (λ key. true)) "u" (codes "y")
      (record { width = 4; height = 2; png = codes "y"; thumbnail = [] })
      (shot_of (camera "2") "u" (record { width = 4; height = 2; png = codes "y"; thumbnail = [] }))
      refl fresh_id was_notified

abbrev no_bookmarks : BookmarkFile
no_bookmarks = fresh_file

abbrev json : Json
json = record {
  decode = λ s. some no_bookmarks;
  decode_onto = λ f s. no_bookmarks;
  encode = λ f. some (codes "t");
}

abbrev mac : Machine
mac = record { entries = λ p. none; exists = λ p. false; info_cache = λ p. [] }

abbrev world : World
world = record {
  home = some ("me" ∷ "Users" ∷ []);
  machine = mac;
  workspaces = ("w", "src" ∷ []) ∷ [];
  json = json;
  writable = λ p. true;
}

abbrev chrome : FilePath
chrome = "Chrome" ∷ "Google" ∷ "Application Support" ∷ "Library" ∷ "me" ∷ "Users" ∷ []

abbrev bookmarks : FilePath → Option Bytes
bookmarks [] = none
bookmarks (e ∷ p) = if e == "Default" then some (codes "b") else none

checks_component :
    (is_component "Profile 1" ≡ true)
    × (is_component "../x" ≡ false)
    × (is_component ".." ≡ false)
    × (is_component "." ≡ true)
unfolding is_component
checks_component = (refl, refl, refl, refl)

was_imported :
    chrome_import_bookmarks world bookmarks (some ("w", "Default"))
    ≡ merged ("Default" ∷ chrome) (profile_dir ("src" ∷ [])) (some (codes "t")) (some 0)
unfolding chrome_import_bookmarks merge_bookmarks profile_dir join_path lookup chrome_root
was_imported = refl

chrome_import_bookmarks-IsImport_example :
    IsImport world bookmarks "w" "Default"
      ("Default" ∷ chrome)
      (profile_dir ("src" ∷ []))
      (some (codes "t"))
      (some 0)
chrome_import_bookmarks-IsImport_example =
    chrome_import_bookmarks-IsImport world bookmarks "w" "Default" ("Default" ∷ chrome)
      (profile_dir ("src" ∷ [])) (some (codes "t")) (some 0) was_imported
