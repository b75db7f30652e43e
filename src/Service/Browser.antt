-- ===== src/Service/Browser.antt =====
-- browser_methods.go, with OnScreenshot and the output tap of server.go.
use vmux.Base.{
  ℕ, Bool, List, [], ◌∷◌, Option, none, some, if◌then◌else◌, String, String-eq, ◌==◌, Bytes, length,
  map,
}
use vmux.Activity.Event.{Event}
use vmux.Activity.Store.{Store, append}
use vmux.BrowserSession.Screenshots.{
  Shot, Picture, ScreenshotStore, Env, add, latest, list, sessions, read_full, clear,
}
use vmux.BrowserSession.Browsers.{Browser, Manager, stop}
use vmux.BrowserSession.Ports.{PortDetector, scan}
use vmux.Service.Reply.{Reply, returned, invalid_params, internal_error, failed}

-- sessionInfo
pub record SessionInfo : Type 0 where
  pub session_id : String
  pub shot_count : ℕ
  pub latest_shot : String

unfoldable pub shot_id : Option Shot → String
shot_id none = ""
shot_id (some shot) = shot.id

-- browserList
unfoldable pub browser_list : ScreenshotStore → List SessionInfo
unfolding shot_id
browser_list s =
    map
      (λ sid. record {
        session_id = sid;
        shot_count = length (list s sid);
        latest_shot = shot_id (latest s sid);
      })
      (sessions s)

-- The reply of browserLatestShot, with the bytes that base64 encodes
pub record LatestShot : Type 0 where
  pub shot_id : String
  pub width : ℕ
  pub height : ℕ
  pub png : Bytes

unfoldable pub latest_png : Shot → Option Bytes → Reply LatestShot
latest_png shot none = failed
latest_png shot (some png) =
    returned (record { shot_id = shot.id; width = shot.width; height = shot.height; png = png })

unfoldable pub latest_reply : ScreenshotStore → String → Option Shot → Reply LatestShot
unfolding latest_png
latest_reply s sid none = invalid_params
latest_reply s sid (some shot) = latest_png shot (read_full s sid shot.id)

-- browserLatestShot
unfoldable pub browser_latest_shot : ScreenshotStore → Option String → Reply LatestShot
unfolding latest_reply
browser_latest_shot s none = invalid_params
browser_latest_shot s (some sid) = latest_reply s sid (latest s sid)

-- browserClose: the screenshots and the browsers
unfoldable pub browser_close :
    ScreenshotStore → Manager → Option String → (ScreenshotStore × Manager) × Reply Unit
browser_close s m none = ((s, m), invalid_params)
browser_close s m (some sid) = ((clear s sid, stop m sid), returned tt)

unfoldable pub focus_named : (String → Bool) → Option Browser → Reply Unit
focus_named runs none = internal_error
focus_named runs (some b) =
    let asked = if runs b.name then returned tt else failed in
    if b.name == "" then internal_error else asked

-- browserFocus, with whether osascript succeeds for a browser's name
unfoldable pub browser_focus : (String → Bool) → Manager → Reply Unit
unfolding focus_named
browser_focus runs m = focus_named runs m.browser

-- The event that OnScreenshot appends.
unfoldable pub shot_event : String → Shot → Event
shot_event upstream shot = record {
  seq = 0;
  ts = shot.captured_at;
  session_id = upstream;
  kind = "screenshot";
  actor = upstream;
  summary = "screenshot captured";
  detail = "";
  refs = ("shotId", shot.id) ∷ ("sessionId", upstream) ∷ [];
  risk = "";
}

-- What OnScreenshot leaves: the screenshots, the events, and the shot whose capture was notified.
pub record Captured : Type 0 where
  pub shots : ScreenshotStore
  pub activity : Store
  pub notified : Option Shot

unfoldable pub capture_stored :
    (String → String)
    → (Event → Option Bytes)
    → Store
    → String
    → ScreenshotStore
    → Option Shot
    → Captured
unfolding shot_event append
capture_stored redact marshal act upstream s none = record {
  shots = s;
  activity = act;
  notified = none;
}
capture_stored redact marshal act upstream s (some shot) = record {
  shots = s;
  activity = (append redact marshal act (shot_event upstream shot)).0;
  notified = some shot;
}

-- OnScreenshot
unfoldable pub on_screenshot :
    (String → String)
    → (Event → Option Bytes)
    → (Bytes → Option Picture)
    → Env
    → ScreenshotStore
    → Store
    → String
    → Bytes
    → Captured
unfolding capture_stored add
on_screenshot redact marshal decode env s act upstream png =
    let (s', shot) = add decode env s upstream png in
    capture_stored redact marshal act upstream s' shot

-- The output tap: the ports that are notified
unfoldable pub output_tap :
    (Bytes → List Bytes) → PortDetector → String → Bytes → PortDetector × List (String × ℕ)
output_tap matches d sid output =
    let (d', ports) = scan matches d sid output in (d', map (λ port. (sid, port)) ports)
