-- ===== src/BrowserSession/Tests.antt =====
-- Tests of the browser sessions, and their properties at concrete inputs.
use text.Mathlib.TextEquality.{eq_iff}
use mathlib.Core.Bool.{false≢true}
use vmux.Base.{
  delete, ◌≡◌, refl, Bool, true, List, [], ◌∷◌, Option, none, some, String, Bytes, codes, lookup,
  insert, keep_last, bytes_eq, String-eq, ◌==◌,
}
use vmux.BrowserSession.Screenshots.{
  Picture, ScreenshotStore, Env, new_store, list, read_full, clear, safe_key, max_shots,
}
use vmux.BrowserSession.Shots.{Step, adds, clears, run, taken_for, list-run}
use vmux.BrowserSession.Clearing.{clear-same_key}
use vmux.BrowserSession.Browsers
use vmux.BrowserSession.Browsers.{
  Browser, Manager, new_manager, Ensured, running, detect_browser, ensure_running, ensures, stops,
  exits,
}
use vmux.BrowserSession.Ports.{reported_for, scan, reset}
use vmux.BrowserSession.Reports
use vmux.BrowserSession.Reports.{scans, resets, reports, AreNew, reports-AreNew}
use vmux.BrowserSession.Instances.{ensure_running-tracked}

abbrev decode : Bytes → Option Picture
decode [] = none
decode (c ∷ s) = some (record { width = 1; height = 1; png = c ∷ s; thumbnail = [] })

abbrev env : String → Env
env id = record { id = id; now = 5; can_make = true; can_write = true; can_write_thumb = true }

-- Two sessions whose ids have one safe form, with a shot each.
abbrev shooting : List Step
shooting = adds (env "1") "a/b" (codes "x") ∷ adds (env "2") "a.b" (codes "y") ∷ []

abbrev shot_both : ScreenshotStore
shot_both = run decode new_store shooting

read_before : read_full shot_both "a.b" "2" ≡ some (codes "y")
unfolding read_full run lookup insert bytes_eq
read_before = refl

list-run_example :
    list (run decode new_store (adds (env "0") "a/b" (codes "z") ∷ clears "a/b" ∷ shooting)) "a/b"
    ≡ keep_last max_shots
        (taken_for decode "a/b" [] (adds (env "0") "a/b" (codes "z") ∷ clears "a/b" ∷ shooting))
list-run_example =
    list-run decode (adds (env "0") "a/b" (codes "z") ∷ clears "a/b" ∷ shooting) "a/b"

clears_both :
    (list (clear shot_both "a/b") "a.b" ≡ list shot_both "a.b")
    × (read_full (clear shot_both "a/b") "a.b" "2" ≡ none)
unfolding safe_key
clears_both =
    clear-same_key shot_both "a/b" "a.b" "2" (λ e. false≢true ((eq_iff "a/b" "a.b").1 e)) refl

abbrev brave_only : String → Bool
brave_only path = path == "/Applications/Brave Browser.app/Contents/MacOS/Brave Browser"

abbrev brave : Browser
brave = record {
  id = "brave";
  name = "Brave Browser";
  exec_path = "/Applications/Brave Browser.app/Contents/MacOS/Brave Browser";
}

detected : detect_browser brave_only ≡ some brave
unfolding detect_browser
detected = refl

-- A browser that is started and then quits.
abbrev quitting : List Browsers.Step
quitting = ensures "w" true true ∷ exits 0 ∷ []

never_restarts :
    ensure_running (Browsers.run (new_manager brave_only) quitting) "w" true true
    ≡ (Browsers.run (new_manager brave_only) quitting, running)
unfolding Browsers.run new_manager detect_browser lookup insert
never_restarts = ensure_running-tracked brave_only quitting brave "w" 0 true true refl refl

-- A line that names a port twice, and one out of range.
abbrev matches : Bytes → List Bytes
matches line = line ∷ codes "3000" ∷ line ∷ codes "70000" ∷ []

abbrev scanning : List Reports.Step
scanning =
    scans "s" (codes "8080")
    ∷ resets "t"
    ∷ scans "s" (codes "5173")
    ∷ resets "s"
    ∷ scans "s" []
    ∷ []

reported_once : reports matches "s" [] scanning ≡ 8080 ∷ 3000 ∷ 5173 ∷ []
unfolding scan reset Reports.step lookup insert delete
reported_once = refl

reports-AreNew_example : AreNew (reported_for [] "s") (reports matches "s" [] scanning)
reports-AreNew_example = reports-AreNew matches "s" [] scanning
