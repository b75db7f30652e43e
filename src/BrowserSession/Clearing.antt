-- ===== src/BrowserSession/Clearing.antt =====
-- What the clearing of a session does to another one.
use vmux.Base.{
  ◌≡◌, ◌≢◌, refl, sym, ap, ◌∙◌, Bool, true, false, [], Option, none, if◌then◌else◌, String,
  String-eq, Bytes, Bytes-eq, eq_self, test_of_ne,
}
use vmux.BrowserSession.Screenshots.{
  FileName, full, ScreenshotStore, ring_of, clear, list, read_full, has_shot, safe_key, remove_all,
  remove_shots,
}
use vmux.BrowserSession.Shots.{clear-ring}

remove_all_self :
    (key : Bytes) (files : Bytes → FileName → Option Bytes) (name : FileName)
    → remove_all key files key name ≡ none
unfolding remove_all
remove_all_self key files name = rw (eq_self key) refl

if_none : {A : Type 0} (b : Bool) (o : Option A) → o ≡ none → (if b then o else none) ≡ none
if_none true o h = h
if_none false o h = refl

-- Clearing a session deletes the files of every other session whose id has the same safe form: that one
-- still lists its shots, and none of them can be read.
pub clear-same_key :
    (s : ScreenshotStore) (session_id other : String) (id : String)
    → session_id ≢ other
    → safe_key session_id ≡ safe_key other
    → (list (clear s session_id) other ≡ list s other)
      × (read_full (clear s session_id) other id ≡ none)
unfolding list read_full clear
clear-same_key s session_id other id differ same =
    let files : Bytes → FileName → Option Bytes =
      remove_shots (safe_key session_id) (ring_of s session_id) s.files in
    let gone : remove_all (safe_key session_id) files (safe_key other) (full id) ≡ none =
      ap (λ k. remove_all (safe_key session_id) files k (full id)) (sym same)
      ∙ remove_all_self (safe_key session_id) files (full id) in
    (
      clear-ring s session_id other
          ∙ ap (λ b. if b then [] else ring_of s other) (test_of_ne session_id other differ),
      if_none (has_shot id (ring_of (clear s session_id) other))
          (remove_all (safe_key session_id) files (safe_key other) (full id)) gone,
    )
