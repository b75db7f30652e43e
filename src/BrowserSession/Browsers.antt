-- ===== src/BrowserSession/Browsers.antt =====
-- manager.go: one browser for each workspace. An exec.Cmd is a number, drawn in the order in which the
-- commands are made.
use vmux.Base.{
  ℕ, ◌+◌, Bool, true, false, ◌||◌, List, [], ◌∷◌, Option, none, some, if◌then◌else◌, nat_eq, Map,
  lookup, insert, delete, String, String-eq,
}

pub record Browser : Type 0 where
  pub id : String
  pub name : String
  pub exec_path : String

-- candidates
abbrev pub candidates : List Browser
candidates =
    record {
      id = "chrome";
      name = "Google Chrome";
      exec_path = "/Applications/Google Chrome.app/Contents/MacOS/Google Chrome";
    }
    ∷ record {
      id = "brave";
      name = "Brave Browser";
      exec_path = "/Applications/Brave Browser.app/Contents/MacOS/Brave Browser";
    }
    ∷ record {
      id = "edge";
      name = "Microsoft Edge";
      exec_path = "/Applications/Microsoft Edge.app/Contents/MacOS/Microsoft Edge";
    }
    ∷ record { id = "arc"; name = "Arc"; exec_path = "/Applications/Arc.app/Contents/MacOS/Arc" }
    ∷ record {
      id = "chromium";
      name = "Chromium";
      exec_path = "/Applications/Chromium.app/Contents/MacOS/Chromium";
    }
    ∷ []

unfoldable pub installed : (String → Bool) → List Browser → List Browser
installed there [] = []
installed there (b ∷ bs) =
    let rest = installed there bs in if there b.exec_path then b ∷ rest else rest

-- DetectBrowsers, with os.Stat as an argument.
unfoldable pub detect_browsers : (String → Bool) → List Browser
unfolding installed
detect_browsers there = installed there candidates

first_of : List Browser → Option Browser
first_of [] = none
first_of (b ∷ bs) = some b

-- DetectBrowser; `none` is an error.
unfoldable pub detect_browser : (String → Bool) → Option Browser
unfolding detect_browsers first_of
detect_browser there = first_of (detect_browsers there)

-- `waited` are the commands that have been waited for, whose ProcessState is set; `exited` those whose
-- process is over, which the program does not look at.
pub record Manager : Type 0 where
  pub browser : Option Browser
  pub instances : Map String ℕ
  pub next_cmd : ℕ
  pub waited : ℕ → Bool
  pub exited : ℕ → Bool

-- NewManager
unfoldable pub new_manager : (String → Bool) → Manager
new_manager there = record {
  browser = detect_browser there;
  instances = [];
  next_cmd = 0;
  waited = λ c. false;
  exited = λ c. false;
}

-- What EnsureRunning returns: no error for the first two.
pub data Ensured : Type 0 where
  launched running : Ensured
  no_browser no_profile not_started : Ensured

-- `profile` is whether EnsureProfileDir succeeds and `started` whether Start does.
unfoldable pub launch : Manager → String → Bool → Bool → Manager × Ensured
launch m ws false started = (m, no_profile)
launch m ws true false = (record m { next_cmd = m.next_cmd + 1 }, not_started)
launch m ws true true =
    (record m { instances = insert ws m.next_cmd m.instances; next_cmd = m.next_cmd + 1 }, launched)

unfoldable pub ensure_found : Manager → String → Bool → Bool → Option ℕ → Manager × Ensured
unfolding launch
ensure_found m ws profile started none = launch m ws profile started
ensure_found m ws profile started (some c) =
    let again = launch m ws profile started in if m.waited c then again else (m, running)

-- EnsureRunning
unfoldable pub ensure_running : Manager → String → Bool → Bool → Manager × Ensured
unfolding ensure_found
ensure_running m ws profile started = elim m.browser [
  | none ↦ (m, no_browser)
  | some b ↦ ensure_found m ws profile started (lookup ws m.instances)
]

abbrev pub wait_for : Option ℕ → (ℕ → Bool) → ℕ → Bool
wait_for none waited c = waited c
wait_for (some d) waited c = nat_eq d c || waited c

-- Stop, with the stop of its command.
unfoldable pub stop : Manager → String → Manager
stop m ws = record m {
  instances = delete ws m.instances;
  waited = wait_for (lookup ws m.instances) m.waited;
}

unfoldable pub is_command : ℕ → Map String ℕ → Bool
is_command c [] = false
is_command c (e ∷ es) = nat_eq e.1 c || is_command c es

-- StopAll
unfoldable pub stop_all : Manager → Manager
unfolding is_command
stop_all m = record m { instances = []; waited = λ c. is_command c m.instances || m.waited c }

pub data Step : Type 0 where
  ensures : String → Bool → Bool → Step
  stops : String → Step
  stops_all : Step
  -- the process of a command is over
  exits : ℕ → Step

unfoldable pub exit : Manager → ℕ → Manager
exit m d = record m { exited = λ c. nat_eq d c || m.exited c }

unfoldable pub step : Manager → Step → Manager
unfolding ensure_running stop stop_all exit
step m (ensures ws profile started) = (ensure_running m ws profile started).0
step m (stops ws) = stop m ws
step m stops_all = stop_all m
step m (exits c) = exit m c

unfoldable pub run : Manager → List Step → Manager
unfolding step
run m [] = m
run m (a ∷ steps) = run (step m a) steps
