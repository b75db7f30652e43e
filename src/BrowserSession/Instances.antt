-- ===== src/BrowserSession/Instances.antt =====
-- A workspace that has a browser is never given another one.
use vmux.Base.{
  ℕ, ◌≤◌, ◌<◌, ◌≡◌, ◌≢◌, refl, sym, ap, ◌∙◌, Bool, true, false, List, [], ◌∷◌, Option, none, some,
  if◌then◌else◌, nat_eq, Map, lookup, insert, delete, lookup-insert_cases, lookup-delete_cases,
  String, String-eq, ◌==◌, arith, Bool-cases, Option-cases, inl, inr,
}
use vmux.BrowserSession.Browsers.{
  Browser, Manager, new_manager, Ensured, running, no_browser, launch, ensure_found, ensure_running,
  wait_for, stop, stop_all, is_command, exit, Step, ensures, stops, stops_all, exits, step, run,
}

-- The command of a workspace has not been waited for, it was drawn before, and it is that of no other
-- workspace.
pub record IsTracked (m : Manager) : Type 0 where
  pub live : (ws : String) (c : ℕ) → lookup ws m.instances ≡ some c → m.waited c ≡ false
  pub below : (ws : String) (c : ℕ) → lookup ws m.instances ≡ some c → c < m.next_cmd
  pub apart :
      (ws other : String) (c : ℕ)
      → lookup ws m.instances ≡ some c
      → lookup other m.instances ≡ some c
      → ws ≡ other
  pub old : (c : ℕ) → m.next_cmd ≤ c → m.waited c ≡ false
  pub drawn : (c : ℕ) → m.next_cmd ≤ c → is_command c m.instances ≡ false

is_command-insert :
    (c v : ℕ) (k : String) (m : Map String ℕ)
    → v ≢ c
    → is_command c m ≡ false
    → is_command c (insert k v m) ≡ false
unfolding is_command insert
is_command-insert c v k [] h n = ground (arith, h)
is_command-insert c v k (e ∷ m) h n = elim (Bool-cases (k == e.0)) [
  | inl t ↦ rw t (ground (arith, h, n))
  | inr t ↦ rw t (ground (arith, n, is_command-insert c v k m h))
]

is_command-delete :
    (c : ℕ) (k : String) (m : Map String ℕ)
    → is_command c m ≡ false
    → is_command c (delete k m) ≡ false
unfolding is_command delete
is_command-delete c k [] n = refl
is_command-delete c k (e ∷ m) n = elim (Bool-cases (k == e.0)) [
  | inl t ↦ rw t (ground (arith, n, is_command-delete c k m))
  | inr t ↦ rw t (ground (arith, n, is_command-delete c k m))
]

launch-IsTracked :
    (m : Manager) (ws : String) (profile started : Bool)
    → IsTracked m
    → IsTracked (launch m ws profile started).0
unfolding launch
launch-IsTracked m ws false started h = h
launch-IsTracked m ws true false h = record {
  live = h.live;
  below = λ k c got. omega (arith, h.below k c got);
  apart = h.apart;
  old = λ c le. h.old c (omega (arith, le));
  drawn = λ c le. h.drawn c (omega (arith, le));
}
launch-IsTracked m ws true true h = record {
  live = λ k c got. elim (lookup-insert_cases ws k m.next_cmd m.instances got) [
    | inl (here, is) ↦ let same : m.next_cmd ≡ c = cc is in h.old c (omega (arith, same))
    | inr (other, older) ↦ h.live k c older
  ];
  below = λ k c got. elim (lookup-insert_cases ws k m.next_cmd m.instances got) [
    | inl (here, is) ↦ let same : m.next_cmd ≡ c = cc is in omega (arith, same)
    | inr (other, older) ↦ omega (arith, h.below k c older)
  ];
  apart = λ k l c got too. elim (lookup-insert_cases ws k m.next_cmd m.instances got) [
    | inl (here, is) ↦ elim (lookup-insert_cases ws l m.next_cmd m.instances too) [
      | inl (there, again) ↦ sym here ∙ there
      | inr (other, older) ↦
          let same : m.next_cmd ≡ c = cc is in absurd (omega (arith, same, h.below l c older))
    ]
    | inr (other, older) ↦ elim (lookup-insert_cases ws l m.next_cmd m.instances too) [
      | inl (there, again) ↦
          let same : m.next_cmd ≡ c = cc again in absurd (omega (arith, same, h.below k c older))
      | inr (another, oldest) ↦ h.apart k l c older oldest
    ]
  ];
  old = λ c le. h.old c (omega (arith, le));
  drawn = λ c le.
      is_command-insert c m.next_cmd ws m.instances (λ e. omega (arith, le, e))
        (h.drawn c (omega (arith, le)));
}

if-IsTracked :
    (b : Bool) (m n : Manager × Ensured)
    → IsTracked m.0
    → IsTracked n.0
    → IsTracked (if b then m else n).0
if-IsTracked true m n h k = h
if-IsTracked false m n h k = k

ensure_found-IsTracked :
    (m : Manager) (ws : String) (profile started : Bool) (o : Option ℕ)
    → IsTracked m
    → IsTracked (ensure_found m ws profile started o).0
unfolding ensure_found
ensure_found-IsTracked m ws profile started none h = launch-IsTracked m ws profile started h
ensure_found-IsTracked m ws profile started (some c) h =
    if-IsTracked (m.waited c) (launch m ws profile started) (m, running)
      (launch-IsTracked m ws profile started h) h

ensure_running-IsTracked :
    (m : Manager) (ws : String) (profile started : Bool)
    → IsTracked m
    → IsTracked (ensure_running m ws profile started).0
unfolding ensure_running
ensure_running-IsTracked m ws profile started h = elim (Option-cases m.browser) [
  | inl e ↦ simp (e, ensure_running) h
  | inr (b, e) ↦
      simp (e, ensure_running)
        (ensure_found-IsTracked m ws profile started (lookup ws m.instances) h)
]

wait_for-other :
    (o : Option ℕ) (waited : ℕ → Bool) (c : ℕ)
    → o ≢ some c
    → waited c ≡ false
    → wait_for o waited c ≡ false
wait_for-other none waited c h k = k
wait_for-other (some d) waited c h k =
    let differ : nat_eq d c ≡ false = ground (arith, λ (e : d ≡ c). h (ap some e)) in
    rw (differ, k) refl

stop-IsTracked : (m : Manager) (ws : String) → IsTracked m → IsTracked (stop m ws)
unfolding stop
stop-IsTracked m ws h = record {
  live = λ k c got.
      let (other, older) = lookup-delete_cases ws k m.instances got in
      wait_for-other (lookup ws m.instances) m.waited c (λ e. other (h.apart ws k c e older))
        (h.live k c older);
  below = λ k c got. h.below k c (lookup-delete_cases ws k m.instances got).1;
  apart = λ k l c got too.
      h.apart k l c (lookup-delete_cases ws k m.instances got).1
        (lookup-delete_cases ws l m.instances too).1;
  old = λ c le.
      wait_for-other (lookup ws m.instances) m.waited c
        (λ e. absurd (omega (arith, le, h.below ws c e))) (h.old c le);
  drawn = λ c le. is_command-delete c ws m.instances (h.drawn c le);
}

stop_all-IsTracked : (m : Manager) → IsTracked m → IsTracked (stop_all m)
unfolding stop_all lookup is_command
stop_all-IsTracked m h = record {
  live = λ k c got. cc got;
  below = λ k c got. cc got;
  apart = λ k l c got too. cc got;
  old = λ c le. rw (h.drawn c le, h.old c le) refl;
  drawn = λ c le. refl;
}

step-IsTracked : (m : Manager) (a : Step) → IsTracked m → IsTracked (step m a)
unfolding step exit
step-IsTracked m (ensures ws profile started) h = ensure_running-IsTracked m ws profile started h
step-IsTracked m (stops ws) h = stop-IsTracked m ws h
step-IsTracked m stops_all h = stop_all-IsTracked m h
step-IsTracked m (exits c) h = record {
  live = h.live;
  below = h.below;
  apart = h.apart;
  old = h.old;
  drawn = h.drawn;
}

run_from-IsTracked : (m : Manager) (steps : List Step) → IsTracked m → IsTracked (run m steps)
unfolding run
run_from-IsTracked m [] h = h
run_from-IsTracked m (a ∷ steps) h = run_from-IsTracked (step m a) steps (step-IsTracked m a h)

new_manager-IsTracked : (there : String → Bool) → IsTracked (new_manager there)
unfolding new_manager lookup is_command
new_manager-IsTracked there = record {
  live = λ k c got. refl;
  below = λ k c got. cc got;
  apart = λ k l c got too. cc got;
  old = λ c le. refl;
  drawn = λ c le. refl;
}

-- Whatever has happened since the program started, EnsureRunning starts nothing for a workspace whose
-- browser was started and not stopped since: it reports that the browser runs. This is so even after
-- the browser's process is over, since only Stop and StopAll wait for it.
pub ensure_running-tracked :
    (there : String → Bool) (steps : List Step) (b : Browser) (ws : String) (c : ℕ)
    (profile started : Bool)
    → (run (new_manager there) steps).browser ≡ some b
    → lookup ws (run (new_manager there) steps).instances ≡ some c
    → ensure_running (run (new_manager there) steps) ws profile started
      ≡ (run (new_manager there) steps, running)
unfolding ensure_running ensure_found
ensure_running-tracked there steps b ws c profile started has got =
    let m : Manager = run (new_manager there) steps in
    let live : m.waited c ≡ false =
      (run_from-IsTracked (new_manager there) steps (new_manager-IsTracked there)).live ws c got in
    ap
      (λ o. elim o as (λ _. Manager × Ensured) [
        | none ↦ (m, no_browser)
        | some x ↦ ensure_found m ws profile started (lookup ws m.instances)
      ])
      has
    ∙ ap (ensure_found m ws profile started) got
    ∙ ap (λ w. if w then launch m ws profile started else (m, running)) live
