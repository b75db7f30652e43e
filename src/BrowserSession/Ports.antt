-- ===== src/BrowserSession/Ports.antt =====
-- port_detector.go: the ports that a session's output names. The matches of the regular expression, the
-- digits of each port, are an argument.
use vmux.Base.{
  ℕ, ◌+◌, ◌-◌, ◌*◌, Bool, false, ◌||◌, List, [], ◌∷◌, Option, none, some, if◌then◌else◌, ltb,
  nat_eq, Map, lookup, insert, delete, String, String-eq, Bytes,
}

-- strconv.Atoi of two to five digits.
unfoldable pub atoi_onto : ℕ → Bytes → ℕ
atoi_onto n [] = n
atoi_onto n (c ∷ s) = atoi_onto (n * 10 + (c - b'0')) s

unfoldable pub has_port : ℕ → List ℕ → Bool
has_port p [] = false
has_port p (q ∷ ps) = nat_eq q p || has_port p ps

-- The loop of Scan over the matches: the ports that are reported then, and the new ones.
unfoldable pub scan_ports : List ℕ → List ℕ → List ℕ × List ℕ
unfolding has_port
scan_ports reported [] = (reported, [])
scan_ports reported (p ∷ ps) =
    let skipped = scan_ports reported ps in
    let (later, fresh) = scan_ports (p ∷ reported) ps in
    if ltb p 1 || ltb 65535 p || has_port p reported then skipped else (later, p ∷ fresh)

unfoldable pub ports_in : List Bytes → List ℕ
unfolding atoi_onto
ports_in [] = []
ports_in (digits ∷ ms) = atoi_onto 0 digits ∷ ports_in ms

-- The ports reported for each session.
abbrev pub PortDetector : Type 0
PortDetector = Map String (List ℕ)

unfoldable pub found_ports : Option (List ℕ) → List ℕ
found_ports none = []
found_ports (some ps) = ps

unfoldable pub reported_for : PortDetector → String → List ℕ
unfolding found_ports
reported_for d session_id = found_ports (lookup session_id d)

unfoldable pub scan_matches : PortDetector → String → List Bytes → PortDetector × List ℕ
unfolding scan_ports ports_in reported_for
scan_matches d session_id [] = (d, [])
scan_matches d session_id (m ∷ ms) =
    let (reported, fresh) = scan_ports (reported_for d session_id) (ports_in (m ∷ ms)) in
    (insert session_id reported d, fresh)

-- Scan
unfoldable pub scan : (Bytes → List Bytes) → PortDetector → String → Bytes → PortDetector × List ℕ
unfolding scan_matches
scan matches d session_id line = scan_matches d session_id (matches line)

-- Reset
unfoldable pub reset : PortDetector → String → PortDetector
reset d session_id = delete session_id d
