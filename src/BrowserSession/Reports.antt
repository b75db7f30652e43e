-- ===== src/BrowserSession/Reports.antt =====
-- The ports reported for a session over every sequence of scans and resets.
use vmux.Base.{
  ℕ, ◌≤◌, ◌≡◌, refl, sym, ap, subst, ◌∙◌, false, ◌||◌, List, [], ◌∷◌, ◌++◌, none, some,
  if◌then◌else◌, ltb, arith, Bool-cases, inl, inr, lookup, insert, lookup-insert, lookup-delete,
  String, String-eq, ◌==◌, Bytes, eq_of_test, lookup-insert_self,
}
use vmux.BrowserSession.Ports.{
  has_port, scan_ports, ports_in, PortDetector, found_ports, reported_for, scan_matches, scan,
  reset,
}

-- Each port is valid and was not reported, nor does it come again.
abbrev pub AreNew : List ℕ → List ℕ → Type 0
AreNew reported [] = Unit
AreNew reported (p ∷ ps) =
    (1 ≤ p) × (p ≤ 65535) × (has_port p reported ≡ false) × AreNew (p ∷ reported) ps

scan_ports-AreNew :
    (reported ps more : List ℕ)
    → AreNew (scan_ports reported ps).0 more
    → AreNew reported ((scan_ports reported ps).1 ++ more)
unfolding scan_ports
scan_ports-AreNew reported [] more h = h
scan_ports-AreNew reported (p ∷ ps) more h =
    elim (Bool-cases (ltb p 1 || ltb 65535 p || has_port p reported)) [
      | inl e ↦ rw e (scan_ports-AreNew reported ps more (rw e at h))
      | inr e ↦ rw e (
        ground (arith, e),
        ground (arith, e),
        ground (arith, e),
        scan_ports-AreNew (p ∷ reported) ps more (rw e at h),
      )
    ]

pub data Step : Type 0 where
  scans : String → Bytes → Step
  resets : String → Step

unfoldable pub step : (Bytes → List Bytes) → PortDetector → Step → PortDetector
unfolding scan reset
step matches d (scans session_id line) = (scan matches d session_id line).0
step matches d (resets session_id) = reset d session_id

-- What the scans report for a session, up to its first Reset.
abbrev pub reports : (Bytes → List Bytes) → String → PortDetector → List Step → List ℕ
reports matches sid d [] = []
reports matches sid d (scans session_id line ∷ steps) =
    let rest = reports matches sid (step matches d (scans session_id line)) steps in
    if session_id == sid then (scan matches d session_id line).1 ++ rest else rest
reports matches sid d (resets session_id ∷ steps) =
    let rest = reports matches sid (step matches d (resets session_id)) steps in
    if session_id == sid then [] else rest

reported_for-insert :
    (d : PortDetector) (sid : String) (ps : List ℕ) → reported_for (insert sid ps d) sid ≡ ps
unfolding reported_for found_ports
reported_for-insert d sid ps = ap found_ports (lookup-insert_self sid ps d)

reset-other :
    (d : PortDetector) (session_id sid : String)
    → (session_id == sid) ≡ false
    → reported_for (reset d session_id) sid ≡ reported_for d sid
unfolding reset reported_for
reset-other d session_id sid other =
    ap found_ports
      (lookup-delete session_id sid d ∙ ap (λ b. if b then none else lookup sid d) other)

scan_matches-same :
    (d : PortDetector) (sid : String) (ms : List Bytes) (more : List ℕ)
    → AreNew (reported_for (scan_matches d sid ms).0 sid) more
    → AreNew (reported_for d sid) ((scan_matches d sid ms).1 ++ more)
unfolding scan_matches
scan_matches-same d sid [] more h = h
scan_matches-same d sid (m ∷ ms) more h =
    let ps : List ℕ = ports_in (m ∷ ms) in
    let reported : List ℕ = reported_for d sid in
    scan_ports-AreNew reported ps more
      (subst (λ r. AreNew r more) (reported_for-insert d sid (scan_ports reported ps).0) h)

scan_matches-other :
    (d : PortDetector) (session_id sid : String) (ms : List Bytes)
    → (session_id == sid) ≡ false
    → reported_for (scan_matches d session_id ms).0 sid ≡ reported_for d sid
unfolding scan_matches reported_for
scan_matches-other d session_id sid [] other = refl
scan_matches-other d session_id sid (m ∷ ms) other =
    let ps : List ℕ = (scan_ports (reported_for d session_id) (ports_in (m ∷ ms))).0 in
    ap found_ports
      (lookup-insert session_id sid ps d ∙ ap (λ b. if b then some ps else lookup sid d) other)

-- Between two resets of a session, each port that its output names is reported at most once, however its
-- scans mix with those and the resets of other sessions; and only ports from 1 to 65535 are.
pub reports-AreNew :
    (matches : Bytes → List Bytes) (sid : String) (d : PortDetector) (steps : List Step)
    → AreNew (reported_for d sid) (reports matches sid d steps)
unfolding step scan
reports-AreNew matches sid d [] = tt
reports-AreNew matches sid d (scans session_id line ∷ steps) =
    elim (Bool-cases (session_id == sid)) [
      | inl e ↦
          let same : session_id ≡ sid = eq_of_test session_id sid e in
          let ms : List Bytes = matches line in
          rw e (
            subst
              (λ k.
                AreNew (reported_for d sid)
                  ((scan_matches d k ms).1 ++ reports matches sid (scan_matches d k ms).0 steps))
              (sym same)
              (scan_matches-same d sid ms (reports matches sid (scan_matches d sid ms).0 steps)
                (reports-AreNew matches sid (scan_matches d sid ms).0 steps)))
      | inr e ↦
          let d' : PortDetector = (scan_matches d session_id (matches line)).0 in
          rw e (
            subst (λ r. AreNew r (reports matches sid d' steps))
              (scan_matches-other d session_id sid (matches line) e)
              (reports-AreNew matches sid d' steps))
    ]
reports-AreNew matches sid d (resets session_id ∷ steps) = elim (Bool-cases (session_id == sid)) [
  | inl e ↦ rw e tt
  | inr e ↦ rw e (
      subst (λ r. AreNew r (reports matches sid (reset d session_id) steps))
        (reset-other d session_id sid e) (reports-AreNew matches sid (reset d session_id) steps))
]
