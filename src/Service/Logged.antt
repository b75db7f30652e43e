-- ===== src/Service/Logged.antt =====
-- What activity.recent shows of the tool calls that were logged.
use vmux.Base.{
  Map, ◌≡◌, refl, ap, ◌∙◌, ℤ, pos, negsuc, ℕ, zero, suc, ◌+◌, ◌≤◌, ◌<◌, Bool, List, [], ◌∷◌, Option,
  some, sym, inl, inr, if◌then◌else◌, ◌==◌, Bool-cases, eq_of_test, String, String-eq, Bytes, map,
  keep_last, arith,
}
use vmux.Activity.Event.{Event}
use vmux.Activity.Store.{
  System, Step, appends, new_store, new_system, ring_size, recent, run, step, prepared,
}
use vmux.Activity.Ring.{appended, of_session}
use vmux.Activity.Recent.{recent-run}
use vmux.Mcp.Tool.{ToolCallRecord}
use vmux.Service.Reply.{returned}
use vmux.Service.Logs.{
  session_or_default, summary_text, event_of, log_tool_call, log_all, limit_of, activity_recent,
}

module _ (redact : String → String) (marshal : Event → Option Bytes) (text : Bytes → String) where
  -- Logging is Append in an interleaving in which nothing else happens.
  log_all-run :
      (y : System) (recs : List ToolCallRecord)
      → log_all redact marshal text y.store recs
        ≡ (run redact marshal y (map (λ rec. appends (event_of text rec)) recs)).store
  unfolding log_all log_tool_call run step
  log_all-run y [] = refl
  log_all-run y (rec ∷ recs) =
      log_all-run (step redact marshal y (appends (event_of text rec))) recs

  -- Whether a record belongs to a session: to its own, or to "default" if it names none.
  unfoldable pub is_under : String → ToolCallRecord → Bool
  is_under sid rec = if rec.session_id == "" then "default" == sid else rec.session_id == sid

  -- The event of a record, under the number that Append gives it.
  abbrev pub tool_event : String → ℕ → ToolCallRecord → Event
  tool_event sid n rec = record {
    seq = n;
    ts = rec.time;
    session_id = sid;
    kind = "tool_call";
    actor = rec.upstream;
    summary = redact (summary_text text rec);
    detail = redact (text rec.args);
    refs = [];
    risk = if rec.is_error then "medium" else "low";
  }

  -- The events of the records that belong to a session, where `n` were appended before.
  unfoldable pub tool_events : String → ℕ → List ToolCallRecord → List Event
  unfolding is_under
  tool_events sid n [] = []
  tool_events sid n (rec ∷ recs) =
      let rest = tool_events sid (n + 1) recs in
      if is_under sid rec then tool_event sid (n + 1) rec ∷ rest else rest

  under_session :
      (sid : String) (rec : ToolCallRecord)
      → (session_or_default rec.session_id == sid) ≡ is_under sid rec
  unfolding session_or_default is_under
  under_session sid rec = elim (Bool-cases (rec.session_id == "")) [ inl e ↦ rw e | inr e ↦ rw e ]

  prepared-tool_event :
      (n : ℕ) (rec : ToolCallRecord)
      → prepared redact n (event_of text rec) ≡ tool_event (session_or_default rec.session_id) n rec
  unfolding prepared event_of
  prepared-tool_event n rec = refl

  of_session-appended :
      (sid : String) (n : ℕ) (recs : List ToolCallRecord)
      → of_session sid (appended redact n (map (λ rec. appends (event_of text rec)) recs))
        ≡ tool_events sid n recs
  unfolding appended of_session tool_events prepared event_of
  of_session-appended sid n [] = refl
  of_session-appended sid n (rec ∷ recs) =
      let rest = of_session-appended sid (n + 1) recs in
      let under = under_session sid rec in
      elim (Bool-cases (session_or_default rec.session_id == sid)) [
        | inl e ↦
            let here = eq_of_test (session_or_default rec.session_id) sid e in
            rw (e, sym under ∙ e) (cc (rest, here))
        | inr e ↦ rw (e, sym under ∙ e) rest
      ]

  limit_of-positive : (limit : ℤ) → 0 < limit_of limit
  unfolding limit_of
  limit_of-positive (pos zero) = omega arith
  limit_of-positive (pos (suc n)) = omega arith
  limit_of-positive (negsuc n) = omega arith

  -- After any tool calls have been logged, activity.recent with a limit of at most 5000 (200 for a limit
  -- of 0 or less) returns the last events of that number among the session's: one event of the kind
  -- tool_call for each call of the session, and in "default" for each call without a session, in
  -- the order of the calls, numbered over all sessions, with redacted texts and the risk "medium" for
  -- a call that failed and "low" for another.
  pub activity_recent-log_all :
      (files : Map Bytes (List Bytes)) (can_open : Bytes → Bool) (recs : List ToolCallRecord)
      (session_id : String) (limit : ℤ)
      → limit_of limit ≤ ring_size
      → activity_recent
          (log_all redact marshal text (new_store files can_open) recs)
          (some (record { session_id = session_id; limit = limit }))
        ≡ returned (keep_last (limit_of limit) (tool_events session_id 0 recs))
  unfolding activity_recent
  activity_recent-log_all files can_open recs session_id limit small =
      let steps : List Step = map (λ rec. appends (event_of text rec)) recs in
      ap (λ s. returned (recent s session_id (limit_of limit)))
        (log_all-run (new_system files can_open) recs)
      ∙ ap returned (
          recent-run redact marshal files can_open steps session_id (limit_of limit)
            (limit_of-positive limit) small
          ∙ ap (keep_last (limit_of limit)) (of_session-appended session_id 0 recs))
