-- ===== src/Activity/Event.antt =====
-- event.go: one recorded action of an agent. A time is a number of nanoseconds.
use vmux.Base.{ℕ, String, Map}

pub record Event : Type 0 where
  pub seq : ℕ
  pub ts : ℕ
  pub session_id : String
  pub kind : String
  pub actor : String
  pub summary : String
  pub detail : String
  pub refs : Map String String
  pub risk : String
