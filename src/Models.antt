-- ===== src/Models.antt =====
-- pkg/models/log_event.go.
use fluffy_dollop.Base.{List}
use fluffy_dollop.Base.Int.{ℤ}
use fluffy_dollop.Base.Text.{Text}

-- An instant, in nanoseconds since the Unix epoch.
abbrev pub Time : Type 0
Time = ℤ

-- `metadata` has each value of the map as its JSON text.
pub record LogEvent : Type 0 where
  pub timestamp : Time
  pub level : Text
  pub service : Text
  pub message : Text
  pub metadata : List (Text × Text)
  pub trace_id : Text
