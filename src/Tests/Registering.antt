-- ===== src/Tests/Registering.antt =====
-- Runs of the registry and of the control plane.
use fluffy_dollop.Base.{◌≡◌, refl, some, List, [], ◌∷◌}
use fluffy_dollop.Base.Int.{pos}
use fluffy_dollop.Base.Text.{lit, eq_text}
use fluffy_dollop.Redis.Memory.{Server, blank, memory}
use fluffy_dollop.Redis.Memory.Laws.{memory_keys}
use fluffy_dollop.Config.Defaults.{default_registry}
use fluffy_dollop.Registry.ControlPlane.{
  lock_key, lock_tick, reconcile_tick, meanwhile, Event, Watch, start,
}
use fluffy_dollop.Registry.ControlPlane.Standby.{start_locked_never_reconciles}

-- The lock is another's.
abbrev locked : Server
locked = (memory.set_nx lock_key (lit "cp2") (pos 60) blank).1

lock_held : memory_keys.value locked lock_key ≡ some (lit "cp2")
unfolding eq_text
lock_held = refl

abbrev watching : Watch memory
watching = record { redis = locked; reports = [] }

-- The lock expires, and the standby takes it.
abbrev takeover : List (Event memory)
takeover =
    lock_tick (pos 60)
    ∷ meanwhile (λ s. (memory.del lock_key s).1)
    ∷ lock_tick (pos 120)
    ∷ reconcile_tick (pos 130)
    ∷ lock_tick (pos 180)
    ∷ []

start_locked_never_reconciles_example :
    (start memory default_registry (lit "cp1") (pos 0) takeover watching).1.reports ≡ []
start_locked_never_reconciles_example =
    start_locked_never_reconciles memory memory_keys default_registry (lit "cp1") (pos 0) takeover
      watching (lit "cp2", lock_held)
