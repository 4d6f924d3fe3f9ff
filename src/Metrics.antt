-- ===== src/Metrics.antt =====
-- internal/metrics/metrics.go: the compliance gauge's value; the collectors are in the child.
pub mod Collectors
use fluxgate_operator.Prelude.{String, ◌==◌, ℤ, pos, negsuc, if◌then◌else◌}

-- The values are whole, so the `float64` is an integer here.
unfoldable pub compliance_state_to_float : String → ℤ
compliance_state_to_float state =
    if state == "Compliant"
    then pos 0
    else if state == "Warning"
    then pos 1
    else if state == "NonCompliant"
    then pos 2
    else if state == "Critical"
    then pos 3
    else negsuc 0
