-- ===== src/Components.antt =====
-- The component names of internal/config/config.go.
use vpub_exporter.Prelude.{List, [], ◌∷◌}
use vpub_exporter.Text.{Bytes, codes}

abbrev pub ComponentName : Type 0
ComponentName = Bytes

abbrev pub component_visor : ComponentName
component_visor = codes "visor"

abbrev pub component_bridge_voter : ComponentName
component_bridge_voter = codes "bridge-voter"

abbrev pub component_reference_oracle_publish : ComponentName
component_reference_oracle_publish = codes "reference-oracle-publisher"

abbrev pub component_outcome_voter : ComponentName
component_outcome_voter = codes "outcome-voter"

abbrev pub all_components : List ComponentName
all_components =
    component_visor ∷ component_bridge_voter ∷ component_reference_oracle_publish
    ∷ component_outcome_voter ∷ []
