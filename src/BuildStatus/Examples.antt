-- ===== src/BuildStatus/Examples.antt =====
-- The pipeline at concrete statuses.
use mcplica.Common.{◌≡◌, ok, err, arith}
use mcplica.BuildStatus.{BuildStatus, ready, terminal}
use mcplica.BuildStatus.Pipeline.{advance, pipeline_ends}

pipeline_ends_example :
    (advance 6 BuildStatus.parsing ≡ ok ready) × (advance 7 BuildStatus.parsing ≡ err terminal)
pipeline_ends_example = pipeline_ends BuildStatus.parsing (omega arith)
