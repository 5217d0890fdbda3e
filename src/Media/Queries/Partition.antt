-- ===== src/Media/Queries/Partition.antt =====
-- The counters of the media work count every row once.
use cai_central_de_atendimen.Base.{◌+◌, ◌≡◌, List, [], ◌∷◌, arith}
use cai_central_de_atendimen.Base.Lists.{length}
use cai_central_de_atendimen.Cycle.Row.{Time}
use cai_central_de_atendimen.Media.Row.{Content}
use cai_central_de_atendimen.Media.Queries.{content_work_metrics}

-- At any time, the six counters of a media table (due, scheduled, leased, stale, completed, failed)
-- add up to the number of its rows.
pub content_work_metrics-partition :
    (now : Time) (rows : List Content)
    → (content_work_metrics now rows).due
        + (content_work_metrics now rows).scheduled
        + (content_work_metrics now rows).leased
        + (content_work_metrics now rows).stale
        + (content_work_metrics now rows).completed_count
        + (content_work_metrics now rows).failed_count
      ≡ length rows
unfolding content_work_metrics
content_work_metrics-partition now [] = omega arith
content_work_metrics-partition now (c ∷ rows) =
    ground (arith, content_work_metrics-partition now rows)
