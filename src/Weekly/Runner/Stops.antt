-- ===== src/Weekly/Runner/Stops.antt =====
-- What a run of the schedule leaves of the publications, wherever the runs of its teams end.
use alerts_bi.Common.{Text, ◌++◌, ◌≡◌, List}
use alerts_bi.Common.Unicode.{Unicode}
use alerts_bi.Review.Publication.{Publication, Database}
use alerts_bi.Review.Publication.Added.{run_ids}
use alerts_bi.Review.Publication.Separation.{IsSeparated}

-- Publications are put in front of those that there are, none is withdrawn or replaced, and the
-- weeks of each team stay apart.
pub record IsKept (before after : Database) : Type 0 where
  pub added : (more : List Text) × (run_ids after ≡ more ++ run_ids before)
  pub separated : IsSeparated before.publications → IsSeparated after.publications
