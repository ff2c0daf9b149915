-- ===== src/External.antt =====
-- The types of third-party crates that the program stores and passes on without looking inside:
-- `UrlPath` (the `Path` of ella-engine/src/path.rs), Arrow schemas, logical plans, socket addresses and
-- durations. The one operation that the modelled code calls on them is `Path::join`.
use ella.Prelude.{Text}

pub record External : Type 1 where
  pub UrlPath : Type 0
  pub join : UrlPath → Text → UrlPath
  pub Schema : Type 0
  pub Plan : Type 0
  pub LogicalPlan : Type 0
  pub SocketAddr : Type 0
  pub Duration : Type 0
