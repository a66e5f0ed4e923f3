-- ===== src/Report/Builder.antt =====
-- src/report.rs, lines 38-151: building a report from the running profiler.
use pprof_rs.Prelude.{ℕ, Option, none, some, [], Outcome, done, ◌>>=◌, Result, ok, err}
use pprof_rs.Error.{Error, io_error, creating_error}
use pprof_rs.Key.{Key}
use pprof_rs.Timer.{ReportTiming}
use pprof_rs.Frames.{UnresolvedFrames, Frames, Resolver}
use pprof_rs.Frames
use pprof_rs.Frames.Eq.{frames_key}
use pprof_rs.Frames.Resolved.{resolved_key}
use pprof_rs.Collector
use pprof_rs.Collector.Bucket.{Entry}
use pprof_rs.Collector.TempFile.{TempFile}
use pprof_rs.Profiler.{Globals}
use pprof_rs.Report.{HashMap, count_entries}

pub record Report (K : Type 0) : Type 0 where
  pub counts : HashMap K
  pub timing : ReportTiming
  pub missed_samples : ℕ

module _ {Frame : Type 0} (env : Resolver Frame) where
  -- What `build` does with an item before it is counted.
  abbrev pub make_frames : Option (Frames → Frames) → UnresolvedFrames Frame → Frames
  make_frames none item = Frames.from env item
  make_frames (some processor) item = processor (Frames.from env item)

module _ {Frame File : Type 0} (env : Resolver Frame)
    (files : TempFile File (Entry (UnresolvedFrames Frame))) (n : ℕ) where
  -- The match and the loop that `build` and `build_unresolved` share; they differ in the key.
  unfoldable pub build_with :
      {K : Type 0}
      → Key K
      → (UnresolvedFrames Frame → K)
      → Globals File Frame
      → ReportTiming
      → Outcome (Result Error (Report K))
  build_with key make_key g timing = elim g.profiler [
    | err e ↦ done (err creating_error)
    | ok p ↦ Collector.try_iter ⦃key = frames_key env⦄ files n p.collected >>= λ entries.
        elim entries [
          | err e ↦ done (err (io_error e))
          | ok es ↦ count_entries ⦃key = key⦄ make_key [] es >>= λ counts.
              done (
                ok (record { counts = counts; timing = timing; missed_samples = g.missed_samples }))
        ]
  ]

  -- `ReportBuilder::build_unresolved`
  unfoldable pub build_unresolved :
      Globals File Frame → ReportTiming → Outcome (Result Error (Report (UnresolvedFrames Frame)))
  unfolding build_with
  build_unresolved = build_with (frames_key env) (λ item. item)

  -- `ReportBuilder::build`, with the post processor, if one is set.
  unfoldable pub build :
      Option (Frames → Frames)
      → Globals File Frame
      → ReportTiming
      → Outcome (Result Error (Report Frames))
  unfolding build_with
  build frames_post_processor =
      build_with (resolved_key env) (make_frames env frames_post_processor)
