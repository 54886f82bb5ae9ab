-- ===== src/Tests/PageExamples.antt =====
-- The theorem on the page of /metrics, at a watcher whose key has a line end in it.
use jmap2telegram.Prelude.{◌+◌, ◌≡◌, refl, [], ◌∷◌, some, text}
use jmap2telegram.Health.{Health, Metrics, fresh, inc}
use jmap2telegram.Health.Render.{render_metrics}
use jmap2telegram.Health.Lines.{newlines, family_count}
use jmap2telegram.Health.Lines.Page.{render_metrics-lines, inc-IsPlainFamily}
use jmap2telegram.Tests.Examples.{metrics}

abbrev hostile : Health
hostile = record { watchers = (text "7/a\nfake 1", fresh) ∷ [] }

abbrev counted : Metrics
counted = inc (text "n") (text "h") ((text "kind", text "x\ny") ∷ []) metrics

render_metrics-lines_example :
    newlines (render_metrics (λ t. text "0.5") (some 4096) hostile counted)
    ≡ 20 + 3 + 1 + family_count counted.counters
unfolding newlines
render_metrics-lines_example =
    render_metrics-lines (λ t. text "0.5") (some 4096) hostile counted (λ t. refl)
      (inc-IsPlainFamily (text "n") (text "h") ((text "kind", text "x\ny") ∷ []) metrics refl refl
        (refl, tt) tt)
