-- ===== src/Health/Lines/Page.antt =====
-- The lines of the whole of /metrics, and of the counters.
use jmap2telegram.Prelude.{
  ℕ, ◌+◌, ◌≡◌, refl, ◌∙◌, inl, inr, List, [], ◌∷◌, Option, none, some, Option-cases, Text, text,
  length, arith, Entries, Entries-insert_sorted, Entries-lookup, All, lookup, list_eq, nat_eq,
}
use jmap2telegram.Health.{
  Health, Metrics, escape_prometheus_label, needs_escape, replace, render_label, render_labels, inc,
  inc_sample, family_or_new,
}
use jmap2telegram.Health.Render.{
  build_info, memory_lines, family_lines, render, connected_count, watcher_lines, render_metrics,
}
use jmap2telegram.Health.Lines.{
  newlines, IsOneLine, escape_prometheus_label-IsOneLine, literal, piece, number, in_turn,
  gauge-lines, IsPlainFamily, family_count, family_lines-lines, watcher_lines-lines,
}

abbrev pub memory_count : Option ℕ → ℕ
memory_count none = 0
memory_count (some _) = 3

memory_lines-lines : (rss : Option ℕ) → newlines (memory_lines rss) ≡ memory_count rss
unfolding memory_lines newlines
memory_lines-lines none = refl
memory_lines-lines (some rss) =
    gauge-lines (text "process_resident_memory_bytes") (text "Resident memory size in bytes.") rss
      refl refl

build_info-lines : newlines build_info ≡ 3
unfolding newlines escape_prometheus_label needs_escape replace
build_info-lines = refl

render-lines :
    (rss : Option ℕ) (m : Metrics)
    → Entries IsPlainFamily m.counters
    → newlines (render rss m) ≡ 12 + memory_count rss + family_count m.counters
unfolding render newlines
render-lines rss m h =
    (in_turn (piece build_info build_info-lines) (
      piece _ (
        gauge-lines (text "jmap2telegram_start_time_seconds")
          (text "Start time of the process since unix epoch in seconds.") m.start_time_seconds refl
          refl)
      ∷ piece _ (
          gauge-lines (text "jmap2telegram_accounts")
            (text "Number of chats currently holding a JMAP account.") m.accounts refl refl)
      ∷ piece _ (
          gauge-lines (text "jmap2telegram_pending_undos")
            (text "Undo slots currently open (triage actions still reversible).") m.pending_undos
            refl refl)
      ∷ piece (memory_lines rss) (memory_lines-lines rss)
      ∷ piece (family_lines m.counters) (family_lines-lines m.counters h)
      ∷ [])).counted

-- When the rendering of an age is one line and every counter's name, help and label sets are, the page
-- of /metrics has its twenty fixed lines, three for the memory where that is known, one for each
-- watcher, whatever the server put into the watcher's key, two for each family of counters and one for
-- each of its samples.
pub render_metrics-lines :
    (elapsed : ℕ → Text) (rss : Option ℕ) (h : Health) (m : Metrics)
    → ((t : ℕ) → IsOneLine (elapsed t))
    → Entries IsPlainFamily m.counters
    → newlines (render_metrics elapsed rss h m)
      ≡ 20 + memory_count rss + length h.watchers + family_count m.counters
unfolding render_metrics newlines
render_metrics-lines elapsed rss h m plain families =
    (in_turn
      (literal (
        text
          "# HELP jmap2telegram_watchers_registered Number of JMAP accounts currently watched.\n"))
      (literal (text "# TYPE jmap2telegram_watchers_registered gauge\n")
        ∷ literal (text "jmap2telegram_watchers_registered ")
        ∷ number (length h.watchers)
        ∷ literal (
            text
              "\n# HELP jmap2telegram_watchers_connected Number of watchers with an open EventSource connection.\n")
        ∷ literal (text "# TYPE jmap2telegram_watchers_connected gauge\n")
        ∷ literal (text "jmap2telegram_watchers_connected ")
        ∷ number (connected_count h.watchers)
        ∷ literal (
            text
              "\n# HELP jmap2telegram_last_activity_age_seconds Seconds since each watcher's last successful JMAP sync.\n")
        ∷ literal (text "# TYPE jmap2telegram_last_activity_age_seconds gauge\n")
        ∷ piece (watcher_lines elapsed h.watchers) (watcher_lines-lines elapsed h.watchers plain)
        ∷ piece (render rss m) (render-lines rss m families)
        ∷ [])).counted
    ∙ omega arith

render_label-IsOneLine : (l : Text × Text) → IsOneLine l.0 → IsOneLine (render_label l)
unfolding render_label newlines
render_label-IsOneLine (k, v) h =
    (in_turn (piece k h) (
      literal (text "=\"")
      ∷ piece (escape_prometheus_label v) (escape_prometheus_label-IsOneLine v)
      ∷ literal (text "\"")
      ∷ [])).counted

render_labels-IsOneLine :
    (labels : List (Text × Text))
    → All (λ l. IsOneLine l.0) labels
    → IsOneLine (render_labels labels)
unfolding render_labels newlines
render_labels-IsOneLine [] h = refl
render_labels-IsOneLine (l ∷ []) (k, _) = render_label-IsOneLine l k
render_labels-IsOneLine (l ∷ m ∷ ls) (k, ks) =
    (in_turn (piece (render_label l) (render_label-IsOneLine l k))
      (piece (b',' ∷ render_labels (m ∷ ls)) (render_labels-IsOneLine (m ∷ ls) ks) ∷ [])).counted

-- An increment keeps the counters plain, whatever the values of its labels.
pub inc-IsPlainFamily :
    (name help : Text) (labels : List (Text × Text)) (m : Metrics)
    → IsOneLine name
    → IsOneLine help
    → All (λ l. IsOneLine l.0) labels
    → Entries IsPlainFamily m.counters
    → Entries IsPlainFamily (inc name help labels m).counters
unfolding inc inc_sample family_or_new
inc-IsPlainFamily name help labels m n h keys families =
    Entries-insert_sorted IsPlainFamily name _ m.counters
      (elim (Option-cases (lookup name m.counters)) [
        | inl e ↦
            rw (e, family_or_new, inc_sample)
              (
                n,
                h,
                Entries-insert_sorted (λ sample _. IsOneLine sample) (render_labels labels) _ []
                    (render_labels-IsOneLine labels keys) tt,
              )
        | inr (family, e) ↦
            let (_, helps, samples) = Entries-lookup IsPlainFamily name m.counters families e in
            rw (e, family_or_new, inc_sample)
              (
                n,
                helps,
                Entries-insert_sorted (λ sample _. IsOneLine sample) (render_labels labels) _
                    family.samples (render_labels-IsOneLine labels keys) samples,
              )
      ])
      families
