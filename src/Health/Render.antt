-- ===== src/Health/Render.antt =====
-- The text of /metrics and the answers to probes (src/health.rs). The program's memory, the rendering of
-- an age as a floating-point number and `String::from_utf8_lossy` come from outside. The registry is a
-- HashMap: its watchers come in any order, here that of the list.
use jmap2telegram.Prelude.{
  ℕ, suc, List, [], ◌∷◌, ◌++◌, Option, none, some, if◌then◌else◌, ◌==◌, nat_eq, list_eq, Text, text,
  Dict, length,
}
use jmap2telegram.Strings.{is_empty, words, byte_len}
use jmap2telegram.Strings.Decimal.{display}
use jmap2telegram.Health.{WatcherStatus, Health, Family, Metrics, escape_prometheus_label}

unfoldable pub push_metric_header : Text → Text → Text → Text
push_metric_header name help kind =
    text "# HELP "
    ++ name
    ++ text " "
    ++ help
    ++ text "\n# TYPE "
    ++ name
    ++ text " "
    ++ kind
    ++ text "\n"

unfoldable pub push_metric : Text → Text → Text → Text → Text
unfolding push_metric_header
push_metric name help kind value =
    push_metric_header name help kind ++ name ++ text " " ++ value ++ text "\n"

unfoldable pub sample_line : Text → Text × ℕ → Text
sample_line name (labels, value) =
    if is_empty labels
    then name ++ text " " ++ display value ++ text "\n"
    else name ++ text "{" ++ labels ++ text "} " ++ display value ++ text "\n"

unfoldable pub sample_lines : Text → Dict Text ℕ → Text
unfolding sample_line
sample_lines name [] = []
sample_lines name (s ∷ ss) = sample_line name s ++ sample_lines name ss

unfoldable pub family_lines : Dict Text Family → Text
unfolding sample_lines push_metric_header
family_lines [] = []
family_lines ((name, family) ∷ fs) =
    push_metric_header name family.help (text "counter")
    ++ sample_lines name family.samples
    ++ family_lines fs

-- `CARGO_PKG_VERSION`
abbrev pub version : Text
version = text "0.12.0"

abbrev pub build_info : Text
build_info =
    text
      "# HELP jmap2telegram_build_info Build information as a constant 1, labeled with the crate version.\n"
    ++ text "# TYPE jmap2telegram_build_info gauge\n"
    ++ text "jmap2telegram_build_info{version=\""
    ++ escape_prometheus_label version
    ++ text "\"} 1\n"

unfoldable pub gauge : Text → Text → ℕ → Text
unfolding push_metric
gauge name help value = push_metric name help (text "gauge") (display value)

unfoldable pub memory_lines : Option ℕ → Text
unfolding gauge
memory_lines none = []
memory_lines (some rss) =
    gauge (text "process_resident_memory_bytes") (text "Resident memory size in bytes.") rss

-- `rss` is what `process_resident_memory_bytes` returns.
unfoldable pub render : Option ℕ → Metrics → Text
unfolding gauge memory_lines family_lines
render rss m =
    build_info
    ++ gauge (text "jmap2telegram_start_time_seconds")
        (text "Start time of the process since unix epoch in seconds.") m.start_time_seconds
    ++ gauge (text "jmap2telegram_accounts")
        (text "Number of chats currently holding a JMAP account.") m.accounts
    ++ gauge (text "jmap2telegram_pending_undos")
        (text "Undo slots currently open (triage actions still reversible).") m.pending_undos
    ++ memory_lines rss
    ++ family_lines m.counters

unfoldable pub connected_count : Dict Text WatcherStatus → ℕ
connected_count [] = 0
connected_count ((_, status) ∷ ws) =
    let rest = connected_count ws in if status.connected then suc rest else rest

unfoldable pub age : (ℕ → Text) → Option ℕ → Text
age elapsed none = text "+Inf"
age elapsed (some t) = elapsed t

unfoldable pub watcher_lines : (ℕ → Text) → Dict Text WatcherStatus → Text
unfolding age escape_prometheus_label
watcher_lines elapsed [] = []
watcher_lines elapsed ((key, status) ∷ ws) =
    text "jmap2telegram_last_activity_age_seconds{watcher=\""
    ++ escape_prometheus_label key
    ++ text "\"} "
    ++ age elapsed status.last_activity
    ++ text "\n"
    ++ watcher_lines elapsed ws

-- `elapsed t` is `t.elapsed().as_secs_f64().to_string()`.
unfoldable pub render_metrics : (ℕ → Text) → Option ℕ → Health → Metrics → Text
unfolding connected_count watcher_lines render
render_metrics elapsed rss h m =
    text "# HELP jmap2telegram_watchers_registered Number of JMAP accounts currently watched.\n"
    ++ text "# TYPE jmap2telegram_watchers_registered gauge\n"
    ++ text "jmap2telegram_watchers_registered "
    ++ display (length h.watchers)
    ++ text
        "\n# HELP jmap2telegram_watchers_connected Number of watchers with an open EventSource connection.\n"
    ++ text "# TYPE jmap2telegram_watchers_connected gauge\n"
    ++ text "jmap2telegram_watchers_connected "
    ++ display (connected_count h.watchers)
    ++ text
        "\n# HELP jmap2telegram_last_activity_age_seconds Seconds since each watcher's last successful JMAP sync.\n"
    ++ text "# TYPE jmap2telegram_last_activity_age_seconds gauge\n"
    ++ watcher_lines elapsed h.watchers
    ++ render rss m

-- The end of the one read from a connection.
pub data Read : Type 0 where
  elapsed_deadline : Read
  failed_read : Read
  request : Text → Read

second_word : List Text → Text
second_word [] = []
second_word (_ ∷ []) = []
second_word (_ ∷ w ∷ _) = w

unfoldable pub answer_to : (ℕ → Text) → Option ℕ → Health → Metrics → Text → Text × Text
unfolding render_metrics
answer_to elapsed rss h m path =
    if path == text "/healthz"
    then (text "200 OK", text "ok\n")
    else if path == text "/readyz"
    then (text "200 OK", text "ok\n")
    else if path == text "/metrics"
    then (text "200 OK", render_metrics elapsed rss h m)
    else (text "404 Not Found", [])

unfoldable pub response : Text × Text → Text
response (status, body) =
    text "HTTP/1.1 "
    ++ status
    ++ text "\r\nContent-Type: text/plain; version=0.0.4\r\nContent-Length: "
    ++ display (byte_len body)
    ++ text "\r\nConnection: close\r\n\r\n"
    ++ body

-- What is written to the connection, if anything.
unfoldable pub respond : (ℕ → Text) → Option ℕ → Health → Metrics → Read → Option Text
unfolding answer_to response second_word
respond elapsed rss h m elapsed_deadline = none
respond elapsed rss h m failed_read = none
respond elapsed rss h m (request text_read) =
    some (response (answer_to elapsed rss h m (second_word (words text_read))))
