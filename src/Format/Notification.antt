-- ===== src/Format/Notification.antt =====
-- `notification_text` of src/format.rs, with `attachments_field`, `human_size` and `from_field`. The
-- rendering of a time by chrono and of a quotient by `format!` are the fields of `Display`.
use jmap2telegram.Prelude.{
  ℕ, ◌-◌, ◌*◌, List, [], ◌∷◌, ◌++◌, Option, none, some, if◌then◌else◌, leb, ltb, length, take, map,
  Text, text, ℤ,
}
use jmap2telegram.Strings.{trim, is_empty, join}
use jmap2telegram.Strings.Decimal.{display}
use jmap2telegram.Jmap.{EmailSummary}
use jmap2telegram.Format.{truncate, escape_markdown, escape_markdown_url, mailto_url, blockquote}

pub record Display : Type 0 where
  -- the time of a timestamp in a time zone, for a timestamp that chrono can represent
  pub received : Text → ℤ → Option Text
  -- `{:.d}` of the quotient of two numbers, as floating point
  pub fixed : ℕ → ℕ → ℕ → Text

abbrev pub field_limit : ℕ
field_limit = 300

abbrev pub preview_limit : ℕ
preview_limit = 400

abbrev max_shown : ℕ
max_shown = 5

time_of : Display → Text → Option ℤ → Text
time_of shown tz none = []
time_of shown tz (some ts) = elim (shown.received tz ts) [ none ↦ [] | some when ↦ when ]

-- `truncate` of an address that is there.
truncated : Option Text → Option Text
truncated none = none
truncated (some addr) = some (truncate addr field_limit)

name_and : Option Text → Text → Text
name_and none addr = addr
name_and (some name) addr =
    if is_empty name then addr else truncate name field_limit ++ text " <" ++ addr ++ text ">"

module _ (shown : Display) (translate : Text → List (Text × Text) → Text) where
  abbrev t : Text → Text
  t key = translate key []

  abbrev t_value : Text → Text → Text
  t_value key value = translate key ((text "value", value) ∷ [])

  linked : Text → Text → Text
  linked sender url =
      if is_empty url
      then escape_markdown sender
      else text "["
        ++ escape_markdown sender
        ++ text "](mailto:"
        ++ escape_markdown_url url
        ++ text ")"

  from_truncated : Option Text → Option Text → Text
  unfolding linked name_and
  from_truncated name none = escape_markdown (t (text "notif.unknown_sender"))
  from_truncated name (some addr) = linked (name_and name addr) (mailto_url addr)

  unfoldable pub from_field : Option Text → Option Text → Text
  unfolding from_truncated truncated
  from_field name addr = from_truncated name (truncated addr)

  unfoldable pub human_size : ℕ → Text
  human_size bytes =
      if leb (1024 * 1024) bytes
      then t_value (text "notif.unit_mb") (shown.fixed 1 bytes (1024 * 1024))
      else if leb 1024 bytes
      then t_value (text "notif.unit_kb") (shown.fixed 0 bytes 1024)
      else t_value (text "notif.unit_b") (display bytes)

  attachment_name : Text → Text
  attachment_name name =
      if is_empty (trim name)
      then t (text "notif.empty_attachment_name")
      else truncate name field_limit

  unfoldable pub attachment_text : Text × ℕ → Text
  unfolding attachment_name human_size
  attachment_text (name, size) =
      escape_markdown (attachment_name name)
      ++ text " \\("
      ++ escape_markdown (human_size size)
      ++ text "\\)"

  -- The number of attachments that are not named.
  more : ℕ → Text
  more extra =
      if ltb 0 extra
      then b' '
        ∷ escape_markdown
            (translate (text "notif.attachments_more") ((text "count", display extra) ∷ []))
      else []

  unfoldable pub attachments_field : List (Text × ℕ) → Text
  unfolding attachment_text more
  attachments_field attachments =
      if is_empty attachments
      then []
      else t_value (text "notif.attachments") (
          join (text ", ") (map attachment_text (take max_shown attachments))
          ++ more (length attachments - max_shown))
        ++ b'\n' ∷ []

  subject_or : Text → Text
  subject_or subject = if is_empty subject then t (text "notif.no_subject") else subject

  mailbox_line : Option Text → Text
  mailbox_line none = []
  mailbox_line (some label) =
      translate (text "notif.mailbox")
        ((text "label", escape_markdown (truncate label field_limit)) ∷ [])
      ++ b'\n' ∷ []

  unfoldable pub notification_text : EmailSummary → Text → Option Text → Text
  unfolding from_field time_of attachments_field subject_or mailbox_line
  notification_text summary tz account_label =
      t (text "notif.title")
      ++ text "\n\n"
      ++ mailbox_line account_label
      ++ t_value (text "notif.from") (from_field summary.from_name summary.from_addr)
      ++ text "\n"
      ++ t_value (text "notif.subject")
          (escape_markdown (subject_or (truncate (trim summary.subject) field_limit)))
      ++ text "\n"
      ++ t_value (text "notif.received") (escape_markdown (time_of shown tz summary.received_at))
      ++ text "\n"
      ++ attachments_field summary.attachments
      ++ text "\n"
      ++ blockquote (escape_markdown (truncate (trim summary.preview) preview_limit))
