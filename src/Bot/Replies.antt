-- ===== src/Bot/Replies.antt =====
-- The texts of the answers of src/bot.rs: `t!` in the reader's locale, and `JmapError::localized` and
-- `localized_error` of src/jmap.rs.
use jmap2telegram.Prelude.{[], ◌∷◌, ◌++◌, Text, text, ℕ}
use jmap2telegram.Strings.Decimal.{display}
use jmap2telegram.Store.{Error}
use jmap2telegram.Jmap.{
  JmapError, insecure_url, invalid_url, no_host, private_host, unreachable, protocol,
  message_not_found, no_archive_mailbox, no_junk_mailbox, no_trash_mailbox,
}
use jmap2telegram.Act.{Env}

module _ (e : Env) (lang : Text) where
  abbrev pub t : Text → Text
  t key = e.translate lang key []

  abbrev pub t_with : Text → Text → Text → Text
  t_with key name value = e.translate lang key ((name, value) ∷ [])

  unfoldable pub localized : JmapError → Text
  localized unreachable = t (text "jmap.unreachable")
  localized insecure_url = t (text "jmap.insecure_url")
  localized invalid_url = t (text "jmap.invalid_url")
  localized no_host = t (text "jmap.no_host")
  localized (private_host host ip) =
      e.translate lang (text "jmap.private_host")
        ((text "host", host) ∷ (text "ip", e.ip_text ip) ∷ [])
  localized (protocol operation) = t (text "jmap.protocol")
  localized message_not_found = t (text "jmap.message_not_found")
  localized no_archive_mailbox = t (text "jmap.no_archive")
  localized no_junk_mailbox = t (text "jmap.no_junk")
  localized no_trash_mailbox = t (text "jmap.no_trash")

  -- `format!("❌ {}", e.localized(lang))`
  abbrev pub cross : JmapError → Text
  cross x = text "❌ " ++ localized x

  -- `t!(key, error = e.localized(lang))`
  abbrev pub t_jmap : Text → JmapError → Text
  t_jmap key x = t_with key (text "error") (localized x)

  abbrev pub t_storage : Text → Error → Text
  t_storage key x = t_with key (text "error") (e.storage_message x)

  abbrev pub t_count : Text → ℕ → Text
  t_count key n = t_with key (text "count") (display n)
