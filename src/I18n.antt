-- ===== src/I18n.antt =====
-- src/i18n.rs: the choice of a locale. The texts of the locales are not
-- modelled. The list of commands and the help text are built from their descriptions.
pub mod Stable
use jmap2telegram.Prelude.{
  ℕ, ◌||◌, List, [], ◌∷◌, Option, none, some, if◌then◌else◌, ◌==◌, nat_eq, find, Text, text, map,
  ◌++◌,
}
use jmap2telegram.Strings.{eq_ignore_ascii_case, join}

abbrev pub supported : List Text
supported = text "en" ∷ text "fr" ∷ []

unfoldable pub canonical : Text → Option Text
canonical locale = find (λ l. eq_ignore_ascii_case l locale) supported

-- `code.split(['-', '_']).next()`
unfoldable pub primary_subtag : Text → Text
primary_subtag [] = []
primary_subtag (c ∷ code) =
    let rest = primary_subtag code in if c == b'-' || c == b'_' then [] else c ∷ rest

unfoldable pub detect : Text → Option Text
unfolding canonical primary_subtag
detect code = canonical (primary_subtag code)

-- `and_then` and `or_else`
abbrev pub and_then : (Text → Option Text) → Option Text → Option Text
and_then f none = none
and_then f (some t) = f t

abbrev pub or_else : Option Text → Option Text → Option Text
or_else none other = other
or_else (some t) other = some t

abbrev pub unwrap_or : Text → Option Text → Text
unwrap_or default none = default
unwrap_or default (some t) = t

unfoldable pub resolve : Option Text → Option Text → Text → Text
resolve stored detected default =
    unwrap_or (text "en")
      (or_else (and_then canonical stored) (or_else (and_then detect detected) (canonical default)))

-- The commands that are registered with Telegram, each with the key of its description.
abbrev command_names : List Text
command_names =
    text "start"
    ∷ text "login"
    ∷ text "logout"
    ∷ text "status"
    ∷ text "shared"
    ∷ text "accounts"
    ∷ text "mute"
    ∷ text "unmute"
    ∷ text "search"
    ∷ text "threads"
    ∷ text "lang"
    ∷ text "help"
    ∷ []

-- `translate` is `t!` at the locale.
unfoldable pub bot_commands : (Text → Text) → List (Text × Text)
bot_commands translate = map (λ name. (name, translate (text "cmd." ++ name))) command_names

-- `/{command} - {description}`
command_line : Text × Text → Text
command_line (command, description) = b'/' ∷ command ++ text " - " ++ description

unfoldable pub help_text : (Text → Text) → Text
unfolding bot_commands command_line
help_text translate = join (text "\n") (map command_line (bot_commands translate))
