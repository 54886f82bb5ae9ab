-- ===== src/Config.antt =====
-- src/config.rs: the configuration and `Config::parse`, whose arguments are the environment
-- variables, each of them set or not. `zone` is `Tz::from_str` of chrono-tz; a time zone is kept as
-- its name. `HashSet<ChatId>` is a list without duplicates.
pub mod Accepts
pub mod Configured
use jmap2telegram.Prelude.{
  ℕ, zero, suc, ◌+◌, ◌-◌, ◌*◌, ◌^◌, Bool, true, false, ◌&&◌, ◌||◌, List, [], ◌∷◌, Option, none,
  some, if◌then◌else◌, leb, ◌==◌, nat_eq, list_eq, int_eq, Text, text, any, ℤ, pos, negsuc, Result,
  ok, err,
}
use jmap2telegram.Strings.{trim, eq_ignore_ascii_case, is_empty, split}
use jmap2telegram.I18n.{canonical}

pub data ThreadedModeConfig : Type 0 where
  disabled enabled auto : ThreadedModeConfig

pub data ThreadStrategyConfig : Type 0 where
  server account : ThreadStrategyConfig

pub data SharedThreadModeConfig : Type 0 where
  dedicated parent : SharedThreadModeConfig

pub record Config : Type 0 where
  pub telegram_token : Text
  pub authorized_chat_ids : List ℤ
  pub data_dir : Text
  pub allow_private_jmap_hosts : Bool
  pub timezone : Text
  pub default_language : Text
  pub telegram_threaded_mode : ThreadedModeConfig
  pub telegram_thread_strategy : ThreadStrategyConfig
  pub telegram_shared_thread_mode : SharedThreadModeConfig

-- The errors, each with the text that its message names.
pub data ConfigError : Type 0 where
  token_not_set token_empty ids_not_set no_chat_id : ConfigError
  invalid_chat_id : Text → ConfigError
  invalid_timezone : Text → ConfigError
  unsupported_language : Text → ConfigError

abbrev pub is_digit : ℕ → Bool
is_digit c = leb b'0' c && leb c b'9'

-- The value of a text of digits, read from the left.
read_digits : ℕ → Text → Option ℕ
read_digits acc [] = some acc
read_digits acc (c ∷ s) =
    let rest = read_digits (acc * 10 + (c - b'0')) s in if is_digit c then rest else none

-- At least one digit.
unfoldable pub read_nat : Text → Option ℕ
unfolding read_digits
read_nat [] = none
read_nat (c ∷ s) = read_digits 0 (c ∷ s)

unfoldable pub within : ℕ → (ℕ → ℤ) → Option ℕ → Option ℤ
within limit f none = none
within limit f (some n) = if leb n limit then some (f n) else none

abbrev pub negated : ℕ → ℤ
negated zero = pos 0
negated (suc n) = negsuc n

-- `str::parse::<i64>`
unfoldable pub parse_i64 : Text → Option ℤ
unfolding read_nat within
parse_i64 [] = none
parse_i64 (c ∷ s) =
    if c == b'-'
    then within (2 ^ 63) negated (read_nat s)
    else within (2 ^ 63 - 1) pos (read_nat (if c == b'+' then s else c ∷ s))

abbrev pub add_id : ℤ → List ℤ → List ℤ
add_id id ids = if any (λ i. i == id) ids then ids else id ∷ ids

-- `map(str::trim).filter(|s| !s.is_empty()).map(parse).collect::<Result<HashSet<_>>>()`: the first
-- error ends the collection.
unfoldable pub parse_ids : List Text → Result (List ℤ) ConfigError
unfolding parse_i64
parse_ids [] = ok []
parse_ids (raw ∷ raws) =
    let rest = parse_ids raws in
    if is_empty (trim raw) then rest else elim (parse_i64 (trim raw)) [
      | none ↦ err (invalid_chat_id (trim raw))
      | some id ↦ elim rest [ ok ids ↦ ok (add_id id ids) | err e ↦ err e ]
    ]

unfoldable pub authorized_ids : Text → Result (List ℤ) ConfigError
unfolding parse_ids split
authorized_ids raw_ids = elim (parse_ids (split b',' raw_ids)) [
  | err e ↦ err e
  | ok ids ↦ if is_empty ids then err no_chat_id else ok ids
]

unfoldable pub parse_timezone : (Text → Option Text) → Option Text → Result Text ConfigError
parse_timezone zone none = ok (text "UTC")
parse_timezone zone (some name) =
    if is_empty name
    then ok (text "UTC")
    else elim (zone name) [ none ↦ err (invalid_timezone name) | some tz ↦ ok tz ]

unfoldable pub parse_language : Option Text → Result Text ConfigError
parse_language none = ok (text "en")
parse_language (some name) = if is_empty name then ok (text "en") else elim (canonical name) [
  | none ↦ err (unsupported_language name)
  | some language ↦ ok language
]

unfoldable pub parse_threaded_mode : Option Text → ThreadedModeConfig
parse_threaded_mode none = auto
parse_threaded_mode (some v) =
    if eq_ignore_ascii_case v (text "disabled")
      || eq_ignore_ascii_case v (text "off")
      || v == text "0"
      || eq_ignore_ascii_case v (text "false")
    then disabled
    else if eq_ignore_ascii_case v (text "enabled")
        || eq_ignore_ascii_case v (text "on")
        || v == text "1"
        || eq_ignore_ascii_case v (text "true")
    then enabled
    else auto

unfoldable pub parse_strategy : Option Text → ThreadStrategyConfig
parse_strategy none = account
parse_strategy (some v) =
    if eq_ignore_ascii_case v (text "server") || eq_ignore_ascii_case v (text "host")
    then server
    else account

unfoldable pub parse_shared_mode : Option Text → SharedThreadModeConfig
parse_shared_mode none = parent
parse_shared_mode (some v) =
    if eq_ignore_ascii_case v (text "dedicated") || eq_ignore_ascii_case v (text "separate")
    then dedicated
    else parent

-- `matches!(…, Some("1") | Some("true") | Some("yes"))`
unfoldable pub parse_allow : Option Text → Bool
parse_allow none = false
parse_allow (some v) = v == text "1" || v == text "true" || v == text "yes"

unfoldable pub dir_or : Option Text → Text
dir_or none = text "/data"
dir_or (some dir) = dir

-- The environment variables, in the order of the arguments.
pub record Vars : Type 0 where
  pub telegram_token : Option Text
  pub raw_ids : Option Text
  pub data_dir : Option Text
  pub allow_private_jmap_hosts : Option Text
  pub timezone : Option Text
  pub default_language : Option Text
  pub telegram_threaded_mode : Option Text
  pub telegram_thread_strategy : Option Text
  pub telegram_shared_thread_mode : Option Text

-- `context(…)?` and the test of the token
unfoldable pub parse_token : Option Text → Result Text ConfigError
parse_token none = err token_not_set
parse_token (some t) = if is_empty (trim t) then err token_empty else ok t

unfoldable pub parse_chat_ids : Option Text → Result (List ℤ) ConfigError
unfolding authorized_ids
parse_chat_ids none = err ids_not_set
parse_chat_ids (some raw) = authorized_ids raw

-- `match … { Ok(a) => …, Err(e) => return Err(e) }`, the `?`
abbrev pub and_then :
    {A B : Type 0} → Result A ConfigError → (A → Result B ConfigError) → Result B ConfigError
and_then (ok a) f = f a
and_then (err e) f = err e

unfoldable pub parse : (Text → Option Text) → Vars → Result Config ConfigError
unfolding parse_token parse_chat_ids parse_timezone parse_language
parse zone v = and_then (parse_token v.telegram_token) (λ token.
    and_then (parse_chat_ids v.raw_ids) (λ ids. and_then (parse_timezone zone v.timezone) (λ tz.
      and_then (parse_language v.default_language) (λ language. ok (record {
        telegram_token = token;
        authorized_chat_ids = ids;
        data_dir = dir_or v.data_dir;
        allow_private_jmap_hosts = parse_allow v.allow_private_jmap_hosts;
        timezone = tz;
        default_language = language;
        telegram_threaded_mode = parse_threaded_mode v.telegram_threaded_mode;
        telegram_thread_strategy = parse_strategy v.telegram_thread_strategy;
        telegram_shared_thread_mode = parse_shared_mode v.telegram_shared_thread_mode;
      })))))
