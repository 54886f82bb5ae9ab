-- ===== src/Config/Configured.antt =====
-- The chat ids that an accepted configuration holds (src/config.rs).
use jmap2telegram.Prelude.{
  ◌≡◌, ◌≢◌, refl, sym, ap, ◌∙◌, List, [], Option, some, Text, ℤ, All, arith, Result, ok, err,
}
use jmap2telegram.Config.{
  Config, ConfigError, Vars, authorized_ids, and_then, parse, parse_token, parse_chat_ids,
  parse_timezone, parse_language,
}
use jmap2telegram.Config.Accepts.{IsI64, join_ids, member, authorized_ids-join_ids}

and_then-ok :
    {A B : Type 0} (r : Result A ConfigError) (f : A → Result B ConfigError) (b : B)
    → and_then r f ≡ ok b
    → (a : A) × (r ≡ ok a) × (f a ≡ ok b)
and_then-ok (ok a) f b h = (a, refl, h)
and_then-ok (err x) f b h = absurd (ground (arith, h))

-- The chat ids of a configuration that was accepted.
parse-authorized_ids :
    (zone : Text → Option Text) (v : Vars) (raw : Text) (config : Config)
    → v.raw_ids ≡ some raw
    → parse zone v ≡ ok config
    → authorized_ids raw ≡ ok config.authorized_chat_ids
unfolding parse parse_chat_ids
parse-authorized_ids zone v raw config given accepted =
    let (token, _, h1) = and_then-ok (parse_token v.telegram_token) _ config accepted in
    let (ids, read, h2) = and_then-ok (parse_chat_ids v.raw_ids) _ config h1 in
    let (tz, _, h3) = and_then-ok (parse_timezone zone v.timezone) _ config h2 in
    let (language, _, h4) = and_then-ok (parse_language v.default_language) _ config h3 in
    ap parse_chat_ids (sym given) ∙ read ∙ ap ok (ground (arith, h4))

-- The operator has listed the ids, and the program has taken its configuration from them.
pub record IsConfigured (zone : Text → Option Text) (v : Vars) (ids : List ℤ) (config : Config)
    : Type 0 where
  pub listed : ids ≢ []
  pub fit : All IsI64 ids
  pub given : v.raw_ids ≡ some (join_ids ids)
  pub accepted : parse zone v ≡ ok config

pub configured-member :
    (zone : Text → Option Text) (v : Vars) (ids : List ℤ) (config : Config)
    → IsConfigured zone v ids config
    → (id : ℤ) → member id config.authorized_chat_ids ≡ member id ids
configured-member zone v ids config c id =
    let (got, read, same) = authorized_ids-join_ids ids c.listed c.fit in
    let taken = parse-authorized_ids zone v (join_ids ids) config c.given c.accepted in
    let it : got ≡ config.authorized_chat_ids = ground (arith, sym read ∙ taken) in
    ap (member id) (sym it) ∙ same id
