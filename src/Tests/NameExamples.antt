-- ===== src/Tests/NameExamples.antt =====
-- The theorem on locales, at a small input.
use jmap2telegram.Prelude.{◌≡◌, ◌⊎◌, none, some, text}
use jmap2telegram.I18n.{resolve}
use jmap2telegram.I18n.Stable.{resolve-resolve}
use jmap2telegram.Topics.Names.{}

resolve-resolve_example :
    ((resolve none (some (text "fr-CA")) (text "de") ≡ text "en")
      ⊎ (resolve none (some (text "fr-CA")) (text "de") ≡ text "fr"))
    × (resolve
          (some (resolve none (some (text "fr-CA")) (text "de")))
          (some (text "en"))
          (text "en")
        ≡ resolve none (some (text "fr-CA")) (text "de"))
resolve-resolve_example =
    resolve-resolve none (some (text "fr-CA")) (some (text "en")) (text "de") (text "en")
