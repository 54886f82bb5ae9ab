-- ===== src/Topics/Names.antt =====
-- The names and colours of topics in src/topics.rs. `host` is what the `url` crate finds in the URL
-- of the server.
use jmap2telegram.Prelude.{
  ℕ, zero, suc, ◌+◌, ◌*◌, ◌%◌, ◌^◌, ◌≤◌, ◌<◌, ◌≡◌, refl, inl, inr, true, false, Bool-cases, List,
  [], ◌∷◌, ◌++◌, Option, none, some, if◌then◌else◌, is_some, leb, length, take, length-take,
  get_elem?, Text, text, arith,
}
use jmap2telegram.Config.{ThreadStrategyConfig, server, account}
use jmap2telegram.Strings.{trim, trim_start, trim_end, trim_step, is_whitespace}

abbrev pub topic_colors : List ℕ
topic_colors = 7322096 ∷ 16766590 ∷ 13338331 ∷ 9367192 ∷ 16749490 ∷ 16478047 ∷ []

-- The loop over the bytes; `hash` is a `u32`.
hash_bytes : ℕ → List ℕ → ℕ
hash_bytes hash [] = hash
hash_bytes hash (byte ∷ bytes) = hash_bytes ((hash * 33 % 2 ^ 32 + byte) % 2 ^ 32) bytes

-- `none` stands for the panic of an index out of range.
unfoldable pub pick_topic_color : List ℕ → Option ℕ
unfolding hash_bytes
pick_topic_color seed = get_elem? topic_colors (hash_bytes 5381 seed % length topic_colors)

unfoldable pub format_topic_name : Text → Text
format_topic_name raw = if leb (length (trim raw)) 128 then trim raw else take 128 (trim raw)

abbrev pub host_or : Text → Option Text → Text
host_or server_url none = server_url
host_or server_url (some host) = host

unfoldable pub slot_topic_name : (Text → Option Text) → ThreadStrategyConfig → Text → Text → Text
unfolding format_topic_name
slot_topic_name host server email server_url =
    format_topic_name (text "🌐 " ++ host_or server_url (host server_url))
slot_topic_name host account email server_url = format_topic_name (text "📧 " ++ email)

unfoldable pub shared_topic_name : Text → Text
unfolding format_topic_name
shared_topic_name name = format_topic_name (text "👥 " ++ name)

get_elem?-is_some {ℓ} :
    {A : Type ℓ} (xs : List A) (i : ℕ) → i < length xs → is_some (get_elem? xs i) ≡ true
get_elem?-is_some [] i h = absurd (omega arith)
get_elem?-is_some (x ∷ xs) zero h = refl
get_elem?-is_some (x ∷ xs) (suc i) h = get_elem?-is_some xs i (omega (arith, h))

-- Picking a colour never reads outside the table, whatever the seed.
pub pick_topic_color-is_some : (seed : List ℕ) → is_some (pick_topic_color seed) ≡ true
unfolding pick_topic_color
pick_topic_color-is_some seed =
    get_elem?-is_some topic_colors (hash_bytes 5381 seed % length topic_colors) (omega arith)

-- A name that Telegram takes.
abbrev pub IsTopicName : Text → Type 0
IsTopicName t = (1 ≤ length t) × (length t ≤ 128)

length-trim_step : (c : ℕ) (s : Text) → is_whitespace c ≡ false → 1 ≤ length (trim_step c s)
length-trim_step c [] h = ground arith
length-trim_step c (d ∷ s) h = omega arith

trim_start-cons : (c : ℕ) (s : Text) → is_whitespace c ≡ false → trim_start (c ∷ s) ≡ c ∷ s
unfolding trim_start
trim_start-cons c s h = rw h refl

length-trim_end : (c : ℕ) (s : Text) → is_whitespace c ≡ false → 1 ≤ length (trim_end (c ∷ s))
unfolding trim_end
length-trim_end c s h = length-trim_step c (trim_end s) h

length-trim : (c : ℕ) (s : Text) → is_whitespace c ≡ false → 1 ≤ length (trim (c ∷ s))
unfolding trim
length-trim c s h = rw (trim_start-cons c s h) (length-trim_end c s h)

format_topic_name-IsTopicName :
    (c : ℕ) (s : Text) → is_whitespace c ≡ false → IsTopicName (format_topic_name (c ∷ s))
unfolding format_topic_name
format_topic_name-IsTopicName c s h = cut (trim (c ∷ s)) (length-trim c s h)
  where
    cut : (t : Text) → 1 ≤ length t → IsTopicName (if leb (length t) 128 then t else take 128 t)
    cut t some_char = elim (Bool-cases (leb (length t) 128)) [
      | inl e ↦ rw e (some_char, ground arith)
      | inr e ↦
          rw e (ground (arith, length-take 128 t, some_char), omega (arith, length-take 128 t))
    ]

-- Every topic name has between 1 and 128 characters, with either strategy, for accounts and for
-- shared mailboxes.
pub topic_names-IsTopicName :
    (host : Text → Option Text) (strategy : ThreadStrategyConfig) (email server_url name : Text)
    → IsTopicName (slot_topic_name host strategy email server_url)
      × IsTopicName (shared_topic_name name)
unfolding slot_topic_name shared_topic_name is_whitespace
topic_names-IsTopicName host server email server_url name =
    (format_topic_name-IsTopicName _ _ refl, format_topic_name-IsTopicName _ _ refl)
topic_names-IsTopicName host account email server_url name =
    (format_topic_name-IsTopicName _ _ refl, format_topic_name-IsTopicName _ _ refl)
