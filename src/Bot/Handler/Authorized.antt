-- ===== src/Bot/Handler/Authorized.antt =====
-- What src/bot.rs does with the updates of chats that AUTHORIZED_CHAT_IDS does not list.
use jmap2telegram.Prelude.{
  ◌≡◌, ◌⊎◌, Bool, true, false, List, [], ◌∷◌, ◌++◌, Option, none, some, Text, text, ℤ, All,
}
use jmap2telegram.Config.Accepts.{member}
use jmap2telegram.Act.{Env, World, Call, send_message, answer_callback_query}
use jmap2telegram.Bot.Replies.{t}
use jmap2telegram.Bot.Handler.{
  Command, Message, TapMessage, CallbackQuery, is_authorized, message_handler, callback_handler,
}

-- What Telegram delivers.
pub data Update : Type 0 where
  message : Message → Update
  tap : CallbackQuery → Update

module _ (e : Env) (parse : Text → Option Command) where
  -- The world after an update, whether its handler ends with an error or not.
  unfoldable pub on_update : Update → World e → World e
  on_update (message msg) w = (message_handler e parse msg w).1
  on_update (tap q) w = (callback_handler e q w).1

  unfoldable pub on_updates : List Update → World e → World e
  unfolding on_update
  on_updates [] w = w
  on_updates (u ∷ us) w = on_updates us (on_update u w)

-- A chat that may not use the bot: it is not private, or it is not in the list.
abbrev pub IsForeignChat : List ℤ → Bool → ℤ → Type 0
IsForeignChat ids is_private chat_id = (is_private ≡ false) ⊎ (member chat_id ids ≡ false)

abbrev pub IsForeignTap : List ℤ → Option TapMessage → Type 0
IsForeignTap ids none = Unit {0}
IsForeignTap ids (some m) = IsForeignChat ids m.is_private m.chat_id

-- The chat of the update may not use the bot. A tap may have no message.
abbrev pub IsForeign : List ℤ → Update → Type 0
IsForeign ids (message msg) = IsForeignChat ids msg.is_private msg.chat_id
IsForeign ids (tap q) = IsForeignTap ids q.message

-- A call that tells nothing but the refusal: the refusal itself, in a private chat that is not in the
-- list, or a tap's answer without a text.
abbrev pub IsRefusal : (Text → Text → Text) → List ℤ → Call → Type 0
IsRefusal say ids call =
    (call ≡ answer_callback_query none false)
    ⊎ ((msg : Message) × (lang : Text) × (msg.is_private ≡ true)
        × (member msg.chat_id ids ≡ false)
        × (call
            ≡ send_message (record { id = msg.chat_id; thread_id = msg.thread_id })
                (say lang (text "bot.unauthorized")) none))

module _ (e : Env) (parse_command : Text → Option Command) (ids : List ℤ) where
  abbrev IsListed : Type 0
  IsListed = (id : ℤ) → is_authorized e id ≡ member id ids

  -- The calls that a step adds are refusals, and it changes nothing else.
  abbrev Refuses : World e → World e → Type 0
  Refuses w after =
      (calls : List Call) × (after ≡ record w { calls = w.calls ++ calls })
      × All (IsRefusal (λ lang key. t e lang key) ids) calls
