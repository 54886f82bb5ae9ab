-- ===== src/Bot/Keyboards.antt =====
-- The callback data of every keyboard that src/bot.rs sends, against Telegram's limit.
use jmap2telegram.Prelude.{
  ℕ, ◌*◌, ◌≤◌, ◌≡◌, ◌⊎◌, inl, inr, Bool, true, false, Bool-cases, Option-cases, List, [], ◌∷◌,
  Option, length, get_elem?, Text, text, Dict, All, All-append, Entries, arith, keys,
}
use jmap2telegram.Strings.{byte_len, len_utf8}
use jmap2telegram.Account.{Account, AccountSlot, generate_slot_id, letter, alphabet}
use jmap2telegram.Format.{Keyboard, notification_keyboard, undo_keyboard}
use jmap2telegram.Format.Limits.{
  FitsCallback, notification_keyboard-FitsCallback, undo_keyboard-FitsCallback,
  shared_accounts_keyboard-FitsCallback,
}
use jmap2telegram.Act.{Env, ChatTarget}
use jmap2telegram.Bot.Replies.{t}
use jmap2telegram.Bot.Login.{slot_before, place, sorted_slots, disconnect_rows}
use jmap2telegram.Bot.Logout.{logout_keyboard}
use jmap2telegram.Bot.Threads.{overview_keyboard}
use jmap2telegram.Bot.Sharing.{sharing_keyboard, discover_all_shared_accounts}

abbrev pub AllFit : Keyboard → Type 0
AllFit keyboard = All (All FitsCallback) keyboard

-- A slot id that the program gives: "default", or one made from eight draws.
abbrev pub IsIssued : Text → Type 0
IsIssued slot_id =
    (slot_id ≡ text "default")
    ⊎ ((draws : List ℕ) × (length draws ≡ 8) × (slot_id ≡ generate_slot_id draws))

abbrev pub AllIssued : Dict Text AccountSlot → Type 0
AllIssued d = Entries (λ slot_id _. IsIssued slot_id) d

len_utf8-le : (c : ℕ) → len_utf8 c ≤ 4
unfolding len_utf8
len_utf8-le c = ground arith

byte_len-generate_slot_id : (draws : List ℕ) → byte_len (generate_slot_id draws) ≤ 4 * length draws
unfolding generate_slot_id byte_len
byte_len-generate_slot_id [] = omega arith
byte_len-generate_slot_id (draw ∷ draws) =
    let rest = byte_len-generate_slot_id draws in
    elim (Option-cases (get_elem? alphabet draw)) [
      | inl e ↦ rw (e, letter) (omega (arith, rest))
      | inr (c, e) ↦ rw (e, letter, byte_len) (omega (arith, rest, len_utf8-le c))
    ]

IsIssued-fits : (slot_id : Text) → IsIssued slot_id → byte_len slot_id ≤ 32
unfolding byte_len len_utf8
IsIssued-fits slot_id (inl h) = rw h (omega arith)
IsIssued-fits slot_id (inr (draws, eight, h)) =
    rw h (omega (arith, byte_len-generate_slot_id draws, eight))

disconnect_rows-AllFit : (d : Dict Text AccountSlot) → AllIssued d → AllFit (disconnect_rows d)
unfolding disconnect_rows byte_len len_utf8
disconnect_rows-AllFit [] h = tt
disconnect_rows-AllFit ((slot_id, slot) ∷ d) (here, there) =
    ((omega (arith, IsIssued-fits slot_id here), tt), disconnect_rows-AllFit d there)

place-AllIssued :
    (slot_id : Text) (slot : AccountSlot) (d : Dict Text AccountSlot)
    → IsIssued slot_id
    → AllIssued d
    → AllIssued (place (slot_id, slot) d)
unfolding place
place-AllIssued slot_id slot [] h rest = (h, tt)
place-AllIssued slot_id slot ((k, v) ∷ d) h (here, there) =
    elim (Bool-cases (slot_before (k, v) (slot_id, slot))) [
      | inl e ↦ rw e (here, place-AllIssued slot_id slot d h there)
      | inr e ↦ rw e (h, (here, there))
    ]

sorted_slots-AllIssued : (d : Dict Text AccountSlot) → AllIssued d → AllIssued (sorted_slots d)
unfolding sorted_slots
sorted_slots-AllIssued [] h = tt
sorted_slots-AllIssued ((slot_id, slot) ∷ d) (here, there) =
    place-AllIssued slot_id slot (sorted_slots d) here (sorted_slots-AllIssued d there)

module _ (e : Env) (target : ChatTarget) (lang : Text) where
  logout_keyboard-AllFit :
      (acc : Account) → AllIssued acc.accounts → AllFit (logout_keyboard e target lang acc)
  unfolding logout_keyboard byte_len len_utf8
  logout_keyboard-AllFit acc h =
      All-append (All FitsCallback) (disconnect_rows acc.accounts) _
        (disconnect_rows-AllFit acc.accounts h) ((omega arith, tt), tt)

  overview_keyboard-AllFit :
      (is_enabled : Bool) → AllFit (overview_keyboard e target lang is_enabled)
  unfolding overview_keyboard byte_len len_utf8
  overview_keyboard-AllFit true = ((omega arith, tt), ((omega arith, tt), tt))
  overview_keyboard-AllFit false = ((omega arith, tt), ((omega arith, tt), tt))

  -- Where every slot id of the chat is "default" or made by the program, each button of the bot's six
  -- kinds of keyboard carries at most 64 bytes of callback data, whatever the ids and names that the
  -- mail servers choose: the buttons of a notification in both layouts, its undo button, the menu of
  -- shared mailboxes, the list of accounts, the choice at a logout, and the overview of topics.
  pub keyboards-AllFit :
      (account_id : Option Text) (email_id : Text) (is_read expanded is_enabled : Bool)
      (acc : Account)
      → AllIssued acc.accounts
      → AllFit (notification_keyboard (t e lang) email_id account_id is_read expanded)
        × AllFit (undo_keyboard (t e lang) email_id account_id)
        × AllFit (sharing_keyboard e acc)
        × AllFit (disconnect_rows (sorted_slots acc.accounts))
        × AllFit (logout_keyboard e target lang acc)
        × AllFit (overview_keyboard e target lang is_enabled)
  unfolding sharing_keyboard
  keyboards-AllFit account_id email_id is_read expanded is_enabled acc issued = (
    notification_keyboard-FitsCallback (t e lang) email_id account_id is_read expanded,
    undo_keyboard-FitsCallback (t e lang) email_id account_id,
    shared_accounts_keyboard-FitsCallback (discover_all_shared_accounts e acc).0
        (keys acc.shared_accounts),
    disconnect_rows-AllFit (sorted_slots acc.accounts) (sorted_slots-AllIssued acc.accounts issued),
    logout_keyboard-AllFit acc issued,
    overview_keyboard-AllFit is_enabled,
  )
