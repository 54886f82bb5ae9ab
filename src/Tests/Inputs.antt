-- ===== src/Tests/Inputs.antt =====
-- A chat with two slots and a shared mailbox, and what a `persist` meets.
use jmap2telegram.Prelude.{[], ◌∷◌, none, some, true, false, negsuc, Text, text, pos}
use jmap2telegram.Account.{Account, AccountSlot, SharedAccount}
use jmap2telegram.Config.{Config, auto, dedicated}
use jmap2telegram.Config
use jmap2telegram.Store.{Bytes, Io, Store}

abbrev pub slot_named : Text → Text → AccountSlot
slot_named slot_id email = record {
  slot_id = slot_id;
  server_url = text "https://mail.example";
  token = text "t0ken";
  email = email;
  last_state = some (text "s1");
  thread_id = none;
}

abbrev pub team : SharedAccount
team = record {
  name = text "Team";
  last_state = none;
  parent_slot = some (text "work");
  thread_id = some (pos 12);
}

abbrev pub account : Account
account = record {
  language = some (text "fr");
  shared_accounts = (text "acc9", team) ∷ [];
  accounts =
      (text "default", slot_named (text "default") (text "me@home"))
      ∷ (text "work", slot_named (text "work") (text "me@work"))
      ∷ [];
  muted = text "newsletter" ∷ [];
  threads_enabled = some true;
}

abbrev pub nonce : Bytes
nonce = 1 ∷ 2 ∷ 3 ∷ 4 ∷ 5 ∷ 6 ∷ 7 ∷ 8 ∷ 9 ∷ 10 ∷ 11 ∷ 12 ∷ []

abbrev pub works : Io
works = record { nonce = nonce; fails_at = none; written = 0 }

-- The third call to the file system fails.
abbrev pub breaks : Io
breaks = record { nonce = nonce; fails_at = some 2; written = 5 }

abbrev pub store : Store
store = record {
  key = 9 ∷ 9 ∷ [];
  contents = record { accounts = (pos 7, account) ∷ [] };
  disk = record { state_enc = none; state_tmp = none };
}

-- The chats 7 and -3 may use the bot.
abbrev pub config : Config
config = record {
  telegram_token = text "123:abc";
  authorized_chat_ids = pos 7 ∷ negsuc 2 ∷ [];
  data_dir = text "/data";
  allow_private_jmap_hosts = false;
  timezone = text "UTC";
  default_language = text "en";
  telegram_threaded_mode = auto;
  telegram_thread_strategy = Config.account;
  telegram_shared_thread_mode = dedicated;
}
