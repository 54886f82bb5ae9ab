-- ===== src/Lib.antt =====
-- jmap2telegram: a Telegram bot that watches JMAP mailboxes. Each chat connects one or more
-- accounts (`/login`), the bot keeps them in an encrypted store, runs one watcher per account and
-- per opted-in shared mailbox, and sends a notification with buttons for each new message.
--
-- The parts, with their files here and in the repository:
--
--   Config, Config/Accepts, Config/Configured: `Config::parse` over the environment variables
--   (src/config.rs).
--   Account and Account/Valid: the records of one chat, their methods and the migration of older
--   versions (src/store.rs). `Valid` has the well-formedness that every mutator keeps.
--   Store: the encrypted store (src/store.rs), its `Backend` (the JSON codec and the cipher) as a
--   parameter. `persist` is a list of five calls to the file system, each of which may fail;
--   Store/Slots, Store/Shared and Store/Settings have the mutators, and Store/History one type for
--   all their calls. Store/Abstract is the store as a map from chats to accounts, and
--   Store/Refines relates the two. Store/MasterKey is `load_or_create_key`, over the file of the
--   key and what the file system does.
--   Jmap, Jmap/Guard, Jmap/Connect: `connect` and the guard against internal addresses
--   (src/jmap.rs), over a `Network` with the resolver, the url crate and the session handshake as
--   parameters. Jmap/Mail: the queries and the actions on messages, over a `MailServer` with the
--   requests of jmap_client as parameters; Jmap/Lawful is what a server that grants them promises.
--   Watcher, Watcher/Loop, Watcher/Keys: watch targets, the notification policy, and the variables
--   of the reconnect loop as a machine (src/watcher.rs). Sync/Round: `run_once` and the task of
--   `spawn`, over sequences of connections and of events. Sync: sync_and_notify (src/watcher.rs),
--   over a `World` with the server's answers, the outcome of each message and the file system at
--   each write.
--   Topics, Topics/Names, Topics/Ensure: the topic of a notification, names and colours, and the
--   creation and deletion of topics (src/topics.rs). I18n: the choice of a locale, the list of
--   commands and the help (src/i18n.rs).
--   State, with State/Clients: the caches of clients, the tasks and their teardown (src/state.rs).
--   Health, Health/Registry, Health/Labels, Health/Render: the registry of watchers, the counters,
--   the text of /metrics and the answers to requests (src/health.rs). Health/Lines counts the
--   lines of that text.
--   Format, with Format/Chunks and Format/Notification: escapes, keyboards, chunk_text and the
--   text of a notification (src/format.rs).
--   Act: what the handlers run in, a state with errors over the shared state, the JMAP servers and
--   the calls made to Telegram, whose answers are a sequence. Prelude/Steps has its operations.
--   Accounts: the adoption of clients, and the resumption of stored accounts after a start
--   (src/accounts.rs).
--   Bot: Bot/Handler has message_handler and callback_handler, Bot/Callback which branch a tap
--   takes, and Bot/Login, Bot/Logout, Bot/Settings, Bot/Threads, Bot/Search, Bot/Sharing,
--   Bot/Triage and Bot/FullText the commands and branches (src/bot.rs). Bot/Keyboards takes the
--   keyboards of all of them together.
--   Tests: a lawful codec, a lawful mail server, inputs, and the theorems applied to them.
--   Strings: what the program uses of Rust's `char` and `str`. Prelude: tests, equality, lists and
--   maps.
--
-- A store operation takes the store and returns a result with the store after it, since a failed
-- `persist` leaves the change in memory. Maps are association lists: `insert` and `erase` for a
-- HashMap, `insert_sorted` for a BTreeMap, whose first entry is the one that `primary_slot` reads.
-- Text is a list of code points. The fuel of `display` is the number plus one, which is enough as
-- each step divides by ten. The fuel of the resume loop is its number of turns; the loop of the
-- program has no bound, and a fuel above the number of turns before the server answers, or before
-- the account is gone, is enough.
--
-- Not modelled: locks and the interleaving of threads (a mutation is one call with nothing in
-- between; a resume loop takes what the others do while it waits as a sequence of changes), the
-- event source and the timers of run_once (a sequence of events), the Telegram and HTTP clients,
-- the words of the translations, the reading of the process's memory from /proc, logging and
-- `main`.
pub mod Prelude
pub mod Strings
pub mod Account
pub mod Store
pub mod Jmap
pub mod Watcher
pub mod Health
pub mod I18n
pub mod Config
pub mod Topics
pub mod Sync
pub mod State
pub mod Format
pub mod Act
pub mod Accounts
pub mod Bot
pub mod Tests
