-- ===== src/Tests/Codec.antt =====
-- A codec of stores in lists of numbers, and a cipher: an instance of what src/store.rs takes from
-- serde_json and aes_gcm. The round trip of every store is part of it.
use mathlib.Core.Option
use mathlib.Core.Option.{some-injective}
use jmap2telegram.Prelude.{
  ℕ, zero, suc, ◌≡◌, refl, ap, ◌∙◌, Bool, true, false, List, [], ◌∷◌, ◌++◌, Option, none, some,
  length, Text, ℤ, pos, negsuc, Dict, append_assoc, append-nil, arith, if◌then◌else◌, ◌==◌, list_eq,
  nat_eq, list_beq_iff, take, drop, take-append_left, drop-append_left, sym,
}
use jmap2telegram.Account.{Account, AccountSlot, SharedAccount}
use jmap2telegram.Store.{Bytes, Backend}
use jmap2telegram.Store.Persist.{IsLawful, versions}

pub record Codec {ℓ} (A : Type ℓ) : Type ℓ where
  pub encode : A → Bytes
  pub decode : Bytes → Option (A × Bytes)
  pub law : (a : A) (rest : Bytes) → decode (encode a ++ rest) ≡ some (a, rest)

unfoldable take_nat : Bytes → Option (ℕ × Bytes)
take_nat [] = none
take_nat (n ∷ rest) = some (n, rest)

unfoldable nat_codec : Codec ℕ
unfolding take_nat
nat_codec = record { encode = λ n. n ∷ []; decode = take_nat; law = λ n rest. refl }

module _ {ℓ ℓ'} {A : Type ℓ} {B : Type ℓ'} (c : Codec A) (d : Codec B) where
  then_second : A → Option (B × Bytes) → Option ((A × B) × Bytes)
  then_second a none = none
  then_second a (some (b, rest)) = some ((a, b), rest)

  then_first : Option (A × Bytes) → Option ((A × B) × Bytes)
  unfolding then_second
  then_first none = none
  then_first (some (a, rest)) = then_second a (d.decode rest)

  unfoldable pair_codec : Codec (A × B)
  unfolding then_first
  pair_codec = record {
    encode = λ (a, b). c.encode a ++ d.encode b;
    decode = λ bytes. then_first (c.decode bytes);
    law = λ (a, b) rest.
        ap (λ bs. then_first (c.decode bs)) (append_assoc (c.encode a) (d.encode b) rest)
        ∙ ap then_first (c.law a (d.encode b ++ rest))
        ∙ ap (then_second a) (d.law b rest);
  }

-- A type that is read back from another one.
module _ {ℓ ℓ'} {A : Type ℓ} {B : Type ℓ'} (c : Codec A) (to : A → B) (from : B → A) where
  read_as : Option (A × Bytes) → Option (B × Bytes)
  read_as none = none
  read_as (some (a, rest)) = some (to a, rest)

  unfoldable map_codec : ((b : B) → to (from b) ≡ b) → Codec B
  unfolding read_as
  map_codec back = record {
    encode = λ b. c.encode (from b);
    decode = λ bytes. read_as (c.decode bytes);
    law = λ b rest. ap read_as (c.law (from b) rest) ∙ ap (λ b. some (b, rest)) (back b);
  }

-- A list behind its length.
module _ {ℓ} {A : Type ℓ} (c : Codec A) where
  encode_items : List A → Bytes
  encode_items [] = []
  encode_items (a ∷ xs) = c.encode a ++ encode_items xs

  prepend : A → Option (List A × Bytes) → Option (List A × Bytes)
  prepend a none = none
  prepend a (some (xs, rest)) = some (a ∷ xs, rest)

  decode_items : ℕ → Bytes → Option (List A × Bytes)
  decode_items zero bytes = some ([], bytes)
  decode_items (suc n) bytes = elim (c.decode bytes) [
    | none ↦ none
    | some (a, rest) ↦ prepend a (decode_items n rest)
  ]

  decode_counted : Bytes → Option (List A × Bytes)
  decode_counted [] = none
  decode_counted (n ∷ bytes) = decode_items n bytes

  decode_items-encode_items :
      (xs : List A) (rest : Bytes)
      → decode_items (length xs) (encode_items xs ++ rest) ≡ some (xs, rest)
  unfolding decode_items encode_items prepend
  decode_items-encode_items [] rest = refl
  decode_items-encode_items (a ∷ xs) rest =
      rw
        (
          append_assoc (c.encode a) (encode_items xs) rest,
          c.law a (encode_items xs ++ rest),
          decode_items-encode_items xs rest,
        )
        refl

  unfoldable list_codec : Codec (List A)
  unfolding decode_counted
  list_codec = record {
    encode = λ xs. length xs ∷ encode_items xs;
    decode = decode_counted;
    law = decode_items-encode_items;
  }

-- Options are lists of at most one element here, and the other types are built from these.
to_option {ℓ} : {A : Type ℓ} → List A → Option A
to_option [] = none
to_option (a ∷ _) = some a

from_option {ℓ} : {A : Type ℓ} → Option A → List A
from_option none = []
from_option (some a) = a ∷ []

to_option-from_option {ℓ} : {A : Type ℓ} (o : Option A) → to_option (from_option o) ≡ o
unfolding to_option from_option
to_option-from_option none = refl
to_option-from_option (some a) = refl

option_codec {ℓ} : {A : Type ℓ} → Codec A → Codec (Option A)
option_codec c = map_codec (list_codec c) to_option from_option to_option-from_option

int_parts : ℤ → ℕ × ℕ
int_parts (pos n) = (0, n)
int_parts (negsuc n) = (1, n)

int_of : ℕ × ℕ → ℤ
int_of (zero, n) = pos n
int_of (suc _, n) = negsuc n

int_back : (z : ℤ) → int_of (int_parts z) ≡ z
unfolding int_of int_parts
int_back (pos n) = refl
int_back (negsuc n) = refl

bool_part : Bool → ℕ
bool_part false = 0
bool_part true = 1

bool_of : ℕ → Bool
bool_of zero = false
bool_of (suc _) = true

bool_back : (t : Bool) → bool_of (bool_part t) ≡ t
unfolding bool_of bool_part
bool_back false = refl
bool_back true = refl

int_codec : Codec ℤ
int_codec = map_codec (pair_codec nat_codec nat_codec) int_of int_parts int_back

bool_codec : Codec Bool
bool_codec = map_codec nat_codec bool_of bool_part bool_back

text_codec : Codec Text
text_codec = list_codec nat_codec

slot_codec : Codec AccountSlot
slot_codec =
    map_codec
      (pair_codec (pair_codec text_codec (pair_codec text_codec text_codec))
        (pair_codec text_codec (pair_codec (option_codec text_codec) (option_codec int_codec))))
      (λ ((slot_id, (server_url, token)), (email, (last_state, thread_id))). record {
        slot_id = slot_id;
        server_url = server_url;
        token = token;
        email = email;
        last_state = last_state;
        thread_id = thread_id;
      })
      (λ s. ((s.slot_id, (s.server_url, s.token)), (s.email, (s.last_state, s.thread_id))))
      (λ s. refl)

shared_codec : Codec SharedAccount
shared_codec =
    map_codec
      (pair_codec (pair_codec text_codec (option_codec text_codec))
        (pair_codec (option_codec text_codec) (option_codec int_codec)))
      (λ ((name, last_state), (parent_slot, thread_id)). record {
        name = name;
        last_state = last_state;
        parent_slot = parent_slot;
        thread_id = thread_id;
      })
      (λ s. ((s.name, s.last_state), (s.parent_slot, s.thread_id))) (λ s. refl)

account_codec : Codec Account
account_codec =
    map_codec
      (pair_codec
        (pair_codec (option_codec text_codec) (list_codec (pair_codec text_codec shared_codec)))
        (pair_codec (list_codec (pair_codec text_codec slot_codec))
          (pair_codec (list_codec text_codec) (option_codec bool_codec))))
      (λ ((language, shared_accounts), (accounts, (muted, threads_enabled))). record {
        language = language;
        shared_accounts = shared_accounts;
        accounts = accounts;
        muted = muted;
        threads_enabled = threads_enabled;
      })
      (λ a. ((a.language, a.shared_accounts), (a.accounts, (a.muted, a.threads_enabled))))
      (λ a. refl)

pub store_codec : Codec (Dict ℤ Account)
store_codec = list_codec (pair_codec int_codec account_codec)

-- The cipher writes the key in front, and refuses what does not begin with it.
unfoldable pub open_sealed : Bytes → Bytes → Option Bytes
open_sealed key bytes =
    if take (length key) bytes == key then some (drop (length key) bytes) else none

open_sealed-append : (key plaintext : Bytes) → open_sealed key (key ++ plaintext) ≡ some plaintext
unfolding open_sealed
open_sealed-append key plaintext =
    ground
      (arith, take-append_left key plaintext, drop-append_left key plaintext, list_beq_iff key key)

abbrev pub backend : Backend
backend = record {
  to_vec = λ d. some (store_codec.encode d.accounts);
  from_slice = λ bytes. Option.map (λ (d, _). versions d) (store_codec.decode bytes);
  gcm_encrypt = λ key nonce plaintext. some (key ++ plaintext);
  gcm_decrypt = λ key nonce ciphertext. open_sealed key ciphertext;
}

pub backend-IsLawful : IsLawful backend
backend-IsLawful = record {
  decrypts = λ key nonce plaintext ciphertext sealed.
      rw (sym (some-injective _ _ sealed)) (open_sealed-append key plaintext);
  parses = λ d bytes written. rw (sym (some-injective _ _ written)) (
      ap (Option.map (λ (d, _). versions d)) (
        ap store_codec.decode (sym (append-nil (store_codec.encode d.accounts)))
        ∙ store_codec.law d.accounts []));
}
