-- ===== src/Tests/Examples.antt =====
-- The theorems on the JMAP guard, the watchers and the health registry, at small inputs.
use jmap2telegram.Prelude.{
  ◌≡◌, ◌≢◌, ◌↔◌, refl, any, true, false, List, [], ◌∷◌, ◌++◌, none, some, Text, text, pos, negsuc,
  ok, arith, list_eq, nat_eq, int_eq, starts_with, if◌then◌else◌, ◌==◌,
}
use jmap2telegram.Jmap.{
  Network, Ipv4Addr, IpAddr, v4, connect, host_of, is_disallowed_v4, is_disallowed_host,
}
use jmap2telegram.Jmap.Guard.{contains, blocked, is_disallowed_v4-blocked}
use jmap2telegram.Jmap.Connect.{connect_guarded, Resolves, AllPublic}
use jmap2telegram.Watcher.{primary, account, health_key}
use jmap2telegram.Watcher.Keys.{health_key_injective, watched}
use jmap2telegram.Watcher.Loop.{dropped, refused, notices_of}
use jmap2telegram.Watcher.Backoff.{Alternate, notices_of-Alternate}
use jmap2telegram.Health.{Health, Metrics, fresh, escape_prometheus_label, deregister_chat}
use jmap2telegram.Health.Labels.{read_value, read_value-escape_prometheus_label}
use jmap2telegram.Health.Registry.{status, status-deregister_chat}

-- Every URL is of one host, which resolves to one public address.
abbrev pub net : Network
net = record {
  Url = Text;
  Client = Text;
  parse_url = λ url. some url;
  host_str = λ url. some (text "mail.example");
  port_or_known_default = λ url. some 443;
  lookup_host = λ host port. some (v4 (record { o0 = 93; o1 = 184; o2 = 216; o3 = 34 }) ∷ []);
  handshake = λ url token host. some token;
  set_default_account_id = λ id client. client ++ id;
}

abbrev url : Text
url = text "https://mail.example"

connect_guarded_example :
    (starts_with url (text "https://") ≡ true)
    × ((host : Text) × (host_of net url ≡ ok host)
        × (net.handshake url (text "t") host ≡ some (text "t"))
        × (false ≡ false
            → (addrs : List IpAddr) × Resolves net url host addrs × (addrs ≢ []) × AllPublic addrs))
unfolding connect starts_with is_disallowed_host
connect_guarded_example = connect_guarded net url (text "t") false (text "t") connects
  where
    connects : connect net url (text "t") false ≡ ok (text "t")
    connects = refl

abbrev carrier_grade : Ipv4Addr
carrier_grade = record { o0 = 100; o1 = 127; o2 = 3; o3 = 4 }

is_disallowed_v4-blocked_example :
    is_disallowed_v4 carrier_grade ≡ any (λ k. contains k carrier_grade) blocked
is_disallowed_v4-blocked_example =
    is_disallowed_v4-blocked carrier_grade
      (record { b0 = omega arith; b1 = omega arith; b2 = omega arith; b3 = omega arith })

notices_of-Alternate_example : Alternate true (
    notices_of
      (dropped ∷ refused ∷ [])
      (record { backoff = 64; failures = 7; notified_broken = true }))
notices_of-Alternate_example = notices_of-Alternate (dropped ∷ refused ∷ []) 64 7 true

health_key_injective_example :
    (health_key (account (text "work") (text "Work")) (pos 7) ≡ health_key primary (negsuc 6))
    ↔ ((pos 7 ≡ negsuc 6) × (watched (account (text "work") (text "Work")) ≡ watched primary))
health_key_injective_example =
    health_key_injective (account (text "work") (text "Work")) primary (pos 7) (negsuc 6)

abbrev pub registry : Health
registry = record {
  watchers = (health_key primary (pos 7), fresh) ∷ (health_key primary (pos 71), fresh) ∷ [];
}

status-deregister_chat_example :
    status (health_key primary (pos 71)) (deregister_chat (pos 7) registry)
    ≡ (if pos 71 == pos 7 then none else status (health_key primary (pos 71)) registry)
status-deregister_chat_example = status-deregister_chat primary (pos 71) (pos 7) registry

read_value-escape_prometheus_label_example :
    read_value false (escape_prometheus_label (text "a\"} 1\nb") ++ b'"' ∷ text "} 2")
    ≡ some (text "a\"} 1\nb", text "} 2")
read_value-escape_prometheus_label_example =
    read_value-escape_prometheus_label (text "a\"} 1\nb") (text "} 2")

abbrev pub metrics : Metrics
metrics = record { start_time_seconds = 0; counters = []; accounts = 0; pending_undos = 0 }
