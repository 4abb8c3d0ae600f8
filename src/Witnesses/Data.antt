-- ===== src/Witnesses/Data.antt =====
-- A ClientHello, and the two records that carry it.
use sni_router.Common.{
  ℕ, ◌≡◌, refl, true, List, [], ◌∷◌, some, ok, arith, length, replicate, take, drop,
}
use sni_router.Lookup.Names.{validate_dns_name}
use sni_router.Lookup.Text.{Str, to_ascii_lowercase}
use sni_router.Lookup.Ip.{parse_ip}
use sni_router.Lookup.Hostname
use sni_router.Lookup.Hostname.{Hostname}
use sni_router.Protocol.{default_limits}
use sni_router.Protocol.Reader.Fields.{put_vec16}
use sni_router.Protocol.Utf8.{is_utf8}
use sni_router.Protocol.Names.Entries.{Entry, put_entries}
use sni_router.Protocol.Hello.{parse_client_hello_body}
use sni_router.Protocol.Hello.Extensions.{AreDistinct}
use sni_router.Protocol.Hello.Written.{Extension}
use sni_router.Protocol.Hello.Body.{Hello, IsHello, put_hello, parse_client_hello_body_sni}
use sni_router.Protocol.Record.Wire.{Fragment, IsFragment, IsFraming}
use sni_router.Protocol.Record.RoundTrip.{Carries, put_message}

abbrev pub name_ab : Str
name_ab = b'A' ∷ b'.' ∷ b'b' ∷ []

abbrev pub host_ab : Hostname
host_ab = record { text = b'a' ∷ b'.' ∷ b'b' ∷ [] }

abbrev pub sni_entry : Entry
sni_entry = record { kind = 0; name = name_ab }

abbrev pub sni_extension : Extension
sni_extension = record { kind = 0; payload = put_vec16 (put_entries (sni_entry ∷ [])) }

abbrev pub other_extension : Extension
other_extension = record { kind = 43; payload = 2 ∷ 3 ∷ 4 ∷ [] }

abbrev pub hello : Hello
hello = record {
  minor = 3;
  random = replicate 32 0x42;
  session_id = [];
  cipher_suites = 0x13 ∷ 0x01 ∷ [];
  compression = 0 ∷ [];
  extensions = other_extension ∷ sni_extension ∷ [];
}

abbrev pub body : List ℕ
body = put_hello hello

body-length : length body ≡ 62
body-length = refl

abbrev pub first_record : Fragment
first_record = record { minor = 1; high = 0; low = 20; payload = take 20 (put_message body) }

abbrev pub second_record : Fragment
second_record = record { minor = 3; high = 0; low = 46; payload = drop 20 (put_message body) }

abbrev pub two_records : List Fragment
two_records = first_record ∷ second_record ∷ []

first_record-IsFragment : IsFragment first_record
first_record-IsFragment = record { tells = refl; some_bytes = omega arith; fits = omega arith }

second_record-IsFragment : IsFragment second_record
second_record-IsFragment = record { tells = refl; some_bytes = omega arith; fits = omega arith }

pub two_records-Carries : Carries default_limits body two_records
two_records-Carries = record {
  message = refl;
  fragments = (first_record-IsFragment, (second_record-IsFragment, tt));
  records = omega arith;
  within = omega arith;
  completes = (omega arith, omega arith);
}

pub two_records-IsFraming : IsFraming default_limits 62 two_records
two_records-IsFraming = record {
  fragments = (first_record-IsFragment, (second_record-IsFragment, tt));
  records = omega arith;
  declares = refl;
  completes = (omega arith, omega arith);
}

pub host_parses : Hostname.parse name_ab ≡ ok host_ab
unfolding Hostname.parse validate_dns_name parse_ip to_ascii_lowercase
host_parses = refl

pub is_utf8_ab : is_utf8 name_ab ≡ true
unfolding is_utf8
is_utf8_ab = refl

pub distinct_kinds : AreDistinct (other_extension ∷ sni_extension ∷ [])
distinct_kinds kind = ground arith

pub hello-IsHello : IsHello hello
hello-IsHello = record {
  minor = omega arith;
  random = refl;
  session_id = omega arith;
  cipher_suites = omega arith;
  even_suites = refl;
  compression = omega arith;
  distinct = distinct_kinds;
}

pub body_parses : parse_client_hello_body body ≡ ok (some host_ab)
body_parses =
    parse_client_hello_body_sni hello (other_extension ∷ []) [] [] [] name_ab host_ab hello-IsHello
      refl (ground arith, tt) tt tt tt is_utf8_ab host_parses
