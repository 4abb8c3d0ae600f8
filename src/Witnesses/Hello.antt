-- ===== src/Witnesses/Hello.antt =====
-- The theorems on ClientHellos, applied to one in two records.
use sni_router.Common.{
  ℕ, ◌≤◌, ◌≡◌, ◌≢◌, ◌↔◌, ◌∙◌, refl, sym, false, List, [], ◌∷◌, ◌++◌, none, some, ok, err, ◌>>=◌,
  arith, length, replicate, take, drop,
}
use sni_router.Protocol.{max_wire_bytes, default_limits, incomplete}
use sni_router.Protocol.Seen
use sni_router.Protocol.Seen.{has_duplicate, as_mut_slice}
use sni_router.Protocol.Seen.Duplicates.{count, has_duplicate_iff}
use sni_router.Protocol.Hello.{parse_client_hello_body, parse_extensions}
use sni_router.Protocol.Hello.Extensions.{parse_extensions_duplicate}
use sni_router.Protocol.Hello.Written.{put_extensions}
use sni_router.Protocol.Hello.Body.{parse_client_hello_body_sni}
use sni_router.Protocol.Header.{observe}
use sni_router.Protocol.Header.Stream.{header_of, declared, observe-header_of}
use sni_router.Protocol.Record.{RecordLayout, parse_client_hello, scan, scan_records, start}
use sni_router.Protocol.Record.Behind.{IsLayout}
use sni_router.Protocol.Record.Framing.{scan_records_complete}
use sni_router.Protocol.Record.Parse.{body_of, parse_client_hello-wire, parse_client_hello_sound}
use sni_router.Protocol.Record.Prefix.{parse_client_hello-append}
use sni_router.Protocol.Record.Total.{scan_records_fuel, parse_client_hello_prefix}
use sni_router.Protocol.Record.Wire.{Fragment, wire, IsFraming}
use sni_router.Protocol.Record.RoundTrip.{parse_client_hello-Carries}
use sni_router.Delivery.HelloReader.{Read, yields, read_client_hello, returns}
use sni_router.Delivery.HelloReader.Verdict.{concluded, read_client_hello-verdict}
use sni_router.Delivery.HelloReader.Bound.{
  IsRead, read_client_hello-IsRead, read_client_hello-Carries,
}
use sni_router.Witnesses.Data.{
  name_ab, host_ab, sni_extension, other_extension, hello, body, two_records, two_records-Carries,
  two_records-IsFraming, host_parses, is_utf8_ab, hello-IsHello, body_parses,
}

-- The network yields up to ten bytes at a time.
abbrev slow_reads : List Read
slow_reads = replicate 80 (yields 9)

read_client_hello-Carries_example :
    (b : List ℕ) × (rest : List ℕ) × (b ++ rest ≡ wire two_records ++ 0x17 ∷ [])
    × (read_client_hello default_limits (wire two_records ++ 0x17 ∷ []) slow_reads
        ≡ returns (ok (b, record { sni = some host_ab; consumed = 76 })))
read_client_hello-Carries_example =
    read_client_hello-Carries default_limits body two_records (0x17 ∷ []) (some host_ab) slow_reads
      two_records-Carries body_parses (omega arith) tt

-- The wire has a verdict.
wire_verdict :
    parse_client_hello (wire two_records) default_limits
    ≡ ok (record { sni = some host_ab; consumed = 76 })
wire_verdict =
    parse_client_hello-Carries default_limits body two_records [] (some host_ab) two_records-Carries
      body_parses

wire_is_complete : parse_client_hello (wire two_records) default_limits ≢ err incomplete
wire_is_complete unfinished = let same = sym wire_verdict ∙ unfinished in cc

parse_client_hello-append_example :
    parse_client_hello (wire two_records ++ 1 ∷ 2 ∷ []) default_limits
    ≡ parse_client_hello (wire two_records) default_limits
parse_client_hello-append_example =
    parse_client_hello-append default_limits (wire two_records) (1 ∷ 2 ∷ []) wire_is_complete

parse_client_hello_sound_example :
    (n : ℕ) × (fs : List Fragment) × (rest : List ℕ) × (wire two_records ≡ wire fs ++ rest)
    × IsFraming default_limits n fs
    × (parse_client_hello_body (body_of n fs) ≡ ok (some host_ab))
    × (76 ≡ length (wire fs))
parse_client_hello_sound_example =
    parse_client_hello_sound default_limits (wire two_records)
      (record { sni = some host_ab; consumed = 76 }) wire_verdict

read_client_hello-verdict_example :
    (b : List ℕ) × (rest : List ℕ) × (b ++ rest ≡ wire two_records ++ [])
    × (read_client_hello default_limits (wire two_records ++ []) slow_reads
        ≡ concluded (parse_client_hello (wire two_records) default_limits) b)
read_client_hello-verdict_example =
    read_client_hello-verdict default_limits (wire two_records) [] slow_reads wire_is_complete
      (unfold max_wire_bytes in omega arith) (omega arith) tt

parse_client_hello-wire_example : parse_client_hello (wire two_records ++ []) default_limits ≡ (do
  sni ← parse_client_hello_body (body_of 62 two_records)
  ok (record { sni = sni; consumed = length (wire two_records) }))
parse_client_hello-wire_example =
    parse_client_hello-wire default_limits 62 two_records [] two_records-IsFraming

parse_client_hello_body_sni_example : parse_client_hello_body body ≡ ok (some host_ab)
parse_client_hello_body_sni_example =
    parse_client_hello_body_sni hello (other_extension ∷ []) [] [] [] name_ab host_ab hello-IsHello
      refl (ground arith, tt) tt tt tt is_utf8_ab host_parses

parse_client_hello_prefix_example :
    parse_client_hello (take 70 (wire two_records)) default_limits ≡ err incomplete
parse_client_hello_prefix_example =
    parse_client_hello_prefix default_limits 62 two_records (take 70 (wire two_records))
      (drop 70 (wire two_records)) two_records-IsFraming refl (omega arith)

read_client_hello-IsRead_example :
    IsRead default_limits
      (wire two_records)
      (read_client_hello default_limits (wire two_records) slow_reads)
read_client_hello-IsRead_example =
    read_client_hello-IsRead default_limits (wire two_records) slow_reads

scan_records_fuel_example :
    scan 90 default_limits (wire two_records) start ≡ scan_records (wire two_records) default_limits
scan_records_fuel_example = scan_records_fuel default_limits (wire two_records) 90 (omega arith)

parse_extensions_duplicate_example :
    parse_extensions (put_extensions (other_extension ∷ sni_extension ∷ other_extension ∷ []))
    ≢ ok none
parse_extensions_duplicate_example =
    parse_extensions_duplicate (other_extension ∷ sni_extension ∷ other_extension ∷ []) 43 none
      (omega arith)

scan_records_complete_example :
    (layout : RecordLayout) × (scan_records (wire two_records ++ 7 ∷ []) default_limits ≡ ok layout)
    × IsLayout 62 two_records layout
scan_records_complete_example =
    scan_records_complete default_limits 62 two_records (7 ∷ []) two_records-IsFraming

has_duplicate_iff_example :
    (has_duplicate (Seen.push (Seen.push Seen.new 5) 5) ≡ false)
    ↔ ((a : ℕ) → count a (as_mut_slice (Seen.push (Seen.push Seen.new 5) 5)) ≤ 1)
has_duplicate_iff_example = has_duplicate_iff (Seen.push (Seen.push Seen.new 5) 5)

observe-header_of_example :
    observe (header_of (1 ∷ 0 ∷ [])) (0 ∷ 9 ∷ 3 ∷ []) default_limits
    ≡ (header_of (1 ∷ 0 ∷ 0 ∷ 9 ∷ 3 ∷ []), declared default_limits (1 ∷ 0 ∷ 0 ∷ 9 ∷ 3 ∷ []))
observe-header_of_example = observe-header_of default_limits (1 ∷ 0 ∷ []) (0 ∷ 9 ∷ 3 ∷ [])
