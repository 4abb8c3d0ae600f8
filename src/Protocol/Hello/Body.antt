-- ===== src/Protocol/Hello/Body.antt =====
-- The ClientHello body, read from the one that a client wrote, and the name that the router takes
-- from it.
use sni_router.Common.{
  ℕ, ◌+◌, ◌/◌, ◌%◌, ◌^◌, ◌≤◌, ◌<◌, ◌≡◌, ap, sym, ◌∙◌, true, false, List, ◌∷◌, ◌++◌, none, some, ok,
  arith, length, ltb, le→ltb, ◌==◌, ==_iff,
}
use sni_router.Lookup.Hostname
use sni_router.Lookup.Hostname.{Hostname}
use sni_router.Protocol.Reader.{is_empty}
use sni_router.Protocol.Reader.Fields.{
  put16, put_vec8, put_vec16, u16-put, bytes-append, vec8-put, vec16-put, vec16-put_all,
  is_empty-false,
}
use sni_router.Protocol.Utf8.{is_utf8}
use sni_router.Protocol.Names.Entries.{Entry, put_entries, AllOther, parse_server_name_one}
use sni_router.Protocol.Hello.{
  parse_client_hello_body, parse_rest, random_len, max_session_id_len, extension_server_name,
}
use sni_router.Protocol.Hello.Extensions.{
  AreDistinct, NoServerName, parse_extensions-put, names_after-NoServerName, names_after-append,
}
use sni_router.Protocol.Hello.Written.{Extension, put_extensions, names_after}

-- The fields of a ClientHello body.
pub record Hello : Type 0 where
  pub minor : ℕ
  pub random : List ℕ
  pub session_id : List ℕ
  pub cipher_suites : List ℕ
  pub compression : List ℕ
  pub extensions : List Extension

pub record IsHello (h : Hello) : Type 0 where
  pub minor : h.minor < 256
  pub random : length h.random ≡ random_len
  pub session_id : length h.session_id ≤ max_session_id_len
  pub cipher_suites : 1 ≤ length h.cipher_suites
  pub even_suites : length h.cipher_suites % 2 ≡ 0
  pub compression : 1 ≤ length h.compression
  pub distinct : AreDistinct h.extensions

-- The body as a client writes it.
abbrev pub put_hello : Hello → List ℕ
put_hello h =
    put16 (0x300 + h.minor)
    ++ (h.random
        ++ (put_vec8 h.session_id
            ++ (put_vec16 h.cipher_suites
                ++ (put_vec8 h.compression ++ put_vec16 (put_extensions h.extensions)))))

parse_rest-put :
    (es : List Extension)
    → AreDistinct es
    → parse_rest (put_vec16 (put_extensions es)) ≡ names_after es none
unfolding parse_rest is_empty
parse_rest-put es h = rw (vec16-put_all (put_extensions es)) (parse_extensions-put es h)

-- A body in which every field is in range parses to the name that its extensions set.
pub parse_client_hello_body-put :
    (h : Hello) → IsHello h → parse_client_hello_body (put_hello h) ≡ names_after h.extensions none
unfolding parse_client_hello_body
parse_client_hello_body-put h v =
    let major : ((0x300 + h.minor) / 2 ^ 8 == 0x03) ≡ true = (==_iff _ _).1 (omega arith) in
    let session : ltb max_session_id_len (length h.session_id) ≡ false = le→ltb _ _ v.session_id in
    let even : (length h.cipher_suites % 2 == 0) ≡ true = (==_iff _ _).1 v.even_suites in
    rw (u16-put (0x300 + h.minor) _, major)
      (rw (bytes-append random_len h.random _ (sym v.random), vec8-put h.session_id _, session)
        (rw (vec16-put h.cipher_suites _, is_empty-false h.cipher_suites v.cipher_suites, even)
          (rw (vec8-put h.compression _, is_empty-false h.compression v.compression)
            (parse_rest-put h.extensions v.distinct))))

-- A body with one server_name extension among others, which holds one host_name among other entries,
-- parses to that hostname.
pub parse_client_hello_body_sni :
    (h : Hello) (before after : List Extension) (first last : List Entry) (name : List ℕ)
    (host : Hostname)
    → IsHello h
    → h.extensions
      ≡ before
        ++ record {
          kind = extension_server_name;
          payload = put_vec16 (put_entries (first ++ record { kind = 0; name = name } ∷ last));
        }
          ∷ after
    → NoServerName before
    → NoServerName after
    → AllOther first
    → AllOther last
    → is_utf8 name ≡ true
    → Hostname.parse name ≡ ok host
    → parse_client_hello_body (put_hello h) ≡ ok (some host)
parse_client_hello_body_sni h before after first last name host v e b a f l u p =
    parse_client_hello_body-put h v
    ∙ ap (λ es. names_after es none) e
    ∙ names_after-append before _ none b
    ∙ (unfold names_after in
        rw (parse_server_name_one first last name host f l u p)
          (names_after-NoServerName after (some host) a))

-- A body without a server_name extension parses, to no name.
pub parse_client_hello_body_no_sni :
    (h : Hello)
    → IsHello h
    → NoServerName h.extensions
    → parse_client_hello_body (put_hello h) ≡ ok none
parse_client_hello_body_no_sni h v e =
    parse_client_hello_body-put h v ∙ names_after-NoServerName h.extensions none e
