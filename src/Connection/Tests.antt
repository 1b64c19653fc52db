-- ===== src/Connection/Tests.antt =====
-- A connection that sends "hello", and the theorems at inputs that meet their hypotheses.
use curlion.Common.{
  ℕ, ◌≤◌, ◌≡◌, refl, true, false, none, some, List, [], ◌∷◌, Bytes, codes, pos, negsuc, length,
  take, arith,
}
use curlion.Curl.{CurlOption, in_force, code, Reply, count, status, seek_set, seek_end}
use curlion.Connection.State.{Connection, Client, new, reset_options, end, current}
use curlion.Connection.Body.{
  seek_stored_body, original_position, seek_body, read_body, read_stored_body, after_copy, memcpy,
}
use curlion.Connection.Callbacks.{
  Transfer, transfer, reads, seeks, writes_header, writes_body, reports_error, transfers, start,
  curl_read_body_callback, curl_seek_body_callback,
}
use curlion.Connection.Options.{set_request_body}
use curlion.Connection.Calls.{Setting, dns_resolve_items, url, verbose, options_reset}
use curlion.Connection.Reading.{
  BodyIsSound, unread, advance, reading, requested, delivered, Counted, transfers-reading,
  read_body-set_request_body,
}
use curlion.Connection.Seeking.{
  sought, target, seek_stored_body-target, rewind_rereads, curl_seek_body_callback-seek_end,
}
use curlion.Connection.Quiet.{IsQuiet, left}
use curlion.Connection.Response.{transfers_quiet}
use curlion.Connection.Lifecycle.{notified, start_quiet, reset_options-new}

abbrev pub silent : Client
silent = record {
  read_body = λ f c n. (c, false, [], 0);
  seek_body = λ f c origin offset. (c, false);
  write_header = λ f c header. (c, true);
  write_body = λ f c body. (c, true);
  progress = λ f c a b d e. (c, true);
  debug = λ f c type bytes. c;
  finished = λ f c. c;
}

-- Two bytes of its body are read.
abbrev pub hello : Connection
hello = record new {
  request_body = codes "hello";
  request_body_read_length = 2;
  finished_callback = some 1;
}

abbrev requests : List (ℕ × ℕ)
requests = (1, 2) ∷ (1, 16) ∷ (1, 16) ∷ []

abbrev pub exchange : List Transfer
exchange =
    reads 1 16
    ∷ writes_header (codes "A: b") 1 4
    ∷ seeks (pos 0) seek_set
    ∷ reads 1 3
    ∷ writes_body (codes "xyz") 1 2
    ∷ reports_error (codes "late")
    ∷ []

-- The model runs.
reads_in_pieces :
    (transfers silent hello (reading requests)
      ≡ some (advance 3 hello, (count 2, codes "ll") ∷ (count 1, codes "o") ∷ (count 0, []) ∷ []))
unfolding new transfers transfer curl_read_body_callback read_body read_stored_body after_copy
    memcpy
reads_in_pieces = refl

transfers-reading_example :
    (answers : List (Reply × Bytes)) × (transfers silent hello (reading requests)
      ≡ some (advance (length (delivered answers)) hello, answers))
    × (delivered answers ≡ take (requested requests) (unread hello))
    × Counted answers
unfolding new
transfers-reading_example =
    transfers-reading silent hello requests refl
      (record { within = omega arith; fits = omega arith })

hello-IsQuiet : IsQuiet hello
unfolding new
hello-IsQuiet = record {
  no_read = refl;
  no_header = refl;
  no_body = refl;
  no_progress = refl;
  no_debug = refl;
}

hello-BodyIsSound : BodyIsSound hello
hello-BodyIsSound = record { within = omega arith; fits = omega arith }

transfers_quiet_example :
    (at : ℕ) × (message : Bytes) × (answers : List (Reply × Bytes)) × (at
      ≤ length hello.request_body)
    × (transfers silent hello exchange
        ≡ some (left hello at message (codes "A: b") (codes "xy"), answers))
unfolding new
transfers_quiet_example = transfers_quiet silent hello exchange hello-IsQuiet hello-BodyIsSound

start_quiet_example :
    (at : ℕ) × (message : Bytes) × (at ≤ length hello.request_body)
    × (start silent hello exchange (code 0)
        ≡ some (
            notified silent hello.finished_callback
              (record (left hello at message (codes "A: b") (codes "xy")) {
                is_running = false;
                result = code 0;
              })))
unfolding new
start_quiet_example = start_quiet silent hello exchange (code 0) refl hello-IsQuiet (omega arith)

seek_stored_body-target_example :
    seek_stored_body hello current (negsuc 0)
    ≡ sought hello (target (original_position hello current) (negsuc 0) (length hello.request_body))
seek_stored_body-target_example =
    seek_stored_body-target hello current (negsuc 0) hello-BodyIsSound (omega arith)
      (omega arith, omega arith)

rewind_rereads_example :
    (answers : List (Reply × Bytes)) × (final : Connection) × (transfers silent hello
        (seeks (pos 0) seek_set ∷ reading requests)
      ≡ some (final, (status (pos 0), []) ∷ answers))
    × (delivered answers ≡ take (requested requests) (codes "hello"))
unfolding new
rewind_rereads_example = rewind_rereads silent hello requests refl (omega arith)

read_body-set_request_body_example : read_body silent (set_request_body (codes "h") hello) 16 ≡ none
unfolding new
read_body-set_request_body_example =
    read_body-set_request_body silent hello (codes "h") 16 refl (omega arith) (omega arith)
      (omega arith)

curl_seek_body_callback-seek_end_example :
    (curl_seek_body_callback silent hello (negsuc 1) seek_end ≡ (hello, status (pos 1), []))
    × ((seek_body silent hello end (negsuc 1)).1 ≡ true)
unfolding new
curl_seek_body_callback-seek_end_example =
    curl_seek_body_callback-seek_end silent hello 1 refl (omega arith) (omega arith)

abbrev settings : List Setting
settings =
    url (codes "http://a")
    ∷ dns_resolve_items ((codes "a:80", codes "1.2.3.4") ∷ (codes "b:80", []) ∷ [])
    ∷ options_reset
    ∷ verbose true
    ∷ []

reset_options-new_example :
    (in_force CurlOption.url (reset_options hello).handle ≡ in_force CurlOption.url new.handle)
    × (reset_options hello ≡ record new {
      handle = (reset_options hello).handle;
      result = hello.result;
      error_buffer = hello.error_buffer;
      response_header = hello.response_header;
      response_body = hello.response_body;
    })
unfolding new
reset_options-new_example = reset_options-new hello CurlOption.url refl
