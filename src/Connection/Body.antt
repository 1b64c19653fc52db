-- ===== src/Connection/Body.antt =====
-- connection.cpp: the methods that libcurl's callbacks lead to. They read and seek the request
-- body, and write the response. Logging changes nothing and is left out.
use curlion.Common.{
  ℕ, ◌+◌, min, Bool, true, false, Option, none, some, ◌++◌, Bytes, ℤ, length, take, drop, leb,
  if◌then◌else◌, size_add, size_sub, size_of_off,
}
use curlion.Connection.State.{Connection, Client, SeekOrigin, begin, current, end, DebugDataType}

-- What `ReadBody` leaves: its result, the bytes that it put into the buffer, and `actual_length`.
pub record Read : Type 0 where
  pub connection : Connection
  pub is_succeeded : Bool
  pub body : Bytes
  pub actual_length : ℕ

-- `std::memcpy` of `n` bytes from `data.data() + from`; `none` where that reads past the end.
unfoldable pub memcpy : Bytes → ℕ → ℕ → Option Bytes
memcpy bytes from n =
    if leb (from + n) (length bytes) then some (take n (drop from bytes)) else none

-- The rest of `ReadBody`'s branch with no callback, behind the copy.
unfoldable pub after_copy : Connection → ℕ → Option Bytes → Option Read
after_copy c actual_length none = none
after_copy c actual_length (some bytes) = some (record {
  connection = record c {
    request_body_read_length = size_add c.request_body_read_length actual_length;
  };
  is_succeeded = true;
  body = bytes;
  actual_length = actual_length;
})

-- The branch of `ReadBody` with no callback.
unfoldable pub read_stored_body : Connection → ℕ → Option Read
read_stored_body c expected_length =
    let remain_length = size_sub (length c.request_body) c.request_body_read_length in
    let actual_length = min remain_length expected_length in
    after_copy c actual_length (memcpy c.request_body c.request_body_read_length actual_length)

unfoldable pub read_body : Client → Connection → ℕ → Option Read
read_body client c expected_length = elim c.read_body_callback [
  | none ↦ read_stored_body c expected_length
  | some f ↦
      let (c', is_succeeded, bytes, actual_length) = client.read_body f c expected_length in
      some (record {
        connection = c';
        is_succeeded = is_succeeded;
        body = bytes;
        actual_length = actual_length;
      })
]

unfoldable pub original_position : Connection → SeekOrigin → ℕ
original_position c begin = 0
original_position c current = c.request_body_read_length
original_position c end = length c.request_body

-- The branch of `SeekBody` with no read callback.
unfoldable pub seek_stored_body : Connection → SeekOrigin → ℤ → Connection × Bool
unfolding original_position
seek_stored_body c origin offset =
    let new_read_length = size_add (original_position c origin) (size_of_off offset) in
    if leb new_read_length (length c.request_body)
    then (record c { request_body_read_length = new_read_length }, true)
    else (c, false)

unfoldable pub seek_body : Client → Connection → SeekOrigin → ℤ → Connection × Bool
seek_body client c origin offset = elim c.read_body_callback [
  | some _ ↦ elim c.seek_body_callback [
    | some f ↦ client.seek_body f c origin offset
    | none ↦ (c, false)
  ]
  | none ↦ seek_stored_body c origin offset
]

unfoldable pub write_header : Client → Connection → Bytes → Connection × Bool
write_header client c header = elim c.write_header_callback [
  | some f ↦ client.write_header f c header
  | none ↦ (record c { response_header = c.response_header ++ header }, true)
]

unfoldable pub write_body : Client → Connection → Bytes → Connection × Bool
write_body client c body = elim c.write_body_callback [
  | some f ↦ client.write_body f c body
  | none ↦ (record c { response_body = c.response_body ++ body }, true)
]

unfoldable pub progress : Client → Connection → ℤ → ℤ → ℤ → ℤ → Connection × Bool
progress client c total_download current_download total_upload current_upload =
    elim c.progress_callback [
      | some f ↦ client.progress f c total_download current_download total_upload current_upload
      | none ↦ (c, true)
    ]

unfoldable pub debug : Client → Connection → DebugDataType → Bytes → Connection
debug client c data_type bytes = elim c.debug_callback [
  | some f ↦ client.debug f c data_type bytes
  | none ↦ c
]
