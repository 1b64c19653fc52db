-- ===== src/Easy/State.antt =====
-- example/easy.cpp: its global string, its callback, and `main`.
use curlion.Common.{
  Bool, true, Option, none, some, List, [], ◌∷◌, ◌++◌, Bytes, codes, take, size_mul,
}
use curlion.Curl.{CurlCode}
use curlion.Connection.State.{Connection, Client, new, will_start, did_finish}
use curlion.Connection.Options.{set_verbose, set_url, set_write_body_callback}
use curlion.Connection.Callbacks.{Transfer, writes_body, transfer}

pub record Program : Type 0 where
  pub g_body : Bytes
  pub connection : Connection

-- `WriteBodyCallback`, with the global before and after.
pub write_body_callback : Bytes → Bytes → Bytes × Bool
write_body_callback g_body body = (g_body ++ body, true)

-- The functions that the program has; `others` stand for those that it does not set.
unfoldable pub client_of : Client → Bytes → Client
unfolding write_body_callback
client_of others g_body = record others {
  write_body = λ f c body. (c, (write_body_callback g_body body).1);
}

-- The global behind a call of libcurl's.
unfoldable pub hear : Bytes → Connection → Transfer → Bytes
unfolding write_body_callback
hear g_body c (writes_body buffer size nmemb) = elim c.write_body_callback [
  | none ↦ g_body
  | some f ↦ (write_body_callback g_body (take (size_mul size nmemb) buffer)).0
]
hear g_body c _ = g_body

-- The connection before `Start`.
unfoldable pub example_connection : Connection
unfolding set_write_body_callback set_url set_verbose
example_connection =
    set_write_body_callback (some 0) (set_url (codes "http://www.qq.com") (set_verbose true new))

module _ (others : Client) where
  -- The calls of a transfer.
  unfoldable pub perform : Program → List Transfer → Option Program
  unfolding client_of hear
  perform p [] = some p
  perform p (t ∷ ts) = elim (transfer (client_of others p.g_body) p.connection t) [
    | none ↦ none
    | some (c, reply, bytes) ↦
        perform (record { g_body = hear p.g_body p.connection t; connection = c }) ts
  ]

  -- `main`: the calls that `curl_easy_perform` makes and the code that it returns are arguments. It
  -- prints the result of the connection and the global.
  unfoldable pub main : List Transfer → CurlCode → Option (Program × CurlCode × Bytes)
  unfolding perform example_connection
  main performed result =
      elim (perform (record { g_body = []; connection = will_start example_connection })
        performed) [
          | none ↦ none
          | some p ↦
              let ended = did_finish (client_of others p.g_body) p.connection result in
              some (record p { connection = ended }, ended.result, p.g_body)
        ]
