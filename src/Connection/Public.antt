-- ===== src/Connection/Public.antt =====
-- The user's functions as public calls, and what such calls keep.
use curlion.Common.{
  ℕ, ◌≡◌, sym, ◌∙◌, subst, Bool, true, Option, none, some, List, [], ◌∷◌, Bytes, ℤ, some_eq, ◌&&◌,
  ◌≤◌, length, and_true, size_add,
}
use curlion.Connection.State.{Connection, Client, SeekOrigin, DebugDataType}
use curlion.Connection.Running.{apply-is_running}
use curlion.Connection.Wiring.{IsWired, apply-IsWired}
use curlion.Connection.Calls.{Setting, apply, apply_all}
use curlion.Connection.Body.{Read, after_copy}
use curlion.Connection.Reading.{BodyIsSound}
use curlion.Connection.Quiet.{left}

-- `c'` is `c` behind some allowed public calls.
abbrev all_allowed : (Setting → Bool) → List Setting → Bool
all_allowed allowed [] = true
all_allowed allowed (s ∷ ss) = allowed s && all_allowed allowed ss

abbrev pub Calls : (Setting → Bool) → Connection → Connection → Type 0
Calls allowed c c' = (ss : List Setting) × (all_allowed allowed ss ≡ true) × (c' ≡ apply_all ss c)

-- The user's functions change a connection by allowed public methods. They cannot do so otherwise than
-- by public methods.
pub record IsPublic (allowed : Setting → Bool) (client : Client) : Type 0 where
  pub read_body : (f : ℕ) (c : Connection) (n : ℕ) → Calls allowed c (client.read_body f c n).0
  pub seek_body :
      (f : ℕ) (c : Connection) (origin : SeekOrigin) (offset : ℤ)
      → Calls allowed c (client.seek_body f c origin offset).0
  pub write_header :
      (f : ℕ) (c : Connection) (header : Bytes) → Calls allowed c (client.write_header f c header).0
  pub write_body :
      (f : ℕ) (c : Connection) (body : Bytes) → Calls allowed c (client.write_body f c body).0
  pub progress :
      (f : ℕ) (c : Connection) (dltotal dlnow ultotal ulnow : ℤ)
      → Calls allowed c (client.progress f c dltotal dlnow ultotal ulnow).0
  pub debug :
      (f : ℕ) (c : Connection) (type : DebugDataType) (bytes : Bytes)
      → Calls allowed c (client.debug f c type bytes)
  pub finished : (f : ℕ) (c : Connection) → Calls allowed c (client.finished f c)

abbrev pub any_call : Setting → Bool
any_call s = true

-- A property that allowed calls keep, and that depends on what a transfer changes itself only by the
-- read position: from one that lies in the body a transfer goes to one that does.
pub record IsKept (allowed : Setting → Bool) (P : Connection → Type 0) : Type 0 where
  pub settings : (s : Setting) (c : Connection) → allowed s ≡ true → P c → P (apply s c)
  pub received :
      (c : Connection) (at : ℕ) (message header body : Bytes)
      → (BodyIsSound c → at ≤ length c.request_body)
      → P c
      → P (left c at message header body)

module _ (allowed : Setting → Bool) (P : Connection → Type 0) (kept : IsKept allowed P) where
  apply_all-kept :
      (ss : List Setting) (c : Connection)
      → all_allowed allowed ss ≡ true
      → P c
      → P (apply_all ss c)
  unfolding apply_all
  apply_all-kept [] c ok p = p
  apply_all-kept (s ∷ ss) c ok p =
      let (first, rest) = and_true (allowed s) (all_allowed allowed ss) ok in
      apply_all-kept ss (apply s c) rest (kept.settings s c first p)

  pub Calls-kept : (c c' : Connection) → Calls allowed c c' → P c → P c'
  Calls-kept c c' (ss, ok, e) p = subst P (sym e) (apply_all-kept ss c ok p)

  pub after_copy-kept :
      (c : Connection) (n : ℕ) (bytes : Option Bytes) (r : Read)
      → after_copy c n bytes ≡ some r
      → (BodyIsSound c → size_add c.request_body_read_length n ≤ length c.request_body)
      → P c
      → P r.connection
  unfolding after_copy
  after_copy-kept c n none r e fit p = absurd (cc)
  after_copy-kept c n (some bytes) r e fit p =
      subst (λ x. P x.connection) (some_eq e)
        (kept.received c (size_add c.request_body_read_length n) c.error_buffer c.response_header
          c.response_body fit p)

-- No call that libcurl makes changes whether the connection runs.
pub is_running-IsKept :
    (allowed : Setting → Bool) (b : Bool) → IsKept allowed (λ c. c.is_running ≡ b)
is_running-IsKept allowed b = record {
  settings = λ s c ok p. apply-is_running s c ∙ p;
  received = λ c at message header body within p. p;
}

-- Nor are the callbacks and the resolve list that libcurl was given lost.
pub IsWired-IsKept : (allowed : Setting → Bool) → IsKept allowed IsWired
IsWired-IsKept allowed = record {
  settings = λ s c ok w. apply-IsWired s c w;
  received =
      λ c at message header body within w. record { installed = w.installed; owned = w.owned };
}
