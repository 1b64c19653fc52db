-- ===== src/Connection/Starting.antt =====
-- `Start` of a connection whose callbacks change it by its public methods: what it leaves as it was.
use curlion.Common.{
  Bool, ◌≡◌, refl, sym, ap, ◌∙◌, subst, false, none, some, List, some_eq, Bool-cases, Option-cases,
  inl, inr, arith,
}
use curlion.Curl.{CurlCode}
use curlion.Connection.State.{Connection, Client, will_start, finish, did_finish}
use curlion.Connection.Calls.{Setting}
use curlion.Connection.Callbacks.{Transfer, transfers, start}
use curlion.Connection.Running.{apply_all-is_running}
use curlion.Connection.Lifecycle.{running_ignores}
use curlion.Connection.Wiring.{IsWired}
use curlion.Connection.Public.{IsPublic, IsKept, Calls-kept, IsWired-IsKept}
use curlion.Connection.Keeping.{transfers-kept}

will_start-IsWired : (c : Connection) → IsWired c → IsWired (will_start c)
unfolding will_start
will_start-IsWired c w = record { installed = w.installed; owned = w.owned }

finish-IsWired : (c : Connection) (result : CurlCode) → IsWired c → IsWired (finish c result)
unfolding finish
finish-IsWired c result w = record { installed = w.installed; owned = w.owned }

pub start_idle :
    (client : Client) (c : Connection) (ts : List Transfer) (result : CurlCode)
    → c.is_running ≡ false
    → start client c ts result ≡ elim (transfers client (will_start c) ts) [
      | none ↦ none
      | some (d, answers) ↦ some (did_finish client d result)
    ]
unfolding start
start_idle client c ts result idle = ground (arith, idle)

module _ (allowed : Setting → Bool) (client : Client) (public : IsPublic allowed client) where
  did_finish-is_running :
      (c : Connection) (result : CurlCode) → (did_finish client c result).is_running ≡ false
  unfolding did_finish finish
  did_finish-is_running c result = elim (Option-cases c.finished_callback) [
    | inl silent ↦ rw (silent, did_finish) refl
    | inr (f, its) ↦
        let (ss, ok, e) = public.finished f (finish c result) in
        rw (its, did_finish) (ap (λ x. x.is_running) e ∙ apply_all-is_running ss (finish c result))
  ]

  -- What public calls and a transfer keep, and what `WillStart` and `DidFinish` do themselves, a start
  -- keeps, ignored or not. It ends with the connection running if it ran before.
  module _ (P : Connection → Type 0) (kept : IsKept allowed P)
      (will : (c : Connection) → P c → P (will_start c))
      (did : (c : Connection) (result : CurlCode) → P c → P (finish c result)) where
    did_finish-kept : (c : Connection) (result : CurlCode) → P c → P (did_finish client c result)
    unfolding did_finish
    did_finish-kept c result p = elim (Option-cases c.finished_callback) [
      | inl silent ↦ rw (silent, did_finish) (did c result p)
      | inr (f, its) ↦
          rw (its, did_finish)
            (Calls-kept allowed P kept (finish c result) _ (public.finished f (finish c result))
              (did c result p))
    ]

    pub start-kept :
        (c : Connection) (ts : List Transfer) (result : CurlCode) (c' : Connection)
        → start client c ts result ≡ some c'
        → P c
        → P c' × (c'.is_running ≡ c.is_running)
    start-kept c ts result c' e p = elim (Bool-cases c.is_running) [
      | inl running ↦
          let same = some_eq (sym (running_ignores client c ts result running).0 ∙ e) in
          (subst P same p, sym (ap (λ x. x.is_running) same))
      | inr idle ↦ elim (Option-cases (transfers client (will_start c) ts)) [
        | inl out ↦ absurd (cc (rw out at (sym (start_idle client c ts result idle) ∙ e)))
        | inr ((d, answers), run) ↦
            let ended = some_eq (rw run at (sym (start_idle client c ts result idle) ∙ e)) in
            let still =
              transfers-kept client allowed public P kept (will_start c) ts d answers run
                (will c p) in
            (
              subst P ended (did_finish-kept d result still),
              ap (λ x. x.is_running) (sym ended) ∙ did_finish-is_running d result ∙ sym idle,
            )
      ]
    ]

  pub start-IsWired :
      (c : Connection) (ts : List Transfer) (result : CurlCode) (c' : Connection)
      → start client c ts result ≡ some c'
      → IsWired c
      → IsWired c' × (c'.is_running ≡ c.is_running)
  start-IsWired = start-kept IsWired (IsWired-IsKept allowed) will_start-IsWired finish-IsWired
