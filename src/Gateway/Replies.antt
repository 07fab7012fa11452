-- ===== src/Gateway/Replies.antt =====
-- What the callbacks of the gateway's RPC tasks answer: `rpc_transport_ok`, `rpc_application_ok` and
-- `rpc_error_result` of gateway/GatewayApplication.
use web_cloud_disk.Base.{
  ℕ, ◌≤◌, ◌<◌, ◌≡◌, ◌≢◌, ◌⊎◌, refl, subst, sym, inl, inr, Bool, true, false, ◌&&◌, zero, suc, leb,
  if◌then◌else◌, is_empty, Bytes, [], ◌∷◌, codes, arith, Bool-cases,
}
use web_cloud_disk.Numbers.{ℤ, pos, negsuc}
use web_cloud_disk.Messaging.Json.{JsonLibrary}
use web_cloud_disk.Rpc.Messages.{RpcStatus}
use web_cloud_disk.Http.{HttpResponse, error_response}
use web_cloud_disk.Gateway.{RpcReply, application_status, rpc_error, is_ok_code, respond}

-- The message of an error, by that of the service.
pub data ShownMessage : Bytes → Bytes → Type 0 where
  unnamed : ShownMessage [] (codes "RPC service error")
  own : (message : Bytes) → message ≢ [] → ShownMessage message message

-- The HTTP status of an error, by the service's status code.
pub data ShownStatus : ℤ → ℕ → Type 0 where
  kept : (n : ℕ) → 400 ≤ n → n ≤ 599 → ShownStatus (pos n) n
  too_low : (n : ℕ) → 0 < n → n < 400 → ShownStatus (pos n) 500
  too_high : (n : ℕ) → 599 < n → ShownStatus (pos n) 500
  negative : (n : ℕ) → ShownStatus (negsuc n) 500

module _ {J : Type 0} (json : JsonLibrary J) {A : Type 0} (reply : RpcReply A)
    (status : A → RpcStatus) (rest : A → HttpResponse) where
  -- The answers that a reply may have.
  pub data Answered : HttpResponse → Type 0 where
    unreachable :
        reply.transported ≡ false
        → Answered (
            error_response json
              (record { status_code = 502; message = codes "Upstream service unavailable" }))
    delivered :
        reply.transported ≡ true
        → (status reply.response).code ≡ pos 0
        → Answered (rest reply.response)
    refused :
        (shown : ℕ) (message : Bytes)
        → reply.transported ≡ true
        → ShownStatus (status reply.response).code shown
        → ShownMessage (status reply.response).message message
        → Answered (error_response json (record { status_code = shown; message = message }))

-- Codes from 400 to 599 are passed on, every other one is an internal error.
pos-ShownStatus :
    (n : ℕ)
    → 0 < n
    → (lo hi : Bool) → leb 400 n ≡ lo
    → leb n 599 ≡ hi
    → ShownStatus (pos n) (if lo && hi then n else 500)
pos-ShownStatus n h true true lo hi = kept n (ground arith) (ground arith)
pos-ShownStatus n h true false lo hi = too_high n (ground arith)
pos-ShownStatus n h false true lo hi = too_low n h (ground arith)
pos-ShownStatus n h false false lo hi = too_low n h (ground arith)

shown_message :
    (message : Bytes)
    → ShownMessage message (if is_empty message then codes "RPC service error" else message)
shown_message [] = unnamed
shown_message (c ∷ s) = own (c ∷ s) (λ e. cc e)

code-cases :
    (n : ℤ)
    → ((n ≡ pos 0) × (is_ok_code n ≡ true))
      ⊎ (ShownStatus n (application_status n) × (is_ok_code n ≡ false))
unfolding is_ok_code application_status
code-cases (pos zero) = inl (refl, refl)
code-cases (pos (suc n)) = inr (
  pos-ShownStatus (suc n) (omega arith) (leb 400 (suc n)) (leb (suc n) 599) refl refl,
  ground arith,
)
code-cases (negsuc n) = inr (negative n, refl)

module _ {J : Type 0} (json : JsonLibrary J) {A : Type 0} (reply : RpcReply A)
    (status : A → RpcStatus) (rest : A → HttpResponse) where
  Answered-as :
      (a b : HttpResponse)
      → a ≡ b
      → Answered json reply status rest b
      → Answered json reply status rest a
  Answered-as a b e h = subst (Answered json reply status rest) (sym e) h

  -- A reply is answered with 502 when the call did not come through; with the callback's own response when it
  -- came through with status code 0; and otherwise with an error, whose status is the service's code if
  -- that is from 400 to 599 and 500 if not, and whose message is the service's, if it has one.
  pub respond-Answered : Answered json reply status rest (respond json reply status rest)
  unfolding respond rpc_error
  respond-Answered = elim (Bool-cases reply.transported) [
    | inr t ↦ Answered-as _ _ (rw t refl) (unreachable t)
    | inl t ↦ elim (code-cases (status reply.response).code) [
      | inl (e, ok) ↦ Answered-as _ _ (rw (t, ok) refl) (delivered t e)
      | inr (shown, bad) ↦
          Answered-as _ _ (rw (t, bad) refl)
            (refused _ _ t shown (shown_message (status reply.response).message))
    ]
  ]
