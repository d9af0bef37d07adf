-- ===== src/Client/Delivery.antt =====
-- What is sent before a request fires, in src/client/conn.rs, and what the server's request stream of
-- src/server/streaming.rs makes of the body.
use trillium_grpc.Prelude.{
  ℕ, ◌+◌, ◌≤◌, ◌<◌, ◌≡◌, refl, ap, ◌∙◌, sym, subst, false, [], ◌∷◌, ◌++◌, List, none, some, Bytes,
  Result, ok, map, append-nil, append_assoc, ◌>>=◌, All, length, arith,
}
use trillium_grpc.Deps.{HeadersApi, Base64, Debug, Features, Compressors}
use trillium_grpc.Status.{Status}
use trillium_grpc.Encoding.{Encoding, default_max_message_size}
use trillium_grpc.Encoding.Caps.{AllLossless}
use trillium_grpc.Frame.Writer.{encode_payload}
use trillium_grpc.Frame.Source.{Script, contents, IsLive, waits, script_reader}
use trillium_grpc.Frame.Reader.{new_state}
use trillium_grpc.Frame.Reader.Frames.{await-encode_payload}
use trillium_grpc.Frame.Reader.Ends.{await_end}
use trillium_grpc.Server.Requests
use trillium_grpc.Server.Requests.{RequestStream, recv, received}
use trillium_grpc.Server.Cancellation.Polling.{Combinators}
use trillium_grpc.Client.Network.{Network}
use trillium_grpc.Client.State
use trillium_grpc.Client.State.{Pending, Inner, GrpcClientConn, encode_message}
use trillium_grpc.Client.Driving.{send, send_encoded, send_frame}
use trillium_grpc.Client.Lifecycle.{sends, perform, run_events}

-- A message that is within the default size cap, as is the payload of its frame, and that the peer
-- decodes again.
pub record Fits {T : Type 0} ⦃crates : Compressors⦄ (encode : T → Result Status Bytes)
    (decode : Bytes → Result Status T) (e : Encoding) (m : T) : Type 0 where
  pub payload : Bytes
  pub frame : Bytes
  pub encodes : encode m ≡ ok payload
  pub frames : encode_payload payload e ≡ ok frame
  pub small : length payload ≤ default_max_message_size
  pub short : length frame ≤ default_max_message_size + 5
  pub decodes : decode payload ≡ ok m

module _ {T : Type 0} ⦃crates : Compressors⦄ (encode : T → Result Status Bytes)
    (decode : Bytes → Result Status T) (e : Encoding) where
  body_of : (ms : List T) → All (Fits encode decode e) ms → Bytes
  body_of [] h = []
  body_of (m ∷ ms) h = h.0.frame ++ body_of ms h.1

-- The stream yields these messages, in this order, and then its end.
abbrev pub Receives :
    {T : Type 0} ⦃crates : Compressors⦄ → ℕ → List T → RequestStream T Script → Type 0
Receives polls [] s = (recv polls s).0 ≡ some (ok none)
Receives polls (m ∷ ms) s =
    ((recv polls s).0 ≡ some (ok (some m))) × Receives polls ms (recv polls s).1

module _ {T : Type 0} ⦃crates : Compressors⦄ (encode : T → Result Status Bytes)
    (decode : Bytes → Result Status T) (e : Encoding) (good : AllLossless crates) where
  body_of-Receives :
      (ms : List T) (h : All (Fits encode decode e) ms) (evs : Script) (polls : ℕ)
      → contents evs ≡ body_of encode decode e ms h
      → IsLive evs
      → waits evs < polls
      → Receives polls ms (Requests.new evs decode e)
  unfolding recv Requests.new body_of
  body_of-Receives [] h evs polls text live enough =
      let (evs', over) =
        await_end decode e default_max_message_size [] polls evs text (omega arith) live enough in
      ap (λ a. (received (Requests.new evs decode e) a).0) over
  body_of-Receives (m ∷ ms) h evs polls text live enough =
      let (evs', read, left, live', fewer) =
        await-encode_payload decode default_max_message_size h.0.payload (omega arith) h.0.small
          good e h.0.frame (body_of encode decode e ms h.1) evs polls h.0.frames h.0.short
          (omega (arith, h.0.short)) text live enough in
      let step =
        ap (received (Requests.new evs decode e))
          (read ∙ ap (λ r. (some (some r), new_state, evs')) h.0.decodes) in
      (
        ap (λ r. r.0) step,
        subst (λ r. Receives polls ms r.1) (sym step)
            (body_of-Receives ms h.1 evs' polls left live' (omega (arith, fewer, enough))),
      )

module _ ⦃api : HeadersApi⦄ ⦃net : Network api.Headers⦄ where
  inner_body : Inner → Bytes
  inner_body (State.pending p) = p.body
  inner_body _ = []

  pending_body : (p q : Pending) → State.pending p ≡ State.pending q → p.body ≡ q.body
  unfolding inner_body
  pending_body p q e = ap inner_body e

module _ ⦃api : HeadersApi⦄ ⦃net : Network api.Headers⦄ ⦃b64 : Base64⦄ ⦃build : Features⦄
    ⦃show : Debug⦄ ⦃crates : Compressors⦄ ⦃lib : Combinators⦄ {Req Resp : Type 0} where
  send_frame-pending :
      (now : ℕ) (c : GrpcClientConn Req Resp) (p : Pending) (frame : Bytes) (inner : Inner)
      → inner ≡ State.pending p
      → p.send_closed ≡ false
      → send_frame now c frame inner
        ≡ (some (ok tt), record c { inner = State.pending (record p { body = p.body ++ frame }) })
  unfolding send_frame
  send_frame-pending now c p frame inner e still = rw (e, still) refl

  -- A message that is sent before the request fires is appended to the body as one frame.
  send-pending :
      (now : ℕ) (c : GrpcClientConn Req Resp) (p : Pending) (m : Req) (payload frame : Bytes)
      → c.inner ≡ State.pending p
      → p.send_closed ≡ false
      → c.encode m ≡ ok payload
      → encode_payload payload c.outbound_encoding ≡ ok frame
      → send now c m
        ≡ (some (ok tt), record c { inner = State.pending (record p { body = p.body ++ frame }) })
  unfolding send send_encoded encode_message
  send-pending now c p m payload frame e still encodes frames =
      ap (send_encoded now c)
        (ap (λ r. r >>= λ q. encode_payload q c.outbound_encoding) encodes ∙ frames)
      ∙ send_frame-pending now c p frame c.inner e still

  module _ (decode : Bytes → Result Status Req) (now : ℕ) where
    sends-body :
        (ms : List Req) (c : GrpcClientConn Req Resp) (p : Pending)
        (h : All (Fits c.encode decode c.outbound_encoding) ms)
        → c.inner ≡ State.pending p
        → p.send_closed ≡ false
        → (run_events (map (sends now) ms) c).inner
          ≡ State.pending
              (record p { body = p.body ++ body_of c.encode decode c.outbound_encoding ms h })
    unfolding run_events perform body_of
    sends-body [] c p h e still =
        e ∙ ap (λ b. State.pending (record p { body = b })) (sym (append-nil p.body))
    sends-body (m ∷ ms) c p h e still =
        ap (λ r. (run_events (map (sends now) ms) r.1).inner)
          (send-pending now c p m h.0.payload h.0.frame e still h.0.encodes h.0.frames)
        ∙ sends-body ms
            (record c { inner = State.pending (record p { body = p.body ++ h.0.frame }) })
            (record p { body = p.body ++ h.0.frame }) h.1 refl still
        ∙ ap (λ b. State.pending (record p { body = b }))
            (append_assoc p.body h.0.frame (body_of c.encode decode c.outbound_encoding ms h.1))

    -- The messages that are sent on a call that has sent nothing yet, before its request fires and its
    -- send half is closed, come out of the server's request stream, with the codec of the call, one by
    -- one in their order, and then its end, whatever pieces the request's body arrives in. The
    -- compression crates are lossless; each message is encoded within the default size cap, the
    -- compressed payload of its frame is within the cap too, and the server decodes it to what it was;
    -- and the transport brings the body without a failure and makes its reader wait less often than
    -- each read is polled.
    pub sends_arrive :
        (ms : List Req) (c : GrpcClientConn Req Resp) (p : Pending) (evs : Script) (polls : ℕ)
        → AllLossless crates
        → All (Fits c.encode decode c.outbound_encoding) ms
        → c.inner ≡ State.pending p
        → p.send_closed ≡ false
        → p.body ≡ []
        → (run_events (map (sends now) ms) c).inner
          ≡ State.pending (record p { body = contents evs })
        → IsLive evs
        → waits evs < polls
        → Receives polls ms (Requests.new evs decode c.outbound_encoding)
    sends_arrive ms c p evs polls good h e still empty fired live enough =
        body_of-Receives c.encode decode c.outbound_encoding good ms h evs polls
          (pending_body _ _ (sym fired ∙ sends-body ms c p h e still)
            ∙ ap (λ b. b ++ body_of c.encode decode c.outbound_encoding ms h) empty)
          live enough
