-- ===== src/Client/Network.antt =====
-- `trillium_client` as src/client/conn.rs uses it: a request that is built, the connection that
-- answers it, and the upgraded transport of a full-duplex call.
use trillium_grpc.Prelude.{ℕ, Bool, ◌≡◌, List, Option, some, Bytes, Result}
use trillium_grpc.Frame.Source.{AsyncRead}
use trillium_grpc.Frame.Reader.{Poll}

-- What a poll of a future of the transport finds: whether the call was cancelled, the time, and what
-- the future yields.
pub record Look (A : Type 0) : Type 0 where
  pub cancelled : Bool
  pub now : ℕ
  pub found : Poll (Result Bytes A)

-- `H` stands for the headers. `fire` and `upgrade` are what the polls of the futures find that send a
-- request and await its head, and `write_all` what those of a write find, with the transport behind it;
-- an error of the transport is its text.
pub record Network (H : Type 0) : Type 1 where
  pub Client : Type 0
  pub Request : Type 0
  pub Conn : Type 0
  pub Upgrade : Type 0
  pub default_headers : Client → H
  -- A `POST` over HTTP/2.
  pub post : Client → Bytes → Request
  pub request_headers : Request → H
  pub set_request_headers : Request → H → Request
  pub with_body : Request → Bytes → Request
  pub body : Request → Option Bytes
  pub fire : Request → List (Look Conn)
  pub upgrade : Request → List (Look Conn)
  pub status : Conn → Option ℕ
  pub response_headers : Conn → H
  pub response_trailers : Conn → Option H
  pub into_upgrade : Conn → Upgrade
  pub received_trailers : Upgrade → Option H
  pub write_all : Upgrade → Bytes → List (Look (Unit {0})) × Upgrade
  pub close : Upgrade → Result Bytes (Unit {0}) × Upgrade
  pub read_conn : AsyncRead Conn
  pub read_upgrade : AsyncRead Upgrade
  pub headers-set : (r : Request) (h : H) → request_headers (set_request_headers r h) ≡ h
  pub headers-body : (r : Request) (b : Bytes) → request_headers (with_body r b) ≡ request_headers r
  pub body-body : (r : Request) (b : Bytes) → body (with_body r b) ≡ some b
  -- A request starts from the client's default headers.
  pub headers-post : (c : Client) (path : Bytes) → request_headers (post c path) ≡ default_headers c
