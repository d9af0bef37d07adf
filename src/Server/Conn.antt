-- ===== src/Server/Conn.antt =====
-- `trillium::Conn` and its server half as the code uses them. The laws say which reads see a write.
use trillium_grpc.Frame.Source.{AsyncRead}
use trillium_grpc.Prelude.{ℕ, ◌≡◌, Bool, true, Option, some}

-- `H` stands for the headers.
pub record ConnApi (H : Type 0) : Type 2 where
  pub Conn : Type 1
  pub Body : Type 1
  -- The request body with its read state.
  pub Incoming : Type 0
  -- `Body::new_with_trailers(source, None)`.
  pub new_with_trailers : {X : Type 0} → X → Body
  pub request_headers : Conn → H
  pub response_headers : Conn → H
  pub status : Conn → Option ℕ
  pub body : Conn → Option Body
  pub is_halted : Conn → Bool
  pub request_body : Conn → Incoming
  pub read_body : AsyncRead Incoming
  pub set_request_body : Conn → Incoming → Conn
  pub set_response_headers : Conn → H → Conn
  pub with_status : Conn → ℕ → Conn
  pub with_body : Conn → Body → Conn
  pub halt : Conn → Conn
  pub with_state : {X : Type 0} → Conn → X → Conn
  pub upgrade : Conn → Conn
  pub is_upgrading : Conn → Bool
  pub request-set :
      (c : Conn) (h : H) → request_headers (set_response_headers c h) ≡ request_headers c
  pub response-set : (c : Conn) (h : H) → response_headers (set_response_headers c h) ≡ h
  pub response-status : (c : Conn) (n : ℕ) → response_headers (with_status c n) ≡ response_headers c
  pub status-status : (c : Conn) (n : ℕ) → status (with_status c n) ≡ some n
  pub status-set : (c : Conn) (h : H) → status (set_response_headers c h) ≡ status c
  pub status-halt : (c : Conn) → status (halt c) ≡ status c
  pub body-body : (c : Conn) (b : Body) → body (with_body c b) ≡ some b
  pub body-halt : (c : Conn) → body (halt c) ≡ body c
  pub halted-halt : (c : Conn) → is_halted (halt c) ≡ true
  pub request-read :
      (c : Conn) (r : Incoming) → request_headers (set_request_body c r) ≡ request_headers c
  pub body-read : (c : Conn) (r : Incoming) → request_body (set_request_body c r) ≡ r
  pub upgrading-upgrade : (c : Conn) → is_upgrading (upgrade c) ≡ true
  pub upgrading-halt : (c : Conn) → is_upgrading (halt c) ≡ is_upgrading c
