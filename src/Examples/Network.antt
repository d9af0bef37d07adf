-- ===== src/Examples/Network.antt =====
-- A network as plain data: every request is answered with one framed message and a good status.
use trillium_grpc.Prelude.{refl, false, [], ◌∷◌, List, Option, some, none, Bytes, codes, ok}
use trillium_grpc.Examples.Setup.{Assoc, assoc_headers}
use trillium_grpc.Metadata
use trillium_grpc.Encoding.{identity, default_max_message_size}
use trillium_grpc.Frame.Source.{AsyncRead, ReadPoll, Script, chunk, play, play-fits}
use trillium_grpc.Frame.Reader.{ready}
use trillium_grpc.Client.Network.{Network, Look}
use trillium_grpc.Client.State
use trillium_grpc.Client.State.{Pending, GrpcClientConn}

pub record PlainRequest : Type 0 where
  pub headers : Assoc
  pub body : Option Bytes

pub record PlainReply : Type 0 where
  pub head : Assoc
  pub script : Script
  pub trailing : Assoc

abbrev pub with_script : PlainReply → ReadPoll × Script → ReadPoll × PlainReply
with_script r (polled, script) = (polled, record r { script = script })

instance abbrev pub reply_reader : AsyncRead PlainReply
reply_reader = record {
  poll_read = λ r n. with_script r (play r.script n);
  fits = λ r n. play-fits r.script n;
}

-- The frame of `hi`.
abbrev pub hi_frame : Bytes
hi_frame = 0 ∷ 0 ∷ 0 ∷ 0 ∷ 2 ∷ codes "hi"

abbrev pub reply : PlainReply
reply = record {
  head = (codes "content-type", codes "application/grpc+proto") ∷ [];
  script = chunk hi_frame ∷ [];
  trailing = (codes "grpc-status", codes "0") ∷ [];
}

abbrev pub answered : {A : Type 0} → A → List (Look A)
answered a = record { cancelled = false; now = 1; found = ready (ok a) } ∷ []

instance abbrev pub plain_network : Network Assoc
plain_network = record {
  Client = Assoc;
  Request = PlainRequest;
  Conn = PlainReply;
  Upgrade = PlainReply;
  default_headers = λ c. c;
  post = λ c path. record { headers = c; body = none };
  request_headers = λ r. r.headers;
  set_request_headers = λ r h. record r { headers = h };
  with_body = λ r b. record r { body = some b };
  body = λ r. r.body;
  fire = λ r. answered reply;
  upgrade = λ r. answered reply;
  status = λ c. some 200;
  response_headers = λ c. c.head;
  response_trailers = λ c. some c.trailing;
  into_upgrade = λ c. c;
  received_trailers = λ c. some c.trailing;
  write_all = λ u b. (answered tt, u);
  close = λ u. (ok tt, u);
  read_conn = reply_reader;
  read_upgrade = reply_reader;
  headers-set = λ r h. refl;
  headers-body = λ r b. refl;
  body-body = λ r b. refl;
  headers-post = λ c path. refl;
}

abbrev pub unsent_call : Pending
unsent_call = record {
  client = [];
  path = codes "/greeter/hello";
  content_type = codes "application/grpc+proto";
  request_metadata = Metadata.new;
  body = [];
  send_closed = false;
}

abbrev pub call : GrpcClientConn Bytes Bytes
call = record {
  inner = State.pending unsent_call;
  decode = λ b. ok b;
  encode = λ b. ok b;
  outbound_encoding = identity;
  max_message_size = default_max_message_size;
  full_duplex = false;
  deadline = some 5_000_000_000;
  init_error = none;
}
