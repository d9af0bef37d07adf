-- ===== src/Examples/Dispatch.antt =====
-- The theorems on the server's calls at concrete inputs: src/server/dispatch.rs, src/server/grpc_conn.rs
-- and src/server/bidi.rs.
use trillium_grpc.Prelude.{◌≡◌, ap, refl, false, [], ◌∷◌, List, some, Bytes, codes, ok, inl, inr}
use trillium_grpc.Text.Ascii.{eq_ignore_ascii_case}
use trillium_grpc.Text.Utf8.{is_utf8}
use trillium_grpc.Examples.Setup.{
  assoc_headers, plain_base64, plain_debug, all_features, stored_codecs, plain_conns, plain_conn,
  PlainConn, raw,
}
use trillium_grpc.Examples.Races.{either, stop}
use trillium_grpc.Status.Codes.{Code}
use trillium_grpc.Encoding.{identity, as_grpc_encoding}
use trillium_grpc.Frame.Source.{Script, script_reader}
use trillium_grpc.Frame.Reader.{ready}
use trillium_grpc.Server.Cancellation.Steps.{StepCombinators, Tick}
use trillium_grpc.Server.Grpc.{GrpcServerConn}
use trillium_grpc.Server.Streaming.{Items}
use trillium_grpc.Server.Dispatch.{
  Method, unary_impl, client_streaming_impl, server_streaming_impl, bidi_prologue_impl,
}
use trillium_grpc.Server.Dispatch.Refusals.{AnswersWith}
use trillium_grpc.Server.Dispatch.Answers.{Halts, impl-Halts, impl_refuses}
use trillium_grpc.Server.Bidi.{Upgrades, Channel, BidiState}
use trillium_grpc.Server.Bidi.Drive.{Responder}

instance abbrev plain_steps : StepCombinators
plain_steps = record {
  interrupt_step = λ b step s. (stop b (step s).0, (step s).1);
  or_after = λ step q s. (either (step s).0 q, (step s).1);
  interrupt_step-open = λ step s. refl;
  interrupt_step-closed = λ step s e. refl;
  interrupt_step-state = λ b step s. refl;
  or_after-ready = λ step q a s e. ap (λ p. (either p q, (step s).1)) e;
  or_after-pending = λ step q s e. ap (λ p. (either p q, (step s).1)) e;
}

abbrev timed : PlainConn
timed = plain_conn ((codes "grpc-timeout", codes "2M") ∷ [])

-- A method that answers at once.
abbrev at_once : {X A : Type 0} → A → Method X A
at_once a = record {
  Future = GrpcServerConn;
  start = λ g x. g;
  poll = λ g. (ready (ok a), g);
  call = λ g. g;
}

abbrev greeting : Bytes
greeting = codes "hi"

abbrev ticks : List Tick
ticks = record { shutdown = false; now = 1 } ∷ []

abbrev no_items : Items Bytes
no_items = []

impl-Halts_example :
    Halts (unary_impl raw raw (at_once greeting) 0 ticks timed)
    × Halts (client_streaming_impl raw (at_once greeting) 0 ticks timed)
    × Halts (server_streaming_impl raw raw (at_once no_items) 0 ticks timed)
    × Halts (bidi_prologue_impl raw raw (at_once greeting) 0 ticks timed)
impl-Halts_example =
    impl-Halts raw raw (at_once greeting) (at_once greeting) (at_once no_items) (at_once greeting) 0
      ticks timed

abbrev brotli : PlainConn
brotli = plain_conn ((codes "grpc-encoding", codes "br") ∷ [])

impl_refuses_example :
    (answer : PlainConn) × AnswersWith Code.unimplemented answer
    × (unary_impl raw raw (at_once greeting) 0 ticks brotli ≡ some answer)
    × (client_streaming_impl raw (at_once greeting) 0 ticks brotli ≡ some answer)
    × (server_streaming_impl raw raw (at_once no_items) 0 ticks brotli ≡ some answer)
    × (bidi_prologue_impl raw raw (at_once greeting) 0 ticks brotli ≡ some answer)
unfolding as_grpc_encoding eq_ignore_ascii_case is_utf8
impl_refuses_example =
    impl_refuses raw raw (at_once greeting) (at_once greeting) (at_once no_items) (at_once greeting)
      0 ticks brotli Code.unimplemented
      (inl (
        (
          codes "br",
          refl,
          (inr (λ e. cc e), (inr (λ e. cc e), (inr (λ e. cc e), (inr (λ e. cc e), tt)))),
        ),
        refl,
      ))

instance abbrev plain_upgrades : Upgrades
plain_upgrades = record {
  Upgrade = Script;
  read = script_reader;
  write_all = λ u b. (ok tt, u);
  send_trailers = λ u t. (ok tt, u);
}

record Loop : Type 1 where
  inside : Channel Bytes Bytes

abbrev silent : Responder (Unit {0}) Bytes Bytes
silent = record {
  Future = Loop;
  start = λ r ch. record { inside = ch };
  poll = λ f. (ready (ok tt), f);
  channel = λ f. f.inside;
}

abbrev upgraded : BidiState Bytes Bytes (Unit {0})
upgraded = record {
  responder = tt;
  base_trailers = [];
  decode = λ b. ok b;
  encode = λ b. ok b;
  request_encoding = identity;
  response_encoding = identity;
  deadline = some 9;
}
