-- ===== src/Lib.antt =====
-- trillium-grpc: a gRPC server and client library on top of the Trillium HTTP stack.
--
-- A call is an HTTP exchange. The request's head carries `content-type`, `te`, `grpc-encoding`,
-- `grpc-accept-encoding`, `grpc-timeout` and custom metadata; each message is a frame, a compression
-- flag and a four-byte length before the bytes; the response ends with trailers that carry
-- `grpc-status`, `grpc-message` and more metadata. The server half checks the request, decodes its
-- messages, runs a method and puts the response together; the client half reads the head, the messages
-- and the trailers back. Both share the codecs of the wire.
--
-- Parts of the program, and the files that model them:
--   Prelude     names of the libraries, lists and options over native numbers, texts as lists of bytes,
--               results.
--   Text        what the code uses of `str`, `char` and the integers' printing and parsing.
--   Deps        what the crate calls and does not implement, as records of operations with the laws
--               that it relies on: `trillium::Headers`, `base64`, the compression crates, the Cargo
--               features, `{:?}`, `prost::Message`.
--   Metadata    src/metadata.rs: Metadata::{new, insert_ascii, insert_binary, get_ascii, get_binary,
--               from_headers, write_into}; Metadata/Key has the rules for keys.
--   Status      src/status.rs: Status::{write_into, into_trailers, from_trailers}; Status/Codes has Code,
--               Status/Percent has percent_encode and percent_decode.
--   Timeout     src/timeout.rs: format_grpc_timeout and parse_grpc_timeout.
--   Encoding    src/encoding.rs: Encoding::{from_grpc_encoding, as_grpc_encoding, compress, decompress}.
--   Codec       src/codec/mod.rs and src/codec/prost_codec.rs.
--   ContentType src/content_type.rs: parse_grpc_content_type and has_te_trailers.
--   Frame       src/frame: Frame/Writer has encode_payload and encode_frame, Frame/Source the readers,
--               Frame/Reader has ReadState, poll_read_message and MessageStream.
--   Server      src/server: Server/Conn is `trillium::Conn` as the code uses it, Server/Negotiate and
--               Server/Preflight are extract_request_encoding, negotiate_response_encoding and
--               prepare_grpc_conn of dispatch.rs, Server/Cancellation its cancellation handle,
--               Server/Requests its read_one over the RequestStream of streaming.rs, Server/Respond
--               its finish_unary with what it calls, Server/Body and Server/Streaming are OneShotBody
--               and StreamBody of body.rs. Server/Grpc is GrpcServerConn of grpc_conn.rs, Server/Dispatch
--               the four call shapes of dispatch.rs, Server/Bidi is Channel of streaming.rs with
--               BidiState and its drive of bidi.rs.
--   Client      src/client: Client/Options is ServiceClientExt of service_client.rs, Client/Head is
--               process_head, http_to_grpc_status, decode_response and finish_from_trailers of conn.rs,
--               Client/Race is its race. Client/Network is `trillium_client` as the code uses it,
--               Client/State, Client/Opening and Client/Driving are the call of conn.rs: its phases,
--               the request that it fires, and send, close_send, recv. Client/Lifecycle puts these
--               into histories, Client/Request and Client/Accepted carry a request over to the server,
--               Client/Delivery its messages. Client/Typed is typed.rs.
--   Macros      macros/src/lib.rs: build_tree in Macros, with Macros/Tree on what the tree holds, and the
--               include paths of expand.
--   Codegen     codegen/src/lib.rs: which method a generated handler runs for a request, and the paths
--               that a generated client asks for, with with_service_prefix of src/client/mod.rs;
--               Codegen/Imports is the `use` block of a package, with finalize_package.
--   Examples    the interfaces at concrete crates, and the theorems at concrete inputs.
--
-- How code corresponds to definitions. A method on `&mut self` takes the state and returns it changed
-- beside its result. A poll is one call: it returns `pending` or a value, and waiting for it is a run
-- of polls. A text is the list of its bytes. `Result` and `?` are the type and the bind of
-- Prelude/Results. Machine integers keep their bounds written out: a frame's length is cut to 32 bits,
-- the cap of a decompression plus one to 64, the seconds of a timeout are checked against a `u64`.
--
-- A race of futures is the list of what its polls find: the shutdown or the cancellation, the time in
-- nanoseconds, and what the raced future yields; that an instant overflows is not modelled.
--
-- Bounds and fuel. The loop that fills a buffer runs at most once for each byte that is missing, since
-- a read brings at least one byte or ends it. Waiting for a message takes as many polls as the caller
-- allows, and one more than the transport makes its reader wait is enough. The loop of a streamed body
-- needs two rounds, since a frame is never empty, and reading a body to its end takes at most as many
-- polls as the body has bytes and the stream has items, and one.
--
-- A method, a responder and a request source are given by what their polls find; each poll may change the
-- connection that it was given. `none` as the result of a step says that the polls did not get to its end.
--
-- Not modelled: futures that are dropped before they are done, the rest of the generated code, the
-- arguments of the macros and the tokens they print, the conformance programs, and all of HTTP, timers
-- and runtimes, which other crates implement.
pub mod Prelude
pub mod Text
pub mod Deps
pub mod Metadata
pub mod Status
pub mod Timeout
pub mod Codec
pub mod ContentType
pub mod Encoding
pub mod Frame
pub mod Server
pub mod Client
pub mod Examples
pub mod Macros
pub mod Codegen
