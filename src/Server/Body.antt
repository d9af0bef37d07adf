-- ===== src/Server/Body.antt =====
-- server/body.rs: the response bodies. A poll of `poll_read` with room for `n` bytes gives the bytes
-- that it writes into the buffer.
use trillium_grpc.Prelude.{
  ℕ, ◌+◌, ◌-◌, ◌≤◌, min, ◌≡◌, refl, ap, sym, ◌∙◌, List, [], ◌∷◌, ◌++◌, Option, none, some, Bytes,
  length, take, drop, arith, length-drop, drop-drop, drop_all, take_all, take-append-drop,
  append_assoc, append-nil,
}
use trillium_grpc.Deps.{HeadersApi}

module _ ⦃api : HeadersApi⦄ where
  pub record OneShotBody : Type 0 where
    pub bytes : Bytes
    pub pos : ℕ
    pub trailers : Option api.Headers

  unfoldable pub new : Bytes → api.Headers → OneShotBody
  new bytes trailers = record { bytes = bytes; pos = 0; trailers = some trailers }

  unfoldable pub poll_read : OneShotBody → ℕ → Bytes × OneShotBody
  poll_read b room =
      let remaining = drop b.pos b.bytes in
      let n = min (length remaining) room in (take n remaining, record b { pos = b.pos + n })

  unfoldable pub take_trailers : OneShotBody → Option api.Headers × OneShotBody
  take_trailers b = (b.trailers, record b { trailers = none })

  -- Polls with these rooms, one after another.
  abbrev pub read_out : List ℕ → OneShotBody → Bytes × OneShotBody
  read_out [] b = ([], b)
  read_out (room ∷ rooms) b =
      let (bytes, b') = poll_read b room in
      let (rest, b'') = read_out rooms b' in (bytes ++ rest, b'')

  abbrev pub total : List ℕ → ℕ
  total [] = 0
  total (room ∷ rooms) = room + total rooms

  -- What reading leaves as it is, and how far it gets.
  record Advances (b b' : OneShotBody) (bytes : Bytes) (far : ℕ) : Type 0 where
    pub same_bytes : b'.bytes ≡ b.bytes
    pub same_trailers : b'.trailers ≡ b.trailers
    pub reaches : b'.pos ≡ min (length b.bytes) far
    pub conserves : bytes ++ drop b'.pos b.bytes ≡ drop b.pos b.bytes

  read_out-Advances :
      (rooms : List ℕ) (b : OneShotBody)
      → b.pos ≤ length b.bytes
      → Advances b (read_out rooms b).1 (read_out rooms b).0 (b.pos + total rooms)
  unfolding poll_read
  read_out-Advances [] b h = record {
    same_bytes = refl;
    same_trailers = refl;
    reaches = omega arith;
    conserves = refl;
  }
  read_out-Advances (room ∷ rooms) b h =
      let remaining = drop b.pos b.bytes in
      let n = min (length remaining) room in
      let b' : OneShotBody = record b { pos = b.pos + n } in
      let size : length remaining ≡ length b.bytes - b.pos = length-drop b.pos b.bytes in
      let a = read_out-Advances rooms b' (omega arith) in
      record {
        same_bytes = a.same_bytes;
        same_trailers = a.same_trailers;
        reaches = omega (arith, a.reaches);
        conserves =
            append_assoc (take n remaining) _ _
            ∙ ap (λ l. take n remaining ++ l) (a.conserves ∙ sym (drop-drop n b.pos b.bytes))
            ∙ take-append-drop n remaining;
      }

  -- A one-shot body hands over its bytes, all of them and nothing else, however the reads are sized,
  -- once they have room for that many; then a read yields nothing, and the trailers are there to be
  -- taken, once.
  pub read_out-new :
      (bytes : Bytes) (trailers : api.Headers) (rooms : List ℕ) (room : ℕ)
      → length bytes ≤ total rooms
      → ((read_out rooms (new bytes trailers)).0 ≡ bytes)
        × ((poll_read (read_out rooms (new bytes trailers)).1 room).0 ≡ [])
        × ((take_trailers (read_out rooms (new bytes trailers)).1).0 ≡ some trailers)
        × ((take_trailers (take_trailers (read_out rooms (new bytes trailers)).1).1).0 ≡ none)
  unfolding poll_read take_trailers new
  read_out-new bytes trailers rooms room enough =
      let a = read_out-Advances rooms (new bytes trailers) (omega arith) in
      let far : (read_out rooms (new bytes trailers)).1.pos ≡ length bytes =
        omega (arith, a.reaches) in
      let left : drop (read_out rooms (new bytes trailers)).1.pos bytes ≡ [] =
        drop_all _ bytes (omega (arith, far)) in
      (
        sym (append-nil _)
            ∙ ap (λ l. (read_out rooms (new bytes trailers)).0 ++ l) (sym left)
            ∙ a.conserves,
        rw (a.same_bytes, left) (take_all _ [] (omega arith)),
        a.same_trailers,
        refl,
      )
