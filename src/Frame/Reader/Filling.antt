-- ===== src/Frame/Reader/Filling.antt =====
-- The loop that fills a buffer, over a run of the transport: no byte is lost, whatever the sizes of
-- the chunks and wherever the run makes the reader wait.
use trillium_grpc.Prelude.{
  ℕ, zero, suc, ◌+◌, ◌-◌, ◌≤◌, ◌<◌, ◌≡◌, ◌≢◌, refl, ap, sym, ◌∙◌, subst, [], ◌∷◌, ◌++◌, Bytes,
  arith, length, take, drop, length-append, length-take, length-drop, take-append_left,
  drop-append_left, append_assoc, take-append-drop, ltb, leb, Bool-cases, inl, inr, ltb→lt,
  take_all,
}
use trillium_grpc.Frame.Source.{
  ReadPoll, wait, fail, chunk, Script, play, contents, IsLive, waits, script_reader,
}
use trillium_grpc.Frame.Reader.{Fill, waiting, broken, ended, full, copy_at, fill}

-- Some bytes written behind the filled part.
module _ (filled : ℕ) (w buf : Bytes) (fits : filled + length w ≤ length buf) where
  pub length-copy_at : length (copy_at filled w buf) ≡ length buf
  unfolding copy_at
  length-copy_at = omega (
    arith,
    length-append {0} (take filled buf) (w ++ drop (filled + length w) buf),
    length-append {0} w (drop (filled + length w) buf),
    length-take {0} filled buf,
    length-drop {0} (filled + length w) buf,
  )

  pub take-copy_at : take (filled + length w) (copy_at filled w buf) ≡ take filled buf ++ w
  unfolding copy_at
  take-copy_at =
      let have : length (take filled buf ++ w) ≡ filled + length w =
        omega (arith, length-append {0} (take filled buf) w, length-take {0} filled buf) in
      ap (take (filled + length w))
        (sym (append_assoc (take filled buf) w (drop (filled + length w) buf)))
      ∙ subst
          (λ n.
            take n ((take filled buf ++ w) ++ drop (filled + length w) buf) ≡ take filled buf ++ w)
          have (take-append_left (take filled buf ++ w) (drop (filled + length w) buf))

-- The part that is filled and the bytes to come spell `x` and then `rest`.
pub record Spells (buf : Bytes) (filled : ℕ) (evs : Script) (x rest : Bytes) : Type 0 where
  pub room : length buf ≡ length x
  pub within : filled ≤ length buf
  pub text : take filled buf ++ contents evs ≡ x ++ rest
  pub live : IsLive evs

-- The loop waits, with fewer waits ahead, or the buffer is `x` and `rest` is still to come.
unfoldable pub FillsTo : Bytes → Bytes → ℕ → Fill → Script → Type 0
FillsTo x rest n (waiting buf filled) evs = Spells buf filled evs x rest × (waits evs < n)
FillsTo x rest n (full buf) evs = (buf ≡ x) × (contents evs ≡ rest) × IsLive evs × (waits evs ≤ n)
FillsTo x rest n _ evs = ⊥

full-eq :
    (buf x rest more : Bytes)
    → length buf ≡ length x
    → buf ++ more ≡ x ++ rest
    → (buf ≡ x) × (more ≡ rest)
full-eq buf x rest more same text = (
  sym (take-append_left buf more)
      ∙ ap (take (length buf)) text
      ∙ subst (λ n. take n (x ++ rest) ≡ x) (sym same) (take-append_left x rest),
  sym (drop-append_left buf more)
      ∙ ap (drop (length buf)) text
      ∙ subst (λ n. drop n (x ++ rest) ≡ rest) (sym same) (drop-append_left x rest),
)

fill_done :
    (buf : Bytes) (filled : ℕ) (evs : Script) (x rest : Bytes)
    → Spells buf filled evs x rest
    → length buf ≤ filled
    → FillsTo x rest (waits evs) (full buf) evs
unfolding FillsTo
fill_done buf filled evs x rest s h =
    let (same, left) =
      full-eq buf x rest (contents evs) s.room
        (ap (λ l. l ++ contents evs) (sym (take_all filled buf h)) ∙ s.text) in
    (same, left, s.live, omega arith)

fill_chunk :
    (buf w : Bytes) (filled : ℕ) (evs evs' : Script) (x rest : Bytes)
    → Spells buf filled evs x rest
    → contents evs ≡ w ++ contents evs'
    → IsLive evs'
    → filled + length w ≤ length buf
    → Spells (copy_at filled w buf) (filled + length w) evs' x rest
fill_chunk buf w filled evs evs' x rest s split live fits = record {
  room = length-copy_at filled w buf fits ∙ s.room;
  within = omega (arith, length-copy_at filled w buf fits);
  text =
      ap (λ l. l ++ contents evs') (take-copy_at filled w buf fits)
      ∙ append_assoc (take filled buf) w (contents evs')
      ∙ ap (λ l. take filled buf ++ l) (sym split)
      ∙ s.text;
  live = live;
}

-- What a live run gives to a reader with room.
pub data Played (evs : Script) (n : ℕ) : Type 0 where
  waited :
      (evs' : Script)
      → play evs n ≡ (ReadPoll.pending, evs')
      → contents evs ≡ contents evs'
      → IsLive evs'
      → waits evs' < waits evs
      → Played evs n
  arrived :
      (b : ℕ) (bs : Bytes) (evs' : Script)
      → play evs n ≡ (ReadPoll.ready (b ∷ bs), evs')
      → contents evs ≡ (b ∷ bs) ++ contents evs'
      → IsLive evs'
      → length (b ∷ bs) ≤ n
      → waits evs' ≤ waits evs
      → Played evs n
  over : play evs n ≡ (ReadPoll.ready [], []) → contents evs ≡ [] → Played evs n

drop-ne-nil : (n : ℕ) (b : Bytes) → n < length b → drop n b ≢ []
drop-ne-nil zero [] h = absurd (omega arith)
drop-ne-nil zero (c ∷ b) h = λ e. cc
drop-ne-nil (suc n) [] h = absurd (omega arith)
drop-ne-nil (suc n) (c ∷ b) h = drop-ne-nil n b (omega arith)

pub play-Played : (evs : Script) (n : ℕ) → IsLive evs → 0 < n → Played evs n
unfolding play
play-Played [] n live pos = over refl refl
play-Played (wait ∷ evs) n live pos = waited evs refl refl live (omega arith)
play-Played (fail e ∷ evs) n live pos = absurd live
play-Played (chunk [] ∷ evs) n live pos = absurd (live.0 refl)
play-Played (chunk (b ∷ bs) ∷ evs) zero live pos = absurd (omega arith)
play-Played (chunk (b ∷ bs) ∷ evs) (suc n) live pos =
    elim (Bool-cases (leb (length (b ∷ bs)) (suc n))) [
      | inl whole ↦ arrived b bs evs (rw whole) refl live.1 (ground arith) (omega arith)
      | inr part ↦
          arrived b (take n bs) (chunk (drop n bs) ∷ evs) (rw part)
            (ap (λ l. b ∷ l)
              (ap (λ l. l ++ contents evs) (sym (take-append-drop n bs))
                ∙ append_assoc (take n bs) (drop n bs) (contents evs)))
            (drop-ne-nil n bs (ground arith), live.1) (omega (arith, length-take {0} n bs))
            (omega arith)
    ]

pub FillsTo-mono :
    (x rest : Bytes) (m n : ℕ) (f : Fill) (evs : Script)
    → m ≤ n
    → FillsTo x rest m f evs
    → FillsTo x rest n f evs
unfolding FillsTo
FillsTo-mono x rest m n (waiting buf filled) evs h (s, w) = (s, omega arith)
FillsTo-mono x rest m n (full buf) evs h (a, b, c, d) = (a, b, c, omega arith)
FillsTo-mono x rest m n (broken e) evs h f = absurd f
FillsTo-mono x rest m n (ended k) evs h f = absurd f

abbrev Outcome : Bytes → Bytes → ℕ → Fill × Script → Type 0
Outcome x rest n p = FillsTo x rest n p.0 p.1

pub fill-FillsTo :
    (fuel : ℕ) (buf : Bytes) (filled : ℕ) (evs : Script) (x rest : Bytes)
    → Spells buf filled evs x rest
    → length buf ≤ filled + fuel
    → FillsTo x rest (waits evs) (fill fuel evs buf filled).0 (fill fuel evs buf filled).1
unfolding fill
fill-FillsTo zero buf filled evs x rest s enough = fill_done buf filled evs x rest s (omega arith)
fill-FillsTo (suc fuel) buf filled evs x rest s enough =
    elim (Bool-cases (ltb filled (length buf))) [
      | inr no_room ↦ rw no_room (fill_done buf filled evs x rest s (ground arith))
      | inl room ↦
          elim (play-Played evs (length buf - filled) s.live (omega (arith, ltb→lt _ _ room))) [
            | waited evs' e same live fewer ↦
                subst (Outcome x rest (waits evs)) {x = (waiting buf filled, evs')}
                  (ground (arith, e))
                  (unfold FillsTo in
                    (
                      record {
                        room = s.room;
                        within = s.within;
                        text = ap (λ l. take filled buf ++ l) (sym same) ∙ s.text;
                        live = live;
                      },
                      fewer,
                    ))
            | arrived b bs evs' e split live fits le ↦
                subst (Outcome x rest (waits evs))
                  {x = fill fuel evs' (copy_at filled (b ∷ bs) buf) (filled + length (b ∷ bs))}
                  (ground (arith, e))
                  (FillsTo-mono x rest (waits evs') (waits evs) _ _ le (
                    fill-FillsTo fuel (copy_at filled (b ∷ bs) buf) (filled + length (b ∷ bs)) evs'
                      x rest
                      (fill_chunk buf (b ∷ bs) filled evs evs' x rest s split live
                        (omega (arith, ltb→lt _ _ room)))
                      (omega (
                        arith,
                        length-copy_at filled (b ∷ bs) buf (omega (arith, ltb→lt _ _ room)),
                      ))))
            | over e none_left ↦ absurd (
                omega (
                  arith,
                  ltb→lt _ _ room,
                  length-append {0} (take filled buf) (contents evs),
                  ap length none_left,
                  length-append {0} x rest,
                  length-take {0} filled buf,
                  ap length s.text,
                ))
          ]
    ]
