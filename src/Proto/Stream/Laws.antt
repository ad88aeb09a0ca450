-- ===== src/Proto/Stream/Laws.antt =====
-- The connection as a stream: what is read is what was written, in its order.
use nnel.Base.{
  ℕ, zero, suc, ◌<◌, ◌≤◌, ◌≡◌, ◌≢◌, refl, sym, ap, ◌∙◌, inl, inr, true, false, Bool-cases,
  Option-cases, Option, none, some, List, [], ◌∷◌, ◌++◌, Text, text_eqb, text_eqb_iff, text_eq,
  take, drop, length, length-append, length-take-le, take-append-drop, append_assoc, append-nil,
  arith,
}
use nnel.Proto.Stream.{WsConn, new_ws_conn, read_message, read, write}

unfoldable pub concat : List Text → Text
concat [] = []
concat (msg ∷ msgs) = msg ++ concat msgs

abbrev pub held : Option Text → Text
held none = []
held (some left) = left

-- The bytes that are still to be read.
abbrev pub pending : WsConn → Text
pending c = held c.reader ++ concat c.incoming

-- A read gives some of the pending bytes, from the front, and as many as fit at most; it fails only
-- when none is pending.
abbrev pub ReadOf : ℕ → Text → Option Text × Option Text × List Text → Type 0
ReadOf n before (some bytes, reader, incoming) =
    (bytes ≢ []) × (length bytes ≤ n) × (bytes ++ (held reader ++ concat incoming) ≡ before)
ReadOf n before (none, reader, incoming) = (before ≡ []) × (held reader ++ concat incoming ≡ [])

take_ne_nil : (n : ℕ) (s : Text) → 0 < n → s ≢ [] → take n s ≢ []
take_ne_nil zero s h ne e = elim h [ ]
take_ne_nil (suc n) [] h ne e = ne refl
take_ne_nil (suc n) (c ∷ s) h ne e = absurd (cc)

-- From a reader that is not exhausted.
ReadOf-left :
    (n : ℕ) (left : Text) (msgs : List Text)
    → 0 < n
    → text_eqb left [] ≡ false
    → ReadOf n (left ++ concat msgs) (some (take n left), some (drop n left), msgs)
ReadOf-left n left msgs h more = (
  take_ne_nil n left h (λ e. ground (arith, text_eqb_iff left [])),
  length-take-le n left,
  sym (append_assoc (take n left) (drop n left) (concat msgs))
      ∙ ap (λ s. s ++ concat msgs) (take-append-drop n left),
)

ReadOf-message : (n : ℕ) (msgs : List Text) → 0 < n → ReadOf n (concat msgs) (read_message n msgs)
unfolding read_message concat
ReadOf-message n [] h = (refl, refl)
ReadOf-message n (msg ∷ msgs) h = elim (Bool-cases (text_eqb msg [])) [
  | inl empty ↦
      let nothing : msg ≡ [] = (text_eqb_iff msg []).0 empty in
      rw (nothing, read_message) (ReadOf-message n msgs h)
  | inr more ↦ rw (more, read_message) (ReadOf-left n msg msgs h more)
]

-- One read, into a buffer that is not empty.
pub ReadOf-read :
    (n : ℕ) (c : WsConn)
    → 0 < n
    → let (bytes, c') = read n c in ReadOf n (pending c) (bytes, c'.reader, c'.incoming)
unfolding read
ReadOf-read n c h = from_reader c.reader refl
  where
    from_reader :
        (r : Option Text)
        → c.reader ≡ r
        → let (bytes, c') = read n c in ReadOf n (pending c) (bytes, c'.reader, c'.incoming)
    from_reader none e = rw (e, read) (ReadOf-message n c.incoming h)
    from_reader (some left) e =
        rw (e, read)
          (elim (Bool-cases (text_eqb left [])) [
            | inl empty ↦
                let nothing : left ≡ [] = (text_eqb_iff left []).0 empty in
                rw nothing (ReadOf-message n c.incoming h)
            | inr more ↦ rw more (ReadOf-left n left c.incoming h more)
          ])

-- A consumer that reads until a read fails, into buffers of any sizes; `none` if the fuel runs out.
unfoldable pub drain : ℕ → (ℕ → ℕ) → WsConn → Option Text
drain zero size c = none
drain (suc f) size c =
    let rest = drain f size (read (size f) c).1 in
    elim (read (size f) c).0 [
      | none ↦ some []
      | some bytes ↦ elim rest [ none ↦ none | some more ↦ some (bytes ++ more) ]
    ]

shorter_rest :
    {f : ℕ} (bytes rest whole : Text)
    → bytes ≢ []
    → bytes ++ rest ≡ whole
    → length whole < suc f
    → length rest < f
shorter_rest [] rest whole ne e h = absurd (ne refl)
shorter_rest {f} (c ∷ bytes) rest whole ne e h =
    let long : length (c ∷ bytes ++ rest) < suc f = rw (← e) at h in
    omega (arith, length-append bytes rest)

drain-pending :
    (f : ℕ) (size : ℕ → ℕ) (c : WsConn)
    → ((i : ℕ) → 0 < size i)
    → length (pending c) < f
    → drain f size c ≡ some (pending c)
unfolding drain
drain-pending zero size c sizes h = elim h [ ]
drain-pending (suc f) size c sizes h =
    let once = ReadOf-read (size f) c (sizes f) in
    elim (Option-cases (read (size f) c).0) [
      | inl failed ↦ let (nothing, _) = rw failed at once in rw (failed, drain, nothing) refl
      | inr (bytes, got) ↦
          let (some_bytes, _, whole) = rw got at once in
          let shorter : length (pending (read (size f) c).1) < f =
            shorter_rest bytes (pending (read (size f) c).1) (pending c) some_bytes whole h in
          rw (got, drain-pending f size (read (size f) c).1 sizes shorter, drain) (ap some whole)
    ]

-- A sequence of writes that are all sent.
unfoldable pub write_all : List Text → WsConn → WsConn
write_all [] c = c
write_all (bytes ∷ rest) c = write_all rest (write true bytes c).1

outgoing-write_all : (ws : List Text) (c : WsConn) → (write_all ws c).outgoing ≡ c.outgoing ++ ws
unfolding write_all write
outgoing-write_all [] c = sym (append-nil c.outgoing)
outgoing-write_all (bytes ∷ rest) c =
    outgoing-write_all rest (write true bytes c).1 ∙ append_assoc c.outgoing (bytes ∷ []) rest

-- Whatever is written on one side, in whatever pieces, empty ones too, a reader on the other side gets
-- exactly these bytes, in their order, before its first error, whatever the sizes of its buffers, none
-- of which is empty; a round for each byte and one for the error are enough.
pub drain-write_all :
    (ws : List Text) (size : ℕ → ℕ) (f : ℕ)
    → ((i : ℕ) → 0 < size i)
    → length (concat ws) < f
    → drain f size (new_ws_conn (write_all ws (new_ws_conn [])).outgoing) ≡ some (concat ws)
unfolding new_ws_conn
drain-write_all ws size f sizes enough =
    rw (outgoing-write_all ws (new_ws_conn [])) (drain-pending f size (new_ws_conn ws) sizes enough)
