-- ===== src/Cnet/Reads.antt =====
-- A sequence of reads delivers the messages as one stream.
use chisel_uds.Prelude.{
  ℕ, Text, List, [], ◌∷◌, ◌++◌, length, take, drop, ltb, ◌≡◌, refl, arith, length-take,
  take-append-drop, inl, inr, append_assoc, Bool-cases, ◌≤◌, ap, sym, ◌∙◌,
}
use chisel_uds.Cnet.{WsConn, ReadResult, bytes, read_error, deliver, read}

abbrev pub concat : List Text → Text
concat [] = []
concat (m ∷ rest) = m ++ concat rest

-- what the connection still has to deliver
abbrev pub pending : WsConn → Text
pending c = c.buff ++ concat c.incoming

-- What one read shows: the bytes it returns are the next ones and fit the buffer; an error comes only
-- when nothing is left, and changes nothing.
pub Delivers : ℕ → WsConn → WsConn × ReadResult → Type 0
Delivers ldst c (c', bytes b) = (pending c ≡ b ++ pending c') × (length b ≤ ldst)
Delivers ldst c (c', read_error e) = (pending c ≡ []) × (c' ≡ c) × (e ≡ c.final_error)

deliver-Delivers :
    (ldst : ℕ) (src : Text) (later : List Text) (e : Text) (d : WsConn)
    → pending d ≡ src ++ concat later
    → Delivers ldst d (deliver ldst src (record { buff = []; incoming = later; final_error = e }))
unfolding deliver Delivers
deliver-Delivers ldst src later e d h = elim (Bool-cases (ltb ldst (length src))) [
  | inl b ↦
      rw (deliver, b)
        (
          h
              ∙ ap (λ s. s ++ concat later) (sym (take-append-drop ldst src))
              ∙ append_assoc (take ldst src) (drop ldst src) (concat later),
          omega (arith, length-take ldst src),
        )
  | inr b ↦ rw (deliver, b) (h, ground arith)
]

read_fields :
    (ldst : ℕ) (b : Text) (ms : List Text) (e : Text)
    → let c : WsConn = record { buff = b; incoming = ms; final_error = e } in
      Delivers ldst c (read ldst c)
unfolding read Delivers
read_fields ldst (x ∷ b) ms e =
    let c : WsConn = record { buff = x ∷ b; incoming = ms; final_error = e } in
    deliver-Delivers ldst (x ∷ b) ms e c refl
read_fields ldst [] (m ∷ ms) e =
    let c : WsConn = record { buff = []; incoming = m ∷ ms; final_error = e } in
    deliver-Delivers ldst m ms e c refl
read_fields ldst [] [] e = (refl, refl, refl)

-- A read returns the next bytes of the messages put together, at most as many as fit, in the order in
-- which they came, and fails only when all of them were returned.
pub read-Delivers : (ldst : ℕ) (c : WsConn) → Delivers ldst c (read ldst c)
read-Delivers ldst c = read_fields ldst c.buff c.incoming c.final_error

-- the bytes of a result
abbrev pub bytes_of : ReadResult → Text
bytes_of (bytes b) = b
bytes_of (read_error e) = []

-- Reads with buffers of the given sizes, one after another: the connection after them and their bytes.
unfoldable pub reads : List ℕ → WsConn → WsConn × Text
reads [] c = (c, [])
reads (ldst ∷ sizes) c =
    let (c1, result) = read ldst c in
    let (c2, later) = reads sizes c1 in (c2, bytes_of result ++ later)

read-pending :
    (ldst : ℕ) (c : WsConn) (p : WsConn × ReadResult)
    → Delivers ldst c p
    → pending c ≡ bytes_of p.1 ++ pending p.0
unfolding Delivers
read-pending ldst c (c', bytes b) h = h.0
read-pending ldst c (c', read_error e) h = ap pending (sym h.1)

-- Whatever the sizes of the buffers, a sequence of reads returns the messages as one stream: its bytes
-- and what is still to be delivered are together what was to be delivered before.
pub reads_stream :
    (sizes : List ℕ) (c : WsConn) → let (c', got) = reads sizes c in pending c ≡ got ++ pending c'
unfolding reads
reads_stream [] c = refl
reads_stream (ldst ∷ sizes) c =
    let (c1, result) = read ldst c in
    let (c2, later) = reads sizes c1 in
    read-pending ldst c (read ldst c) (read-Delivers ldst c)
    ∙ ap (λ s. bytes_of result ++ s) (reads_stream sizes c1)
    ∙ sym (append_assoc (bytes_of result) later (pending c2))
