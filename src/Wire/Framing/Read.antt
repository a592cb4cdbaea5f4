-- ===== src/Wire/Framing/Read.antt =====
-- internal/wire/framing.go: `ReadMessage` and the streams that `Packets` describes.
use haystak_tds_spi.Base.{
  ℕ, zero, suc, ◌+◌, ◌-◌, ◌≤◌, ◌<◌, ltb, if◌then◌else◌, Bool, true, false, [], ◌∷◌, ◌++◌, ◌≡◌, refl,
  sym, ap, ◌∙◌, Bytes, length, take, drop, get_or, arith, append_assoc, length-append, Bool-cases,
  inl, inr, le→ltb_false, subst, ltb_false→le,
}
use haystak_tds_spi.Base.Result.{
  Result, ok, err, panic, no_fuel, ◌>>=◌, bind-eq-ok, Returns, Returns-bind,
}
use haystak_tds_spi.Go.Binary.{u16_be}
use haystak_tds_spi.Go.Io.{
  ReadError, read_full, read_full-append, read_full-eq-ok, read_full-Returns,
}
use haystak_tds_spi.Wire.Framing.Wellformed.{Announces, continues, Packets, last, more}
use haystak_tds_spi.Wire.Framing.{
  Message, FrameError, bad_length, reads, make_body, read_loop, read_message,
}

make_body_fits : (n : ℕ) → ltb n 8 ≡ false → make_body n ≡ ok (n - 8)
unfolding make_body
make_body_fits n h = rw h refl

-- One round of the loop, on a whole packet.
read_loop-packet :
    (fuel : ℕ) (first : Bool) (typ : ℕ) (acc hdr body r : Bytes)
    → Announces hdr body
    → read_loop (suc fuel) first typ acc (hdr ++ (body ++ r)) ≡ (
        if continues hdr
        then read_loop fuel false (if first then get_or hdr 0 0 else typ) (acc ++ body) r
        else ok (record { type = if first then get_or hdr 0 0 else typ; payload = acc ++ body }, r))
unfolding read_loop reads
read_loop-packet fuel first typ acc hdr body r a =
    let whole : 8 ≡ length hdr = sym a.size in
    let fits = le→ltb_false (8 + length body) 8 (omega arith) in
    rw (read_full-append 8 hdr (body ++ r) whole, reads, a.length_field)
      (rw (fits, make_body_fits (8 + length body) fits)
        (rw (read_full-append (8 + length body - 8) body r (omega arith), reads) refl))

get_or_append : (hdr xs : Bytes) → length hdr ≡ 8 → get_or (hdr ++ xs) 0 0 ≡ get_or hdr 0 0
get_or_append [] xs h = absurd (omega arith)
get_or_append (b ∷ hdr) xs h = refl

-- The reader takes any wellformed stream, whatever follows it, and stops at its end.
read_loop-Packets :
    {payload s : Bytes} (fuel : ℕ) (first : Bool) (typ : ℕ) (acc r : Bytes)
    → Packets payload s
    → length s ≤ fuel
    → read_loop fuel first typ acc (s ++ r)
      ≡ ok (record { type = if first then get_or s 0 0 else typ; payload = acc ++ payload }, r)
read_loop-Packets zero first typ acc r (last {hdr} {body} a e) h =
    absurd (omega (arith, a.size, length-append hdr body))
read_loop-Packets zero first typ acc r (more {hdr} {body} {rest = rest} a e t) h =
    absurd (omega (arith, a.size, length-append hdr (body ++ rest)))
read_loop-Packets (suc fuel) first typ acc r (last {hdr} {body} a e) h =
    ap (read_loop (suc fuel) first typ acc) (append_assoc hdr body r)
    ∙ read_loop-packet fuel first typ acc hdr body r a
    ∙ rw (e, get_or_append hdr body a.size) refl
read_loop-Packets (suc fuel) first typ acc r (more {hdr} {body} {payload} {rest} a e t) h =
    ap (read_loop (suc fuel) first typ acc)
      (append_assoc hdr (body ++ rest) r ∙ ap (λ xs. hdr ++ xs) (append_assoc body rest r))
    ∙ read_loop-packet fuel first typ acc hdr body (rest ++ r) a
    ∙ rw e (
        read_loop-Packets fuel false _ (acc ++ body) r t
          (omega (arith, a.size, length-append hdr (body ++ rest), length-append body rest))
        ∙ rw (append_assoc acc body payload, get_or_append hdr (body ++ rest) a.size) refl)

-- `ReadMessage` reads every wellformed stream: the type is that of its first byte, the payload is
-- the bodies of its packets, and what follows the stream is left in the reader.
pub read_message-Packets :
    {payload s : Bytes} (r : Bytes)
    → Packets payload s
    → read_message (s ++ r) ≡ ok (record { type = get_or s 0 0; payload = payload }, r)
unfolding read_message
read_message-Packets {payload} {s} r p =
    read_loop-Packets (suc (length (s ++ r))) true 0 [] r p (omega (arith, length-append s r))

-- A round that is over: what `ReadMessage` has taken is a wellformed stream.
pub record Took (first : Bool) (typ : ℕ) (acc r : Bytes) (m : Message) (r' : Bytes) : Type 0 where
  pub payload : Bytes
  pub stream : Bytes
  pub packets : Packets payload stream
  pub splits : r ≡ stream ++ r'
  pub payload_eq : m.payload ≡ acc ++ payload
  pub type_eq : m.type ≡ (if first then get_or stream 0 0 else typ)

reads-eq-ok :
    (n : ℕ) (s a b : Bytes) → reads (read_full n s) ≡ ok (a, b) → (s ≡ a ++ b) × (length a ≡ n)
unfolding reads
reads-eq-ok n s a b h = read_full-eq-ok n s a b (unwrap (read_full n s) h)
  where
    unwrap : (x : Result ReadError (Bytes × Bytes)) → reads x ≡ ok (a, b) → x ≡ ok (a, b)
    unwrap (ok p) e = cc
    unwrap (err e) h = cc
    unwrap panic e = cc
    unwrap no_fuel e = cc

round_over :
    {a m : Message} {b r : Bytes}
    → ◌≡◌ {A = Result FrameError (Message × Bytes)} (ok (a, b)) (ok (m, r))
    → (a ≡ m) × (b ≡ r)
round_over h = (cc, cc)

regroup : (hdr body s r : Bytes) → hdr ++ (body ++ (s ++ r)) ≡ (hdr ++ (body ++ s)) ++ r
regroup hdr body s r = simp append_assoc

-- The end of a round, on the packet that was read.
after_body :
    (fuel : ℕ) (first : Bool) (typ : ℕ) (acc r' : Bytes) {m : Message} (hdr body r2 : Bytes)
    → ((acc' : Bytes) (typ' : ℕ)
        → read_loop fuel false typ' acc' r2 ≡ ok (m, r')
        → Took false typ' acc' r2 m r')
    → Announces hdr body
    → (if continues hdr
        then read_loop fuel false (if first then get_or hdr 0 0 else typ) (acc ++ body) r2
        else ok
            (record { type = if first then get_or hdr 0 0 else typ; payload = acc ++ body }, r2))
      ≡ ok (m, r')
    → Took first typ acc (hdr ++ (body ++ r2)) m r'
after_body fuel first typ acc r' {m} hdr body r2 ih a h = elim (Bool-cases (continues hdr)) [
  | inl e ↦
      let t = ih (acc ++ body) (if first then get_or hdr 0 0 else typ) (rw e at h) in
      record {
        payload = body ++ t.payload;
        stream = hdr ++ (body ++ t.stream);
        packets = more a e t.packets;
        splits = ap (λ xs. hdr ++ (body ++ xs)) t.splits ∙ regroup hdr body t.stream r';
        payload_eq = t.payload_eq ∙ append_assoc acc body t.payload;
        type_eq = t.type_eq ∙ rw (get_or_append hdr (body ++ t.stream) a.size) refl;
      }
  | inr e ↦
      let over = round_over (rw e at h) in
      record {
        payload = body;
        stream = hdr ++ body;
        packets = last a e;
        splits = sym (append_assoc hdr body r2) ∙ ap (λ xs. (hdr ++ body) ++ xs) over.1;
        payload_eq = ap (λ (x : Message). x.payload) (sym over.0);
        type_eq =
            ap (λ (x : Message). x.type) (sym over.0) ∙ rw (get_or_append hdr body a.size) refl;
      }
]

read_loop-Took :
    (fuel : ℕ) (first : Bool) (typ : ℕ) (acc r : Bytes) {m : Message} {r' : Bytes}
    → read_loop fuel first typ acc r ≡ ok (m, r')
    → Took first typ acc r m r'
unfolding read_loop
read_loop-Took zero first typ acc r h = cc
read_loop-Took (suc fuel) first typ acc r {m} {r'} h =
    let ((hdr, r1), e1, h1) = bind-eq-ok (reads (read_full 8 r)) _ h in
    let (cut1, size) = reads-eq-ok 8 r hdr r1 e1 in
    elim (Bool-cases (ltb (u16_be (take 2 (drop 2 hdr))) 8)) [
      | inl short ↦ absurd (cc (rw short at h1))
      | inr fits ↦
          let ((body, r2), e2, h2) =
            bind-eq-ok (reads (read_full (u16_be (take 2 (drop 2 hdr)) - 8) r1)) _
              (rw (fits, make_body_fits (u16_be (take 2 (drop 2 hdr))) fits) at h1) in
          let (cut2, size2) = reads-eq-ok _ r1 body r2 e2 in
          subst (λ s. Took first typ acc s m r') (sym (cut1 ∙ ap (λ s. hdr ++ s) cut2))
            (after_body fuel first typ acc r' hdr body r2
              (λ acc' typ'. read_loop-Took fuel false typ' acc' r2)
              (record { size = size; length_field = omega (arith, ltb_false→le _ 8 fits) }) h2)
    ]

-- Whatever `ReadMessage` gives, it has taken a wellformed stream off the front of the reader: the
-- payload is the bodies of the packets, and the type that of the first.
pub read_message-Took :
    (r : Bytes) {m : Message} {r' : Bytes} → read_message r ≡ ok (m, r') → Took true 0 [] r m r'
unfolding read_message
read_message-Took r h = read_loop-Took (suc (length r)) true 0 [] r h

reads-Returns : (n : ℕ) (s : Bytes) → Returns (reads (read_full n s))
unfolding reads
reads-Returns n s = lift (read_full n s) (read_full-Returns n s)
  where
    lift : (x : Result ReadError (Bytes × Bytes)) → Returns x → Returns (reads x)
    lift (ok p) h = tt
    lift (err e) h = tt
    lift panic h = h
    lift no_fuel h = h

module _ (fuel : ℕ) (first : Bool) (typ : ℕ) (acc hdr r1 : Bytes)
    (ih : (acc' : Bytes) (typ' : ℕ) (r : Bytes)
      → length r ≤ length r1
      → Returns (read_loop fuel false typ' acc' r)) where
  body-Returns :
      (b : Bool) (body r2 : Bytes)
      → length r2 ≤ length r1
      → Returns (
          if b
          then read_loop fuel false (if first then get_or hdr 0 0 else typ) (acc ++ body) r2
          else ok
              (record { type = if first then get_or hdr 0 0 else typ; payload = acc ++ body }, r2))
  body-Returns true body r2 h = ih _ _ r2 h
  body-Returns false body r2 h = tt

  header-Returns :
      (b : Bool) (n : ℕ)
      → ltb n 8 ≡ b
      → Returns (
          if b
          then err (bad_length n)
          else (make_body n >>= λ size. reads (read_full size r1) >>= λ (body, r2).
              if continues hdr
              then read_loop fuel false (if first then get_or hdr 0 0 else typ) (acc ++ body) r2
              else ok (
                record { type = if first then get_or hdr 0 0 else typ; payload = acc ++ body },
                r2,
              )))
  header-Returns true n h = tt
  header-Returns false n h = rw (make_body_fits n h) (
      Returns-bind (reads (read_full (n - 8) r1)) _ (reads-Returns (n - 8) r1) λ (body, r2) e.
        body-Returns (continues hdr) body r2 (
          let (cut, size) = reads-eq-ok (n - 8) r1 body r2 e in
          omega (arith, ap length cut, length-append body r2)))

read_loop-Returns :
    (fuel : ℕ) (first : Bool) (typ : ℕ) (acc r : Bytes)
    → length r < fuel
    → Returns (read_loop fuel first typ acc r)
unfolding read_loop
read_loop-Returns zero first typ acc r h = absurd (omega arith)
read_loop-Returns (suc fuel) first typ acc r h =
    Returns-bind (reads (read_full 8 r)) _ (reads-Returns 8 r) λ (hdr, r1) e.
      header-Returns fuel first typ acc hdr r1
        (λ acc' typ' r' le. read_loop-Returns fuel false typ' acc' r' (
          let (cut, size) = reads-eq-ok 8 r hdr r1 e in
          omega (arith, ap length cut, length-append hdr r1)))
        (ltb (u16_be (take 2 (drop 2 hdr))) 8) (u16_be (take 2 (drop 2 hdr))) refl

-- `ReadMessage` comes back on every stream, with a message or with an error: it neither panics nor
-- runs out of fuel.
pub read_message-Returns : (r : Bytes) → Returns (read_message r)
unfolding read_message
read_message-Returns r = read_loop-Returns (suc (length r)) true 0 [] r (omega arith)
