-- ===== src/Wire/Framing/Write.antt =====
-- internal/wire/framing.go: what `WriteMessage` sends, and `ReadMessage` on it.
use haystak_tds_spi.Base.{
  ℕ, zero, suc, ◌+◌, ◌%◌, ◌≤◌, ◌<◌, ◌≡◌, refl, Bool, true, false, inl, inr, leb, leb→le, Bool-cases,
  ◌++◌, Bytes, length, true, Bool, arith, false, Bool-cases, leb, inl, leb→le, inr, append_assoc,
  ap, get_or, [], take, ◌∙◌, drop, length-drop, subst, take-append-drop, length-take, Option, some,
  if◌then◌else◌, none,
}
use haystak_tds_spi.Base.Result.{Result, ok, Returns}
use haystak_tds_spi.Go.Io.{buffer, Writer}
use haystak_tds_spi.Wire.Framing.Wellformed.{Announces, Packets, last, more}
use haystak_tds_spi.Wire.Framing.Read.{read_message-Packets}
use haystak_tds_spi.Wire.Framing.{
  Message, header, write_loop, write_message, read_message, max_body_of, after,
}

-- The packets of one message: bodies of exactly `max_body` bytes, the last of at most that many and
-- empty only if it is the only one, with ids that count from `pid` and wrap after 255.
pub data Framed (typ max_body : ℕ) : ℕ → Bytes → Bytes → Type 0 where
  single :
      {pid : ℕ} (payload : Bytes)
      → length payload ≤ max_body
      → Framed typ max_body pid payload (header typ true (length payload) pid ++ payload)
  split :
      {pid : ℕ} (chunk rest out : Bytes)
      → length chunk ≡ max_body
      → 0 < length rest
      → Framed typ max_body ((pid + 1) % 256) rest out
      → Framed typ max_body pid
          (chunk ++ rest)
          (header typ false (length chunk) pid ++ (chunk ++ out))

header-Announces :
    (typ n pid : ℕ) (final : Bool) (body : Bytes)
    → n ≡ length body
    → 8 + n < 65536
    → Announces (header typ final n pid) body
unfolding header
header-Announces typ n pid final body e h = record { size = refl; length_field = omega arith }

Framed-Packets :
    {typ max_body pid : ℕ} {payload out : Bytes}
    → max_body + 8 < 65536
    → Framed typ max_body pid payload out
    → Packets payload out
Framed-Packets {typ} {pid = pid} b (single p h) =
    last (header-Announces typ (length p) pid true p refl (omega arith)) (unfold header in refl)
Framed-Packets {typ} {pid = pid} b (split c _ _ e h t) =
    more (header-Announces typ (length c) pid false c refl (omega arith)) (unfold header in refl)
      (Framed-Packets b t)

regroup : (s a b c : Bytes) → ((s ++ a) ++ b) ++ c ≡ s ++ (a ++ (b ++ c))
regroup s a b c = simp append_assoc

write_loop-Framed :
    (fuel typ max_body pid : ℕ) (payload s : Bytes)
    → length payload < fuel
    → 0 < max_body
    → (out : Bytes) × (write_loop buffer fuel typ max_body pid payload s ≡ (ok tt, s ++ out))
      × Framed typ max_body pid payload out
unfolding write_loop after
write_loop-Framed zero typ max_body pid payload s h pos = absurd (omega arith)
write_loop-Framed (suc fuel) typ max_body pid payload s h pos =
    elim (Bool-cases (leb (length payload) max_body)) [
      | inl fits ↦ (
        header typ true (length payload) pid ++ payload,
        rw fits
            (ap (λ b. (ok tt, b)) (append_assoc s (header typ true (length payload) pid) payload)),
        single payload (leb→le _ _ fits),
      )
      | inr long ↦
          let front = take max_body payload in
          let back = drop max_body payload in
          let hdr = header typ false (length front) pid in
          let big : max_body < length payload = ground arith in
          let (out, run, framed) =
            write_loop-Framed fuel typ max_body ((pid + 1) % 256) back ((s ++ hdr) ++ front)
              (omega (arith, length-drop max_body payload)) pos in
          (
            hdr ++ (front ++ out),
            rw long (run ∙ ap (λ b. (ok tt, b)) (regroup s hdr front out)),
            subst (λ p. Framed typ max_body pid p (hdr ++ (front ++ out)))
                (take-append-drop max_body payload)
                (split front back out (omega (arith, length-take max_body payload))
                  (omega (arith, length-drop max_body payload)) framed),
          )
    ]

-- Into a buffer, `WriteMessage` succeeds and appends the packets of the message. A packet size that
-- leaves no room for a body is replaced by 4096.
pub write_message-Framed :
    (m : Message) (packet_size : ℕ) (s : Bytes)
    → (out : Bytes) × (write_message buffer m packet_size s ≡ (ok tt, s ++ out))
      × Framed m.type (max_body_of packet_size) 1 m.payload out
unfolding write_message
write_message-Framed m packet_size s =
    write_loop-Framed (suc (length m.payload)) m.type (max_body_of packet_size) 1 m.payload s
      (omega arith) (ground arith)

first_byte :
    {typ max_body pid : ℕ} {payload out : Bytes}
    → Framed typ max_body pid payload out
    → get_or out 0 0 ≡ typ
unfolding header
first_byte (single p h) = refl
first_byte (split c r o e h t) = refl

-- What `WriteMessage` has sent of a message, at a packet size that fits the length field,
-- `ReadMessage` reads back whole, and leaves whatever follows it in the reader.
pub read_message-write_message :
    (m : Message) (packet_size : ℕ) (r : Bytes)
    → packet_size < 65536
    → (out : Bytes) × (write_message buffer m packet_size [] ≡ (ok tt, out))
      × (read_message (out ++ r) ≡ ok (m, r))
read_message-write_message m packet_size r h =
    let (out, run, framed) = write_message-Framed m packet_size [] in
    (
      out,
      run,
      read_message-Packets r (Framed-Packets (ground arith) framed)
          ∙ ap (λ t. ok (record { type = t; payload = m.payload }, r)) (first_byte framed),
    )

after-Returns :
    (w : Writer) (r : Option w.Error × w.State) (k : w.State → Result w.Error (Unit {0}) × w.State)
    → ((s : w.State) → Returns (k s).0)
    → Returns (after w r k).0
unfolding after
after-Returns w (some e, s) k h = tt
after-Returns w (none, s) k h = h s

choice-Returns :
    (w : Writer) (b : Bool) (s : w.State) (rest : Result w.Error (Unit {0}) × w.State)
    → (b ≡ false → Returns rest.0)
    → Returns (if b then (ok tt, s) else rest).0
choice-Returns w true s rest h = tt
choice-Returns w false s rest h = h refl

write_loop-Returns :
    (w : Writer) (fuel typ max_body pid : ℕ) (payload : Bytes) (s : w.State)
    → length payload < fuel
    → 0 < max_body
    → Returns (write_loop w fuel typ max_body pid payload s).0
unfolding write_loop
write_loop-Returns w zero typ max_body pid payload s h pos = absurd (omega arith)
write_loop-Returns w (suc fuel) typ max_body pid payload s h pos = after-Returns w _ _ λ s1.
    after-Returns w _ _ λ s2. choice-Returns w (leb (length payload) max_body) s2 _ λ long.
      write_loop-Returns w fuel typ max_body ((pid + 1) % 256) (drop max_body payload) s2
        (let big : max_body < length payload = ground arith in
          omega (arith, length-drop max_body payload))
        pos

-- Whatever writer it has, `WriteMessage` comes back: with no error, or with the first that the
-- writer gave.
pub write_message-Returns :
    (w : Writer) (m : Message) (packet_size : ℕ) (s : w.State)
    → Returns (write_message w m packet_size s).0
unfolding write_message
write_message-Returns w m packet_size s =
    write_loop-Returns w (suc (length m.payload)) m.type (max_body_of packet_size) 1 m.payload s
      (omega arith) (ground arith)
