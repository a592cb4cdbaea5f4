-- ===== src/Wire/Framing/Tests.antt =====
-- Runs of framing.go.
use haystak_tds_spi.Base.{
  ℕ, ◌≡◌, refl, Bool, true, false, none, some, [], ◌∷◌, ◌++◌, arith, if◌then◌else◌, Bytes,
}
use haystak_tds_spi.Base.Result.{ok, err, Returns}
use haystak_tds_spi.Go.Io.{buffer, unexpected_eof, Writer}
use haystak_tds_spi.Wire.Framing.{
  Message, read_failed, bad_length, make_body, read_message, write_message, packet_sql_batch,
}
use haystak_tds_spi.Wire.Framing.Read.{Took, read_message-Took, read_message-Returns}
use haystak_tds_spi.Wire.Framing.Wellformed.{Packets, last, more}
use haystak_tds_spi.Wire.Framing.Write.{Framed, write_message-Framed, read_message-write_message}

abbrev hello : Message
hello = record { type = packet_sql_batch; payload = 1 ∷ 2 ∷ 3 ∷ 4 ∷ 5 ∷ [] }

abbrev two_packets : Bytes
two_packets =
    (1 ∷ 0 ∷ 0 ∷ 11 ∷ 0 ∷ 0 ∷ 1 ∷ 0 ∷ 1 ∷ 2 ∷ 3 ∷ [])
    ++ (1 ∷ 1 ∷ 0 ∷ 10 ∷ 0 ∷ 0 ∷ 2 ∷ 0 ∷ 4 ∷ 5 ∷ [])

write_two : write_message buffer hello 11 [] ≡ (ok tt, two_packets)
unfolding write_message
write_two = refl

read_two : read_message (two_packets ++ 7 ∷ []) ≡ ok (hello, 7 ∷ [])
unfolding read_message make_body
read_two = refl

read_short : read_message (1 ∷ 1 ∷ 0 ∷ 7 ∷ 0 ∷ 0 ∷ 1 ∷ 0 ∷ []) ≡ err (bad_length 7)
unfolding read_message
read_short = refl

read_cut : read_message (1 ∷ 1 ∷ 0 ∷ 9 ∷ 0 ∷ []) ≡ err (read_failed unexpected_eof)
unfolding read_message
read_cut = refl

hello-Packets : Packets (1 ∷ 2 ∷ 3 ∷ 4 ∷ 5 ∷ []) two_packets
hello-Packets =
    more {hdr = 1 ∷ 0 ∷ 0 ∷ 11 ∷ 0 ∷ 0 ∷ 1 ∷ 0 ∷ []} {body = 1 ∷ 2 ∷ 3 ∷ []}
      (record { size = refl; length_field = refl }) refl
      (last {hdr = 1 ∷ 1 ∷ 0 ∷ 10 ∷ 0 ∷ 0 ∷ 2 ∷ 0 ∷ []} {body = 4 ∷ 5 ∷ []}
        (record { size = refl; length_field = refl }) refl)

read_message-Took_example : Took true 0 [] (two_packets ++ 7 ∷ []) hello (7 ∷ [])
read_message-Took_example = read_message-Took (two_packets ++ 7 ∷ []) read_two

read_message-Returns_example : Returns (read_message (1 ∷ 1 ∷ 0 ∷ []))
read_message-Returns_example = read_message-Returns (1 ∷ 1 ∷ 0 ∷ [])

write_message-Framed_example :
    (out : Bytes) × (write_message buffer hello 11 [] ≡ (ok tt, out))
    × Framed 1 3 1 (1 ∷ 2 ∷ 3 ∷ 4 ∷ 5 ∷ []) out
write_message-Framed_example = write_message-Framed hello 11 []

read_message-write_message_example :
    (out : Bytes) × (write_message buffer hello 11 [] ≡ (ok tt, out))
    × (read_message (out ++ 7 ∷ []) ≡ ok (hello, 7 ∷ []))
read_message-write_message_example = read_message-write_message hello 11 (7 ∷ []) (omega arith)

-- A writer that takes one `Write` and refuses the next.
abbrev one_write : Writer
one_write = record {
  State = Bool;
  Error = ℕ;
  write = λ p used. if used then (some 28, true) else (none, true);
}

write_refused : write_message one_write hello 11 false ≡ (err 28, true)
unfolding write_message
write_refused = refl
