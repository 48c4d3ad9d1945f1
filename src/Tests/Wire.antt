-- ===== src/Tests/Wire.antt =====
-- The socket and the negotiation.
use clip_share_desktop.Prelude.{◌≡◌, refl, List, [], ◌∷◌, replicate, arith}
use clip_share_desktop.Net.{
  plain_sock, ssl_sock, Fault, again, epipe, Recv, chunk, recv_fault, Send, room, send_fault,
  read_fatal, read_bytes, write_bytes,
}
use clip_share_desktop.Net.Read.{
  Delivers, Reads, read_bytes-Reads, Exactly, read_bytes-Exactly, AllRetried,
}
use clip_share_desktop.Net.Write.{Delivered, write_bytes-Delivered}
use clip_share_desktop.Action.Healthy.{on}
use clip_share_desktop.Config.Defaults.{apply_default_conf-HasProtoRange, initial_config}
use clip_share_desktop.Proto.Selector.{negotiate}
use clip_share_desktop.Proto.Selector.Agreement.{offers, agreed, said, result_of, negotiate-agrees}
use clip_share_desktop.Tests.Setup.{machine}

abbrev segments : List Recv
segments = chunk (1 ∷ []) ∷ recv_fault again ∷ chunk (2 ∷ 3 ∷ []) ∷ []

segments-Delivers : Delivers plain_sock 0 segments
unfolding read_fatal
segments-Delivers = (omega arith, refl, tt)

read_bytes-Reads_example : Reads plain_sock (1 ∷ 2 ∷ []) (3 ∷ []) (read_bytes plain_sock 2 segments)
read_bytes-Reads_example =
    read_bytes-Reads plain_sock (1 ∷ 2 ∷ []) (3 ∷ []) segments segments-Delivers refl

read_bytes-Exactly_example : Exactly 2 (read_bytes plain_sock 2 segments).0
read_bytes-Exactly_example = read_bytes-Exactly plain_sock 2 segments

abbrev twelve : List Fault
twelve = replicate 12 epipe

twelve-AllRetried : AllRetried ssl_sock twelve
unfolding read_fatal
twelve-AllRetried = (
  refl,
  (refl, (refl, (refl, (refl, (refl, (refl, (refl, (refl, (refl, (refl, (refl, tt))))))))))),
)

abbrev slow : List Send
slow = room 1 ∷ send_fault again ∷ room 0 ∷ []

write_bytes-Delivered_example :
    Delivered
      (1 ∷ 2 ∷ 3 ∷ [])
      (write_bytes plain_sock (1 ∷ 2 ∷ 3 ∷ []) slow).sent
      (write_bytes plain_sock (1 ∷ 2 ∷ 3 ∷ []) slow).outcome
write_bytes-Delivered_example = write_bytes-Delivered plain_sock (1 ∷ 2 ∷ 3 ∷ []) slow

-- The server offers version 3.
abbrev offer : List Recv
offer = chunk (3 ∷ 3 ∷ 9 ∷ []) ∷ []

negotiate-agrees_example :
    ((negotiate machine (on plain_sock offer [])).0 ≡ result_of (agreed machine.config (offers 3)))
    × ((negotiate machine (on plain_sock offer [])).1.history ≡ said machine (offers 3) [])
negotiate-agrees_example =
    negotiate-agrees machine (apply_default_conf-HasProtoRange initial_config) plain_sock []
      (offers 3) (9 ∷ []) offer tt (record { delivers = tt; bytes = refl })
