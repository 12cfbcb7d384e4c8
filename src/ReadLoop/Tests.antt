-- ===== src/ReadLoop/Tests.antt =====
-- readloop.go: a session without a remote address that gets packets of three senders.
use kcp_go.Prelude.{◌≡◌, refl, true, none, List, [], ◌∷◌, ◌++◌, ==_refl}
use kcp_go.Bytes.{Bytes}
use kcp_go.ReadLoop.{
  same_udp_addr, Addr, udp, text, Net, Reading, failed, received, same_bytes, start_reader,
  default_read_loop, batch_read_loop, pushed_packets, BatchReading, batch_received,
}
use kcp_go.ReadLoop.Source.{IsNet, packets_of, from_peer, from_others, Fed}
use kcp_go.ReadLoop.Paths.{batches_of, Handed, fresh_receiver, reads_lem}

-- IP.Equal on addresses of equal length.
abbrev plain_net : Net
plain_net = record { ip_equal = same_bytes; udp_string = λ a. a.ip ++ a.port ∷ [] }

same_bytes_refl : (xs : Bytes) → same_bytes xs xs ≡ true
same_bytes_refl [] = refl
same_bytes_refl (x ∷ xs) = rw (==_refl x) (same_bytes_refl xs)

plain_net-IsNet : IsNet plain_net
plain_net-IsNet = record { ip_equal_refl = same_bytes_refl }

abbrev friend : Addr
friend = udp (record { ip = 10 ∷ 0 ∷ 0 ∷ 1 ∷ []; port = 4000; zone = [] })

-- The same address, and another port.
abbrev stranger : Addr
stranger = udp (record { ip = 10 ∷ 0 ∷ 0 ∷ 1 ∷ []; port = 4001; zone = [] })

abbrev reads : List Reading
reads =
    received (1 ∷ []) friend
    ∷ received (2 ∷ []) stranger
    ∷ received (3 ∷ []) (text (9 ∷ []))
    ∷ received (4 ∷ []) friend
    ∷ failed
    ∷ received (5 ∷ []) friend
    ∷ []

abbrev batches : List BatchReading
batches =
    batch_received ((1 ∷ [], friend) ∷ (2 ∷ [], stranger) ∷ [])
    ∷ batch_received ((4 ∷ [], friend) ∷ [])
    ∷ []

-- packetInput keeps the packets.
abbrev keep : Bytes → List Bytes → List Bytes
keep b bs = bs ++ b ∷ []

reads_lem_example :
    Fed plain_net keep [] 0
      (from_peer plain_net none (packets_of reads))
      (from_others plain_net none (packets_of reads))
      (default_read_loop plain_net keep reads (start_reader none []))
    × Fed plain_net keep [] 0
        (from_peer plain_net none (batches_of batches))
        (from_others plain_net none (batches_of batches))
        (batch_read_loop plain_net keep batches (start_reader none []))
    × Handed plain_net keep [] 0
        (from_peer plain_net none (packets_of reads))
        (from_others plain_net none (packets_of reads))
        (pushed_packets plain_net keep reads (fresh_receiver plain_net keep none []))
reads_lem_example =
    reads_lem plain_net keep none reads batches [] plain_net-IsNet tt (tt, (tt, (refl, (tt, tt))))
      (tt, (tt, (tt, tt)))

-- What the session gets, and how many packets are turned away.
reads-friend :
    (from_peer plain_net none (packets_of reads) ≡ (1 ∷ []) ∷ (4 ∷ []) ∷ [])
    × (from_others plain_net none (packets_of reads) ≡ 2)
unfolding same_udp_addr
reads-friend = (refl, refl)
