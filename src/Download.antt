-- ===== src/Download.antt =====
-- A download as a whole: the receiver of src/dtp_client.c on a network that brings, without loss, the packets
-- that src/dtp_server.c sends.
pub mod Packets
pub mod Intervals
pub mod Metrics
pub mod Complete
pub mod Multiple
use libdtp.Common.{ℕ, ◌+◌, ◌-◌, ◌*◌, ◌^◌, ◌≤◌, ◌<◌, ◌≡◌, List, [], ◌∷◌, ◌⊎◌, u32_max}
use libdtp.Session.{Interval, Packet, chunk_size}
use libdtp.Protocol.{packet_end}
use libdtp.Server.{DataPacket}
use libdtp.Server.Ranges.{first_byte, stop_byte}
use libdtp.Client.Arrivals.{Arrival}
use libdtp.Client.Timing.{IsPaced}

-- A packet of the server, as the client receives it.
abbrev pub wired : DataPacket → Packet
wired p = record { packet_length = p.packet_length; data32_0 = p.offset }

-- What arrives is what was sent.
abbrev pub Carries : List DataPacket → List Arrival → Type 0
Carries [] [] = Unit {0}
Carries [] (a ∷ l) = ⊥
Carries (p ∷ ps) [] = ⊥
Carries (p ∷ ps) (a ∷ l) = (a.packet ≡ wired p) × Carries ps l

-- All but the last of the arrivals are in pace, the first of them behind `n` others.
abbrev pub AllPaced : ℕ → ℕ → ℕ → List Arrival → Type 0
AllPaced chunk start n [] = Unit {0}
AllPaced chunk start n (a ∷ []) = Unit {0}
AllPaced chunk start n (a ∷ (a' ∷ l)) =
    (start ≤ a.at_ms)
    × IsPaced chunk (n + 1) (a.at_ms - start)
    × AllPaced chunk start (n + 1) (a' ∷ l)

-- The last packet that an interval asks for.
abbrev pub last_of : ℕ → ℕ → Interval → ℕ
last_of mtu size v = packet_end size (mtu - 8) v.end

-- The intervals ask for packets of the payload, from number `k` on and in order.
abbrev pub AsksFrom : ℕ → ℕ → ℕ → List Interval → Type 0
AsksFrom mtu size k [] = Unit {0}
AsksFrom mtu size k (v ∷ vs) =
    (k ≤ v.start)
    × (v.start ≤ last_of mtu size v)
    × (last_of mtu size v * (mtu - 8) < size)
    × ((v.end ≡ u32_max) ⊎ ((v.end + 1) * (mtu - 8) < 2 ^ 32))
    × AsksFrom mtu size (last_of mtu size v + 1) vs

-- The bytes and the packets of the intervals.
abbrev pub bytes_of : ℕ → ℕ → List Interval → ℕ
bytes_of mtu size [] = 0
bytes_of mtu size (v ∷ vs) = stop_byte mtu size v - first_byte mtu v + bytes_of mtu size vs

abbrev pub packets_of : ℕ → ℕ → List Interval → ℕ
packets_of mtu size [] = 0
packets_of mtu size (v ∷ vs) = last_of mtu size v - v.start + 1 + packets_of mtu size vs

abbrev pub final_of : ℕ → ℕ → ℕ → List Interval → ℕ
final_of mtu size k [] = k
final_of mtu size k (v ∷ vs) = final_of mtu size (last_of mtu size v) vs
