-- ===== src/Protocols/Wireguard.antt =====
-- analyzer/udp/wireguard.go. A `*ring.Ring` is the list of its values, from the element that the
-- pointer is at and on by `Next`; a nil value is `none`. The stream's lock is only taken by the
-- goroutine of the stream.
pub mod Memory
pub mod Packets
use open_gfw_for_frp_integra.Prelude.{
  ltb, leb, ◌==◌, if◌then◌else◌, length, get_or, take, drop, replicate, ℕ, ◌+◌, ◌*◌, ◌%◌, ◌^◌, max,
  String, Bool, true, false, not, ◌&&◌, ◌||◌, Option, none, some, List, [], ◌∷◌, ◌++◌,
}
use open_gfw_for_frp_integra.Analyzer.{
  num, flag, props, PropMap, null, entries, Fields, end, field, lookup_prop, PropUpdateType, merge,
  replace, PropUpdate,
}
use open_gfw_for_frp_integra.Utils.ByteBuffer.{uint32_of}

pub record WireGuardIndex : Type 0 where
  pub sender_index : ℕ
  pub reverse : Bool

abbrev pub Ring : Type 0
Ring = List (Option WireGuardIndex)

abbrev pub invalid_count_threshold : ℕ
invalid_count_threshold = 4

abbrev pub remembered_index_count : ℕ
remembered_index_count = 6

-- ring.New
unfoldable pub new_ring : ℕ → Ring
new_ring n = replicate n none

-- All values but the last, and the last.
unfoldable pub init : Ring → Ring
init [] = []
init (v ∷ []) = []
init (v ∷ w ∷ vs) = v ∷ init (w ∷ vs)

unfoldable pub last : Ring → Ring
last [] = []
last (v ∷ []) = v ∷ []
last (v ∷ w ∷ vs) = last (w ∷ vs)

-- `Prev`: the pointer moves back to the value that stands last.
unfoldable pub prev : Ring → Ring
unfolding init last
prev r = last r ++ init r

pub record WireGuardStream : Type 0 where
  pub invalid_count : ℕ
  pub remembered_indexes : Ring

unfoldable pub new_wire_guard_stream : WireGuardStream
unfolding new_ring
new_wire_guard_stream = record {
  invalid_count = 0;
  remembered_indexes = new_ring remembered_index_count;
}

-- `s.rememberedIndexes.Value = …`
abbrev pub set_value : Ring → WireGuardIndex → Ring
set_value [] v = []
set_value (w ∷ r) v = some v ∷ r

unfoldable pub put_sender_index : Bool → ℕ → WireGuardStream → WireGuardStream
unfolding prev
put_sender_index rev sender s = record s {
  remembered_indexes =
      prev (set_value s.remembered_indexes (record { sender_index = sender; reverse = rev }));
}

abbrev pub same : Bool → Bool → Bool
same true b = b
same false b = not b

-- `wgidx.Reverse == !rev && wgidx.SenderIndex == receiverIndex`
abbrev pub answers : Bool → ℕ → WireGuardIndex → Bool
answers rev receiver i = same i.reverse (not rev) && i.sender_index == receiver

-- The loop of `matchReceiverIndex`, over the values from `Next` on; it stops at a nil.
unfoldable pub find_index : Bool → ℕ → Ring → Bool
find_index rev receiver [] = false
find_index rev receiver (none ∷ r) = false
find_index rev receiver (some i ∷ r) = answers rev receiver i || find_index rev receiver r

-- The loop begins at `Next` and ends when it is back at the pointer.
unfoldable pub match_receiver_index : Bool → ℕ → WireGuardStream → Bool
unfolding find_index
match_receiver_index rev receiver s = find_index rev receiver (drop 1 s.remembered_indexes)

-- binary.LittleEndian of four bytes from a position, and of eight.
unfoldable pub uint32_at : ℕ → List ℕ → ℕ
unfolding uint32_of
uint32_at i bytes = uint32_of true (take 4 (drop i bytes))

unfoldable pub uint64_at : ℕ → List ℕ → ℕ
unfolding uint32_at
uint64_at i bytes = uint32_at i bytes + uint32_at (i + 4) bytes * 2 ^ 32

-- What a parse method leaves and returns; a nil map is `none`.
abbrev pub Parsed : Type 0
Parsed = WireGuardStream × Option Fields

unfoldable pub parse_handshake_initiation : Bool → List ℕ → WireGuardStream → Parsed
unfolding put_sender_index uint32_at
parse_handshake_initiation rev bytes s =
    if length bytes == 148
    then (
      put_sender_index rev (uint32_at 4 bytes) s,
      some (field "sender_index" (num (uint32_at 4 bytes)) end),
    )
    else (s, none)

unfoldable pub parse_handshake_response : Bool → List ℕ → WireGuardStream → Parsed
unfolding put_sender_index match_receiver_index uint32_at
parse_handshake_response rev bytes s =
    let t = put_sender_index rev (uint32_at 4 bytes) s in
    let receiver = uint32_at 8 bytes in
    if length bytes == 92
    then (
      t,
      some (
          field "sender_index" (num (uint32_at 4 bytes)) (
            field "receiver_index" (num receiver)
              (field "receiver_index_matched" (flag (match_receiver_index rev receiver t)) end))),
    )
    else (s, none)

unfoldable pub parse_packet_data : Bool → List ℕ → WireGuardStream → Parsed
unfolding match_receiver_index uint32_at uint64_at
parse_packet_data rev bytes s =
    let receiver = uint32_at 4 bytes in
    if ltb (length bytes) 32 || not (length bytes % 16 == 0) then (s, none) else (
      s,
      some (
          field "receiver_index" (num receiver) (
            field "receiver_index_matched" (flag (match_receiver_index rev receiver s))
              (field "counter" (num (uint64_at 8 bytes)) end))),
    )

unfoldable pub parse_packet_cookie_reply : Bool → List ℕ → WireGuardStream → Parsed
unfolding match_receiver_index uint32_at
parse_packet_cookie_reply rev bytes s =
    let receiver = uint32_at 4 bytes in
    if length bytes == 64
    then (
      s,
      some (
          field "receiver_index" (num receiver)
            (field "receiver_index_matched" (flag (match_receiver_index rev receiver s)) end)),
    )
    else (s, none)

-- `m[messageType]`, `m[propKey]`, unless the value is nil.
unfoldable pub wrap_message : ℕ → String → Parsed → WireGuardStream × PropMap
wrap_message type key (s, none) = (s, null)
wrap_message type key (s, some m) =
    (s, entries (field "message_type" (num type) (field key (props (entries m)) end)))

-- slices.Max(data[1:4])
abbrev pub max_reserved : List ℕ → ℕ
max_reserved bytes = max (max (get_or bytes 1 0) (get_or bytes 2 0)) (get_or bytes 3 0)

unfoldable pub parse_by_type : ℕ → Bool → List ℕ → WireGuardStream → WireGuardStream × PropMap
unfolding wrap_message parse_handshake_initiation parse_handshake_response parse_packet_data
    parse_packet_cookie_reply
parse_by_type type rev bytes s =
    if type == 1
    then wrap_message type "handshake_initiation" (parse_handshake_initiation rev bytes s)
    else if type == 2
    then wrap_message type "handshake_response" (parse_handshake_response rev bytes s)
    else if type == 4
    then wrap_message type "packet_data" (parse_packet_data rev bytes s)
    else if type == 3
    then wrap_message type "packet_cookie_reply" (parse_packet_cookie_reply rev bytes s)
    else (s, null)

unfoldable pub parse_wire_guard_packet : Bool → List ℕ → WireGuardStream → WireGuardStream × PropMap
parse_wire_guard_packet rev bytes s =
    if ltb (length bytes) 4
    then (s, null)
    else if max_reserved bytes == 0
    then parse_by_type (get_or bytes 0 0) rev bytes s
    else (s, null)

-- `m["message_type"].(byte)`
abbrev pub message_type_of : PropMap → ℕ
message_type_of m = elim (lookup_prop "message_type" m) [ some (num n) ↦ n | _ ↦ 0 ]

pub record Fed : Type 0 where
  pub stream : WireGuardStream
  pub update : Option PropUpdate
  pub is_done : Bool

-- The rest of `Feed`, once the packet is parsed.
unfoldable pub conclude : WireGuardStream → PropMap → Fed
conclude s null =
    let n = s.invalid_count + 1 in
    record {
      stream = record s { invalid_count = n };
      update = none;
      is_done = leb invalid_count_threshold n;
    }
conclude s (entries m) =
    let type : PropUpdateType = if message_type_of (entries m) == 1 then replace else merge in
    record {
      stream = record s { invalid_count = 0 };
      update = some (record { type = type; m = entries m });
      is_done = false;
    }

unfoldable pub feed : Bool → List ℕ → WireGuardStream → Fed
feed rev bytes s = let (t, m) = parse_wire_guard_packet rev bytes s in conclude t m
