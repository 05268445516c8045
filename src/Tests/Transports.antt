-- ===== src/Tests/Transports.antt =====
-- The theorems on datagrams, on the halves of a stream and on serial lines, at concrete traffic
-- (src/transport).
use rust_modbus.Prelude.{
  ℕ, ◌+◌, ◌*◌, ◌≤◌, ◌<◌, bit_and, ◌≡◌, refl, not, List, [], ◌∷◌, map, arith, ◌==◌, length, All, ok,
  err,
}
use rust_modbus.Error.{Result, malformed}
use rust_modbus.Parse.Reference.{reference, reference-IsWinnow}
use rust_modbus.Frame.Framing.{encode_request}
use rust_modbus.Frame.Tcp
use rust_modbus.Frame.Tcp.Header.{MbapHeader}
use rust_modbus.Frame.Tcp.{tcp, tcp-IsFraming}
use rust_modbus.Frame.Pdu.Request.{RequestPdu}
use rust_modbus.Frame.Pdu.Request.Write.{encode}
use rust_modbus.Transport.Reader.Fill.{Read, chunk}
use rust_modbus.Transport.Udp.{
  UdpTransportReader, UdpTransportWriter, new_udp, split, send_request, recv_request,
}
use rust_modbus.Transport.Udp.Datagrams.{
  recv_requests, alone, Fits, recv_requests-alone, send_request-received,
}
use rust_modbus.Transport.Stream.{new_transport}
use rust_modbus.Transport.Stream.Halves
use rust_modbus.Transport.Stream.Halves.{
  Use, sends_request, receives_request, uses_halves, uses_whole, taken_apart, uses_halves-split,
}
use rust_modbus.Transport.Serial.{SerialConfig, default, Rs485Config, high, inter_frame_interval}
use rust_modbus.Transport.Serial.Interval.{character, inter_frame_interval-exact}
use rust_modbus.Transport.Serial.Rs485.{KernelRs485, build, build-ok}

abbrev mask_pdu : RequestPdu
mask_pdu = RequestPdu.mask_write_register 4 242 37

abbrev header : MbapHeader
header = record { transaction_id = 5; unit_id = 17 }

abbrev mask_adu : List ℕ
mask_adu = 0 ∷ 5 ∷ 0 ∷ 0 ∷ 0 ∷ 8 ∷ 17 ∷ 22 ∷ 0 ∷ 4 ∷ 0 ∷ 242 ∷ 0 ∷ 37 ∷ []

mask_encode : encode_request (tcp reference) header mask_pdu ≡ ok mask_adu
unfolding encode_request Tcp.encode_request_into encode rust_modbus.Frame.Pdu.Encode.sized
mask_encode = refl

abbrev reader : UdpTransportReader
reader = (split (new_udp (tcp reference))).0

reader_size : length reader.incoming ≡ 260
unfolding split new_udp rust_modbus.Transport.Udp.zeros
reader_size = refl

-- A datagram that no decoder takes, a failure of the socket, and a request.
abbrev datagrams : List (Result (List ℕ))
datagrams = ok (1 ∷ 2 ∷ []) ∷ err malformed ∷ ok mask_adu ∷ []

datagrams-Fit : All (Fits (tcp reference) (length reader.incoming)) datagrams
unfolding Fits
datagrams-Fit = rw reader_size (omega arith, (tt, (omega arith, tt)))

recv_requests-alone_example :
    recv_requests (tcp reference) datagrams reader ≡ map (alone (tcp reference)) datagrams
recv_requests-alone_example = recv_requests-alone (tcp reference) datagrams reader datagrams-Fit

abbrev writer : UdpTransportWriter
writer = record { outgoing = [] }

send_request-received_example :
    (send_request (tcp reference) header mask_pdu (ok tt) writer
      ≡ (ok tt, record { outgoing = [] }, mask_adu ∷ []))
    × (length mask_adu ≤ 260)
    × ((recv_request (tcp reference) (ok mask_adu) reader).0 ≡ ok (header, mask_pdu))
send_request-received_example =
    send_request-received (tcp reference) header mask_pdu mask_adu writer reader
      (tcp-IsFraming reference reference-IsWinnow) (omega arith) (omega arith) mask_encode
      reader_size

-- A request sent while another is received, in two reads.
abbrev uses : List (Use (tcp reference))
uses = sends_request header mask_pdu (ok tt) ∷ receives_request ∷ []

abbrev reads : List Read
reads = chunk (0 ∷ 5 ∷ 0 ∷ []) ∷ chunk (0 ∷ 0 ∷ 8 ∷ 17 ∷ 22 ∷ 0 ∷ 4 ∷ 0 ∷ 242 ∷ 0 ∷ 37 ∷ []) ∷ []

uses_halves-split_example :
    uses_halves (tcp reference) uses (Halves.split new_transport) reads
    ≡ taken_apart (uses_whole (tcp reference) uses new_transport reads)
uses_halves-split_example = uses_halves-split (tcp reference) uses new_transport reads

abbrev slow_line : SerialConfig
slow_line = record default { baud_rate = 9600 }

inter_frame_interval-exact_example :
    (nanos : ℕ) × (inter_frame_interval slow_line ≡ ok nanos)
    × (nanos * (9600 * 2) ≤ length (character slow_line) * 7000000000)
    × (length (character slow_line) * 7000000000 < (nanos + 1) * (9600 * 2))
inter_frame_interval-exact_example =
    inter_frame_interval-exact slow_line (omega arith) (omega arith)

abbrev direction_config : Rs485Config
direction_config = record {
  rts_on_send = high;
  delay_before_send = 1500000;
  delay_after_send = 2000000;
}

abbrev kernel : KernelRs485
kernel = record {
  flags = 3;
  delay_rts_before_send = 1;
  delay_rts_after_send = 2;
  padding = 0 ∷ 0 ∷ 0 ∷ 0 ∷ 0 ∷ [];
}

kernel_built : build direction_config ≡ ok kernel
unfolding build
kernel_built = refl

build-ok_example :
    (1 * 1000000 ≤ 1500000)
    × (1500000 < (1 + 1) * 1000000)
    × (2 * 1000000 ≤ 2000000)
    × (2000000 < (2 + 1) * 1000000)
    × (1 < 4294967296)
    × (2 < 4294967296)
    × (bit_and 3 1 ≡ 1)
    × ((bit_and 3 2 == 0) ≡ not (bit_and 3 4 == 0))
build-ok_example = build-ok direction_config kernel kernel_built
