-- ===== src/Examples/RobotMessages.antt =====
-- Pings and the messages of the robot at concrete inputs.
use sentinet_cpp.Common.{◌≡◌, refl, arith, zeros, load32}
use sentinet_cpp.Messages.Data.{get_protocol_version, op_pos}
use sentinet_cpp.Messages.Ping.{PingBuffer, create_buffer_ping, to_wire_ping, serialize_from_ping}
use sentinet_cpp.Messages.Ping.Wire.{InRange, truncated, serialize_from_ping-truncated}
use sentinet_cpp.Messages.Rmt.Sensor.{camera_msg_to_wire}
use sentinet_cpp.Messages.Rmt.RoundTrips.{sent_camera, camera_msg_to_wire_header}

-- A driving request whose excess has bits in its upper half too.
abbrev driving : PingBuffer
driving = record {
  prot = 1;
  op = 2;
  type = 8;
  code = 16;
  check = 0;
  excess = 0x1_0000_0002;
  bytes = zeros;
}

driving-InRange : InRange driving
driving-InRange = omega arith

serialize_from_ping-truncated_example :
    let r = serialize_from_ping create_buffer_ping (truncated (to_wire_ping driving).bytes zeros) in
    (r.prot ≡ 1)
    × (r.op ≡ driving.op)
    × (r.type ≡ 8)
    × (r.code ≡ 16)
    × (r.check ≡ 0)
    × (r.excess ≡ 2)
unfolding load32
serialize_from_ping-truncated_example =
    serialize_from_ping-truncated driving create_buffer_ping zeros driving-InRange refl

camera_msg_to_wire_header_example :
    let m = (camera_msg_to_wire (sent_camera 1 2 3 0)).msg.buff.bytes in
    (get_protocol_version m ≡ 0) × (m op_pos ≡ 0)
camera_msg_to_wire_header_example = camera_msg_to_wire_header 1 2 3 0
