-- ===== src/Position.antt =====
-- src/localizer/PosLocalizer.cpp: the node that publishes where the camera sees the robot. Its mutex makes
-- `set_pos` and `get_pos` one step each.
pub mod Published
pub mod AprilTags
pub mod Families
pub mod Lifetime
pub mod Looking
use sentinet_cpp.Common.{ℕ, Message}
use sentinet_cpp.Common.Maps.{String}
use sentinet_cpp.Messages.Rmt.Sensor.{CameraMsg, create_camera_msg, camera_msg_to_wire}
use sentinet_cpp.Control.ZmqClient.{SocketData, Outcome, bind_server, publish_periodic}

-- `pos` of the class.
pub record Pos : Type 0 where
  pub x : ℕ
  pub y : ℕ
  pub theta : ℕ
  pub msg : CameraMsg

-- The constructor's pose, from what the memory happens to hold.
unfoldable pub new_pos : ℕ → ℕ → ℕ → Pos
new_pos x y theta = record { x = x; y = y; theta = theta; msg = create_camera_msg }

unfoldable pub set_pos : ℕ → ℕ → ℕ → Pos → Pos
set_pos x y theta p = record p { x = x; y = y; theta = theta }

-- The pose put into the outgoing message, which is returned as a string.
unfoldable pub get_pos : Pos → Pos × Message
get_pos p =
    let sent = camera_msg_to_wire (record c { x = p.x; y = p.y; theta = p.theta }) in
    (
      record p { msg = sent },
      record { text = sent.msg.buff.bytes; size = sent.msg.buff.byte_length },
    )
  where
    c : CameraMsg
    c = p.msg

-- The constructor's sockets: the server of a `RMTControlClient`, and a publisher of one message per
-- second, whose callback is `get_pos`.
unfoldable pub pos_sockets :
    {F : Type 0} → String → String → String → F → F → SocketData F → SocketData F × Outcome
pos_sockets address localizer topic ping_server get_data d =
    publish_periodic localizer topic get_data 1000000 (bind_server address ping_server d).0
