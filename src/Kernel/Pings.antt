-- ===== src/Kernel/Pings.antt =====
-- A request on its way to the kernel.
use sentinet_cpp.Common.{◌^◌, ◌<◌, ◌≡◌, arith, Memory, c_str, load32, ap, ◌∙◌}
use sentinet_cpp.Messages.Ping.{ping_header_size, state_request}
use sentinet_cpp.Control.RmtClient.{
  Ping, RmtClient, find_callback, new_client, answer, ping_server_callback, ping_request,
  ping_response,
}
use sentinet_cpp.Control.RmtClient.Answers.{
  IsPing, IsReady, delivered, new_client-IsReady, register_ping_func-IsReady,
  ping_server_callback-ping_request,
}
use sentinet_cpp.Kernel.Driving.{robot_ping_handler-receiving}
use sentinet_cpp.Kernel.{Kernel, kernel_client, robot_ping_handler}

kernel_client-IsReady : IsReady kernel_client
unfolding kernel_client
kernel_client-IsReady =
    register_ping_func-IsReady state_request robot_ping_handler (new_client Kernel)
      (new_client-IsReady Kernel)

kernel_client-answer :
    (p : Ping) (k : Kernel)
    → p.type ≡ state_request
    → answer kernel_client p k ≡ robot_ping_handler p k
unfolding kernel_client answer find_callback
kernel_client-answer p k e = rw (e, answer)

acknowledges : (a : Ping) → a ≡ record { type = 1; code = 0; excess = 0 } → IsPing a
acknowledges a e = ground arith

-- A state request, with an excess of at most 32 bits and zeros behind the string that carries it,
-- that a client sends to the kernel's server changes the kernel as its handler does for that very
-- request; the client reads an acknowledgement with code 0.
pub kernel-ping_request :
    (c : RmtClient Kernel) (k : Kernel) (p : Ping) (t u : Memory)
    → IsReady c
    → IsPing p
    → p.type ≡ state_request
    → p.excess < 2 ^ 32
    → load32 t ping_header_size ≡ 0
    → let r = ping_server_callback kernel_client k (c_str (ping_request c p).1 t) in
      (r.0.1 ≡ (robot_ping_handler p k).0)
      × ((ping_response c (c_str r.1 u)).1.type ≡ 1)
      × ((ping_response c (c_str r.1 u)).1.code ≡ 0)
kernel-ping_request c k p t u ready sent e small zero_tail =
    let same : delivered p t ≡ p = ground arith in
    let handled : answer kernel_client (delivered p t) k ≡ robot_ping_handler p k =
      ap (λ (q : Ping). answer kernel_client q k) same ∙ kernel_client-answer p k e in
    let reply = ap (λ (a : Kernel × Ping). a.1) handled ∙ (robot_ping_handler-receiving p k).1 in
    let r =
      ping_server_callback-ping_request c kernel_client k p t u ready kernel_client-IsReady sent
        (acknowledges (answer kernel_client (delivered p t) k).1 reply) in
    (
      r.0 ∙ ap (λ (a : Kernel × Ping). a.0) handled,
      ap (λ (q : Ping). q.type) r.1 ∙ ground arith,
      ap (λ (q : Ping). q.code) r.1 ∙ ground arith,
    )
