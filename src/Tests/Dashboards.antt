-- ===== src/Tests/Dashboards.antt =====
-- A client that comes, gets a message, and is written to.
use hivepulse.Prelude.{refl}
use hivepulse.Infra.Hub.{
  Hub, new_hub, register, publish, take_message, write_one, Reachable, starts, goes_on, registers,
  publishes, takes, writes,
}
use hivepulse.Infra.Hub.Sound.{IsSafe, Reachable-IsSafe}
use hivepulse.Prelude.{true, ◌++◌, [], ◌∷◌, arith}
use hivepulse.Infra.Hub.{Client}
use hivepulse.Infra.Hub.Delivery.{HasSent, pump, message_arrives}

abbrev joined : Hub
joined = register 1 new_hub

abbrev spoken : Hub
spoken = publish "m1 is down" joined

abbrev heard : Hub
heard = take_message spoken

abbrev served : Hub
served = write_one true 1 heard

reached : Reachable served
reached =
    goes_on heard served
      (goes_on spoken heard
        (goes_on joined spoken (goes_on new_hub joined starts (registers 1 new_hub refl))
          (publishes "m1 is down" joined))
        (takes spoken))
      (writes true 1 heard)

Reachable-IsSafe_example : IsSafe served
Reachable-IsSafe_example = Reachable-IsSafe served reached

abbrev waiting : Client
waiting = record {
  id = 1;
  registered = true;
  buffer = "m1 is up" ∷ [];
  closings = 0;
  written = "m1 is down" ∷ [];
  pumping = true;
  lost = [];
  since = "m1 is down" ∷ "m1 is up" ∷ [];
}

abbrev busy : Hub
busy = record { queue = "m2 is down" ∷ "m2 is up" ∷ []; clients = waiting ∷ [] }

message_arrives_example :
    HasSent 1
      (waiting.written ++ waiting.buffer ++ "m2 is down" ∷ [])
      (pump 1 (true ∷ true ∷ []) (take_message busy))
message_arrives_example =
    message_arrives 1 waiting "m2 is down" ("m2 is up" ∷ []) busy (true ∷ true ∷ []) refl refl refl
      refl (omega arith) refl refl
