-- ===== src/Examples/Loops.antt =====
-- The loops that read and connect, at concrete inputs.
use nightshift_opi.Prelude.{
  ◌≡◌, ◌⊎◌, refl, true, false, [], ◌∷◌, List, drop, arith, ok, err, type_error, timeout_error,
}
use nightshift_opi.Domain.Commands
use nightshift_opi.Uart.Gateway.Connection.{connection_round}
use nightshift_opi.Uart.Gateway.ReadLoop.{Read, chunk, failed, read_loop, read_failure_unnoticed}
use nightshift_opi.Uart.Frame.{request}
use nightshift_opi.Uart.Gateway.{receive}
use nightshift_opi.Uart.Gateway.ReadLoop.Frames.{dispatch_all, read_loop_frames}
use nightshift_opi.Examples.Desk
use nightshift_opi.Uart.Gateway.Send.{send}
use nightshift_opi.Uart.Gateway.Send.Unanswered.{send_unanswered}
use nightshift_opi.Mqtt.Client.RunLoop
use nightshift_opi.Mqtt.Client.RunLoop.Waits
use nightshift_opi.Mqtt.PressureAdapter.{new_adapter}
use nightshift_opi.Mqtt.PressureAdapter.RunLoop as Sensing
use nightshift_opi.Mqtt.PressureAdapter.RunLoop.Waits as SensingWaits
use nightshift_opi.Examples.Requests.{line, counter, mute, request_wire, request_wire_eq}
use nightshift_opi.Examples.Desk.{quiet}
use nightshift_opi.Examples.Orders.{no_hash, decode, loads, order_bytes, at_1200, client, takes_all}
use nightshift_opi.Examples.Sensor

abbrev reads : List Read
reads = chunk (1 ∷ 0 ∷ []) ∷ failed ∷ []

read_failure_unnoticed_example :
    let (r, g') = read_loop mute (λ bytes g. g) reads [] line in
    (r ≡ ok tt)
    ⊎ ((r ≡ err type_error)
        × (g'.connected ≡ true)
        × (connection_round mute true false 1000 30000 1000 g' ≡ (ok 1000, g')))
read_failure_unnoticed_example =
    read_failure_unnoticed mute (λ bytes g. g) (λ g. refl) reads [] line true false 1000 30000 1000

send_unanswered_example :
    let (r, g') = send mute Commands.heartbeat [] 1 line in
    (r ≡ err timeout_error)
    × (g'.written ≡ request_wire ∷ request_wire ∷ request_wire ∷ request_wire ∷ [])
send_unanswered_example =
    send_unanswered mute (λ g. refl) (λ g. refl) (λ g. refl) Commands.heartbeat 1 [] request_wire
      line refl refl request_wire_eq

-- A connection that is refused.
abbrev refused : RunLoop.Round
refused = record {
  stopped = false;
  connects = false;
  subscribes = true;
  disconnects = true;
  accepts = takes_all;
  arrivals = [];
  stopped_in_wait = false;
}

-- One that carries a command before it is lost.
abbrev lost : RunLoop.Round
lost = record refused {
  connects = true;
  arrivals =
      record {
        meanwhile = λ c. c;
        stopped = false;
        topic = "home/opi/one/command";
        payload = order_bytes;
        times = at_1200;
        told = [];
      }
      ∷ [];
}

waits_run_loop_example :
    (RunLoop.run_loop quiet no_hash decode loads "0b1c2d3e" 9 1
      (refused ∷ lost ∷ refused ∷ [])
      client).0
    ≡ Waits.waits_from 0 3
waits_run_loop_example =
    Waits.waits_run_loop quiet no_hash decode loads "0b1c2d3e" 9 (refused ∷ lost ∷ refused ∷ [])
      client ((refl, refl, tt), ((refl, refl, (refl, tt)), ((refl, refl, tt), tt)))

abbrev offline : Sensing.Round
offline = record {
  stopped = false;
  connects = false;
  subscribes = true;
  disconnects = true;
  arrivals = [];
  stopped_in_wait = false;
}

abbrev online : Sensing.Round
online = record offline {
  connects = true;
  arrivals =
      record {
        stopped = false;
        topic = "sensor/pressure-01/state";
        raw = [];
        now_ms = 1000;
        callback_raises = false;
      }
      ∷ [];
}

waits_since_subscribed_example :
    (Sensing.run_loop Sensor.loads "sensor" 1
      (offline ∷ offline ∷ online ∷ offline ∷ [])
      (new_adapter "pressure-01")).0
    ≡ SensingWaits.waits_from 0 (offline ∷ offline ∷ online ∷ offline ∷ [])
waits_since_subscribed_example =
    SensingWaits.waits_since_subscribed Sensor.loads "sensor"
      (offline ∷ offline ∷ online ∷ offline ∷ []) (new_adapter "pressure-01")
      ((refl, refl, tt), ((refl, refl, tt), ((refl, refl, (refl, tt)), ((refl, refl, tt), tt))))

-- The wire image of a request, in two chunks.
read_loop_frames_example :
    read_loop
      (λ g. g)
      (receive Desk.no_hash counter 5)
      (chunk (6 ∷ 84 ∷ 53 ∷ []) ∷ chunk (drop 3 request_wire) ∷ [])
      []
      line
    ≡ (ok tt, dispatch_all Desk.no_hash counter 5 (request 1 Commands.heartbeat [] 1 ∷ []) line)
unfolding request
read_loop_frames_example =
    read_loop_frames Desk.no_hash counter 5 (request 1 Commands.heartbeat [] 1 ∷ [])
      (request_wire ∷ []) ((6 ∷ 84 ∷ 53 ∷ []) ∷ drop 3 request_wire ∷ []) line
      ((refl, tt, request_wire_eq), tt) (omega arith, (omega arith, tt)) refl refl
